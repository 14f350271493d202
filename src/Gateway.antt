-- ===== src/Gateway.antt =====
-- routes/gatewayRoutes.ts with what its proxy route asks: the keys, the list of revoked tokens, the
-- limit per user, the limit per key, the breaker and the credits.
pub mod Keys
pub mod Revocation
pub mod UserLimit
pub mod Route
pub mod Metered
pub mod Paid
pub mod Breakers
