-- ===== src/Billing.antt =====
-- services/billing.ts
pub mod Usdc
pub mod Soroban
pub mod Events
pub mod Deduct
pub mod Bulk
