-- ===== src/Lib.antt =====
-- The Callora backend meters calls of APIs, charges them on a Soroban ledger and pays the developers.
-- This library models the parts that decide about money and admission. Paths are from the
-- repository's root.
--
-- - Billing: src/services/billing.ts. Billing/Usdc is parseUsdcToContractUnits and
--   formatContractUnitsToUsdc, on texts as lists of character codes. Billing/Soroban is the interface
--   SorobanClient over the states of a ledger, isTransientSorobanError and executeDeductWithRetry.
--   Billing/Events is the table usage_events with runPhase1 and runPhase3, Billing/Deduct is
--   deductInternal and getByRequestId, Billing/Bulk is deductBulk. Surroundings holds what other
--   sessions commit around and during a call, which clears no developer's events, and which statements
--   throw. A call of deduct that throws is written as the refusal with call_throws. A bulk call meets no
--   throw of its first query, of connecting and of its recovery query, no COMMIT whose outcome is in
--   doubt, and no other session during its charge.
-- - CircuitBreaker: src/lib/circuitBreaker.ts, one key of one breaker. CircuitBreaker/Concurrent has
--   the calls that overlap, as steps on a system with the calls in flight.
-- - Semaphore: src/utils/keySemaphore.ts. A promise is a ticket, a timer is a flag.
-- - RateLimiter: src/services/rateLimiter.ts, the bucket, the stores in memory and in PostgreSQL, and
--   the policy of a tier.
-- - Disputes: src/services/disputeService.ts, disputes and their audit trail.
-- - Usage, Settlement, Revenue: src/services/usageStore.ts, src/services/settlementStore.ts and
--   src/services/revenueSettlementService.ts. A batch groups the unsettled events of the usage store by
--   developer, pays each group, and marks its events; a reconciliation pass asks Horizon about the
--   pending settlements.
-- - Quota: src/services/quotaService.ts and src/services/quotasCacheWarm.ts, the requests for a larger
--   quota, singly and in bulk, behind a cache of lists.
-- - Webhooks: src/webhooks/webhook.store.ts, without the dead letters.
-- - Credits: src/services/billingService.ts, the credits in memory that the gateway can charge.
-- - Gateway: src/routes/gatewayRoutes.ts. Gateway/Route is the proxy route, which asks Gateway/Keys
--   (resolveApiKey), Gateway/Revocation (src/services/tokenRevocation.ts), Gateway/UserLimit
--   (src/middleware/gatewayRateLimit.ts), RateLimiter, CircuitBreaker, the interface BillingService and
--   Usage, in this order. Gateway/Paid puts Credits behind that interface.
--   Bindings says which of the three names that the route uses without importing them are bound.
-- - Tokens: src/repositories/refreshTokenRepository.ts, src/services/refreshTokenService.ts and
--   src/controllers/authController.ts. Tokens/Refresh splits a refresh into what it reads (judge) and
--   what it then writes (conclude), for refreshes that overlap.
-- - Idempotency: src/middleware/idempotency.ts on the table idempotency_store.
-- - Delivery: src/webhooks/webhook.dispatcher.ts and src/services/webhookRetry.ts, on the log of
--   failures of Webhooks.
-- - Registry: src/data/apiRegistry.ts, registration, resolution, prices and the pages of the
--   listing; a page limit is positive, as the route makes it. Registry/Cursors is
--   src/lib/cursorPagination.ts over the dates, JSON and base64 of the platform.
-- - Notifier: src/services/quotaNotifier.ts, one pass and the ticks of the job; the percentage is
--   compared without division and rounding.
-- - Common: lists, texts, tests and maps in insertion order. Tests: runs on concrete data.
--
-- Numbers are natural numbers: USDC amounts of the stores are in a smallest unit, where the source adds
-- floating-point numbers, and bigint amounts are exact; times are milliseconds, and a random id or the
-- current time is an argument. There is no fuel but in the printing of a decimal, where the number
-- itself plus one is enough, since each digit divides it by ten, and in the reading of all pages of the
-- registry, where the number of its APIs is enough, since a page is never empty before the end.
-- Loops over lists are recursion on the list. A tier is looked up among the own keys of the policies
-- only.
--
-- Not modelled: the ledger, Horizon, PostgreSQL, the plan store, hashes, signatures and the upstream
-- (parameters); logging, metrics and live feeds; the PostgreSQL versions of the usage, settlement and
-- breaker stores; sequence numbers; the other HTTP routes and middleware,
-- workers and reports.
pub mod Common
pub mod Billing
pub mod CircuitBreaker
pub mod Semaphore
pub mod RateLimiter
pub mod Disputes
pub mod Usage
pub mod Settlement
pub mod Revenue
pub mod Quota
pub mod Webhooks
pub mod Credits
pub mod Gateway
pub mod Tokens
pub mod Idempotency
pub mod Delivery
pub mod Registry
pub mod Notifier
pub mod Tests
