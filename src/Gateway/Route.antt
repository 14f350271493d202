-- ===== src/Gateway/Route.antt =====
-- routes/gatewayRoutes.ts: the proxy route `/:apiId`, from the header with the key to the reply.
-- The file uses `getTokenRevocationService`, `env` and `CircuitBreakerOpenError` without importing
-- them: `Bindings` says which of them the host binds, to those of services/tokenRevocation.ts,
-- config/env.ts and lib/circuitBreaker.ts, and the use of one that is not bound throws.
use callora_backend.Common.{
  ℕ, String, List, [], ◌∷◌, Bool, true, false, Option, none, some, if◌then◌else◌, ite, str_dec, max,
  Dict, lookup, insert,
}
use callora_backend.Usage.{UsageEvent, UsageStore, record_event}
use callora_backend.RateLimiter.{MemoryStore, RateLimitResult, allowed, denied, Limiter}
use callora_backend.RateLimiter
use callora_backend.CircuitBreaker.{Breaker, would_block}
use callora_backend.CircuitBreaker
use callora_backend.Gateway.Keys.{
  ApiKey, Resolved, found, not_found, hash_mismatch, resolve_api_key,
}
use callora_backend.Gateway.Revocation.{RevocationEntry, is_revoked}
use callora_backend.Gateway.UserLimit.{Limit, Bucket, Answer, passed, limited, ceil_div}
use callora_backend.Gateway.UserLimit

-- What a deduction of credits comes to: done, refused, or an error thrown.
pub data Charge : Type 0 where
  charged refused_charge raised : Charge

-- `BillingService.deductCredit` over the states of the ledger behind it.
pub record BillingService : Type 1 where
  pub Ledger : Type 0
  pub deduct_credit : String → ℕ → Ledger → Charge × Ledger

-- What `fetch` comes to, with the reading of the body.
pub data Upstream : Type 0 where
  responded : (status : ℕ) → Upstream
  timed_out unreachable : Upstream

-- What is answered, or handed to the error handler: `unready` and `failed` are other errors, thrown
-- before the charge and from it on.
pub data GatewayReply : Type 0 where
  unauthorized forbidden service_unavailable payment_required unready : GatewayReply
  too_many_requests : (retry_after_sec : ℕ) → GatewayReply
  failed gateway_timeout bad_gateway : GatewayReply
  delivered : (status : ℕ) → GatewayReply

-- A request, with the ids and the time drawn for it and what the upstream would do.
pub record Request : Type 0 where
  pub api_key : Option String
  pub api_id : String
  pub request_id : String
  pub event_id : String
  pub now : ℕ
  pub upstream : Upstream

-- The names that are used without an import, and that are bound all the same.
pub record Bindings : Type 0 where
  pub revocation_service : Bool
  pub env : Bool
  pub open_error : Bool

pub record Settings : Type 0 where
  pub bindings : Bindings
  pub user_limit : Limit
  pub limiter : Limiter
  pub breaker : CircuitBreaker.Config

abbrev pub credit_cost_per_call : ℕ
credit_cost_per_call = 1

abbrev pub prefixed : String → String → String
prefixed String.[] t = t
prefixed (String.◌∷◌ c s) t = String.◌∷◌ c (prefixed s t)

-- `getOrCreate` of the registry of breakers.
abbrev pub breaker_or_new : ℕ → Option Breaker → Breaker
breaker_or_new now none = record { stored = none; trial = false; loaded_at = now }
breaker_or_new now (some b) = b

abbrev pub get_or_create : String → ℕ → Dict Breaker → Breaker × Dict Breaker
get_or_create slug now breakers =
    let b = breaker_or_new now (lookup slug breakers) in (b, insert slug b breakers)

-- The event that a delivered request records.
abbrev pub event_of : Request → String → ApiKey → ℕ → UsageEvent
event_of q header owner status = record {
  id = q.event_id;
  request_id = q.request_id;
  api_key = header;
  api_key_id = owner.key;
  api_id = owner.api_id;
  endpoint_id = "legacy";
  user_id = owner.developer_id;
  amount_usdc = credit_cost_per_call;
  status_code = status;
  timestamp = q.now;
  settlement_id = none;
}

module _ (sha256_hex : String → String) (billing : BillingService) (settings : Settings) where
  open billing use {Ledger, deduct_credit}

  pub record World : Type 0 where
    pub keys : Dict ApiKey
    pub revoked : Dict RevocationEntry
    pub users : Dict Bucket
    pub buckets : MemoryStore
    pub breakers : Dict Breaker
    pub ledger : Ledger
    pub usage : UsageStore

  abbrev pub forward : Request → String → ApiKey → Upstream → World → GatewayReply × World
  forward q header owner (responded status) w = (
    delivered status,
    record w { usage = (record_event (event_of q header owner status) w.usage).1 },
  )
  forward q header owner timed_out w =
      (if settings.bindings.open_error then gateway_timeout else failed, w)
  forward q header owner unreachable w =
      (if settings.bindings.open_error then bad_gateway else failed, w)

  abbrev pub after_charge :
      Request → String → ApiKey → Charge × Ledger → World → GatewayReply × World
  after_charge q header owner (charged, l) w =
      forward q header owner q.upstream (record w { ledger = l })
  after_charge q header owner (refused_charge, l) w = (payment_required, record w { ledger = l })
  after_charge q header owner (raised, l) w = (failed, record w { ledger = l })

  abbrev pub after_breaker : Request → String → ApiKey → Bool → World → GatewayReply × World
  after_breaker q header owner true w = (service_unavailable, w)
  after_breaker q header owner false w =
      after_charge q header owner (deduct_credit owner.developer_id credit_cost_per_call w.ledger) w

  abbrev pub ask_breaker : Request → String → ApiKey → World → GatewayReply × World
  ask_breaker q header owner w =
      let (b, breakers) = get_or_create q.api_id q.now w.breakers in
      if settings.bindings.env
      then after_breaker q header owner (would_block settings.breaker q.now b)
          (record w { breakers = breakers })
      else (unready, w)

  abbrev pub after_key_limit :
      Request → String → ApiKey → RateLimitResult × MemoryStore → World → GatewayReply × World
  after_key_limit q header owner (denied ms, buckets) w =
      (too_many_requests (ceil_div ms 1000), record w { buckets = buckets })
  after_key_limit q header owner (allowed, buckets) w =
      ask_breaker q header owner (record w { buckets = buckets })

  abbrev pub ask_key_limit : Request → String → ApiKey → World → GatewayReply × World
  ask_key_limit q header owner w =
      after_key_limit q header owner
        (RateLimiter.check settings.limiter header none q.now w.buckets) w

  abbrev pub after_user_limit :
      Request → String → ApiKey → Answer × Dict Bucket → World → GatewayReply × World
  after_user_limit q header owner (limited ms, users) w =
      (too_many_requests (max 1 (ceil_div ms 1000)), record w { users = users })
  after_user_limit q header owner (passed, users) w =
      ask_key_limit q header owner (record w { users = users })

  -- The limit per user, which a record without a user passes.
  abbrev pub ask_user_limit : Request → String → ApiKey → World → GatewayReply × World
  ask_user_limit q header owner w =
      after_user_limit q header owner
        (ite (str_dec owner.developer_id "") (passed, w.users)
          (UserLimit.check settings.user_limit (prefixed "user:" owner.developer_id) q.now w.users))
        w

  abbrev pub after_revoked :
      Request → String → ApiKey → Bool × Dict RevocationEntry → World → GatewayReply × World
  after_revoked q header owner (true, revoked) w = (forbidden, record w { revoked = revoked })
  after_revoked q header owner (false, revoked) w =
      let w' : World = record w { revoked = revoked } in
      if owner.revoked then (forbidden, w') else ask_user_limit q header owner w'

  abbrev pub after_resolved : Request → String → Resolved → World → GatewayReply × World
  after_resolved q header (found owner) w =
      let next = after_revoked q header owner (is_revoked (sha256_hex header) q.now w.revoked) w in
      ite (str_dec owner.api_id q.api_id)
        (if settings.bindings.revocation_service then next else (unready, w)) (unauthorized, w)
  after_resolved q header not_found w = (unauthorized, w)
  after_resolved q header hash_mismatch w = (unauthorized, w)

  abbrev pub with_header : Request → Option String → World → GatewayReply × World
  with_header q none w = (unauthorized, w)
  with_header q (some header) w =
      ite (str_dec header "") (unauthorized, w)
        (after_resolved q header (resolve_api_key sha256_hex header w.keys) w)

  -- The handler of the route.
  unfoldable pub proxy : Request → World → GatewayReply × World
  unfolding record_event would_block RateLimiter.check UserLimit.check is_revoked resolve_api_key
  proxy q w = with_header q q.api_key w

  -- Requests one after the other.
  unfoldable pub proxy_all : List Request → World → World
  unfolding proxy
  proxy_all [] w = w
  proxy_all (q ∷ qs) w = proxy_all qs (proxy q w).1
