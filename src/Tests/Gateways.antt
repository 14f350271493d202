-- ===== src/Tests/Gateways.antt =====
-- Requests at the gateway, with two keys and credits kept in memory.
use callora_backend.Common.{
  ◌+◌, ◌*◌, ◌-◌, ◌≤◌, ◌≡◌, refl, String, [], ◌∷◌, true, false, none, some, arith, Dict, lookup,
  insert, str_dec,
}
use callora_backend.RateLimiter
use callora_backend.Credits.{Credits, ChargeRequest, check_balance, deduct_credit, charge_usage}
use callora_backend.Credits.Balances.{charge_usage_twice, repeated}
use callora_backend.Gateway.Keys.{ApiKey, resolve_api_key, record_of, resolve_api_key-lookup}
use callora_backend.Gateway.UserLimit.{Limit, Bucket, checks, checks_le}
use callora_backend.Gateway.Route.{
  Request, Settings, World, delivered, failed, gateway_timeout, responded, timed_out, proxy,
  proxy_all,
}
use callora_backend.Gateway.Breakers.{NotBlocked, proxy_all-NotBlocked}
use callora_backend.Gateway.Paid.{credits_service, stake, proxy_all-stake, events_of}

abbrev purse : Credits
purse = record {
  balances = ("ann", 2) ∷ ("bob", 0) ∷ [];
  processed_usage_charges = [];
  next_usage_charge_failure = none;
}

abbrev a_charge : ChargeRequest
a_charge = record {
  request_id = "c1";
  developer_id = "ann";
  api_id = "a1";
  endpoint_id = "e1";
  api_key_id = "k1";
  amount_usdc = 2;
}

abbrev other_charge : ChargeRequest
other_charge = record a_charge { developer_id = "bob"; amount_usdc = 7 }

charge_run : (charge_usage a_charge purse).0.charge.success ≡ true
unfolding charge_usage lookup str_dec
charge_run = refl

charge_usage_twice_example :
    let (r, c') = charge_usage a_charge purse in charge_usage other_charge c' ≡ (repeated r, c')
charge_usage_twice_example = charge_usage_twice a_charge other_charge purse refl charge_run

abbrev key_text : String
key_text = "ck_live_00000001_secret"

abbrev ann_key : ApiKey
ann_key = record { key = "k1"; developer_id = "ann"; api_id = "a1"; revoked = false; tier = none }

abbrev keys : Dict ApiKey
keys = (key_text, ann_key) ∷ []

abbrev plain_hash : String → String
plain_hash s = s

resolve_api_key-lookup_example :
    record_of plain_hash (resolve_api_key plain_hash key_text keys) ≡ lookup key_text keys
resolve_api_key-lookup_example = resolve_api_key-lookup plain_hash (λ s t p. p) key_text keys

abbrev two_per_second : Limit
two_per_second = record { window_ms = 1000; max_requests = 2 }

abbrev full : Bucket
full = record { parts = 2000; debt = 0; last_refill_at = 5 }

checks_run : (checks two_per_second (5 ∷ 6 ∷ 7 ∷ 600 ∷ []) full).0 ≡ 3
unfolding checks
checks_run = refl

checks_le_example :
    (checks two_per_second (5 ∷ 6 ∷ 7 ∷ 600 ∷ []) full).0 * 1000 ≤ 2000 + (600 - 5) * 2
checks_le_example =
    checks_le two_per_second 600 (5 ∷ 6 ∷ 7 ∷ 600 ∷ []) full refl
      (omega arith, (omega arith, (omega arith, (omega arith, omega arith))))

abbrev settings : Settings
settings = record {
  bindings = record { revocation_service = true; env = true; open_error = true };
  user_limit = record { window_ms = 1000; max_requests = 5 };
  limiter = record { base = record { max_requests = 5; window_ms = 1000 }; tier_policies = [] };
  breaker = record { failure_threshold = 5; cooldown_ms = 30000; success_threshold = 1 };
}

abbrev first_world : World plain_hash credits_service settings
first_world = record {
  keys = keys;
  revoked = [];
  users = [];
  buckets = [];
  breakers = [];
  ledger = purse;
  usage = record { events = []; request_ids = [] };
}

abbrev a_request : Request
a_request = record {
  api_key = some key_text;
  api_id = "a1";
  request_id = "r1";
  event_id = "ev1";
  now = 10;
  upstream = responded 200;
}

-- A request that the upstream does not answer in time is charged and not recorded.
abbrev slow_request : Request
slow_request = record a_request { request_id = "r2"; upstream = timed_out }

proxy_run : (proxy plain_hash credits_service settings a_request first_world).0 ≡ delivered 200
unfolding proxy deduct_credit lookup str_dec RateLimiter.compute_rate_limit_result
    RateLimiter.resolve_policy
proxy_run = refl

slow_run :
    let (r, w') = proxy plain_hash credits_service settings slow_request first_world in
    (r ≡ gateway_timeout) × (check_balance "ann" w'.ledger ≡ 1) × (w'.usage.events ≡ [])
unfolding proxy deduct_credit check_balance lookup insert str_dec
    RateLimiter.compute_rate_limit_result RateLimiter.resolve_policy
slow_run = (refl, refl, refl)

abbrev unbound : Settings
unbound = record settings {
  bindings = record { revocation_service = true; env = true; open_error = false };
}

abbrev unbound_world : World plain_hash credits_service unbound
unbound_world = record {
  keys = keys;
  revoked = [];
  users = [];
  buckets = [];
  breakers = [];
  ledger = purse;
  usage = record { events = []; request_ids = [] };
}

-- The same when `CircuitBreakerOpenError` is not bound: another error, after the charge.
unbound_run :
    let (r, w') = proxy plain_hash credits_service unbound slow_request unbound_world in
    (r ≡ failed) × (check_balance "ann" w'.ledger ≡ 1) × (w'.usage.events ≡ [])
unfolding proxy deduct_credit check_balance lookup insert str_dec
    RateLimiter.compute_rate_limit_result RateLimiter.resolve_policy
unbound_run = (refl, refl, refl)

-- A request id that is used twice is charged twice and recorded once.
repeated_run :
    let w' =
      proxy_all plain_hash credits_service settings (a_request ∷ a_request ∷ []) first_world in
    (check_balance "ann" w'.ledger ≡ 0) × (events_of "ann" w'.usage ≡ 1)
unfolding proxy_all deduct_credit check_balance lookup insert str_dec
    RateLimiter.compute_rate_limit_result RateLimiter.resolve_policy
repeated_run = (refl, refl)

proxy_all-stake_example :
    stake plain_hash settings "ann"
      (proxy_all plain_hash credits_service settings (a_request ∷ slow_request ∷ []) first_world)
    ≤ stake plain_hash settings "ann" first_world
proxy_all-stake_example =
    proxy_all-stake plain_hash settings "ann" (a_request ∷ slow_request ∷ []) first_world

proxy_all-NotBlocked_example : NotBlocked plain_hash credits_service settings (
    proxy plain_hash credits_service settings a_request
      (proxy_all plain_hash credits_service settings (slow_request ∷ []) first_world))
proxy_all-NotBlocked_example =
    proxy_all-NotBlocked plain_hash credits_service settings (slow_request ∷ []) a_request
      first_world tt
