-- ===== src/Tests/Accounts.antt =====
-- Refresh tokens, idempotency keys, deliveries and prices on small data.
use callora_backend.Common.{
  ℕ, ◌≡◌, ◌≢◌, refl, String, List, [], ◌∷◌, true, false, Option, none, some, arith, sum_of, str_dec,
  str_ne,
}
use callora_backend.Billing.Soroban.{codes}
use callora_backend.Tokens.{RefreshToken, find_refresh_token_by_id}
use callora_backend.Tokens.Refresh.{
  Payload, Platform, Drawn, refreshed, refresh, judge, conclude, operate_all, revokes_all,
}
use callora_backend.Tokens.SingleUse.{refresh_once, refresh_race}
use callora_backend.Idempotency.{
  IdempotencyConfig, admitted, in_progress, replayed, begin_with_key, save_response,
}
use callora_backend.Idempotency.Rows.{Step, purges, inserts, steps}
use callora_backend.Idempotency.Replays.{response-replayed, failure-frees}
use callora_backend.Webhooks.{RetryPolicy, WebhookConfig}
use callora_backend.Delivery.{
  Attempt, ok, http_error, Outcome, dispatch_webhook, get_effective_retry_policy,
  validate_retry_policy,
}
use callora_backend.Delivery.Attempts.{IsRun, IsLogged, dispatch_webhook_lem}
use callora_backend.Registry.{EndpointPricing, resolve_endpoint_price}
use callora_backend.Registry.Sorting.{IsPriceOf}
use callora_backend.Registry.Prices.{resolve_endpoint_price-IsPriceOf}

abbrev old_id : String
old_id = "t1"

abbrev new_id : String
new_id = "t2"

abbrev claims : Payload
claims = record { user_id = "ann"; token_id = old_id }

abbrev platform : Platform
platform = record { verify = λ token now. some claims; hash_token = λ token. token }

abbrev drawn : Drawn
drawn = record {
  now = 10;
  new_token = "token2";
  new_id = new_id;
  new_family = "f2";
  insert_fails = false;
}

abbrev stored_tokens : List RefreshToken
stored_tokens =
    record {
      id = old_id;
      user_id = "ann";
      token_hash = "token1";
      expires_at = 500;
      created_at = 1;
      is_revoked = false;
      family_id = "f1";
    }
    ∷ []

abbrev used_tokens : List RefreshToken
used_tokens = (refresh platform 100 "token1" drawn stored_tokens).1

new_not_old : new_id ≢ old_id
unfolding str_dec
new_not_old = str_ne new_id old_id refl

refresh_run : (refresh platform 100 "token1" drawn stored_tokens).0 ≡ refreshed "token2"
unfolding refresh find_refresh_token_by_id str_dec
refresh_run = refl

abbrev used_token : RefreshToken
used_token = record {
  id = old_id;
  user_id = "ann";
  token_hash = "token1";
  expires_at = 500;
  created_at = 1;
  is_revoked = true;
  family_id = "f1";
}

refresh_once_example :
    (refresh platform 100 "token1" drawn
      (operate_all platform 100 (revokes_all "bob" ∷ []) used_tokens)).0
    ≢ refreshed "token3"
refresh_once_example =
    refresh_once platform 100 "token1" claims drawn drawn stored_tokens (revokes_all "bob" ∷ [])
      "token2" refl (λ q e. ground (arith, e)) new_not_old (tt, tt) refresh_run "token3"

refresh_race_example :
    (conclude platform 100 (judge platform 100 "token1" 10 stored_tokens) drawn used_tokens).0
    ≡ refreshed "token2"
refresh_race_example =
    refresh_race platform 100 "token1" drawn drawn stored_tokens "token2" refl refresh_run

abbrev config : IdempotencyConfig
config = record { methods = "POST" ∷ []; max_key_length = 255; retention_seconds = 60 }

abbrev key_one : List ℕ
key_one = codes "key-1"

admit_run : (begin_with_key config key_one "h" 10 (λ x. x) []).0 ≡ admitted
unfolding begin_with_key
admit_run = refl

abbrev elsewhere : List Step
elsewhere = purges 20 ∷ inserts config key_one "h2" 30 ∷ []

response-replayed_example :
    let during = steps elsewhere (begin_with_key config key_one "h" 10 (λ x. x) []).1 in
    let after = steps elsewhere (save_response false key_one 201 (codes "{}") during) in
    ((begin_with_key config key_one "h" 40 (λ x. x) during).0 ≡ in_progress)
    × ((begin_with_key config key_one "h" 40 (λ x. x) after).0 ≡ replayed 201 (codes "{}"))
response-replayed_example =
    response-replayed config key_one "h" 10 40 (λ x. x) (λ x. x) [] elsewhere elsewhere 201
      (codes "{}") admit_run (omega arith, (tt, tt)) (omega arith, (tt, tt)) (omega arith)
      (omega arith)

failure-frees_example :
    let during = steps elsewhere (begin_with_key config key_one "h" 10 (λ x. x) []).1 in
    ((begin_with_key config key_one "h" 40
        (λ x. x)
        (save_response false key_one 503 (codes "") during)).0
      ≡ admitted)
    × ((begin_with_key config key_one "h" 40
          (λ x. x)
          (save_response true key_one 503 (codes "") during)).0
        ≡ in_progress)
failure-frees_example =
    failure-frees config key_one "h" 10 40 (λ x. x) [] elsewhere 503 (codes "") admit_run
      (omega arith, (tt, tt)) (omega arith) (omega arith)

abbrev policy : Option RetryPolicy
policy = some (record { max_retries = some 3; base_delay_ms = some 100 })

abbrev hook : WebhookConfig
hook = record {
  developer_id = "ann";
  url = "https://example.org";
  events = [];
  secret = none;
  secret_current = none;
  secret_previous = none;
  previous_expires_at = none;
  created_at = 1;
  retry_policy = policy;
}

abbrev never : ℕ → Attempt
never n = http_error "HTTP 500"

abbrev attempts_of : Option Outcome → ℕ
attempts_of none = 0
attempts_of (some o) = o.attempts

give_up_run : attempts_of (dispatch_webhook never true hook "d1" "new_api_call" "now" []).0 ≡ 3
unfolding dispatch_webhook
give_up_run = refl

-- A policy without retries makes no attempt at all.
abbrev no_retries : WebhookConfig
no_retries = record hook {
  retry_policy = some (record { max_retries = some 0; base_delay_ms = none });
}

no_retries_run :
    let (o, log) = dispatch_webhook (λ n. ok) true no_retries "d1" "new_api_call" "now" [] in
    (attempts_of o ≡ 0) × (sum_of (λ e. 1) log ≡ 1)
unfolding dispatch_webhook
no_retries_run = (refl, refl)

dispatch_webhook_lem_example :
    let p = get_effective_retry_policy policy in
    let r = dispatch_webhook never true hook "d1" "new_api_call" "now" [] in
    (o : Outcome) × (r.0 ≡ some o)
    × IsRun never 0 p.max_retries p.base_delay_ms o
    × IsLogged never hook "d1" "new_api_call" "now" o.attempts o.delivered [] r.1
dispatch_webhook_lem_example = dispatch_webhook_lem never hook "d1" "new_api_call" "now" []

policy_run : validate_retry_policy policy ≡ true
unfolding validate_retry_policy
policy_run = refl

abbrev endpoint : String → String → ℕ → EndpointPricing
endpoint id path price = record { endpoint_id = id; path = codes path; price_usdc = price }

abbrev endpoints : List EndpointPricing
endpoints = endpoint "e1" "/data" 5 ∷ endpoint "e2" "/data/big" 9 ∷ endpoint "e3" "*" 1 ∷ []

price_run : (resolve_endpoint_price endpoints (codes "data/big/1")).price_usdc ≡ 9
unfolding resolve_endpoint_price
price_run = refl

-- A prefix need not end at a slash.
prefix_run : (resolve_endpoint_price endpoints (codes "/database")).price_usdc ≡ 5
unfolding resolve_endpoint_price
prefix_run = refl

resolve_endpoint_price-IsPriceOf_example :
    IsPriceOf endpoints (codes "/data/1") (resolve_endpoint_price endpoints (codes "/data/1"))
resolve_endpoint_price-IsPriceOf_example =
    resolve_endpoint_price-IsPriceOf endpoints (codes "/data/1")
