-- ===== src/Delivery.antt =====
-- webhooks/webhook.dispatcher.ts and services/webhookRetry.ts: one delivery with its attempts, the
-- waits between them, and the entry in the log of failures of webhooks/webhook.store.ts. What `fetch`
-- answers to each attempt is a parameter.
pub mod Attempts
use callora_backend.Common.{
  ℕ, zero, suc, ◌+◌, ◌*◌, ◌^◌, String, List, [], ◌∷◌, Bool, true, false, Option, none, some, leb,
  ◌&&◌, if◌then◌else◌, ◌==◌,
}
use callora_backend.Webhooks.{
  RetryPolicy, WebhookConfig, FailedDeliveryEntry, record_failed_delivery,
}

-- The answer to one attempt; an error comes with its message.
pub data Attempt : Type 0 where
  ok : Attempt
  http_error threw : String → Attempt

-- DEFAULT_RETRY_POLICY, the one with five attempts.
abbrev pub default_max_retries : ℕ
default_max_retries = 5

abbrev pub default_base_delay_ms : ℕ
default_base_delay_ms = 1000

-- What `getEffectiveRetryPolicy` returns.
pub record Effective : Type 0 where
  pub max_retries : ℕ
  pub base_delay_ms : ℕ

abbrev pub or_default : ℕ → Option ℕ → ℕ
or_default n none = n
or_default n (some m) = m

abbrev pub effective_of : Option RetryPolicy → Effective
effective_of none = record {
  max_retries = default_max_retries;
  base_delay_ms = default_base_delay_ms;
}
effective_of (some p) = record {
  max_retries = or_default default_max_retries p.max_retries;
  base_delay_ms = or_default default_base_delay_ms p.base_delay_ms;
}

-- `getEffectiveRetryPolicy`
unfoldable pub get_effective_retry_policy : Option RetryPolicy → Effective
get_effective_retry_policy p = effective_of p

-- `calculateBackoff`, and the wait of the dispatcher.
abbrev pub calculate_backoff : ℕ → ℕ → ℕ
calculate_backoff attempt base_delay_ms = base_delay_ms * 2 ^ attempt

abbrev pub within : ℕ → ℕ → Option ℕ → Bool
within low high none = true
within low high (some n) = leb low n && leb n high

-- `validateRetryPolicy` on a policy whose numbers are natural.
unfoldable pub validate_retry_policy : Option RetryPolicy → Bool
validate_retry_policy none = true
validate_retry_policy (some p) = within 0 10 p.max_retries && within 100 60000 p.base_delay_ms

-- What a loop of attempts comes to: whether it delivered, how many attempts it made, the waits in
-- their order, and the last error.
pub record Outcome : Type 0 where
  pub delivered : Bool
  pub attempts : ℕ
  pub waits : List ℕ
  pub last_error : Option String

abbrev pub delivered_at : ℕ → Option String → Outcome
delivered_at attempt last = record {
  delivered = true;
  attempts = attempt + 1;
  waits = [];
  last_error = last;
}

abbrev pub gave_up_at : ℕ → Option String → Outcome
gave_up_at attempt last = record {
  delivered = false;
  attempts = attempt;
  waits = [];
  last_error = last;
}

abbrev pub wait_first : ℕ → Outcome → Outcome
wait_first delay o = record o { waits = delay ∷ o.waits }

-- `if (attempt < maxRetries - 1)`: a wait unless this was the last attempt.
abbrev pub wait_if_left : ℕ → ℕ → ℕ → Outcome → Outcome
wait_if_left zero base_delay_ms attempt o = o
wait_if_left (suc left) base_delay_ms attempt o =
    wait_first (calculate_backoff attempt base_delay_ms) o

abbrev pub after_attempt : Attempt → ℕ → ℕ → ℕ → Option String → (Option String → Outcome) → Outcome
after_attempt ok left base_delay_ms attempt last again = delivered_at attempt last
after_attempt (http_error m) left base_delay_ms attempt last again =
    wait_if_left left base_delay_ms attempt (again (some m))
after_attempt (threw m) left base_delay_ms attempt last again =
    wait_if_left left base_delay_ms attempt (again (some m))

module _ (fetch : ℕ → Attempt) where
  -- The loop, with the attempts that are left.
  unfoldable pub attempt_loop : ℕ → ℕ → ℕ → Option String → Outcome
  attempt_loop zero base_delay_ms attempt last = gave_up_at attempt last
  attempt_loop (suc left) base_delay_ms attempt last =
      after_attempt (fetch attempt) left base_delay_ms attempt last
        (λ last'. attempt_loop left base_delay_ms (attempt + 1) last')

  -- `String(lastError)`
  abbrev pub error_message : Option String → String
  error_message none = "undefined"
  error_message (some m) = m

  abbrev pub entry_of :
      WebhookConfig → (delivery_id event failed_at : String) → ℕ → Outcome → FailedDeliveryEntry
  entry_of config delivery_id event failed_at max_retries o = record {
    delivery_id = delivery_id;
    developer_id = config.developer_id;
    event = event;
    url = config.url;
    failed_at = failed_at;
    last_error = error_message o.last_error;
    attempts = max_retries;
  }

  abbrev pub log_unless :
      Bool → FailedDeliveryEntry → List FailedDeliveryEntry → List FailedDeliveryEntry
  log_unless true entry log = log
  log_unless false entry log = record_failed_delivery entry log

  -- `dispatchWebhook`; `none` is a dispatch that is skipped during a shutdown.
  unfoldable pub dispatch_webhook :
      Bool
      → WebhookConfig
      → (delivery_id event failed_at : String) → List FailedDeliveryEntry
      → Option Outcome × List FailedDeliveryEntry
  unfolding attempt_loop get_effective_retry_policy record_failed_delivery
  dispatch_webhook false config delivery_id event failed_at log = (none, log)
  dispatch_webhook true config delivery_id event failed_at log =
      let policy = get_effective_retry_policy config.retry_policy in
      let o = attempt_loop policy.max_retries policy.base_delay_ms 0 none in
      (
        some o,
        log_unless o.delivered (entry_of config delivery_id event failed_at policy.max_retries o)
            log,
      )
