-- ===== src/Webhooks.antt =====
-- webhooks/webhook.store.ts: the webhook of each developer with its secrets, and the log of failed
-- deliveries. The dead letters are left out. Times are milliseconds.
pub mod Secrets
pub mod Failures
use callora_backend.Common.{
  ℕ, ◌-◌, String, List, [], ◌∷◌, ◌++◌, Bool, true, false, Option, none, some, ite, str_dec, leb,
  if◌then◌else◌, length, keep, drop, min, Dict, lookup, insert, erase, values, ◌==◌,
}
use callora_backend.Usage.{has, add}

pub record RetryPolicy : Type 0 where
  pub max_retries : Option ℕ
  pub base_delay_ms : Option ℕ

pub record WebhookConfig : Type 0 where
  pub developer_id : String
  pub url : String
  pub events : List String
  pub secret : Option String
  pub secret_current : Option String
  pub secret_previous : Option String
  pub previous_expires_at : Option ℕ
  pub created_at : ℕ
  pub retry_policy : Option RetryPolicy

pub record FailedDeliveryEntry : Type 0 where
  pub delivery_id : String
  pub developer_id : String
  pub event : String
  pub url : String
  pub failed_at : String
  pub last_error : String
  pub attempts : ℕ

-- `a ?? b`
abbrev pub or_else : Option String → Option String → Option String
or_else none b = b
or_else (some a) b = some a

unfoldable pub normalize_config : WebhookConfig → WebhookConfig
normalize_config config =
    let current = or_else config.secret_current config.secret in
    record config { secret = current; secret_current = current }

unfoldable pub register : WebhookConfig → Dict WebhookConfig → Dict WebhookConfig
unfolding normalize_config insert
register config store = insert config.developer_id (normalize_config config) store

abbrev pub put_found :
    Option WebhookConfig
    → (WebhookConfig → WebhookConfig)
    → String
    → Dict WebhookConfig
    → Option WebhookConfig × Dict WebhookConfig
put_found none change developer_id store = (none, store)
put_found (some current) change developer_id store =
    (some (change current), insert developer_id (change current) store)

abbrev pub with_policy : Option RetryPolicy → WebhookConfig → WebhookConfig
with_policy policy current = normalize_config (record current { retry_policy = policy })

unfoldable pub update_retry_policy :
    String → Option RetryPolicy → Dict WebhookConfig → Option WebhookConfig × Dict WebhookConfig
unfolding normalize_config
update_retry_policy developer_id policy store =
    put_found (lookup developer_id store) (with_policy policy) developer_id store

-- A text that is not empty counts as true.
abbrev pub present : Option String → Bool
present none = false
present (some s) = ite (str_dec s "") false true

abbrev pub expiry_if : Bool → ℕ → Option ℕ
expiry_if true t = some t
expiry_if false t = none

abbrev pub with_secret : String → ℕ → WebhookConfig → WebhookConfig
with_secret new_secret previous_expires_at current =
    let old = or_else current.secret_current current.secret in
    normalize_config (record current {
      secret = some new_secret;
      secret_current = some new_secret;
      secret_previous = old;
      previous_expires_at = expiry_if (present old) previous_expires_at;
    })

unfoldable pub rotate_secret :
    String → String → ℕ → Dict WebhookConfig → Option WebhookConfig × Dict WebhookConfig
unfolding normalize_config
rotate_secret developer_id new_secret previous_expires_at store =
    put_found (lookup developer_id store) (with_secret new_secret previous_expires_at) developer_id
      store

abbrev pub add_present : Option String → List String → List String
add_present none secrets = secrets
add_present (some s) secrets = ite (str_dec s "") secrets (add s secrets)

abbrev pub add_previous : Option ℕ → Option String → ℕ → List String → List String
add_previous none previous now secrets = secrets
add_previous (some t) previous now secrets =
    if leb now t then add_present previous secrets else secrets

unfoldable pub get_active_secrets : WebhookConfig → ℕ → List String
unfolding add has
get_active_secrets config now =
    add_previous config.previous_expires_at config.secret_previous now
      (add_present (or_else config.secret_current config.secret) [])

unfoldable pub get_by_event : String → Dict WebhookConfig → List WebhookConfig
unfolding has
get_by_event event store = keep (λ c. has event c.events) (values store)

-- MAX_FAILED_LOG
abbrev pub max_failed_log : ℕ
max_failed_log = 200

abbrev pub shift : List FailedDeliveryEntry → List FailedDeliveryEntry
shift [] = []
shift (e ∷ es) = es

unfoldable pub record_failed_delivery :
    FailedDeliveryEntry → List FailedDeliveryEntry → List FailedDeliveryEntry
record_failed_delivery entry log =
    (if leb max_failed_log (length log) then shift log else log) ++ entry ∷ []

-- `log.slice(-cap)`: with a cap of 0 this is the whole log.
abbrev pub last_entries : ℕ → List FailedDeliveryEntry → List FailedDeliveryEntry
last_entries cap log = if cap == 0 then log else drop (length log - cap) log

unfoldable pub reversed : List FailedDeliveryEntry → List FailedDeliveryEntry
reversed [] = []
reversed (e ∷ es) = reversed es ++ e ∷ []

unfoldable pub get_recent_failures : ℕ → List FailedDeliveryEntry → List FailedDeliveryEntry
unfolding reversed
get_recent_failures limit log = reversed (last_entries (min limit 100) log)
