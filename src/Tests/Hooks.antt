-- ===== src/Tests/Hooks.antt =====
-- Webhooks: the secrets through a rotation, and the log of failures.
use callora_backend.Common.{
  ◌≡◌, ◌≢◌, refl, String, [], ◌∷◌, none, some, leb, if◌then◌else◌, Dict, lookup, str_dec, str_ne,
}
use callora_backend.Webhooks.{WebhookConfig, FailedDeliveryEntry, rotate_secret, get_active_secrets}
use callora_backend.Webhooks.Secrets.{rotate_secret_lem}

abbrev hook : WebhookConfig
hook = record {
  developer_id = "dev";
  url = "https://dev.example";
  events = "new_api_call" ∷ [];
  secret = some "s1";
  secret_current = some "s1";
  secret_previous = none;
  previous_expires_at = none;
  created_at = 1;
  retry_policy = none;
}

abbrev hooks : Dict WebhookConfig
hooks = ("dev", hook) ∷ []

abbrev old : String
old = "s1"

abbrev new : String
new = "s2"

abbrev no_text : String
no_text = ""

old_present : old ≢ no_text
unfolding str_dec
old_present = str_ne old no_text refl

new_present : new ≢ no_text
unfolding str_dec
new_present = str_ne new no_text refl

old_not_new : old ≢ new
unfolding str_dec
old_not_new = str_ne old new refl

hook_found : lookup "dev" hooks ≡ some hook
unfolding lookup str_dec
hook_found = refl

rotate_secret_lem_example :
    (c' : WebhookConfig) × (lookup "dev" (rotate_secret "dev" new 50 hooks).1 ≡ some c')
    × (get_active_secrets c' 40 ≡ (if leb 40 50 then new ∷ old ∷ [] else new ∷ []))
rotate_secret_lem_example =
    rotate_secret_lem "dev" old new 50 40 hook hooks hook_found refl old_present new_present
      old_not_new

abbrev lost : FailedDeliveryEntry
lost = record {
  delivery_id = "d1";
  developer_id = "dev";
  event = "new_api_call";
  url = "https://dev.example";
  failed_at = "2024-01-01";
  last_error = "timeout";
  attempts = 5;
}
