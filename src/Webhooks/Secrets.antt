-- ===== src/Webhooks/Secrets.antt =====
-- webhooks/webhook.store.ts: the secrets of a webhook through registration and rotation.
use callora_backend.Common.{
  ℕ, ◌≡◌, ◌≢◌, refl, sym, ◌∙◌, ap, String, List, [], ◌∷◌, Option, none, some, str_dec, arith, leb,
  if◌then◌else◌, Dict, lookup, insert, lookup-insert_self, lookup-insert_ne,
}
use callora_backend.Usage.{has, add}
use callora_backend.Webhooks.{
  WebhookConfig, RetryPolicy, or_else, normalize_config, register, put_found, with_policy,
  update_retry_policy, with_secret, rotate_secret, get_active_secrets,
}

rotated_active :
    (c : WebhookConfig) (old new : String) (t now : ℕ)
    → or_else c.secret_current c.secret ≡ some old
    → old ≢ ""
    → new ≢ ""
    → old ≢ new
    → get_active_secrets (with_secret new t c) now
      ≡ (if leb now t then new ∷ old ∷ [] else new ∷ [])
unfolding get_active_secrets normalize_config add has
rotated_active c old new t now h ho hn hd = rw h (ground arith)

-- What each stored webhook satisfies: it stands under its developer, and its secret is its current
-- secret.
abbrev pub IsNormal : Dict WebhookConfig → Type 0
IsNormal store =
    (k : String) (c : WebhookConfig)
    → lookup k store ≡ some c
    → (c.developer_id ≡ k) × (c.secret ≡ c.secret_current)

insert-IsNormal :
    (k : String) (c : WebhookConfig) (store : Dict WebhookConfig)
    → c.developer_id ≡ k
    → c.secret ≡ c.secret_current
    → IsNormal store
    → IsNormal (insert k c store)
insert-IsNormal k c store hk hc v j d e = elim (str_dec k j) [
  | yes p ↦
      let same = sym (lookup-insert_self k c store) ∙ ap (λ x. lookup x (insert k c store)) p ∙ e in
      ground (arith, same, p, hk, hc)
  | no p ↦ v j d (sym (lookup-insert_ne k j c store p) ∙ e)
]

pub register-IsNormal :
    (c : WebhookConfig) (store : Dict WebhookConfig) → IsNormal store → IsNormal (register c store)
unfolding register normalize_config
register-IsNormal c store v = insert-IsNormal c.developer_id _ store refl refl v

put_found-IsNormal :
    (found : Option WebhookConfig) (change : WebhookConfig → WebhookConfig) (k : String)
    (store : Dict WebhookConfig)
    → lookup k store ≡ found
    → ((c : WebhookConfig) → (change c).developer_id ≡ c.developer_id)
    → ((c : WebhookConfig) → (change c).secret ≡ (change c).secret_current)
    → IsNormal store
    → IsNormal (put_found found change k store).1
put_found-IsNormal none change k store e hd hs v = v
put_found-IsNormal (some c) change k store e hd hs v =
    insert-IsNormal k (change c) store (hd c ∙ (v k c e).0) (hs c) v

pub data Operation : Type 0 where
  registers : (config : WebhookConfig) → Operation
  sets_policy : (developer_id : String) (policy : Option RetryPolicy) → Operation
  rotates : (developer_id new_secret : String) (previous_expires_at : ℕ) → Operation

abbrev pub operate : Operation → Dict WebhookConfig → Dict WebhookConfig
operate (registers config) store = register config store
operate (sets_policy k policy) store = (update_retry_policy k policy store).1
operate (rotates k new t) store = (rotate_secret k new t store).1

operate-IsNormal :
    (op : Operation) (store : Dict WebhookConfig) → IsNormal store → IsNormal (operate op store)
unfolding update_retry_policy rotate_secret normalize_config
operate-IsNormal (registers c) store v = register-IsNormal c store v
operate-IsNormal (sets_policy k policy) store v =
    put_found-IsNormal (lookup k store) (with_policy policy) k store refl (λ c. refl) (λ c. refl) v
operate-IsNormal (rotates k new t) store v =
    put_found-IsNormal (lookup k store) (with_secret new t) k store refl (λ c. refl) (λ c. refl) v

abbrev pub operate_all : List Operation → Dict WebhookConfig → Dict WebhookConfig
operate_all [] store = store
operate_all (op ∷ ops) store = operate_all ops (operate op store)

all-IsNormal :
    (ops : List Operation) (store : Dict WebhookConfig)
    → IsNormal store
    → IsNormal (operate_all ops store)
all-IsNormal [] store v = v
all-IsNormal (op ∷ ops) store v = all-IsNormal ops (operate op store) (operate-IsNormal op store v)

empty-IsNormal : IsNormal []
unfolding lookup
empty-IsNormal k c e = cc

-- After any registrations, changes of policy and rotations from the empty store, each webhook stands
-- under its developer and its secret is its current secret.
pub operations-IsNormal : (ops : List Operation) → IsNormal (operate_all ops [])
operations-IsNormal ops = all-IsNormal ops [] empty-IsNormal

rotated_found :
    (k new : String) (t : ℕ) (c : WebhookConfig) (store : Dict WebhookConfig)
    → lookup k store ≡ some c
    → lookup k (put_found (lookup k store) (with_secret new t) k store).1
      ≡ some (with_secret new t c)
rotated_found k new t c store e = rw e (lookup-insert_self k (with_secret new t c) store)

-- A rotation of the secret of a stored webhook, whose old and new secrets are not empty and differ,
-- stores a webhook whose active secrets are the new and the old one up to the given expiry, and the
-- new one alone after it.
pub rotate_secret_lem :
    (k old new : String) (t now : ℕ) (c : WebhookConfig) (store : Dict WebhookConfig)
    → lookup k store ≡ some c
    → or_else c.secret_current c.secret ≡ some old
    → old ≢ ""
    → new ≢ ""
    → old ≢ new
    → (c' : WebhookConfig) × (lookup k (rotate_secret k new t store).1 ≡ some c')
      × (get_active_secrets c' now ≡ (if leb now t then new ∷ old ∷ [] else new ∷ []))
unfolding rotate_secret
rotate_secret_lem k old new t now c store e h ho hn hd = (
  with_secret new t c,
  rotated_found k new t c store e,
  rotated_active c old new t now h ho hn hd,
)
