-- ===== src/Gateway/Metered.antt =====
-- routes/gatewayRoutes.ts: what a request at the gateway charges and records.
use callora_backend.Common.{
  if◌then◌else◌, if-intro, ◌≡◌, refl, ◌⊎◌, inl, inr, String, Bool, true, false, Option, none, some,
  ite, str_dec, Dict, Bool-cases, ite-intro,
}
use callora_backend.Usage.{UsageStore, record_event}
use callora_backend.RateLimiter.{MemoryStore, RateLimitResult, allowed, denied}
use callora_backend.RateLimiter
use callora_backend.CircuitBreaker.{Breaker, would_block}
use callora_backend.Gateway.Keys.{
  ApiKey, Resolved, found, not_found, hash_mismatch, resolve_api_key,
}
use callora_backend.Gateway.Revocation.{RevocationEntry, is_revoked}
use callora_backend.Gateway.UserLimit.{Bucket, Answer, passed, limited}
use callora_backend.Gateway.UserLimit
use callora_backend.Gateway.Route.{
  Charge, charged, refused_charge, raised, BillingService, Upstream, responded, timed_out,
  unreachable, GatewayReply, unauthorized, forbidden, service_unavailable, payment_required,
  too_many_requests, unready, Bindings, failed, gateway_timeout, bad_gateway, delivered, Request,
  Settings, credit_cost_per_call, prefixed, get_or_create, event_of, World, after_charge,
  after_breaker, after_key_limit, after_user_limit, after_revoked, after_resolved, with_header,
  proxy,
}

-- The replies that refuse a request before it is charged.
abbrev pub is_early : GatewayReply → Bool
is_early unauthorized = true
is_early forbidden = true
is_early service_unavailable = true
is_early unready = true
is_early (too_many_requests s) = true
is_early payment_required = false
is_early failed = false
is_early gateway_timeout = false
is_early bad_gateway = false
is_early (delivered s) = false

-- The reply and the usage store after a charge that came to this.
abbrev pub outcome :
    Bindings
    → Request
    → String
    → ApiKey
    → Charge
    → Upstream
    → UsageStore
    → GatewayReply × UsageStore
outcome names q header owner charged (responded s) u =
    (delivered s, (record_event (event_of q header owner s) u).1)
outcome names q header owner charged timed_out u =
    (if names.open_error then gateway_timeout else failed, u)
outcome names q header owner charged unreachable u =
    (if names.open_error then bad_gateway else failed, u)
outcome names q header owner refused_charge x u = (payment_required, u)
outcome names q header owner raised x u = (failed, u)

module _ (sha256_hex : String → String) (billing : BillingService) (settings : Settings) where
  abbrev W : Type 0
  W = World sha256_hex billing settings

  -- The limit of the user, as the route asks it.
  abbrev pub user_answer : Request → ApiKey → W → Answer × Dict Bucket
  user_answer q owner w =
      ite (str_dec owner.developer_id "") (passed, w.users)
        (UserLimit.check settings.user_limit (prefixed "user:" owner.developer_id) q.now w.users)

  -- All that a request has to pass before it is charged.
  pub record HasPassed (q : Request) (header : String) (owner : ApiKey) (w : W) : Type 0 where
    pub given : q.api_key ≡ some header
    pub known : resolve_api_key sha256_hex header w.keys ≡ found owner
    pub own_api : owner.api_id ≡ q.api_id
    pub bound : settings.bindings.revocation_service ≡ true
    pub env_bound : settings.bindings.env ≡ true
    pub not_listed : (is_revoked (sha256_hex header) q.now w.revoked).0 ≡ false
    pub not_revoked : owner.revoked ≡ false
    pub user_passes : (user_answer q owner w).0 ≡ passed
    pub key_passes : (RateLimiter.check settings.limiter header none q.now w.buckets).0 ≡ allowed
    pub not_open :
        would_block settings.breaker q.now (get_or_create q.api_id q.now w.breakers).0 ≡ false

  -- Refused early and not metered, or passed, charged one credit, and answered and recorded as the
  -- charge and the upstream say.
  abbrev pub IsMetered : Request → W → GatewayReply × W → Type 0
  IsMetered q w (r, w') =
      ((is_early r ≡ true) × (w'.ledger ≡ w.ledger) × (w'.usage ≡ w.usage))
      ⊎ ((header : String) × (owner : ApiKey) × HasPassed q header owner w
          × (let (c, l) = billing.deduct_credit owner.developer_id credit_cost_per_call w.ledger in
              (w'.ledger ≡ l)
              × ((r, w'.usage) ≡ outcome settings.bindings q header owner c q.upstream w.usage)))

  after_charge-outcome :
      (q : Request) (header : String) (owner : ApiKey) (c : Charge) (x : Upstream)
      (l : billing.Ledger) (w : W)
      → q.upstream ≡ x
      → let (r, w') = after_charge sha256_hex billing settings q header owner (c, l) w in
        (w'.ledger ≡ l) × ((r, w'.usage) ≡ outcome settings.bindings q header owner c x w.usage)
  after_charge-outcome q header owner charged (responded s) l w e = rw e (refl, refl)
  after_charge-outcome q header owner charged timed_out l w e = rw e (refl, refl)
  after_charge-outcome q header owner charged unreachable l w e = rw e (refl, refl)
  after_charge-outcome q header owner refused_charge x l w e = (refl, refl)
  after_charge-outcome q header owner raised x l w e = (refl, refl)

  -- `w` with what the guards have written.
  abbrev written : Dict RevocationEntry → Dict Bucket → MemoryStore → Dict Breaker → W → W
  written rv us bs br w = record w { revoked = rv; users = us; buckets = bs; breakers = br }

  after_breaker-IsMetered :
      (q : Request) (header : String) (owner : ApiKey) (b : Bool) (rv : Dict RevocationEntry)
      (us : Dict Bucket) (bs : MemoryStore) (br : Dict Breaker) (w : W)
      → (b ≡ false → HasPassed q header owner w)
      → IsMetered q w
          (after_breaker sha256_hex billing settings q header owner b (written rv us bs br w))
  after_breaker-IsMetered q header owner true rv us bs br w ok = inl (refl, refl, refl)
  after_breaker-IsMetered q header owner false rv us bs br w ok = inr (
    header,
    owner,
    ok refl,
    after_charge-outcome q header owner _ q.upstream _ (written rv us bs br w) refl,
  )

  after_key_limit-IsMetered :
      (q : Request) (header : String) (owner : ApiKey) (p : RateLimitResult × MemoryStore)
      (rv : Dict RevocationEntry) (us : Dict Bucket) (bs : MemoryStore) (w : W)
      → (p.0 ≡ allowed
          → settings.bindings.env ≡ true
          → would_block settings.breaker q.now (get_or_create q.api_id q.now w.breakers).0 ≡ false
          → HasPassed q header owner w)
      → IsMetered q w (
          after_key_limit sha256_hex billing settings q header owner p
            (written rv us bs w.breakers w))
  after_key_limit-IsMetered q header owner (denied ms, bs') rv us bs w ok = inl (refl, refl, refl)
  after_key_limit-IsMetered q header owner (allowed, bs') rv us bs w ok =
      if-intro (IsMetered q w) settings.bindings.env _ _
        (λ e. after_breaker-IsMetered q header owner _ rv us bs' _ w (ok refl e))
        (λ e. inl (refl, refl, refl))

  after_user_limit-IsMetered :
      (q : Request) (header : String) (owner : ApiKey) (p : Answer × Dict Bucket)
      (rv : Dict RevocationEntry) (us : Dict Bucket) (w : W)
      → (p.0 ≡ passed
          → (RateLimiter.check settings.limiter header none q.now w.buckets).0 ≡ allowed
          → settings.bindings.env ≡ true
          → would_block settings.breaker q.now (get_or_create q.api_id q.now w.breakers).0 ≡ false
          → HasPassed q header owner w)
      → IsMetered q w (
          after_user_limit sha256_hex billing settings q header owner p
            (written rv us w.buckets w.breakers w))
  after_user_limit-IsMetered q header owner (limited ms, us') rv us w ok = inl (refl, refl, refl)
  after_user_limit-IsMetered q header owner (passed, us') rv us w ok =
      after_key_limit-IsMetered q header owner _ rv us' w.buckets w (ok refl)

  after_revoked-IsMetered :
      (q : Request) (header : String) (owner : ApiKey) (p : Bool × Dict RevocationEntry) (w : W)
      → q.api_key ≡ some header
      → resolve_api_key sha256_hex header w.keys ≡ found owner
      → owner.api_id ≡ q.api_id
      → settings.bindings.revocation_service ≡ true
      → (is_revoked (sha256_hex header) q.now w.revoked).0 ≡ p.0
      → IsMetered q w (after_revoked sha256_hex billing settings q header owner p w)
  after_revoked-IsMetered q header owner (true, rv) w g k a n r = inl (refl, refl, refl)
  after_revoked-IsMetered q header owner (false, rv) w g k a n r = elim (Bool-cases owner.revoked) [
    | inl e ↦ rw e (inl (refl, refl, refl))
    | inr e ↦ rw e (
        after_user_limit-IsMetered q header owner (user_answer q owner w) rv w.users w
          (λ up kp eb nb. record {
            given = g;
            known = k;
            own_api = a;
            bound = n;
            env_bound = eb;
            not_listed = r;
            not_revoked = e;
            user_passes = up;
            key_passes = kp;
            not_open = nb;
          }))
  ]

  after_resolved-IsMetered :
      (q : Request) (header : String) (o : Resolved) (w : W)
      → q.api_key ≡ some header
      → resolve_api_key sha256_hex header w.keys ≡ o
      → IsMetered q w (after_resolved sha256_hex billing settings q header o w)
  after_resolved-IsMetered q header not_found w g k = inl (refl, refl, refl)
  after_resolved-IsMetered q header hash_mismatch w g k = inl (refl, refl, refl)
  after_resolved-IsMetered q header (found owner) w g k =
      ite-intro (IsMetered q w) (str_dec owner.api_id q.api_id) _ _
        (λ a.
          if-intro (IsMetered q w) settings.bindings.revocation_service _ _
            (λ n. after_revoked-IsMetered q header owner _ w g k a n refl)
            (λ n. inl (refl, refl, refl)))
        (λ a. inl (refl, refl, refl))

  with_header-IsMetered :
      (q : Request) (o : Option String) (w : W)
      → q.api_key ≡ o
      → IsMetered q w (with_header sha256_hex billing settings q o w)
  with_header-IsMetered q none w g = inl (refl, refl, refl)
  with_header-IsMetered q (some header) w g =
      ite-intro (IsMetered q w) (str_dec header "") _ _ (λ e. inl (refl, refl, refl))
        (λ e. after_resolved-IsMetered q header _ w g refl)

  pub proxy-IsMetered :
      (q : Request) (w : W) → IsMetered q w (proxy sha256_hex billing settings q w)
  unfolding proxy
  proxy-IsMetered q w = with_header-IsMetered q q.api_key w refl
