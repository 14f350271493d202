-- ===== src/Gateway/Breakers.antt =====
-- routes/gatewayRoutes.ts: the breakers that the route asks, and that it never tells of a failure.
use callora_backend.Common.{
  ℕ, ◌≡◌, ◌≢◌, refl, String, List, [], ◌∷◌, Bool, true, false, Option, none, some, str_dec, Dict,
  lookup, insert, All, if-intro, ite-intro,
}
use callora_backend.RateLimiter.{MemoryStore, RateLimitResult, allowed, denied}
use callora_backend.CircuitBreaker.{Breaker, would_block, get_metrics}
use callora_backend.Gateway.Keys.{ApiKey, Resolved, found, not_found, hash_mismatch}
use callora_backend.Gateway.Revocation.{RevocationEntry}
use callora_backend.Gateway.UserLimit.{Bucket, Answer, passed, limited}
use callora_backend.Gateway.Route.{
  Charge, charged, refused_charge, raised, BillingService, Upstream, responded, timed_out,
  unreachable, GatewayReply, service_unavailable, Request, Settings, breaker_or_new, get_or_create,
  World, forward, after_charge, ask_breaker, after_key_limit, after_user_limit, after_revoked,
  after_resolved, with_header, proxy, proxy_all,
}

-- No breaker has been told of any outcome.
abbrev pub Untold : Dict Breaker → Type 0
Untold breakers = All (λ (e : String × Breaker). e.1.stored ≡ none) breakers

lookup-Untold :
    (slug : String) (now : ℕ) (breakers : Dict Breaker)
    → Untold breakers
    → (breaker_or_new now (lookup slug breakers)).stored ≡ none
unfolding lookup
lookup-Untold slug now [] u = refl
lookup-Untold slug now ((k, b) ∷ bs) u =
    ite-intro (λ o. (breaker_or_new now o).stored ≡ none) (str_dec k slug) _ _ (λ e. u.0)
      (λ e. lookup-Untold slug now bs u.1)

insert-Untold :
    (slug : String) (b : Breaker) (breakers : Dict Breaker)
    → b.stored ≡ none
    → Untold breakers
    → Untold (insert slug b breakers)
unfolding insert
insert-Untold slug b [] h u = (h, tt)
insert-Untold slug b ((k, x) ∷ bs) h u =
    ite-intro Untold (str_dec k slug) _ _ (λ e. (h, u.1))
      (λ e. (u.0, insert-Untold slug b bs h u.1))

untold_passes :
    (c : callora_backend.CircuitBreaker.Config) (now : ℕ) (b : Breaker)
    → b.stored ≡ none
    → would_block c now b ≡ false
unfolding would_block get_metrics
untold_passes c now b h = rw h refl

module _ (sha256_hex : String → String) (billing : BillingService) (settings : Settings) where
  -- An answer other than that the breaker is open, and breakers that were still told nothing.
  abbrev pub NotBlocked : GatewayReply × World sha256_hex billing settings → Type 0
  NotBlocked (r, w) = (r ≢ service_unavailable) × Untold w.breakers

  abbrev W : Type 0
  W = World sha256_hex billing settings

  forward-NotBlocked :
      (q : Request) (header : String) (owner : ApiKey) (x : Upstream) (w : W)
      → Untold w.breakers
      → NotBlocked (forward sha256_hex billing settings q header owner x w)
  forward-NotBlocked q header owner (responded s) w u = (λ e. cc, u)
  forward-NotBlocked q header owner timed_out w u = (
    if-intro (λ r. r ≢ service_unavailable) settings.bindings.open_error _ _ (λ b e. cc)
        (λ b e. cc),
    u,
  )
  forward-NotBlocked q header owner unreachable w u = (
    if-intro (λ r. r ≢ service_unavailable) settings.bindings.open_error _ _ (λ b e. cc)
        (λ b e. cc),
    u,
  )

  after_charge-NotBlocked :
      (q : Request) (header : String) (owner : ApiKey) (p : Charge × billing.Ledger) (w : W)
      → Untold w.breakers
      → NotBlocked (after_charge sha256_hex billing settings q header owner p w)
  after_charge-NotBlocked q header owner (charged, l) w u =
      forward-NotBlocked q header owner q.upstream (record w { ledger = l }) u
  after_charge-NotBlocked q header owner (refused_charge, l) w u = (λ e. cc, u)
  after_charge-NotBlocked q header owner (raised, l) w u = (λ e. cc, u)

  ask_breaker-NotBlocked :
      (q : Request) (header : String) (owner : ApiKey) (w : W)
      → Untold w.breakers
      → NotBlocked (ask_breaker sha256_hex billing settings q header owner w)
  ask_breaker-NotBlocked q header owner w u =
      if-intro NotBlocked settings.bindings.env _ _
        (λ b.
          rw
            (untold_passes settings.breaker q.now (get_or_create q.api_id q.now w.breakers).0
              (lookup-Untold q.api_id q.now w.breakers u))
            (after_charge-NotBlocked q header owner _ _
              (insert-Untold q.api_id _ w.breakers (lookup-Untold q.api_id q.now w.breakers u) u)))
        (λ b. (λ e. cc, u))

  after_key_limit-NotBlocked :
      (q : Request) (header : String) (owner : ApiKey) (p : RateLimitResult × MemoryStore) (w : W)
      → Untold w.breakers
      → NotBlocked (after_key_limit sha256_hex billing settings q header owner p w)
  after_key_limit-NotBlocked q header owner (denied ms, bs) w u = (λ e. cc, u)
  after_key_limit-NotBlocked q header owner (allowed, bs) w u =
      ask_breaker-NotBlocked q header owner (record w { buckets = bs }) u

  after_user_limit-NotBlocked :
      (q : Request) (header : String) (owner : ApiKey) (p : Answer × Dict Bucket) (w : W)
      → Untold w.breakers
      → NotBlocked (after_user_limit sha256_hex billing settings q header owner p w)
  after_user_limit-NotBlocked q header owner (limited ms, us) w u = (λ e. cc, u)
  after_user_limit-NotBlocked q header owner (passed, us) w u =
      after_key_limit-NotBlocked q header owner _ (record w { users = us }) u

  after_revoked-NotBlocked :
      (q : Request) (header : String) (owner : ApiKey) (p : Bool × Dict RevocationEntry) (w : W)
      → Untold w.breakers
      → NotBlocked (after_revoked sha256_hex billing settings q header owner p w)
  after_revoked-NotBlocked q header owner (true, rv) w u = (λ e. cc, u)
  after_revoked-NotBlocked q header owner (false, rv) w u =
      if-intro NotBlocked owner.revoked _ _ (λ e. (λ r. cc, u))
        (λ e. after_user_limit-NotBlocked q header owner _ (record w { revoked = rv }) u)

  after_resolved-NotBlocked :
      (q : Request) (header : String) (o : Resolved) (w : W)
      → Untold w.breakers
      → NotBlocked (after_resolved sha256_hex billing settings q header o w)
  after_resolved-NotBlocked q header not_found w u = (λ e. cc, u)
  after_resolved-NotBlocked q header hash_mismatch w u = (λ e. cc, u)
  after_resolved-NotBlocked q header (found owner) w u =
      ite-intro NotBlocked (str_dec owner.api_id q.api_id) _ _
        (λ e.
          if-intro NotBlocked settings.bindings.revocation_service _ _
            (λ n. after_revoked-NotBlocked q header owner _ w u) (λ n. (λ r. cc, u)))
        (λ e. (λ r. cc, u))

  with_header-NotBlocked :
      (q : Request) (o : Option String) (w : W)
      → Untold w.breakers
      → NotBlocked (with_header sha256_hex billing settings q o w)
  with_header-NotBlocked q none w u = (λ e. cc, u)
  with_header-NotBlocked q (some header) w u =
      ite-intro NotBlocked (str_dec header "") _ _ (λ e. (λ r. cc, u))
        (λ e. after_resolved-NotBlocked q header _ w u)

  -- On breakers that were told nothing, no request is ever refused because a breaker is open, after
  -- any requests and however their upstreams failed.
  pub proxy_all-NotBlocked :
      (qs : List Request) (q : Request) (w : W)
      → Untold w.breakers
      → NotBlocked
          (proxy sha256_hex billing settings q (proxy_all sha256_hex billing settings qs w))
  unfolding proxy proxy_all
  proxy_all-NotBlocked [] q w u = with_header-NotBlocked q q.api_key w u
  proxy_all-NotBlocked (x ∷ xs) q w u =
      proxy_all-NotBlocked xs q _ (with_header-NotBlocked x x.api_key w u).1
