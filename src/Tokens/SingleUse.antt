-- ===== src/Tokens/SingleUse.antt =====
-- controllers/authController.ts: a refresh token is good for one refresh, and reuse revokes the tokens
-- of the user.
use callora_backend.Common.{
  ℕ, ◌≡◌, ◌≢◌, refl, sym, subst, ap, ◌∙◌, inl, inr, String, List, [], ◌∷◌, Bool, true, false,
  Option, none, some, ltb, str_dec, All, arith, Bool-cases, ite-intro, if-intro,
}
use callora_backend.Tokens.{
  RefreshToken, find_refresh_token_by_id, revoke_refresh_token, cleanup_expired_tokens,
}
use callora_backend.Tokens.Refresh.{
  Payload, Platform, Drawn, revoked_token, refreshed, Verdict, reused, rotates, rejected, Operation,
  refreshes, revokes, revokes_all, revokes_family, cleans_up, create_refresh_token_record,
  rotate_refresh_token, judge_stored, judge_payload, judge, conclude, refresh, revoke_found,
  revoke_payload, revoke_token, operate, operate_all,
}
use callora_backend.Tokens.Spent.{
  Spent, revoke_where-Spent, own_spends, cleanup-Spent, find-Spent, find-has_id, DrawsOther,
  has_id-same, create-Spent,
}

abbrev payload_or : Payload → Option Payload → Payload
payload_or p none = p
payload_or p (some q) = q

module _ (platform : Platform) (refresh_ttl_ms : ℕ) where
  rotate-Spent :
      (id user_id : String) (t : RefreshToken) (d : Drawn) (ts : List RefreshToken)
      → d.new_id ≢ id
      → Spent id user_id (revoke_refresh_token t.id t.user_id ts)
      → Spent id user_id (rotate_refresh_token platform refresh_ttl_ms t d ts).1
  unfolding rotate_refresh_token
  rotate-Spent id user_id t d ts h s = elim (Bool-cases d.insert_fails) [
    | inl e ↦ rw e s
    | inr e ↦ rw e (
        create-Spent id user_id
          (create_refresh_token_record platform refresh_ttl_ms t.user_id d t.family_id) _ h s)
  ]

  conclude-Spent :
      (id user_id : String) (v : Verdict) (d : Drawn) (ts : List RefreshToken)
      → d.new_id ≢ id
      → Spent id user_id ts
      → Spent id user_id (conclude platform refresh_ttl_ms v d ts).1
  unfolding conclude
  conclude-Spent id user_id (reused t) d ts h s = revoke_where-Spent id user_id _ ts s
  conclude-Spent id user_id (rotates t) d ts h s =
      rotate-Spent id user_id t d ts h (revoke_where-Spent id user_id _ ts s)
  conclude-Spent id user_id (rejected r) d ts h s = s

  revoke_found-Spent :
      (id user_id token : String) (o : Option RefreshToken) (ts : List RefreshToken)
      → Spent id user_id ts
      → Spent id user_id (revoke_found platform refresh_ttl_ms token o ts)
  revoke_found-Spent id user_id token none ts s = s
  revoke_found-Spent id user_id token (some t) ts s =
      ite-intro (Spent id user_id) (str_dec (platform.hash_token token) t.token_hash) _ ts
        (λ e. revoke_where-Spent id user_id _ ts s) (λ e. s)

  revoke_payload-Spent :
      (id user_id token : String) (o : Option Payload) (ts : List RefreshToken)
      → Spent id user_id ts
      → Spent id user_id (revoke_payload platform refresh_ttl_ms token o ts)
  revoke_payload-Spent id user_id token none ts s = s
  revoke_payload-Spent id user_id token (some p) ts s =
      revoke_found-Spent id user_id token (find_refresh_token_by_id p.token_id p.user_id ts) ts s

  operate-Spent :
      (id user_id : String) (o : Operation) (ts : List RefreshToken)
      → DrawsOther id o
      → Spent id user_id ts
      → Spent id user_id (operate platform refresh_ttl_ms o ts)
  unfolding operate refresh revoke_token cleanup_expired_tokens
  operate-Spent id user_id (refreshes token d) ts h s = conclude-Spent id user_id _ d ts h s
  operate-Spent id user_id (revokes token now) ts h s =
      ite-intro (Spent id user_id) (str_dec token "") ts _ (λ e. s)
        (λ e. revoke_payload-Spent id user_id token (platform.verify token now) ts s)
  operate-Spent id user_id (revokes_all u) ts h s = revoke_where-Spent id user_id _ ts s
  operate-Spent id user_id (revokes_family f u) ts h s = revoke_where-Spent id user_id _ ts s
  operate-Spent id user_id (cleans_up now) ts h s = cleanup-Spent id user_id _ ts s

  operate_all-Spent :
      (id user_id : String) (os : List Operation) (ts : List RefreshToken)
      → All (DrawsOther id) os
      → Spent id user_id ts
      → Spent id user_id (operate_all platform refresh_ttl_ms os ts)
  unfolding operate_all
  operate_all-Spent id user_id [] ts h s = s
  operate_all-Spent id user_id (o ∷ os) ts h s =
      operate_all-Spent id user_id os _ h.1 (operate-Spent id user_id o ts h.0 s)

  -- The stored token that a verdict is about.
  abbrev About : Bool → String → ℕ → List RefreshToken → RefreshToken → Type 0
  About b token now ts t =
      (p : Payload) × (platform.verify token now ≡ some p)
      × (find_refresh_token_by_id p.token_id p.user_id ts ≡ some t)
      × (t.is_revoked ≡ b)

  -- A verdict is one to rotate only for a stored token that is not revoked, and one of reuse only for
  -- a stored one that is.
  abbrev Behind : String → ℕ → List RefreshToken → Verdict → Type 0
  Behind token now ts (reused t) = About true token now ts t
  Behind token now ts (rotates t) = About false token now ts t
  Behind token now ts (rejected r) = (r ≢ revoked_token) × ((x : String) → r ≢ refreshed x)

  judge_stored-Behind :
      (token : String) (now : ℕ) (ts : List RefreshToken) (p : Payload) (o : Option RefreshToken)
      → platform.verify token now ≡ some p
      → find_refresh_token_by_id p.token_id p.user_id ts ≡ o
      → Behind token now ts (judge_stored platform refresh_ttl_ms token now o)
  judge_stored-Behind token now ts p none v f = (λ e. cc, λ x e. cc)
  judge_stored-Behind token now ts p (some t) v f =
      if-intro (Behind token now ts) t.is_revoked _ _ (λ e. (p, v, f, e))
        (λ e.
          if-intro (Behind token now ts) (ltb t.expires_at now) _ _ (λ q. (λ h. cc, λ x h. cc))
            (λ q.
              ite-intro (Behind token now ts) (str_dec (platform.hash_token token) t.token_hash) _ _
                (λ h. (p, v, f, e)) (λ h. (λ r. cc, λ x r. cc))))

  judge_payload-Behind :
      (token : String) (now : ℕ) (ts : List RefreshToken) (o : Option Payload)
      → platform.verify token now ≡ o
      → Behind token now ts (judge_payload platform refresh_ttl_ms token now ts o)
  judge_payload-Behind token now ts none v = (λ e. cc, λ x e. cc)
  judge_payload-Behind token now ts (some p) v = judge_stored-Behind token now ts p _ v refl

  judge-Behind :
      (token : String) (now : ℕ) (ts : List RefreshToken)
      → Behind token now ts (judge platform refresh_ttl_ms token now ts)
  unfolding judge
  judge-Behind token now ts =
      ite-intro (Behind token now ts) (str_dec token "") _ _ (λ e. (λ q. cc, λ x q. cc))
        (λ e. judge_payload-Behind token now ts _ refl)

  -- A refresh that succeeds found the token stored and not revoked, and leaves it spent.
  conclude-refreshed :
      (token : String) (d : Drawn) (ts : List RefreshToken) (v : Verdict) (x : String)
      → Behind token d.now ts v
      → (conclude platform refresh_ttl_ms v d ts).0 ≡ refreshed x
      → (p : Payload) × (platform.verify token d.now ≡ some p)
        × ((d.new_id ≢ p.token_id)
            → Spent p.token_id p.user_id (conclude platform refresh_ttl_ms v d ts).1)
        × ¬ (Spent p.token_id p.user_id ts)
  unfolding conclude
  conclude-refreshed token d ts (reused t) x b e = cc
  conclude-refreshed token d ts (rejected r) x b e = absurd (b.1 x e)
  conclude-refreshed token d ts (rotates t) x (p, v, f, n) e = (
    p,
    v,
    λ h. rotate-Spent p.token_id p.user_id t d ts h (
        own_spends t.id t.user_id p.token_id p.user_id ts
          (has_id-same p.token_id p.user_id t (find-has_id p.token_id p.user_id ts t f)).0
          (has_id-same p.token_id p.user_id t (find-has_id p.token_id p.user_id ts t f)).1),
    λ s. ground (arith, find-Spent p.token_id p.user_id ts t s f, n),
  )

  conclude_race :
      (token : String) (now : ℕ) (ts : List RefreshToken) (v : Verdict) (d d' : Drawn) (x : String)
      → Behind token now ts v
      → d'.insert_fails ≡ false
      → (conclude platform refresh_ttl_ms v d ts).0 ≡ refreshed x
      → (conclude platform refresh_ttl_ms v d' (conclude platform refresh_ttl_ms v d ts).1).0
        ≡ refreshed d'.new_token
  unfolding conclude rotate_refresh_token
  conclude_race token now ts (reused t) d d' x b f e = cc
  conclude_race token now ts (rejected r) d d' x b f e = absurd (b.1 x e)
  conclude_race token now ts (rotates t) d d' x b f e = rw f refl

  -- A token that has been refreshed is never refreshed again, whatever refreshes, revocations and
  -- clean-ups come in between, one after the other, if they draw other ids and the token, whenever it
  -- verifies, carries the same claims.
  pub refresh_once :
      (token : String) (p : Payload) (d d' : Drawn) (ts : List RefreshToken) (os : List Operation)
      (x : String)
      → platform.verify token d.now ≡ some p
      → ((q : Payload) → platform.verify token d'.now ≡ some q → q ≡ p)
      → d.new_id ≢ p.token_id
      → All (DrawsOther p.token_id) os
      → (refresh platform refresh_ttl_ms token d ts).0 ≡ refreshed x
      → (y : String)
      → (refresh platform refresh_ttl_ms token d'
          (operate_all platform refresh_ttl_ms os (refresh platform refresh_ttl_ms token d ts).1)).0
        ≢ refreshed y
  unfolding refresh
  refresh_once token p d d' ts os x v stable h hs e y e' =
      let (q, vq, spent, n) = conclude-refreshed token d ts _ x (judge-Behind token d.now ts) e in
      let (q', vq', spent', n') =
        conclude-refreshed token d' _ _ y (judge-Behind token d'.now _) e' in
      let same_claims = ap (payload_or p) (sym vq ∙ v) in
      n' (
        subst
          (λ r.
            Spent r.token_id r.user_id (
              operate_all platform refresh_ttl_ms os
                (refresh platform refresh_ttl_ms token d ts).1))
          (sym (stable q' vq'))
          (operate_all-Spent p.token_id p.user_id os _ hs (
            subst
              (λ r.
                d.new_id ≢ r.token_id
                → Spent r.token_id r.user_id (refresh platform refresh_ttl_ms token d ts).1)
              same_claims spent h)))

  -- Of two refreshes of one token that both read the table before either writes to it, the second
  -- succeeds after the first has, if its own insertion does not fail.
  pub refresh_race :
      (token : String) (d d' : Drawn) (ts : List RefreshToken) (x : String)
      → d'.insert_fails ≡ false
      → (refresh platform refresh_ttl_ms token d ts).0 ≡ refreshed x
      → (conclude platform refresh_ttl_ms
          (judge platform refresh_ttl_ms token d.now ts)
          d'
          (refresh platform refresh_ttl_ms token d ts).1).0
        ≡ refreshed d'.new_token
  unfolding refresh
  refresh_race token d d' ts x f e =
      conclude_race token d.now ts _ d d' x (judge-Behind token d.now ts) f e
