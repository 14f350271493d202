-- ===== src/Tokens/Spent.antt =====
-- repositories/refreshTokenRepository.ts: rows of a token that are revoked, and stay so.
use callora_backend.Common.{
  ◌≡◌, ◌≢◌, refl, inl, inr, String, List, [], ◌∷◌, Bool, true, false, some, str_dec, keep, All,
  All-append, arith, Bool-cases,
}
use callora_backend.Tokens.{
  RefreshToken, has_id, find_refresh_token_by_id, revoke_where, revoke_refresh_token,
  revoke_all_user_tokens, create_refresh_token,
}
use callora_backend.Tokens.Refresh.{
  Operation, refreshes, revokes, revokes_all, revokes_family, cleans_up,
}

-- Every row with the id and the user is revoked: the token cannot be refreshed.
abbrev pub Spent : String → String → List RefreshToken → Type 0
Spent id user_id ts =
    All (λ (t : RefreshToken). has_id id user_id t ≡ true → t.is_revoked ≡ true) ts

pub revoke_where-Spent :
    (id user_id : String) (p : RefreshToken → Bool) (ts : List RefreshToken)
    → Spent id user_id ts
    → Spent id user_id (revoke_where p ts)
unfolding revoke_where
revoke_where-Spent id user_id p [] s = tt
revoke_where-Spent id user_id p (t ∷ ts) s = elim (Bool-cases (p t)) [
  | inl e ↦ rw e (λ h. refl, revoke_where-Spent id user_id p ts s.1)
  | inr e ↦ rw e (s.0, revoke_where-Spent id user_id p ts s.1)
]

-- Revoking the rows of the token spends it.
revoke_where-spends :
    (id user_id : String) (ts : List RefreshToken)
    → Spent id user_id (revoke_where (has_id id user_id) ts)
unfolding revoke_where
revoke_where-spends id user_id [] = tt
revoke_where-spends id user_id (t ∷ ts) = elim (Bool-cases (has_id id user_id t)) [
  | inl e ↦ rw e (λ h. refl, revoke_where-spends id user_id ts)
  | inr e ↦ rw e (λ h. cc, revoke_where-spends id user_id ts)
]

pub own_spends :
    (a b id user_id : String) (ts : List RefreshToken)
    → a ≡ id
    → b ≡ user_id
    → Spent id user_id (revoke_refresh_token a b ts)
own_spends a b id user_id ts p q = rw (p, q) (revoke_where-spends id user_id ts)

pub cleanup-Spent :
    (id user_id : String) (p : RefreshToken → Bool) (ts : List RefreshToken)
    → Spent id user_id ts
    → Spent id user_id (keep p ts)
cleanup-Spent id user_id p [] s = tt
cleanup-Spent id user_id p (t ∷ ts) s = elim (Bool-cases (p t)) [
  | inl e ↦ rw e (s.0, cleanup-Spent id user_id p ts s.1)
  | inr e ↦ rw e (cleanup-Spent id user_id p ts s.1)
]

pub find-Spent :
    (id user_id : String) (ts : List RefreshToken) (t : RefreshToken)
    → Spent id user_id ts
    → find_refresh_token_by_id id user_id ts ≡ some t
    → t.is_revoked ≡ true
unfolding find_refresh_token_by_id
find-Spent id user_id [] t s e = cc
find-Spent id user_id (r ∷ rs) t s e = ground (arith, find-Spent id user_id rs t s.1, s.0, e)

pub find-has_id :
    (id user_id : String) (ts : List RefreshToken) (t : RefreshToken)
    → find_refresh_token_by_id id user_id ts ≡ some t
    → has_id id user_id t ≡ true
unfolding find_refresh_token_by_id
find-has_id id user_id [] t e = cc
find-has_id id user_id (r ∷ rs) t e = ground (arith, find-has_id id user_id rs t, e)

-- The operation draws another id than this.
abbrev pub DrawsOther : String → Operation → Type 0
DrawsOther id (refreshes token d) = d.new_id ≢ id
DrawsOther id (revokes token now) = Unit
DrawsOther id (revokes_all user_id) = Unit
DrawsOther id (revokes_family f user_id) = Unit
DrawsOther id (cleans_up now) = Unit

has_id_other : (id user_id : String) (t : RefreshToken) → t.id ≢ id → has_id id user_id t ≡ false
has_id_other id user_id t h = ground (arith, h)

pub has_id-same :
    (id user_id : String) (t : RefreshToken)
    → has_id id user_id t ≡ true
    → (t.id ≡ id) × (t.user_id ≡ user_id)
has_id-same id user_id t h = (ground (arith, h), ground (arith, h))

pub create-Spent :
    (id user_id : String) (t : RefreshToken) (ts : List RefreshToken)
    → t.id ≢ id
    → Spent id user_id ts
    → Spent id user_id (create_refresh_token t ts)
create-Spent id user_id t ts h s =
    All-append (λ (r : RefreshToken). has_id id user_id r ≡ true → r.is_revoked ≡ true) ts (t ∷ [])
      s (λ e. ground (arith, e, has_id_other id user_id t h), tt)

-- The tokens of a user are all revoked.
abbrev pub AllRevoked : String → List RefreshToken → Type 0
AllRevoked user_id ts = All (λ (t : RefreshToken). t.user_id ≡ user_id → t.is_revoked ≡ true) ts

pub revoke_all-AllRevoked :
    (user_id : String) (ts : List RefreshToken)
    → AllRevoked user_id (revoke_all_user_tokens user_id ts)
unfolding revoke_where
revoke_all-AllRevoked user_id [] = tt
revoke_all-AllRevoked user_id (t ∷ ts) = elim (str_dec t.user_id user_id) [
  | yes e ↦ (λ h. ground (arith, e), revoke_all-AllRevoked user_id ts)
  | no e ↦ (λ h. ground (arith, e, h), revoke_all-AllRevoked user_id ts)
]
