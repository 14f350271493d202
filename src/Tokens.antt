-- ===== src/Tokens.antt =====
-- repositories/refreshTokenRepository.ts: the table of refresh tokens, as its statements read and
-- write it. Times are milliseconds.
pub mod Refresh
pub mod Spent
pub mod SingleUse
use callora_backend.Common.{
  ℕ, String, List, [], ◌∷◌, ◌++◌, Bool, true, false, not, ◌&&◌, ◌||◌, Option, none, some, ltb,
  if◌then◌else◌, ite, str_dec, keep, length, map,
}

-- `RefreshToken`
pub record RefreshToken : Type 0 where
  pub id : String
  pub user_id : String
  pub token_hash : String
  pub expires_at : ℕ
  pub created_at : ℕ
  pub is_revoked : Bool
  pub family_id : String

abbrev pub same : String → String → Bool
same a b = ite (str_dec a b) true false

-- `WHERE id = $1 AND user_id = $2`
abbrev pub has_id : String → String → RefreshToken → Bool
has_id id user_id t = same t.id id && same t.user_id user_id

-- `findRefreshTokenById`: the first row.
unfoldable pub find_refresh_token_by_id : String → String → List RefreshToken → Option RefreshToken
find_refresh_token_by_id id user_id [] = none
find_refresh_token_by_id id user_id (t ∷ ts) =
    let rest = find_refresh_token_by_id id user_id ts in
    if has_id id user_id t then some t else rest

-- `UPDATE refresh_tokens SET is_revoked = true WHERE …`
unfoldable pub revoke_where : (RefreshToken → Bool) → List RefreshToken → List RefreshToken
revoke_where p [] = []
revoke_where p (t ∷ ts) = (if p t then record t { is_revoked = true } else t) ∷ revoke_where p ts

-- `revokeRefreshToken`
abbrev pub revoke_refresh_token : String → String → List RefreshToken → List RefreshToken
revoke_refresh_token id user_id ts = revoke_where (has_id id user_id) ts

-- `revokeFamily`
abbrev pub revoke_family : String → String → List RefreshToken → List RefreshToken
revoke_family family_id user_id ts =
    revoke_where (λ t. same t.family_id family_id && same t.user_id user_id) ts

-- `revokeAllUserTokens`
abbrev pub revoke_all_user_tokens : String → List RefreshToken → List RefreshToken
revoke_all_user_tokens user_id ts = revoke_where (λ t. same t.user_id user_id) ts

-- `createRefreshToken`
abbrev pub create_refresh_token : RefreshToken → List RefreshToken → List RefreshToken
create_refresh_token t ts = ts ++ t ∷ []

-- `cleanupExpiredTokens`
unfoldable pub cleanup_expired_tokens : ℕ → List RefreshToken → List RefreshToken
cleanup_expired_tokens now ts = keep (λ t. not (ltb t.expires_at now || t.is_revoked)) ts

-- `countActiveTokens`
unfoldable pub count_active_tokens : String → ℕ → List RefreshToken → ℕ
count_active_tokens user_id now ts =
    length (keep (λ t. same t.user_id user_id && (ltb now t.expires_at && not t.is_revoked)) ts)
