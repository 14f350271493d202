-- ===== src/Tokens/Refresh.antt =====
-- controllers/authController.ts and services/refreshTokenService.ts: the refresh, the revocation of
-- one token and of all. Signing, verifying and hashing are the platform's, and parameters.
use callora_backend.Common.{
  ℕ, ◌+◌, String, List, [], ◌∷◌, Bool, false, Option, none, some, ltb, if◌then◌else◌, ite, str_dec,
}
use callora_backend.Tokens.{
  RefreshToken, find_refresh_token_by_id, revoke_refresh_token, revoke_all_user_tokens,
  create_refresh_token, cleanup_expired_tokens, revoke_family,
}

-- `RefreshTokenPayload`, once it is verified.
pub record Payload : Type 0 where
  pub user_id : String
  pub token_id : String

-- What the platform does for a token: its verification at a time, and its hash.
pub record Platform : Type 0 where
  pub verify : String → ℕ → Option Payload
  pub hash_token : String → String

-- What is drawn for one refresh: the new token with its id, and the outcome of its insertion.
pub record Drawn : Type 0 where
  pub now : ℕ
  pub new_token : String
  pub new_id : String
  pub new_family : String
  pub insert_fails : Bool

pub data RefreshReply : Type 0 where
  missing_token invalid_token revoked_token expired_token refresh_failed : RefreshReply
  refreshed : (token : String) → RefreshReply

-- `isTokenExpired`
abbrev pub is_token_expired : ℕ → ℕ → Bool
is_token_expired now expires_at = ltb expires_at now

-- What the checks of a stored token come to.
pub data Verdict : Type 0 where
  reused rotates : RefreshToken → Verdict
  rejected : RefreshReply → Verdict

-- `handleReuse`
abbrev pub handle_reuse : RefreshToken → List RefreshToken → List RefreshToken
handle_reuse stored ts = revoke_all_user_tokens stored.user_id ts

-- The operations on the table.
pub data Operation : Type 0 where
  refreshes : String → Drawn → Operation
  revokes : String → ℕ → Operation
  revokes_all : String → Operation
  revokes_family : String → String → Operation
  cleans_up : ℕ → Operation

module _ (platform : Platform) (refresh_ttl_ms : ℕ) where
  -- `createRefreshTokenRecord`; `familyId || randomUUID()`
  abbrev pub create_refresh_token_record : String → Drawn → String → RefreshToken
  create_refresh_token_record user_id d family_id = record {
    id = d.new_id;
    user_id = user_id;
    token_hash = platform.hash_token d.new_token;
    expires_at = d.now + refresh_ttl_ms;
    created_at = d.now;
    is_revoked = false;
    family_id = ite (str_dec family_id "") d.new_family family_id;
  }

  -- `rotateRefreshToken`: the consumed token is revoked before the insertion, which may fail.
  unfoldable pub rotate_refresh_token :
      RefreshToken → Drawn → List RefreshToken → RefreshReply × List RefreshToken
  rotate_refresh_token consumed d ts =
      let revoked = revoke_refresh_token consumed.id consumed.user_id ts in
      if d.insert_fails then (refresh_failed, revoked) else (
        refreshed d.new_token,
        create_refresh_token (create_refresh_token_record consumed.user_id d consumed.family_id)
            revoked,
      )

  abbrev pub judge_stored : String → ℕ → Option RefreshToken → Verdict
  judge_stored token now none = rejected invalid_token
  judge_stored token now (some t) =
      if t.is_revoked
      then reused t
      else if is_token_expired now t.expires_at
      then rejected expired_token
      else ite (str_dec (platform.hash_token token) t.token_hash) (rotates t)
          (rejected invalid_token)

  abbrev pub judge_payload : String → ℕ → List RefreshToken → Option Payload → Verdict
  judge_payload token now ts none = rejected invalid_token
  judge_payload token now ts (some p) =
      judge_stored token now (find_refresh_token_by_id p.token_id p.user_id ts)

  -- `refreshToken` of the controller up to the rotation, which reads the table once.
  unfoldable pub judge : String → ℕ → List RefreshToken → Verdict
  unfolding find_refresh_token_by_id
  judge token now ts =
      ite (str_dec token "") (rejected missing_token)
        (judge_payload token now ts (platform.verify token now))

  -- The rest of it, on the table at that time.
  unfoldable pub conclude : Verdict → Drawn → List RefreshToken → RefreshReply × List RefreshToken
  unfolding rotate_refresh_token
  conclude (reused t) d ts = (revoked_token, handle_reuse t ts)
  conclude (rotates t) d ts = rotate_refresh_token t d ts
  conclude (rejected r) d ts = (r, ts)

  -- `refreshToken` with no other request in between.
  unfoldable pub refresh : String → Drawn → List RefreshToken → RefreshReply × List RefreshToken
  unfolding judge conclude
  refresh token d ts = conclude (judge token d.now ts) d ts

  abbrev pub revoke_found : String → Option RefreshToken → List RefreshToken → List RefreshToken
  revoke_found token none ts = ts
  revoke_found token (some t) ts =
      ite (str_dec (platform.hash_token token) t.token_hash)
        (revoke_refresh_token t.id t.user_id ts) ts

  abbrev pub revoke_payload : String → Option Payload → List RefreshToken → List RefreshToken
  revoke_payload token none ts = ts
  revoke_payload token (some p) ts =
      revoke_found token (find_refresh_token_by_id p.token_id p.user_id ts) ts

  -- `revokeToken` of the controller, what it leaves.
  unfoldable pub revoke_token : String → ℕ → List RefreshToken → List RefreshToken
  unfolding find_refresh_token_by_id
  revoke_token token now ts =
      ite (str_dec token "") ts (revoke_payload token (platform.verify token now) ts)

  unfoldable pub operate : Operation → List RefreshToken → List RefreshToken
  unfolding refresh revoke_token cleanup_expired_tokens
  operate (refreshes token d) ts = (refresh token d ts).1
  operate (revokes token now) ts = revoke_token token now ts
  operate (revokes_all user_id) ts = revoke_all_user_tokens user_id ts
  operate (revokes_family family_id user_id) ts = revoke_family family_id user_id ts
  operate (cleans_up now) ts = cleanup_expired_tokens now ts

  unfoldable pub operate_all : List Operation → List RefreshToken → List RefreshToken
  unfolding operate
  operate_all [] ts = ts
  operate_all (o ∷ os) ts = operate_all os (operate o ts)
