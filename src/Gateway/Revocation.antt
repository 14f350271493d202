-- ===== src/Gateway/Revocation.antt =====
-- services/tokenRevocation.ts: the list of revoked tokens in memory, by their hash. Times are
-- milliseconds. The timer of the sweeper is outside: its callback is `cleanup_expired`.
use callora_backend.Common.{
  ℕ, ◌+◌, ◌<◌, ◌≤◌, ◌≡◌, ◌≢◌, refl, sym, subst, inl, inr, String, List, [], ◌∷◌, Bool, true, false,
  Option, none, some, ltb, if◌then◌else◌, Dict, lookup, insert, erase, keep, str_dec, length, arith,
  Bool-cases, Option-cases, lookup-insert_self, lookup-insert_ne, lookup-erase_self,
  lookup-erase_ne, not,
}

pub record RevocationEntry : Type 0 where
  pub revoked_at : ℕ
  pub expires_at : ℕ

-- `expiresAt && expiresAt > 0 ? expiresAt : now + this.defaultTtlMs`
abbrev pub effective_expiry : ℕ → Option ℕ → ℕ → ℕ
effective_expiry default_ttl_ms none now = now + default_ttl_ms
effective_expiry default_ttl_ms (some t) now = if ltb 0 t then t else now + default_ttl_ms

-- `revoke`
unfoldable pub revoke : ℕ → String → Option ℕ → ℕ → Dict RevocationEntry → Dict RevocationEntry
unfolding insert
revoke default_ttl_ms token_hash expires_at now tokens =
    insert token_hash
      (record { revoked_at = now; expires_at = effective_expiry default_ttl_ms expires_at now })
      tokens

abbrev pub revoked_entry :
    String → ℕ → Dict RevocationEntry → Option RevocationEntry → Bool × Dict RevocationEntry
revoked_entry token_hash now tokens none = (false, tokens)
revoked_entry token_hash now tokens (some e) =
    if ltb e.expires_at now then (false, erase token_hash tokens) else (true, tokens)

-- `isRevoked`, which forgets an entry that has expired.
unfoldable pub is_revoked : String → ℕ → Dict RevocationEntry → Bool × Dict RevocationEntry
unfolding erase lookup
is_revoked token_hash now tokens = revoked_entry token_hash now tokens (lookup token_hash tokens)

-- `reinstate`
unfoldable pub reinstate : String → Dict RevocationEntry → Dict RevocationEntry
unfolding erase
reinstate token_hash tokens = erase token_hash tokens

-- `revokeAll`
unfoldable pub revoke_all : ℕ → List String → ℕ → Dict RevocationEntry → ℕ × Dict RevocationEntry
unfolding revoke
revoke_all default_ttl_ms [] now tokens = (0, tokens)
revoke_all default_ttl_ms (h ∷ hs) now tokens =
    let (n, tokens') = revoke_all default_ttl_ms hs now (revoke default_ttl_ms h none now tokens) in
    (n + 1, tokens')

-- `cleanupExpired`
unfoldable pub cleanup_expired : ℕ → Dict RevocationEntry → Dict RevocationEntry
cleanup_expired now tokens = keep (λ e. not (ltb e.1.expires_at now)) tokens

-- `getRevokedCount`
unfoldable pub get_revoked_count : ℕ → Dict RevocationEntry → ℕ × Dict RevocationEntry
unfolding cleanup_expired
get_revoked_count now tokens = (length (cleanup_expired now tokens), cleanup_expired now tokens)

-- What the tokens answer at a time.
abbrev pub revoked_at_time : String → ℕ → Dict RevocationEntry → Bool
revoked_at_time h t tokens = (is_revoked h t tokens).0

by_expiry :
    (k : String) (t : ℕ) (tokens : Dict RevocationEntry) (a x : ℕ)
    → (revoked_entry k t tokens (some (record { revoked_at = a; expires_at = x }))).0
      ≡ not (ltb x t)
by_expiry k t tokens a x = ground arith

same_flag :
    (k : String) (t : ℕ) (tokens tokens' : Dict RevocationEntry) (o : Option RevocationEntry)
    → (revoked_entry k t tokens o).0 ≡ (revoked_entry k t tokens' o).0
same_flag k t tokens tokens' none = refl
same_flag k t tokens tokens' (some e) = ground arith

-- A revoked token counts as revoked up to its expiry, that moment included, and not after it; other
-- tokens answer as before.
pub revoke_lem :
    (default_ttl_ms : ℕ) (token_hash : String) (expires_at : Option ℕ) (now : ℕ)
    (tokens : Dict RevocationEntry)
    → let tokens' = revoke default_ttl_ms token_hash expires_at now tokens in
      ((t : ℕ)
        → revoked_at_time token_hash t tokens'
          ≡ not (ltb (effective_expiry default_ttl_ms expires_at now) t))
      × ((other : String) (t : ℕ)
          → other ≢ token_hash
          → revoked_at_time other t tokens' ≡ revoked_at_time other t tokens)
unfolding revoke is_revoked
revoke_lem default_ttl_ms token_hash expires_at now tokens = (
  λ t.
      rw
        (
          revoked_at_time,
          lookup-insert_self token_hash
              (record {
                revoked_at = now;
                expires_at = effective_expiry default_ttl_ms expires_at now;
              })
              tokens,
        )
        (by_expiry token_hash t _ now _),
  λ o t h.
      rw
        (
          revoked_at_time,
          lookup-insert_ne token_hash o
              (record {
                revoked_at = now;
                expires_at = effective_expiry default_ttl_ms expires_at now;
              })
              tokens (λ p. h (sym p)),
        )
        (same_flag o t _ tokens (lookup o tokens)),
)

expired_flag :
    (k : String) (t : ℕ) (e : RevocationEntry) (tokens : Dict RevocationEntry)
    → e.expires_at < t
    → false ≡ (revoked_entry k t tokens (some e)).0
expired_flag k t e tokens h = ground (arith, h)

erased_flag :
    (asked other : String) (t : ℕ) (e : RevocationEntry) (tokens : Dict RevocationEntry)
    → lookup asked tokens ≡ some e
    → e.expires_at < t
    → revoked_at_time other t (erase asked tokens) ≡ revoked_at_time other t tokens
unfolding is_revoked
erased_flag asked other t e tokens p h = elim (str_dec other asked) [
  | yes q ↦
      subst (λ k. revoked_at_time k t (erase asked tokens) ≡ revoked_at_time k t tokens) (sym q)
        (rw (revoked_at_time, lookup-erase_self asked tokens, p) (expired_flag asked t e tokens h))
  | no q ↦
      rw (revoked_at_time, lookup-erase_ne asked other tokens (λ r. q (sym r)))
        (same_flag other t _ tokens (lookup other tokens))
]

-- Asking forgets at most the entry that was asked for, and only once it has expired: no later
-- question of any token, at the same time or later, is answered differently.
pub is_revoked-SameAnswers :
    (asked other : String) (now t : ℕ) (tokens : Dict RevocationEntry)
    → now ≤ t
    → revoked_at_time other t (is_revoked asked now tokens).1 ≡ revoked_at_time other t tokens
unfolding is_revoked
is_revoked-SameAnswers asked other now t tokens h = elim (Option-cases (lookup asked tokens)) [
  | inl e ↦ rw e refl
  | inr (e, p) ↦ elim (Bool-cases (ltb e.expires_at now)) [
    | inl q ↦ rw (p, q) (erased_flag asked other t e tokens p (ground (arith, q, h)))
    | inr q ↦ rw (p, q) refl
  ]
]
