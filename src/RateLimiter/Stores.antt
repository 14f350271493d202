-- ===== src/RateLimiter/Stores.antt =====
-- services/rateLimiter.ts: the store in PostgreSQL does what the store in memory does, keys are
-- independent, and which policy a tier gets.
use callora_backend.Common.{
  ℕ, ◌≡◌, ◌≢◌, refl, String, [], ◌∷◌, Option, none, some, arith, Dict, lookup, insert,
  lookup-insert_self, lookup-insert_ne, Option-cases, inl, inr,
}
use callora_backend.RateLimiter.{
  TokenBucket, CheckOptions, RateLimitResult, MemoryStore, check_in_memory,
  compute_rate_limit_result, Driver, normalize_token_bucket_value, check_in_postgres, Checked,
  result, TierPolicy, Limiter, resolve_policy, check, read_row,
}

-- What the driver hands out for an integer column is read back as that integer.
abbrev pub IsFaithful : Driver → Type 0
IsFaithful driver = (n : ℕ) → normalize_token_bucket_value (driver n) ≡ some n

insert-insert {ℓ} :
    {V : Type ℓ} (k : String) (v w : V) (d : Dict V) → insert k v (insert k w d) ≡ insert k v d
unfolding insert
insert-insert k v w [] = ground arith
insert-insert k v w ((j, x) ∷ d) = ground (arith, insert-insert k v w d)

read_row_faithful :
    (driver : Driver) (b : TokenBucket) → IsFaithful driver → read_row driver b ≡ some b
read_row_faithful driver b h = ground (arith, h b.tokens, h b.last_refill)

-- What the store in memory answers, as the other store reports it.
abbrev pub as_checked : RateLimitResult × MemoryStore → Checked × MemoryStore
as_checked (r, t) = (result r, t)

compute_new :
    (o : CheckOptions)
    → compute_rate_limit_result none o.max_requests o.window_ms o.now
      ≡ compute_rate_limit_result
          (some (record { tokens = o.max_requests; last_refill = o.now }))
          o.max_requests
          o.window_ms
          o.now
unfolding compute_rate_limit_result
compute_new o = refl

-- With such a driver the two stores give the same answer and keep the same buckets, for a new key
-- and for a known one; so the transaction never fails for a missing row or a bad value.
pub check_in_postgres_lem :
    (driver : Driver) (k : String) (o : CheckOptions) (t : MemoryStore)
    → IsFaithful driver
    → check_in_postgres driver k o t ≡ as_checked (check_in_memory k o t)
unfolding check_in_postgres check_in_memory
check_in_postgres_lem driver k o t h = elim (Option-cases (lookup k t)) [
  | inl e ↦
      let full : TokenBucket = record { tokens = o.max_requests; last_refill = o.now } in
      ground (
        arith,
        lookup-insert_self k full t,
        read_row_faithful driver full h,
        compute_new o,
        insert-insert k (compute_rate_limit_result (some full) o.max_requests o.window_ms o.now).0
            full t,
      )
  | inr (b, e) ↦ ground (arith, read_row_faithful driver b h)
]

-- A check of one key leaves the bucket of every other key alone, and stores the bucket that it
-- computed under its own.
pub check_keys :
    (limiter : Limiter) (k j : String) (tier : Option String) (now : ℕ) (t : MemoryStore)
    → k ≢ j
    → let p = resolve_policy limiter tier in
      let t' = (check limiter k tier now t).1 in
      (lookup j t' ≡ lookup j t)
      × (lookup k t'
          ≡ some (compute_rate_limit_result (lookup k t) p.max_requests p.window_ms now).0)
unfolding check
check_keys limiter k j tier now t h = (lookup-insert_ne k j _ t h, lookup-insert_self k _ t)

-- The policy of a call: the limiter's own for no tier, the empty one or one that it does not list,
-- and the listed one for any other.
pub resolve_policy_lem :
    (limiter : Limiter) (tier : String) (p : TierPolicy)
    → (resolve_policy limiter none ≡ limiter.base)
      × (resolve_policy limiter (some "") ≡ limiter.base)
      × (lookup tier limiter.tier_policies ≡ none
          → resolve_policy limiter (some tier) ≡ limiter.base)
      × (tier ≢ ""
          → lookup tier limiter.tier_policies ≡ some p
          → resolve_policy limiter (some tier) ≡ p)
unfolding resolve_policy
resolve_policy_lem limiter tier p = (refl, ground arith, λ e. ground arith, λ h e. ground arith)
