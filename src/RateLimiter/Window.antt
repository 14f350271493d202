-- ===== src/RateLimiter/Window.antt =====
-- services/rateLimiter.ts: how many calls one bucket lets through, and when it lets one through.
use callora_backend.Common.{
  ℕ, ◌+◌, ◌-◌, ◌*◌, ◌≤◌, ◌<◌, ◌≡◌, ◌↔◌, List, [], ◌∷◌, Option, none, some, All, arith,
}
use callora_backend.RateLimiter.{
  TokenBucket, RateLimitResult, allowed, denied, compute_rate_limit_result,
}

abbrev pub grant : RateLimitResult → ℕ
grant allowed = 1
grant (denied _) = 0

-- The checks of one bucket at the given times, one after the other: how many are allowed.
pub allowed_count : ℕ → ℕ → List ℕ → Option TokenBucket → ℕ
allowed_count m w [] b = 0
allowed_count m w (now ∷ times) b =
    let (next, r) = compute_rate_limit_result b m w now in
    grant r + allowed_count m w times (some next)

-- A time before the end of the bucket's window.
abbrev pub Before : ℕ → ℕ → Type 0
Before limit t = t < limit

inside_window :
    (m w : ℕ) (times : List ℕ) (b : TokenBucket)
    → All (Before (b.last_refill + w)) times
    → allowed_count m w times (some b) ≤ b.tokens
unfolding allowed_count compute_rate_limit_result
inside_window m w [] b h = omega arith
inside_window m w (now ∷ times) b (h, hs) =
    ground (
      arith,
      inside_window m w times b,
      inside_window m w times (record b { tokens = b.tokens - 1 }),
    )

Before-mono : (i j : ℕ) (times : List ℕ) → i ≤ j → All (Before i) times → All (Before j) times
Before-mono i j [] h a = tt
Before-mono i j (t ∷ times) h a = (omega arith, Before-mono i j times h a.1)

-- Times from `a` up to `a + w`.
abbrev pub Within : ℕ → ℕ → ℕ → Type 0
Within a w t = (a ≤ t) × (t < a + w)

Within-Before : (a w : ℕ) (times : List ℕ) → All (Within a w) times → All (Before (a + w)) times
Within-Before a w [] h = tt
Within-Before a w (t ∷ times) h = (h.0.1, Within-Before a w times h.1)

span_of_bucket :
    (m w a : ℕ) (times : List ℕ) (b : TokenBucket)
    → b.tokens ≤ m
    → All (Within a w) times
    → allowed_count m w times (some b) ≤ b.tokens + m
unfolding allowed_count compute_rate_limit_result
span_of_bucket m w a [] b k h = omega arith
span_of_bucket m w a (now ∷ times) b k ((h, h'), hs) = ground (
  arith,
  span_of_bucket m w a times b k hs,
  span_of_bucket m w a times (record b { tokens = b.tokens - 1 }),
  inside_window m w times (record { tokens = m - 1; last_refill = now })
      (Before-mono (a + w) (now + w) times (omega arith) (Within-Before a w times hs)),
  inside_window m w times (record { tokens = m; last_refill = now })
      (Before-mono (a + w) (now + w) times (omega arith) (Within-Before a w times hs)),
)

abbrev pub BucketFits : ℕ → Option TokenBucket → Type 0
BucketFits m none = Unit
BucketFits m (some b) = b.tokens ≤ m

-- A check leaves the bucket with no more tokens than the policy gives, if it held no more before.
pub compute-fits :
    (m w now : ℕ) (b : Option TokenBucket)
    → BucketFits m b
    → (compute_rate_limit_result b m w now).0.tokens ≤ m
unfolding compute_rate_limit_result
compute-fits m w now none h = ground arith
compute-fits m w now (some b) h = ground arith

fresh_bucket :
    (m w a : ℕ) (times : List ℕ) → All (Within a w) times → allowed_count m w times none ≤ 2 * m
unfolding allowed_count compute_rate_limit_result
fresh_bucket m w a [] h = omega arith
fresh_bucket m w a (now ∷ times) ((h, h'), hs) = ground (
  arith,
  inside_window m w times (record { tokens = m - 1; last_refill = now })
      (Before-mono (a + w) (now + w) times (omega arith) (Within-Before a w times hs)),
  inside_window m w times (record { tokens = m; last_refill = now })
      (Before-mono (a + w) (now + w) times (omega arith) (Within-Before a w times hs)),
)

-- Whatever the order of the times, of the calls that fall into a span of one window's length at
-- most two windows' worth are allowed, if the bucket holds no more tokens than the policy gives.
pub allowed_count_le :
    (m w a : ℕ) (times : List ℕ) (b : Option TokenBucket)
    → BucketFits m b
    → All (Within a w) times
    → allowed_count m w times b ≤ 2 * m
allowed_count_le m w a times (some b) k h = omega (arith, span_of_bucket m w a times b k h)
allowed_count_le m w a times none k h = fresh_bucket m w a times h

-- A denial always asks for a positive wait.
pub denied_pos :
    (m w now r : ℕ) (b : Option TokenBucket)
    → 0 < m
    → 0 < w
    → (compute_rate_limit_result b m w now).1 ≡ denied r
    → 0 < r
unfolding compute_rate_limit_result
denied_pos m w now r none pos h e = ground arith
denied_pos m w now r (some b) pos h e = ground arith

-- `retryAfterMs` is exact: after a denial at `now` with the wait `r`, under a policy that allows calls
-- at all, the bucket that is left allows a call at the time `t` exactly when `t` is `r` or more after
-- `now`.
pub retry_after_exact :
    (m w now t r : ℕ) (b : Option TokenBucket)
    → 0 < m
    → 0 < w
    → (compute_rate_limit_result b m w now).1 ≡ denied r
    → let next = some (compute_rate_limit_result b m w now).0 in
      ((compute_rate_limit_result next m w t).1 ≡ allowed) ↔ (now + r ≤ t)
unfolding compute_rate_limit_result
retry_after_exact m w now t r none pos win h = (λ k. ground arith, λ k. ground arith)
retry_after_exact m w now t r (some b) pos win h = (λ k. ground arith, λ k. ground arith)
