-- ===== src/Gateway/UserLimit.antt =====
-- middleware/gatewayRateLimit.ts: the bucket of one user, which refills continuously. A token is
-- `window_ms` parts, so that a millisecond adds `max_requests` parts and nothing is rounded; a clock
-- that goes back takes parts away, which may leave a debt.
use callora_backend.Common.{
  ℕ, ◌+◌, ◌-◌, ◌*◌, ◌/◌, ◌≤◌, ◌≡◌, refl, sym, subst, String, List, [], ◌∷◌, Option, none, some, leb,
  min, max, if◌then◌else◌, Dict, lookup, insert, arith, Bool-cases, inl, inr,
}

pub record Limit : Type 0 where
  pub window_ms : ℕ
  pub max_requests : ℕ

-- `tokens` is `(parts - debt) / window_ms`; one of the two is zero.
pub record Bucket : Type 0 where
  pub parts : ℕ
  pub debt : ℕ
  pub last_refill_at : ℕ

pub data Answer : Type 0 where
  passed : Answer
  limited : (retry_after_ms : ℕ) → Answer

-- `Math.min(maxRequests, tokens + elapsedMs * refillRate)`
abbrev pub refill : Limit → ℕ → Bucket → Bucket
refill lim now b =
    let gained = b.parts + now * lim.max_requests in
    let lost = b.debt + b.last_refill_at * lim.max_requests in
    record {
      parts = min (lim.max_requests * lim.window_ms) (gained - lost);
      debt = lost - gained;
      last_refill_at = now;
    }

-- `Math.ceil(a / b)` for a positive `b`
abbrev pub ceil_div : ℕ → ℕ → ℕ
ceil_div a b = (a + (b - 1)) / b

-- `Math.max(Math.ceil(tokensNeeded / refillRate), 1000)`
abbrev pub retry_after : Limit → Bucket → ℕ
retry_after lim b = max (ceil_div (lim.window_ms + b.debt - b.parts) lim.max_requests) 1000

abbrev pub take : Limit → Bucket → Answer × Bucket
take lim b =
    if leb (lim.window_ms + b.debt) b.parts
    then (passed, record b { parts = b.parts - lim.window_ms })
    else (limited (retry_after lim b), b)

-- The check of one bucket, which is there or not.
unfoldable pub check_bucket : Limit → ℕ → Option Bucket → Answer × Bucket
check_bucket lim now none = (
  passed,
  record {
    parts = (lim.max_requests - 1) * lim.window_ms;
    debt = (1 - lim.max_requests) * lim.window_ms;
    last_refill_at = now;
  },
)
check_bucket lim now (some b) = take lim (refill lim now b)

-- `InMemoryGatewayRateLimiter.check`
unfoldable pub check : Limit → String → ℕ → Dict Bucket → Answer × Dict Bucket
unfolding check_bucket lookup insert
check lim user_id now buckets =
    let (a, b) = check_bucket lim now (lookup user_id buckets) in (a, insert user_id b buckets)

abbrev pub count_of : Answer → ℕ
count_of passed = 1
count_of (limited r) = 0

-- The checks of one user, at these times in this order: how many pass, and the bucket that is left.
unfoldable pub checks : Limit → List ℕ → Bucket → ℕ × Bucket
unfolding check_bucket
checks lim [] b = (0, b)
checks lim (t ∷ ts) b =
    let (a, b') = check_bucket lim t (some b) in
    let (n, b'') = checks lim ts b' in (count_of a + n, b'')

-- The times do not go back from `t`, and end at `until` at the latest.
abbrev pub Ordered : ℕ → ℕ → List ℕ → Type 0
Ordered t until [] = t ≤ until
Ordered t until (u ∷ us) = (t ≤ u) × Ordered u until us

mul_mono : (a b c : ℕ) → a ≤ b → a * c ≤ b * c
mul_mono a b c h = grind (arith, h)

refill-parts :
    (lim : Limit) (now : ℕ) (b : Bucket)
    → b.debt ≡ 0
    → b.last_refill_at ≤ now
    → ((refill lim now b).parts + b.last_refill_at * lim.max_requests
        ≤ b.parts + now * lim.max_requests)
      × ((refill lim now b).debt ≡ 0)
      × ((refill lim now b).parts ≤ lim.max_requests * lim.window_ms)
refill-parts lim now b d h =
    let m = mul_mono b.last_refill_at now lim.max_requests h in
    (omega (arith, m, d), omega (arith, m, d), omega arith)

take-parts :
    (lim : Limit) (b : Bucket)
    → b.debt ≡ 0
    → (count_of (take lim b).0 * lim.window_ms + (take lim b).1.parts ≡ b.parts)
      × ((take lim b).1.debt ≡ 0)
      × ((take lim b).1.last_refill_at ≡ b.last_refill_at)
take-parts lim b d = elim (Bool-cases (leb (lim.window_ms + b.debt) b.parts)) [
  | inl e ↦ rw e (ground (arith, d, e), d, refl)
  | inr e ↦ rw e (omega arith, d, refl)
]

step :
    (c n w l t t' m parts parts' r u : ℕ)
    → r + l * m ≤ parts + t * m
    → c * w + parts' ≡ r
    → t' ≡ t
    → n * w + t' * m ≤ parts' + u * m
    → (c + n) * w + l * m ≤ parts + u * m
step c n w l t t' m parts parts' r u p q x h = grind (arith, p, q, x, h)

cancel : (n l u m parts : ℕ) → l ≤ u → n + l * m ≤ parts + u * m → n ≤ parts + (u - l) * m
cancel n l u m parts h p = grind (arith, h, p)

Ordered-le : (ts : List ℕ) (t until : ℕ) → Ordered t until ts → t ≤ until
Ordered-le [] t until o = o
Ordered-le (u ∷ us) t until o = omega (arith, o.0, Ordered-le us u until o.1)

-- What a whole run of checks takes and keeps.
checks-parts :
    (lim : Limit) (until : ℕ) (ts : List ℕ) (b : Bucket)
    → b.debt ≡ 0
    → Ordered b.last_refill_at until ts
    → (checks lim ts b).0 * lim.window_ms + b.last_refill_at * lim.max_requests
      ≤ b.parts + until * lim.max_requests
unfolding checks check_bucket
checks-parts lim until [] b d o = omega (arith, mul_mono b.last_refill_at until lim.max_requests o)
checks-parts lim until (t ∷ ts) b d o =
    let (p, q, x) = refill-parts lim t b d o.0 in
    let (p', q', x') = take-parts lim (refill lim t b) q in
    let rest =
      checks-parts lim until ts (take lim (refill lim t b)).1 q'
        (subst (λ u. Ordered u until ts) (sym x') o.1) in
    step _ _ _ _ _ _ _ _ _ _ _ p p' x' rest

-- Of the checks of one user at times that do not go back and end at `until`, on a bucket without
-- debt, no more pass than its tokens and those that the time from its last refill gives.
pub checks_le :
    (lim : Limit) (until : ℕ) (ts : List ℕ) (b : Bucket)
    → b.debt ≡ 0
    → Ordered b.last_refill_at until ts
    → (checks lim ts b).0 * lim.window_ms ≤ b.parts + (until - b.last_refill_at) * lim.max_requests
checks_le lim until ts b d o =
    cancel _ _ _ _ _ (Ordered-le ts b.last_refill_at until o) (checks-parts lim until ts b d o)
