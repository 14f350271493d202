-- ===== src/RateLimiter.antt =====
-- services/rateLimiter.ts: the token bucket, the stores in memory and in PostgreSQL, and the choice
-- of a policy. Times are milliseconds and may go back.
pub mod Window
pub mod Stores
use callora_backend.Billing.Usdc.{is_digit, is_nil, value_from, trim_start, trim_end}
use callora_backend.Common.{
  ℕ, ◌+◌, ◌-◌, ◌*◌, String, List, [], ◌∷◌, Bool, true, false, Option, none, some, leb, ◌==◌,
  if◌then◌else◌, Dict, lookup, insert, ite, str_dec,
}

pub record TokenBucket : Type 0 where
  pub tokens : ℕ
  pub last_refill : ℕ

-- `RateLimiterStoreCheckOptions`
pub record CheckOptions : Type 0 where
  pub max_requests : ℕ
  pub now : ℕ
  pub window_ms : ℕ

-- `RateLimitResult`: allowed, or denied with `retryAfterMs`.
pub data RateLimitResult : Type 0 where
  allowed : RateLimitResult
  denied : ℕ → RateLimitResult

abbrev pub bucket_or_full : ℕ → ℕ → Option TokenBucket → TokenBucket
bucket_or_full max_requests now none = record { tokens = max_requests; last_refill = now }
bucket_or_full max_requests now (some b) = b

-- `now - lastRefill >= windowMs` refills the bucket.
abbrev pub refill : ℕ → ℕ → ℕ → TokenBucket → TokenBucket
refill max_requests window_ms now b =
    if leb (b.last_refill + window_ms) now
    then record { tokens = max_requests; last_refill = now }
    else b

-- `Math.max(windowMs - (now - lastRefill), 0)`
abbrev pub retry_after : ℕ → ℕ → TokenBucket → ℕ
retry_after window_ms now b = b.last_refill + window_ms - now

abbrev pub take_token : ℕ → ℕ → TokenBucket → TokenBucket × RateLimitResult
take_token window_ms now b =
    if b.tokens == 0
    then (b, denied (retry_after window_ms now b))
    else (record b { tokens = b.tokens - 1 }, allowed)

unfoldable pub compute_rate_limit_result :
    Option TokenBucket → ℕ → ℕ → ℕ → TokenBucket × RateLimitResult
compute_rate_limit_result bucket max_requests window_ms now =
    take_token window_ms now
      (refill max_requests window_ms now (bucket_or_full max_requests now bucket))

-- `InMemoryRateLimiterStore`: the map of its buckets.
abbrev pub MemoryStore : Type 0
MemoryStore = Dict TokenBucket

unfoldable pub check_in_memory : String → CheckOptions → MemoryStore → RateLimitResult × MemoryStore
check_in_memory bucket_key options buckets =
    let (bucket, result) =
      compute_rate_limit_result (lookup bucket_key buckets) options.max_requests options.window_ms
        options.now in
    (result, insert bucket_key bucket buckets)

unfoldable pub exhaust : String → ℕ → MemoryStore → MemoryStore
exhaust bucket_key now buckets =
    insert bucket_key (record { tokens = 0; last_refill = now }) buckets

-- A row of the table as the driver returns it, before `normalizeTokenBucketValue`.
pub data Stored : Type 0 where
  number : ℕ → Stored
  text : List ℕ → Stored

abbrev pub all_digits : List ℕ → Bool
all_digits [] = true
all_digits (c ∷ cs) = if is_digit c then all_digits cs else false

-- `/^\d+$/.test(value.trim())`, and `Number.parseInt` of it; `none` is the error "must be stored as
-- a non-negative integer".
abbrev pub parse_digits : List ℕ → Option ℕ
parse_digits cs = if is_nil cs then none else if all_digits cs then some (value_from 0 cs) else none

unfoldable pub normalize_token_bucket_value : Stored → Option ℕ
unfolding value_from trim_start trim_end
normalize_token_bucket_value (number n) = some n
normalize_token_bucket_value (text cs) = parse_digits (trim_end (trim_start cs))

-- `INSERT … ON CONFLICT (bucket_key) DO NOTHING`, on the table as a map of its primary key.
abbrev pub insert_absent : Option TokenBucket → String → TokenBucket → MemoryStore → MemoryStore
insert_absent none k b t = insert k b t
insert_absent (some _) k b t = t

-- How the database driver hands out an integer column.
abbrev pub Driver : Type 0
Driver = ℕ → Stored

pub data CheckError : Type 0 where
  row_missing bad_value : CheckError

pub data Checked : Type 0 where
  result : RateLimitResult → Checked
  raised : CheckError → Checked

abbrev pub read_bucket : Option ℕ → Option ℕ → Option TokenBucket
read_bucket (some tokens) (some last_refill) =
    some (record { tokens = tokens; last_refill = last_refill })
read_bucket none o = none
read_bucket (some tokens) none = none

abbrev pub read_row : Driver → TokenBucket → Option TokenBucket
read_row driver b =
    read_bucket (normalize_token_bucket_value (driver b.tokens))
      (normalize_token_bucket_value (driver b.last_refill))

abbrev pub update_row :
    String → CheckOptions → MemoryStore → Option TokenBucket → Checked × MemoryStore
update_row bucket_key options table none = (raised bad_value, table)
update_row bucket_key options table (some bucket) =
    let (next, r) =
      compute_rate_limit_result (some bucket) options.max_requests options.window_ms options.now in
    (result r, insert bucket_key next table)

-- The `catch`: what was written in the transaction is rolled back.
abbrev pub rolled_back : MemoryStore → Checked × MemoryStore → Checked × MemoryStore
rolled_back before (raised e, table) = (raised e, before)
rolled_back before (result r, table) = (result r, table)

abbrev pub with_row :
    Driver → String → CheckOptions → MemoryStore → Option TokenBucket → Checked × MemoryStore
with_row driver bucket_key options table none = (raised row_missing, table)
with_row driver bucket_key options table (some row) =
    update_row bucket_key options table (read_row driver row)

-- `PostgresRateLimiterStore.check`: one transaction.
unfoldable pub check_in_postgres :
    Driver → String → CheckOptions → MemoryStore → Checked × MemoryStore
check_in_postgres driver bucket_key options table =
    let seeded =
      insert_absent (lookup bucket_key table) bucket_key
        (record { tokens = options.max_requests; last_refill = options.now }) table in
    rolled_back table (with_row driver bucket_key options seeded (lookup bucket_key seeded))

pub record TierPolicy : Type 0 where
  pub max_requests : ℕ
  pub window_ms : ℕ

-- DEFAULT_TIER_POLICIES
abbrev pub default_tier_policies : Dict TierPolicy
default_tier_policies =
    ("free", record { max_requests = 100; window_ms = 60000 })
    ∷ ("pro", record { max_requests = 500; window_ms = 60000 })
    ∷ ("enterprise", record { max_requests = 5000; window_ms = 60000 })
    ∷ []

-- `{ ...DEFAULT_TIER_POLICIES, ...tierPolicies }`
unfoldable pub merge_policies : Dict TierPolicy → Dict TierPolicy → Dict TierPolicy
merge_policies base [] = base
merge_policies base ((k, p) ∷ more) = merge_policies (insert k p base) more

-- `StoreBackedRateLimiter`
pub record Limiter : Type 0 where
  pub base : TierPolicy
  pub tier_policies : Dict TierPolicy

abbrev pub policy_or : TierPolicy → Option TierPolicy → TierPolicy
policy_or base none = base
policy_or base (some p) = p

-- `normalizePositiveInteger` of both options; `none` is its error.
abbrev pub new_limiter_of : Bool → Bool → ℕ → ℕ → Dict TierPolicy → Option Limiter
new_limiter_of true z m w overrides = none
new_limiter_of false true m w overrides = none
new_limiter_of false false m w overrides = some (record {
  base = record { max_requests = m; window_ms = w };
  tier_policies = merge_policies default_tier_policies overrides;
})

unfoldable pub new_limiter : ℕ → ℕ → Dict TierPolicy → Option Limiter
unfolding merge_policies
new_limiter max_requests window_ms overrides =
    new_limiter_of (max_requests == 0) (window_ms == 0) max_requests window_ms overrides

unfoldable pub resolve_policy : Limiter → Option String → TierPolicy
resolve_policy limiter none = limiter.base
resolve_policy limiter (some tier) =
    ite (str_dec tier "") limiter.base (policy_or limiter.base (lookup tier limiter.tier_policies))

-- `check` of the limiter over the store in memory.
unfoldable pub check :
    Limiter → String → Option String → ℕ → MemoryStore → RateLimitResult × MemoryStore
unfolding check_in_memory
check limiter api_key tier now buckets =
    let policy = resolve_policy limiter tier in
    check_in_memory api_key
      (record { max_requests = policy.max_requests; now = now; window_ms = policy.window_ms })
      buckets
