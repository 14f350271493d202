-- ===== src/Tests/Guards.antt =====
-- The semaphore, the rate limiter and the circuit breaker on short histories.
use callora_backend.Common.{
  ◌+◌, ◌*◌, ◌≤◌, ◌≡◌, ◌≢◌, refl, String, [], ◌∷◌, true, false, none, some, arith, All, str_ne,
  str_dec,
}
use callora_backend.Semaphore.{KeySemaphore, acquire_state}
use callora_backend.Semaphore.Fairness.{
  Line, arrives, ends, Run, here, then, IsFair, idle_line, arrive, end_one, history-IsFair,
}
use callora_backend.RateLimiter.{
  TokenBucket, CheckOptions, denied, compute_rate_limit_result, check_in_memory,
  normalize_token_bucket_value, check_in_postgres, Limiter, number,
}
use callora_backend.RateLimiter.Window.{allowed_count, allowed_count_le}
use callora_backend.RateLimiter.Stores.{IsFaithful, check_in_postgres_lem, as_checked}
use callora_backend.CircuitBreaker.{
  closed, opened, Config, Metrics, Breaker, get_metrics, cooled_down, execute, begin_execute,
  rejected_open,
}
use callora_backend.CircuitBreaker.Transitions.{IsSound, fail_all, failures_open}
use callora_backend.CircuitBreaker.Probes.{IsRejected, admissions, failed_probe_jams}
use callora_backend.CircuitBreaker.Concurrent.{
  System, Run as Overlap, begin, here as alone, then as after, in_flight, IsGuarded, Run-IsGuarded,
  probes,
}

abbrev one_waits : Line
one_waits = arrive 1 12 (arrive 1 11 idle_line)

served : Run 1 idle_line (end_one one_waits)
unfolding acquire_state
served =
    then (then (then here (arrives 11 idle_line)) (arrives 12 (arrive 1 11 idle_line)))
      (ends one_waits (omega arith))

history-IsFair_example : IsFair 1 (end_one one_waits)
history-IsFair_example = history-IsFair 1 (end_one one_waits) served

abbrev busy_keys : KeySemaphore
busy_keys = record {
  keys =
      ("k1", record { active_count = 2; queue = 7 ∷ []; timer = false })
      ∷ ("k2", record { active_count = 0; queue = []; timer = true })
      ∷ [];
  max_concurrency_per_key = 2;
}

abbrev k1 : String
k1 = "k1"

abbrev k2 : String
k2 = "k2"

k1_not_k2 : k1 ≢ k2
unfolding str_dec
k1_not_k2 = str_ne k1 k2 refl

abbrev used_bucket : TokenBucket
used_bucket = record { tokens = 1; last_refill = 0 }

abbrev empty_bucket : TokenBucket
empty_bucket = record { tokens = 0; last_refill = 0 }

allowed_count_le_example : allowed_count 3 10 (12 ∷ 15 ∷ 19 ∷ []) (some used_bucket) ≤ 2 * 3
allowed_count_le_example =
    allowed_count_le 3 10 10 (12 ∷ 15 ∷ 19 ∷ []) (some used_bucket) (omega arith)
      ((omega arith, omega arith), ((omega arith, omega arith), ((omega arith, omega arith), tt)))

denied_run : (compute_rate_limit_result (some empty_bucket) 3 10 4).1 ≡ denied 6
unfolding compute_rate_limit_result
denied_run = refl

number-IsFaithful : IsFaithful number
unfolding normalize_token_bucket_value
number-IsFaithful n = refl

abbrev options : CheckOptions
options = record { max_requests = 3; now = 12; window_ms = 10 }

check_in_postgres_lem_example :
    check_in_postgres number "k" options (("k", used_bucket) ∷ [])
    ≡ as_checked (check_in_memory "k" options (("k", used_bucket) ∷ []))
check_in_postgres_lem_example =
    check_in_postgres_lem number "k" options (("k", used_bucket) ∷ []) number-IsFaithful

abbrev limiter : Limiter
limiter = record {
  base = record { max_requests = 3; window_ms = 10 };
  tier_policies = ("pro", record { max_requests = 30; window_ms = 10 }) ∷ [];
}

abbrev config : Config
config = record { failure_threshold = 2; cooldown_ms = 100; success_threshold = 1 }

abbrev fresh : Breaker
fresh = record { stored = none; trial = false; loaded_at = 0 }

abbrev tripped : Metrics
tripped = record {
  state = opened;
  consecutive_failures = 2;
  consecutive_successes = 0;
  total_failures = 2;
  total_successes = 0;
  last_failure_time = some 10;
  last_state_change = 10;
}

abbrev open_breaker : Breaker
open_breaker = record { stored = some tripped; trial = false; loaded_at = 0 }

tripped-IsSound : IsSound config tripped
tripped-IsSound = ground arith

rejected_run : (execute config 20 true open_breaker).0 ≡ rejected_open
unfolding execute cooled_down get_metrics
rejected_run = refl

fresh_closed : (get_metrics fresh).state ≡ closed
unfolding get_metrics
fresh_closed = refl

fresh_count : (get_metrics fresh).consecutive_failures + 1 + 1 ≡ 2
unfolding get_metrics
fresh_count = refl

failures_open_example :
    let before = get_metrics (fail_all config (5 ∷ []) fresh) in
    let after = get_metrics (execute config 6 false (fail_all config (5 ∷ []) fresh)).1 in
    (before.state ≡ closed) × (after.state ≡ opened) × (after.last_failure_time ≡ some 6)
failures_open_example = failures_open config (5 ∷ []) 6 fresh fresh_closed fresh_count

is_open : (get_metrics open_breaker).state ≡ opened
unfolding get_metrics
is_open = refl

is_cool : cooled_down config 120 (get_metrics open_breaker) ≡ true
unfolding get_metrics cooled_down
is_cool = refl

failed_probe_jams_example :
    All IsRejected
      (admissions config ((500, true) ∷ (900, true) ∷ []) (execute config 120 false open_breaker).1)
failed_probe_jams_example =
    failed_probe_jams config 120 open_breaker ((500, true) ∷ (900, true) ∷ []) is_open is_cool refl

abbrev idle : System
idle = record { breaker = open_breaker; flights = [] }

idle-IsGuarded : IsGuarded idle
unfolding probes
idle-IsGuarded = omega arith

overlap : Overlap config idle (record {
  breaker = (begin_execute config 120 open_breaker).1;
  flights = in_flight 120 [] (begin_execute config 120 open_breaker).0;
})
overlap = after alone (begin 120 idle)

Run-IsGuarded_example : IsGuarded (record {
  breaker = (begin_execute config 120 open_breaker).1;
  flights = in_flight 120 [] (begin_execute config 120 open_breaker).0;
})
Run-IsGuarded_example = Run-IsGuarded idle-IsGuarded overlap
