-- ===== src/CircuitBreaker/Transitions.antt =====
-- lib/circuitBreaker.ts: which states follow one another, and what holds of the metrics.
use callora_backend.Common.{
  ℕ, ◌+◌, ◌<◌, ◌≡◌, ◌≢◌, ◌↔◌, ◌⊎◌, Bool, true, false, none, some, leb, if◌then◌else◌, List, [], ◌∷◌,
  arith, length,
}
use callora_backend.CircuitBreaker.{
  closed, opened, half_open, Config, Metrics, Breaker, get_metrics, cooled_down, on_success,
  on_failure, begin_execute, execute, rejected_open, would_block, failure_time,
}

-- A finished operation changes the state in three ways only: a success keeps it or closes a half-open
-- breaker, and a failure keeps it or opens a breaker that was not open.
pub on_result_lem :
    (c : Config) (m : Metrics) (now : ℕ)
    → (((on_success c m now).state ≡ m.state)
        ⊎ ((m.state ≡ half_open) × ((on_success c m now).state ≡ closed)))
      × (((on_failure c m now).state ≡ m.state)
          ⊎ ((m.state ≢ opened) × ((on_failure c m now).state ≡ opened)))
unfolding on_success on_failure
on_result_lem c m now = (ground arith, ground arith)

-- What the code relies on between two calls: a closed breaker is below its failure threshold, and
-- an open one knows when it last failed.
pub record IsSound (c : Config) (m : Metrics) : Type 0 where
  pub below : m.state ≡ closed → m.consecutive_failures < c.failure_threshold
  pub timed : m.state ≡ opened → m.last_failure_time ≢ none
  pub trying : m.state ≡ half_open → m.consecutive_successes < c.success_threshold

on_success-IsSound :
    (c : Config) (m : Metrics) (now : ℕ)
    → 0 < c.failure_threshold
    → IsSound c m
    → IsSound c (on_success c m now)
unfolding on_success
on_success-IsSound c m now h v = ground arith

on_failure-IsSound :
    (c : Config) (m : Metrics) (now : ℕ)
    → 0 < c.failure_threshold
    → IsSound c m
    → IsSound c (on_failure c m now)
unfolding on_failure
on_failure-IsSound c m now h v = ground arith

-- With a positive failure threshold, a finished operation keeps the metrics sound, whether it succeeds
-- or fails: a closed breaker is below its failure threshold, an open one knows when it last failed,
-- and a half-open one is below its success threshold.
pub on_result-IsSound :
    (c : Config) (m : Metrics) (now : ℕ)
    → 0 < c.failure_threshold
    → IsSound c m
    → IsSound c (on_success c m now) × IsSound c (on_failure c m now)
on_result-IsSound c m now h v = (on_success-IsSound c m now h v, on_failure-IsSound c m now h v)

-- The breaker rejects for being open exactly when `wouldBlock` says so.
pub would_block_iff :
    (c : Config) (now : ℕ) (b : Breaker)
    → (would_block c now b ≡ true) ↔ ((begin_execute c now b).0 ≡ rejected_open)
unfolding would_block begin_execute
would_block_iff c now b = (ground arith, ground arith)

-- A rejection for being open changes nothing, and happens only in the open state within the cooldown.
pub execute_rejected_open :
    (c : Config) (now : ℕ) (ok : Bool) (b : Breaker)
    → (execute c now ok b).0 ≡ rejected_open
    → ((execute c now ok b).1 ≡ b)
      × ((get_metrics b).state ≡ opened)
      × (now < failure_time (get_metrics b).last_failure_time + c.cooldown_ms)
unfolding execute cooled_down get_metrics
execute_rejected_open c now ok b h = ground arith

-- A run of failures on a closed breaker, with no other call in between.
pub fail_all : Config → List ℕ → Breaker → Breaker
fail_all c [] b = b
fail_all c (now ∷ times) b = fail_all c times (execute c now false b).1

failure_step :
    (c : Config) (now : ℕ) (b : Breaker)
    → (get_metrics b).state ≡ closed
    → let m' = get_metrics (execute c now false b).1 in
      (m'.consecutive_failures ≡ (get_metrics b).consecutive_failures + 1)
      × (m'.last_failure_time ≡ some now)
      × (m'.state ≡ (
          if leb c.failure_threshold ((get_metrics b).consecutive_failures + 1)
          then opened
          else closed))
unfolding execute get_metrics
failure_step c now b h = (ground arith, ground arith, ground arith)

failures_below :
    (c : Config) (times : List ℕ) (b : Breaker)
    → (get_metrics b).state ≡ closed
    → (get_metrics b).consecutive_failures + length times < c.failure_threshold
    → let m' = get_metrics (fail_all c times b) in
      (m'.state ≡ closed)
      × (m'.consecutive_failures ≡ (get_metrics b).consecutive_failures + length times)
unfolding fail_all
failures_below c [] b h k = (h, omega arith)
failures_below c (now ∷ times) b h k =
    let step = failure_step c now b h in
    let rest =
      failures_below c times (execute c now false b).1 (ground arith) (omega (arith, step.0)) in
    (rest.0, omega (arith, step.0, rest.1))

-- A closed breaker stays closed through consecutive failures until their number, with those it had
-- before, reaches the threshold, and the failure that reaches it opens the breaker and dates it.
pub failures_open :
    (c : Config) (times : List ℕ) (now : ℕ) (b : Breaker)
    → (get_metrics b).state ≡ closed
    → (get_metrics b).consecutive_failures + length times + 1 ≡ c.failure_threshold
    → let before = get_metrics (fail_all c times b) in
      let after = get_metrics (execute c now false (fail_all c times b)).1 in
      (before.state ≡ closed) × (after.state ≡ opened) × (after.last_failure_time ≡ some now)
failures_open c times now b h k =
    let (closed_yet, count) = failures_below c times b h (omega arith) in
    let (_, dated, moves) = failure_step c now (fail_all c times b) closed_yet in
    (closed_yet, ground arith, dated)
