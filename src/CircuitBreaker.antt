-- ===== src/CircuitBreaker.antt =====
-- lib/circuitBreaker.ts: the breaker of one key. The store holds its metrics, the set of active
-- trials holds the key or not. Times are milliseconds.
pub mod Transitions
pub mod Probes
pub mod Concurrent
use callora_backend.Common.{
  ℕ, ◌+◌, Bool, true, false, Option, none, some, leb, if◌then◌else◌, List, [], ◌∷◌,
}

pub data BreakerState : Type 0 where
  closed opened half_open : BreakerState

-- `Required<CircuitBreakerConfig>` without the error factory.
pub record Config : Type 0 where
  pub failure_threshold : ℕ
  pub cooldown_ms : ℕ
  pub success_threshold : ℕ

-- DEFAULT_CONFIG
unfoldable pub default_config : Config
default_config = record { failure_threshold = 5; cooldown_ms = 30000; success_threshold = 1 }

pub record Metrics : Type 0 where
  pub state : BreakerState
  pub consecutive_failures : ℕ
  pub consecutive_successes : ℕ
  pub total_failures : ℕ
  pub total_successes : ℕ
  pub last_failure_time : Option ℕ
  pub last_state_change : ℕ

-- DEFAULT_METRICS, created at the time `at`.
abbrev pub default_metrics : ℕ → Metrics
default_metrics at = record {
  state = closed;
  consecutive_failures = 0;
  consecutive_successes = 0;
  total_failures = 0;
  total_successes = 0;
  last_failure_time = none;
  last_state_change = at;
}

-- One key of one breaker: the stored metrics, and whether `activeTrials` has the key.
pub record Breaker : Type 0 where
  pub stored : Option Metrics
  pub trial : Bool
  pub loaded_at : ℕ

abbrev pub or_default : ℕ → Option Metrics → Metrics
or_default at none = default_metrics at
or_default at (some m) = m

-- `getMetrics`
unfoldable pub get_metrics : Breaker → Metrics
get_metrics b = or_default b.loaded_at b.stored

abbrev pub failure_time : Option ℕ → ℕ
failure_time none = 0
failure_time (some t) = t

-- `now - (lastFailureTime ?? 0) >= cooldownMs`, also for a clock that went back.
unfoldable pub cooled_down : Config → ℕ → Metrics → Bool
cooled_down c now m = leb (failure_time m.last_failure_time + c.cooldown_ms) now

abbrev pub close_counters : BreakerState → Metrics → Metrics
close_counters closed m = record m { consecutive_failures = 0 }
close_counters opened m = m
close_counters half_open m = m

-- `transitionTo`, without its log line and its Prometheus counters.
unfoldable pub transition_to : Metrics → BreakerState → ℕ → Metrics
transition_to m new_state now =
    close_counters new_state (record m { state = new_state; last_state_change = now })

-- The last part of `onSuccess`, by the state.
abbrev pub success_in : Config → ℕ → BreakerState → Metrics → Metrics
success_in c now half_open m =
    if leb c.success_threshold m.consecutive_successes
    then transition_to (record m { consecutive_successes = 0 }) closed now
    else m
success_in c now closed m = m
success_in c now opened m = m

unfoldable pub on_success : Config → Metrics → ℕ → Metrics
unfolding transition_to
on_success c m now = success_in c now m.state (record m {
  total_successes = m.total_successes + 1;
  consecutive_failures = 0;
  consecutive_successes = m.consecutive_successes + 1;
})

-- The last part of `onFailure`, by the state.
abbrev pub failure_in : Config → ℕ → BreakerState → Metrics → Metrics
failure_in c now half_open m = transition_to m opened now
failure_in c now closed m =
    if leb c.failure_threshold m.consecutive_failures then transition_to m opened now else m
failure_in c now opened m = m

unfoldable pub on_failure : Config → Metrics → ℕ → Metrics
unfolding transition_to
on_failure c m now = failure_in c now m.state (record m {
  total_failures = m.total_failures + 1;
  consecutive_successes = 0;
  consecutive_failures = m.consecutive_failures + 1;
  last_failure_time = some now;
})

-- Why a call is refused, or the metrics that an admitted call carries.
pub data Admission : Type 0 where
  rejected_open : Admission
  rejected_trial : Admission
  admitted : Metrics → Admission

-- The second gate of `execute`: one trial at a time in HALF_OPEN.
abbrev pub trial_gate : BreakerState → Metrics → Breaker → Admission × Breaker
trial_gate half_open m b =
    if b.trial then (rejected_trial, b) else (admitted m, record b { trial = true })
trial_gate closed m b = (admitted m, b)
trial_gate opened m b = (admitted m, b)

-- The first gate of `execute`: OPEN is left for HALF_OPEN when the cooldown is over.
abbrev pub open_gate : Config → ℕ → BreakerState → Metrics → Breaker → Admission × Breaker
open_gate c now opened m b =
    let probe = transition_to m half_open now in
    if cooled_down c now m
    then trial_gate half_open probe (record b { stored = some probe })
    else (rejected_open, b)
open_gate c now closed m b = trial_gate closed m b
open_gate c now half_open m b = trial_gate half_open m b

-- `execute` up to the call of the operation.
unfoldable pub begin_execute : Config → ℕ → Breaker → Admission × Breaker
unfolding get_metrics transition_to cooled_down
begin_execute c now b = open_gate c now (get_metrics b).state (get_metrics b) b

-- The `finally` of `execute`: the trial is given up only if the metrics are HALF_OPEN still.
abbrev pub clear_trial : BreakerState → Breaker → Breaker
clear_trial half_open b = record b { trial = false }
clear_trial closed b = b
clear_trial opened b = b

-- `execute` from the moment the operation has succeeded or failed. `m` and `now` are those that the
-- call has carried since it began.
unfoldable pub finish_execute : Config → ℕ → Metrics → Bool → Breaker → Breaker
unfolding on_success on_failure
finish_execute c now m true b =
    clear_trial (on_success c m now).state (record b { stored = some (on_success c m now) })
finish_execute c now m false b =
    clear_trial (on_failure c m now).state (record b { stored = some (on_failure c m now) })

abbrev pub run_admitted : Config → ℕ → Bool → Admission × Breaker → Admission × Breaker
run_admitted c now succeeds (rejected_open, b) = (rejected_open, b)
run_admitted c now succeeds (rejected_trial, b) = (rejected_trial, b)
run_admitted c now succeeds (admitted m, b) = (admitted m, finish_execute c now m succeeds b)

-- `execute` with no other call in between.
unfoldable pub execute : Config → ℕ → Bool → Breaker → Admission × Breaker
unfolding begin_execute finish_execute
execute c now succeeds b = run_admitted c now succeeds (begin_execute c now b)

abbrev pub blocks_in : Config → ℕ → BreakerState → Metrics → Bool
blocks_in c now opened m = if cooled_down c now m then false else true
blocks_in c now closed m = false
blocks_in c now half_open m = false

unfoldable pub would_block : Config → ℕ → Breaker → Bool
unfolding get_metrics cooled_down
would_block c now b = blocks_in c now (get_metrics b).state (get_metrics b)

unfoldable pub reset : ℕ → Breaker → Breaker
reset now b = record b { stored = some (default_metrics now); trial = false }

abbrev pub tripped : ℕ → Metrics → Breaker → Breaker
tripped now m b = record b {
  stored = some (record m {
    state = opened;
    consecutive_successes = 0;
    last_state_change = now;
    last_failure_time = some now;
  });
  trial = false;
}

abbrev pub trip_in : BreakerState → ℕ → Metrics → Breaker → Breaker
trip_in opened now m b = b
trip_in closed now m b = tripped now m b
trip_in half_open now m b = tripped now m b

unfoldable pub trip : ℕ → Breaker → Breaker
unfolding get_metrics
trip now b = trip_in (get_metrics b).state now (get_metrics b) b
