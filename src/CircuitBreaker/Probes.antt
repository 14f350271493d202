-- ===== src/CircuitBreaker/Probes.antt =====
-- lib/circuitBreaker.ts: the set of active trials. `execute` takes the key out of the set only when
-- its metrics are HALF_OPEN at the end, so a probe that settles the state leaves the key behind.
use callora_backend.Common.{ℕ, ◌≤◌, ◌≡◌, ◌≢◌, ◌⊎◌, Bool, true, false, List, [], ◌∷◌, All, arith}
use callora_backend.CircuitBreaker.{
  closed, opened, Config, Metrics, Breaker, get_metrics, cooled_down, execute, Admission,
  rejected_open, rejected_trial, admitted, reset,
}

-- The trial mark is set and the breaker is not closed.
pub record IsJammed (b : Breaker) : Type 0 where
  pub marked : b.trial ≡ true
  pub not_closed : (get_metrics b).state ≢ closed

abbrev pub IsRejected : Admission → Type 0
IsRejected a = (a ≡ rejected_open) ⊎ (a ≡ rejected_trial)

IsJammed-step :
    (c : Config) (now : ℕ) (ok : Bool) (b : Breaker)
    → IsJammed b
    → IsRejected (execute c now ok b).0 × IsJammed (execute c now ok b).1
unfolding execute get_metrics
IsJammed-step c now ok b v = ground arith

-- Calls one after the other, each with its time and whether its operation would succeed.
pub admissions : Config → List (ℕ × Bool) → Breaker → List Admission
admissions c [] b = []
admissions c ((now, ok) ∷ calls) b =
    (execute c now ok b).0 ∷ admissions c calls (execute c now ok b).1

jammed_calls :
    (c : Config) (calls : List (ℕ × Bool)) (b : Breaker)
    → IsJammed b
    → All IsRejected (admissions c calls b)
unfolding admissions
jammed_calls c [] b v = tt
jammed_calls c ((now, ok) ∷ calls) b v =
    let (rejected, still) = IsJammed-step c now ok b v in
    (rejected, jammed_calls c calls (execute c now ok b).1 still)

failed_probe-IsJammed :
    (c : Config) (now : ℕ) (b : Breaker)
    → (get_metrics b).state ≡ opened
    → cooled_down c now (get_metrics b) ≡ true
    → b.trial ≡ false
    → IsJammed (execute c now false b).1
unfolding execute get_metrics cooled_down
failed_probe-IsJammed c now b o cool t = ground arith

-- The defect: when the first probe of an open breaker whose cooldown has passed fails, no later call
-- of the sequence is admitted, whatever its time and however healthy the operation is again.
pub failed_probe_jams :
    (c : Config) (now : ℕ) (b : Breaker) (calls : List (ℕ × Bool))
    → (get_metrics b).state ≡ opened
    → cooled_down c now (get_metrics b) ≡ true
    → b.trial ≡ false
    → All IsRejected (admissions c calls (execute c now false b).1)
failed_probe_jams c now b calls o cool t =
    jammed_calls c calls (execute c now false b).1 (failed_probe-IsJammed c now b o cool t)

-- An admission that is no probe of an open breaker.
abbrev pub IsNoProbe : Admission → Type 0
IsNoProbe a = (m : Metrics) → a ≡ admitted m → m.state ≡ closed

marked_step :
    (c : Config) (now : ℕ) (ok : Bool) (b : Breaker)
    → b.trial ≡ true
    → IsNoProbe (execute c now ok b).0 × ((execute c now ok b).1.trial ≡ true)
unfolding execute get_metrics
marked_step c now ok b v = (λ m e. ground arith, ground arith)

marked_calls :
    (c : Config) (calls : List (ℕ × Bool)) (b : Breaker)
    → b.trial ≡ true
    → All IsNoProbe (admissions c calls b)
unfolding admissions
marked_calls c [] b v = tt
marked_calls c ((now, ok) ∷ calls) b v =
    let (plain, still) = marked_step c now ok b v in
    (plain, marked_calls c calls (execute c now ok b).1 still)

-- When the first probe of an open breaker whose cooldown has passed succeeds and one success is
-- enough, the breaker is closed, and no later call of the sequence is admitted in another state: an
-- opening after it has no probe.
pub closed_probe_is_last :
    (c : Config) (now : ℕ) (b : Breaker) (calls : List (ℕ × Bool))
    → (get_metrics b).state ≡ opened
    → cooled_down c now (get_metrics b) ≡ true
    → b.trial ≡ false
    → c.success_threshold ≤ 1
    → let probed = (execute c now true b).1 in
      ((get_metrics probed).state ≡ closed) × All IsNoProbe (admissions c calls probed)
unfolding execute get_metrics cooled_down
closed_probe_is_last c now b calls o cool t one =
    (ground arith, marked_calls c calls (execute c now true b).1 (ground arith))

-- A manual reset clears the jam: the next call is admitted.
pub reset_admits :
    (c : Config) (now later : ℕ) (ok : Bool) (b : Breaker)
    → (execute c later ok (reset now b)).0 ≡ admitted (get_metrics (reset now b))
unfolding execute get_metrics reset
reset_admits c now later ok b = ground arith
