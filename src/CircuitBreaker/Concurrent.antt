-- ===== src/CircuitBreaker/Concurrent.antt =====
-- lib/circuitBreaker.ts: calls that overlap. A call carries the metrics that it read when it began,
-- and stores what follows from them when its operation ends.
use callora_backend.Common.{ℕ, ◌+◌, ◌≤◌, ◌≡◌, Bool, true, false, List, [], ◌∷◌, ◌++◌, arith}
use callora_backend.CircuitBreaker.{
  BreakerState, closed, opened, half_open, Config, Metrics, Breaker, get_metrics, begin_execute,
  finish_execute, Admission, admitted, rejected_open, rejected_trial,
}

pub record Flight : Type 0 where
  pub began : ℕ
  pub carried : Metrics

pub record System : Type 0 where
  pub breaker : Breaker
  pub flights : List Flight

abbrev pub in_flight : ℕ → List Flight → Admission → List Flight
in_flight now fs (admitted m) = record { began = now; carried = m } ∷ fs
in_flight now fs rejected_open = fs
in_flight now fs rejected_trial = fs

-- A call begins, or the operation of a call in flight ends.
pub data Step (c : Config) : System → System → Type 0 where
  begin :
      (now : ℕ) (s : System)
      → Step c s (record {
        breaker = (begin_execute c now s.breaker).1;
        flights = in_flight now s.flights (begin_execute c now s.breaker).0;
      })
  finish :
      (ok : Bool) (b : Breaker) (before after : List Flight) (f : Flight) (s : System)
      → s ≡ record { breaker = b; flights = before ++ f ∷ after }
      → Step c s
          (record { breaker = finish_execute c f.began f.carried ok b; flights = before ++ after })

pub data Run (c : Config) (s : System) : System → Type 0 where
  here : Run c s s
  then : {t u : System} → Run c s t → Step c t u → Run c s u

abbrev pub probe_of : BreakerState → ℕ
probe_of half_open = 1
probe_of closed = 0
probe_of opened = 0

-- The probes in flight.
unfoldable pub probes : List Flight → ℕ
probes [] = 0
probes (f ∷ fs) = probe_of f.carried.state + probes fs

abbrev pub bit : Bool → ℕ
bit true = 1
bit false = 0

-- There is no more than one probe, and none without the mark.
abbrev pub IsGuarded : System → Type 0
IsGuarded s = probes s.flights ≤ bit s.breaker.trial

probes-append : (xs ys : List Flight) → probes (xs ++ ys) ≡ probes xs + probes ys
unfolding probes
probes-append [] ys = omega arith
probes-append (x ∷ xs) ys = omega (arith, probes-append xs ys)

begin-IsGuarded :
    (c : Config) (now : ℕ) (b : Breaker) (fs : List Flight)
    → probes fs ≤ bit b.trial
    → probes (in_flight now fs (begin_execute c now b).0) ≤ bit (begin_execute c now b).1.trial
unfolding begin_execute probes
begin-IsGuarded c now b fs h = ground arith

finish-IsGuarded :
    (c : Config) (now : ℕ) (m : Metrics) (ok : Bool) (b : Breaker) (n : ℕ)
    → n + probe_of m.state ≤ bit b.trial
    → n ≤ bit (finish_execute c now m ok b).trial
unfolding finish_execute
finish-IsGuarded c now m ok b n h = ground arith

Step-IsGuarded : {c : Config} {s t : System} → Step c s t → IsGuarded s → IsGuarded t
unfolding probes
Step-IsGuarded {c} (begin now s) v = begin-IsGuarded c now s.breaker s.flights v
Step-IsGuarded {c} (finish ok b before after f s e) v =
    finish-IsGuarded c f.began f.carried ok b (probes (before ++ after))
      (omega (arith, probes-append before (f ∷ after), probes-append before after, counted e v))
  where
    counted :
        {s : System}
        → s ≡ record { breaker = b; flights = before ++ f ∷ after }
        → IsGuarded s
        → probes (before ++ f ∷ after) ≤ bit b.trial
    counted e v = rw e at v

-- However calls overlap, at most one probe is in flight, if none was when no key was marked.
pub Run-IsGuarded : {c : Config} {s t : System} → IsGuarded s → Run c s t → IsGuarded t
Run-IsGuarded v here = v
Run-IsGuarded v (then r st) = Step-IsGuarded st (Run-IsGuarded v r)

-- The race: a call that began while the breaker was closed and succeeds after other calls have
-- opened it writes CLOSED back, whatever the stored cooldown.
pub stale_success_closes :
    (c : Config) (f : Flight) (b : Breaker)
    → f.carried.state ≡ closed
    → (get_metrics (finish_execute c f.began f.carried true b)).state ≡ closed
unfolding finish_execute get_metrics
stale_success_closes c f b h = ground arith
