-- ===== src/Semaphore/Fairness.antt =====
-- utils/keySemaphore.ts: any order of acquiring and releasing on one key.
use mathlib.Core.List.{append_assoc, append-nil}
use callora_backend.Common.{
  ℕ, ◌+◌, ◌≤◌, ◌<◌, ◌≡◌, ◌≢◌, refl, List, [], ◌∷◌, ◌++◌, Bool, true, false, Option, none, some,
  arith, length, length-append,
}
use callora_backend.Semaphore.{KeyState, new_state, acquire_state, release_state}

-- One key, with the tickets that came, those that got the slot, and the slots given back.
pub record Line : Type 0 where
  pub state : KeyState
  pub arrived : List ℕ
  pub granted : List ℕ
  pub released : ℕ

abbrev pub grant_if : Bool → ℕ → List ℕ → List ℕ
grant_if true t g = g ++ t ∷ []
grant_if false t g = g

abbrev pub grant_some : Option ℕ → List ℕ → List ℕ
grant_some none g = g
grant_some (some t) g = g ++ t ∷ []

abbrev pub arrive : ℕ → ℕ → Line → Line
arrive most t l = record {
  state = (acquire_state most t l.state).1;
  arrived = l.arrived ++ t ∷ [];
  granted = grant_if (acquire_state most t l.state).0 t l.granted;
  released = l.released;
}

abbrev pub end_one : Line → Line
end_one l = record {
  state = (release_state l.state).1;
  arrived = l.arrived;
  granted = grant_some (release_state l.state).0 l.granted;
  released = l.released + 1;
}

-- A call arrives, or one of the calls that hold a slot ends.
pub data Step (most : ℕ) : Line → Line → Type 0 where
  arrives : (t : ℕ) (l : Line) → Step most l (arrive most t l)
  ends : (l : Line) → l.released < length l.granted → Step most l (end_one l)

pub data Run (most : ℕ) (l : Line) : Line → Type 0 where
  here : Run most l l
  then : {m n : Line} → Run most l m → Step most m n → Run most l n

-- The slots in use are those granted and not released, and at most `most`; the tickets are served
-- in the order of arrival, those of the queue being the next; and a queue means no free slot.
pub record IsFair (most : ℕ) (l : Line) : Type 0 where
  pub in_use : l.released + l.state.active_count ≡ length l.granted
  pub bounded : l.state.active_count ≤ most
  pub in_order : l.arrived ≡ l.granted ++ l.state.queue
  pub busy : l.state.queue ≢ [] → l.state.active_count ≡ most

abbrev pub idle_line : Line
idle_line = record { state = new_state; arrived = []; granted = []; released = 0 }

idle_line-IsFair : (most : ℕ) → IsFair most idle_line
idle_line-IsFair most = record {
  in_use = omega arith;
  bounded = omega arith;
  in_order = refl;
  busy = λ h. absurd (h refl);
}

snoc-ne-nil : (xs : List ℕ) (t : ℕ) → xs ++ t ∷ [] ≢ []
snoc-ne-nil [] t = λ e. cc
snoc-ne-nil (x ∷ xs) t = λ e. cc

arrive-IsFair :
    (most t : ℕ) (l : Line) (q : List ℕ)
    → l.state.queue ≡ q
    → IsFair most l
    → IsFair most (arrive most t l)
unfolding acquire_state
arrive-IsFair most t l [] e v = ground (
  arith,
  append-nil l.granted,
  append-nil (l.granted ++ t ∷ []),
  length-append l.granted (t ∷ []),
)
arrive-IsFair most t l (x ∷ q) e v = ground (arith, append_assoc l.granted l.state.queue (t ∷ []))

end_one-IsFair :
    (most : ℕ) (l : Line) (q : List ℕ)
    → l.state.queue ≡ q
    → l.released < length l.granted
    → IsFair most l
    → IsFair most (end_one l)
unfolding release_state
end_one-IsFair most l [] e h v = ground arith
end_one-IsFair most l (x ∷ q) e h v =
    ground (arith, append_assoc l.granted (x ∷ []) q, length-append l.granted (x ∷ []))

Step-IsFair : {most : ℕ} {l m : Line} → Step most l m → IsFair most l → IsFair most m
Step-IsFair {most} (arrives t l) v = arrive-IsFair most t l l.state.queue refl v
Step-IsFair {most} (ends l h) v = end_one-IsFair most l l.state.queue refl h v

Run-IsFair : {most : ℕ} {l m : Line} → Run most l m → IsFair most l → IsFair most m
Run-IsFair here v = v
Run-IsFair (then r st) v = Step-IsFair st (Run-IsFair r v)

-- After any history of calls on a key, no more slots are in use than the limit, slots are granted
-- in the order of arrival, and a call waits only while every slot is in use.
pub history-IsFair : (most : ℕ) (l : Line) → Run most idle_line l → IsFair most l
history-IsFair most l r = Run-IsFair r (idle_line-IsFair most)
