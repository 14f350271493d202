-- ===== src/Semaphore.antt =====
-- utils/keySemaphore.ts: a FIFO semaphore for each API key. A waiting call is its ticket, a number
-- that the caller brings; to resolve its promise is to return the ticket.
pub mod Fairness
pub mod Keys
use callora_backend.Common.{
  ℕ, ◌+◌, ◌-◌, String, List, [], ◌∷◌, ◌++◌, Bool, true, false, ◌&&◌, Option, none, some, ltb, leb,
  ◌==◌, if◌then◌else◌, Dict, lookup, insert, erase, str_dec,
}

-- `timer` says whether an eviction is scheduled.
pub record KeyState : Type 0 where
  pub active_count : ℕ
  pub queue : List ℕ
  pub timer : Bool

pub record KeySemaphore : Type 0 where
  pub keys : Dict KeyState
  pub max_concurrency_per_key : ℕ

abbrev pub new_state : KeyState
new_state = record { active_count = 0; queue = []; timer = false }

abbrev pub state_or_new : Option KeyState → KeyState
state_or_new none = new_state
state_or_new (some s) = s

-- `getOrCreateState`; the new state is stored by the caller, together with its change.
unfoldable pub get_or_create_state : String → KeySemaphore → KeyState
unfolding lookup
get_or_create_state key_id sem = state_or_new (lookup key_id sem.keys)

abbrev pub is_empty : List ℕ → Bool
is_empty [] = true
is_empty (_ ∷ _) = false

-- The two branches of `acquireSlot` on the state of the key. The result says whether the slot is
-- granted at once; otherwise the ticket waits.
unfoldable pub acquire_state : ℕ → ℕ → KeyState → Bool × KeyState
acquire_state most ticket s =
    if is_empty s.queue && ltb s.active_count most
    then (true, record s { active_count = s.active_count + 1; timer = false })
    else (false, record s { queue = s.queue ++ ticket ∷ [] })

unfoldable pub acquire_slot : String → ℕ → KeySemaphore → Bool × KeySemaphore
unfolding get_or_create_state acquire_state insert
acquire_slot key_id ticket sem =
    let (granted, s) =
      acquire_state sem.max_concurrency_per_key ticket (get_or_create_state key_id sem) in
    (granted, record sem { keys = insert key_id s sem.keys })

-- `scheduleEviction` when the last slot of a key is given back.
abbrev pub give_back : ℕ → KeyState → KeyState
give_back n s = record s { active_count = n; timer = if n == 0 then true else s.timer }

abbrev pub release_queue : List ℕ → KeyState → Option ℕ × KeyState
release_queue (ticket ∷ rest) s = (some ticket, record s { queue = rest; timer = false })
release_queue [] s = (none, give_back (s.active_count - 1) s)

-- `releaseSlot` on the state of the key: the slot goes to the first ticket of the queue, if there
-- is one. A slot is released once, by `withSlot`, so `activeCount` is at least 1 here.
unfoldable pub release_state : KeyState → Option ℕ × KeyState
release_state s = release_queue s.queue s

abbrev pub release_found : String → Option KeyState → KeySemaphore → Option ℕ × KeySemaphore
release_found key_id none sem = (none, sem)
release_found key_id (some s) sem =
    let (woken, s') = release_state s in (woken, record sem { keys = insert key_id s' sem.keys })

unfoldable pub release_slot : String → KeySemaphore → Option ℕ × KeySemaphore
unfolding lookup release_state insert
release_slot key_id sem = release_found key_id (lookup key_id sem.keys) sem

abbrev pub evict_found : String → Option KeyState → KeySemaphore → KeySemaphore
evict_found key_id none sem = sem
evict_found key_id (some s) sem =
    if s.active_count == 0 && is_empty s.queue
    then record sem { keys = erase key_id sem.keys }
    else sem

-- The callback that `scheduleEviction` sets a timer for.
unfoldable pub evict : String → KeySemaphore → KeySemaphore
unfolding lookup erase
evict key_id sem = evict_found key_id (lookup key_id sem.keys) sem

abbrev pub active_of : Option KeyState → ℕ
active_of none = 0
active_of (some s) = s.active_count

unfoldable pub get_active_slot_count : String → KeySemaphore → ℕ
unfolding lookup
get_active_slot_count key_id sem = active_of (lookup key_id sem.keys)

unfoldable pub is_at_limit : String → KeySemaphore → Bool
unfolding get_active_slot_count
is_at_limit key_id sem = leb sem.max_concurrency_per_key (get_active_slot_count key_id sem)

unfoldable pub total_active : Dict KeyState → ℕ
total_active [] = 0
total_active ((k, s) ∷ d) = s.active_count + total_active d

unfoldable pub get_total_active_slot_count : KeySemaphore → ℕ
unfolding total_active
get_total_active_slot_count sem = total_active sem.keys

unfoldable pub active_counts : Dict KeyState → Dict ℕ
active_counts [] = []
active_counts ((k, s) ∷ d) =
    let rest = active_counts d in if ltb 0 s.active_count then (k, s.active_count) ∷ rest else rest

unfoldable pub get_current_active_slot_counts : KeySemaphore → Dict ℕ
unfolding active_counts
get_current_active_slot_counts sem = active_counts sem.keys

unfoldable pub clear : KeySemaphore → KeySemaphore
clear sem = record sem { keys = [] }
