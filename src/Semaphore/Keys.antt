-- ===== src/Semaphore/Keys.antt =====
-- utils/keySemaphore.ts: the keys of one semaphore do not disturb one another, and an eviction
-- loses nothing.
use callora_backend.Common.{
  ℕ, ◌≡◌, ◌≢◌, refl, String, List, [], ◌∷◌, Option, none, some, arith, Dict, lookup,
  lookup-insert_ne, lookup-erase_ne, lookup-erase_self, ap, str_dec, sum_of,
}
use callora_backend.Semaphore.{
  KeyState, KeySemaphore, acquire_slot, release_slot, release_state, evict, get_active_slot_count,
  get_total_active_slot_count, total_active, get_current_active_slot_counts, active_counts,
  release_found, evict_found, active_of,
}

abbrev waiting_of : Option KeyState → List ℕ
waiting_of none = []
waiting_of (some s) = s.queue

-- The tickets that wait for a key.
unfoldable pub waiting : String → KeySemaphore → List ℕ
waiting key_id sem = waiting_of (lookup key_id sem.keys)

-- What one key shows of a semaphore.
abbrev pub SameKey : String → KeySemaphore → KeySemaphore → Type 0
SameKey k s t =
    (get_active_slot_count k s ≡ get_active_slot_count k t) × (waiting k s ≡ waiting k t)

SameKey-of_lookup :
    (k : String) (s t : KeySemaphore) → lookup k s.keys ≡ lookup k t.keys → SameKey k s t
unfolding get_active_slot_count waiting
SameKey-of_lookup k s t e = (ap active_of e, ap waiting_of e)

release-lookup :
    (key_id other : String) (sem : KeySemaphore) (o : Option KeyState)
    → key_id ≢ other
    → lookup other (release_found key_id o sem).1.keys ≡ lookup other sem.keys
release-lookup key_id other sem none h = refl
release-lookup key_id other sem (some s) h =
    lookup-insert_ne key_id other (release_state s).1 sem.keys h

-- Acquiring or releasing a slot of one key changes neither the count nor the queue of another.
pub slots-SameKey :
    (key_id other : String) (ticket : ℕ) (sem : KeySemaphore)
    → key_id ≢ other
    → SameKey other (acquire_slot key_id ticket sem).1 sem
      × SameKey other (release_slot key_id sem).1 sem
unfolding acquire_slot release_slot
slots-SameKey key_id other ticket sem h = (
  SameKey-of_lookup other (acquire_slot key_id ticket sem).1 sem
      (lookup-insert_ne key_id other _ sem.keys h),
  SameKey-of_lookup other (release_slot key_id sem).1 sem
      (release-lookup key_id other sem (lookup key_id sem.keys) h),
)

evict_other :
    (key_id k : String) (sem : KeySemaphore) (o : Option KeyState)
    → key_id ≢ k
    → lookup k (evict_found key_id o sem).keys ≡ lookup k sem.keys
evict_other key_id k sem none h = refl
evict_other key_id k sem (some s) h = ground (arith, lookup-erase_ne key_id k sem.keys h)

evict_own :
    (k : String) (sem : KeySemaphore) (o : Option KeyState) (q : List ℕ)
    → lookup k sem.keys ≡ o
    → waiting_of o ≡ q
    → SameKey k (evict_found k o sem) sem
unfolding get_active_slot_count waiting
evict_own k sem none q e f = (refl, refl)
evict_own k sem (some s) [] e f = ground (arith, lookup-erase_self k sem.keys)
evict_own k sem (some s) (x ∷ q) e f = ground arith

-- An eviction changes no count and drops no waiting ticket, of any key, whenever its timer fires.
pub evict-SameKey : (key_id k : String) (sem : KeySemaphore) → SameKey k (evict key_id sem) sem
unfolding evict
evict-SameKey key_id k sem = elim (str_dec key_id k) [
  | yes p ↦ rw p (evict_own k sem (lookup k sem.keys) _ refl refl)
  | no p ↦ SameKey-of_lookup k _ sem (evict_other key_id k sem (lookup key_id sem.keys) p)
]

-- The snapshot of counts omits idle keys and still sums to the total.
pub sum-current_counts :
    (sem : KeySemaphore)
    → sum_of (λ e. e.1) (get_current_active_slot_counts sem) ≡ get_total_active_slot_count sem
unfolding get_current_active_slot_counts get_total_active_slot_count
sum-current_counts sem = go sem.keys
  where
    go : (d : Dict KeyState) → sum_of (λ e. e.1) (active_counts d) ≡ total_active d
    go [] = refl
    go ((k, s) ∷ d) = ground (arith, go d)
