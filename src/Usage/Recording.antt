-- ===== src/Usage/Recording.antt =====
-- services/usageStore.ts: recording by request id, and the reset of one developer.
use callora_backend.Common.{
  ◌≡◌, ◌≢◌, refl, sym, ap, ◌∙◌, ◌↔◌, inl, inr, String, List, [], ◌∷◌, ◌++◌, true, false, not,
  Option, none, some, ite, str_dec, arith, keep, map, Bool-cases, if◌then◌else◌,
}
use callora_backend.Usage.{
  UsageEvent, UsageStore, has, add, set_of, record_event, has_event, of_user, reset_developer_usage,
  get_developer_usage_snapshot, snapshot_of, reset_found, Snapshot,
}

-- The request ids of a list of events.
abbrev pub ids_of : List UsageEvent → List String
ids_of = map (λ e. e.request_id)

-- Every request id is recorded once, and the set holds just the recorded ones.
abbrev pub Once : List UsageEvent → Type 0
Once [] = Unit
Once (e ∷ es) = (has e.request_id (ids_of es) ≡ false) × Once es

pub record IsIndexed (store : UsageStore) : Type 0 where
  pub same : (s : String) → has s store.request_ids ≡ has s (ids_of store.events)
  pub once : Once store.events

has-snoc :
    (s t : String) (ts : List String) → has s (ts ++ t ∷ []) ≡ ite (str_dec t s) true (has s ts)
unfolding has
has-snoc s t [] = refl
has-snoc s t (x ∷ ts) = ground (arith, has-snoc s t ts)

pub has-add :
    (s t : String) (ts : List String) → has s (add t ts) ≡ ite (str_dec t s) true (has s ts)
unfolding add
has-add s t ts = elim (str_dec t s) [
  | yes p ↦ ground (arith, has-snoc s t ts)
  | no p ↦ ground (arith, has-snoc s t ts)
]

has-ids_snoc :
    (s : String) (es : List UsageEvent) (e : UsageEvent)
    → has s (ids_of (es ++ e ∷ [])) ≡ ite (str_dec e.request_id s) true (has s (ids_of es))
unfolding has
has-ids_snoc s [] e = refl
has-ids_snoc s (x ∷ es) e = ground (arith, has-ids_snoc s es e)

Once-snoc :
    (es : List UsageEvent) (e : UsageEvent)
    → has e.request_id (ids_of es) ≡ false
    → Once es
    → Once (es ++ e ∷ [])
unfolding has
Once-snoc [] e h o = (refl, tt)
Once-snoc (x ∷ es) e h o =
    (ground (arith, has-ids_snoc x.request_id es e), Once-snoc es e (ground arith) o.1)

has-set_of :
    (s : String) (seen ss : List String)
    → has s (set_of seen ss) ≡ (if has s seen then true else has s ss)
unfolding has set_of
has-set_of s seen [] = ground arith
has-set_of s seen (t ∷ ss) = ground (arith, has-set_of s (add t seen) ss, has-add s t seen)

record_event-IsIndexed :
    (e : UsageEvent) (store : UsageStore) → IsIndexed store → IsIndexed (record_event e store).1
unfolding record_event
record_event-IsIndexed e store v = elim (Bool-cases (has e.request_id store.request_ids)) [
  | inl h ↦ rw h v
  | inr h ↦ rw h (record {
    same = λ s.
        ground (
          arith,
          has-add s e.request_id store.request_ids,
          has-ids_snoc s store.events e,
          v.same s,
        );
    once = Once-snoc store.events e (ground (arith, v.same e.request_id)) v.once;
  })
]

-- An event is recorded exactly when no event with its request id is stored, and then it is stored
-- last; a repeated one changes nothing.
pub record_event_lem :
    (e : UsageEvent) (store : UsageStore)
    → IsIndexed store
    → let (fresh, store') = record_event e store in
      IsIndexed store'
      × (has_event e.request_id store' ≡ true)
      × (store'.events ≡ (if fresh then store.events ++ e ∷ [] else store.events))
      × ((fresh ≡ true) ↔ (has e.request_id (ids_of store.events) ≡ false))
unfolding record_event has_event
record_event_lem e store v = (
  record_event-IsIndexed e store v,
  ground (arith, has-add e.request_id e.request_id store.request_ids),
  ground arith,
  (λ h. ground (arith, v.same e.request_id), λ h. ground (arith, v.same e.request_id)),
)

-- Retained events.
abbrev pub retained : String → List UsageEvent → List UsageEvent
retained developer_id es = keep (λ e. not (of_user developer_id e)) es

has-retained :
    (k s : String) (es : List UsageEvent)
    → has s (ids_of es) ≡ false
    → has s (ids_of (retained k es)) ≡ false
unfolding has
has-retained k s [] h = refl
has-retained k s (e ∷ es) h = ground (arith, has-retained k s es)

Once-retained : (k : String) (es : List UsageEvent) → Once es → Once (retained k es)
unfolding has
Once-retained k [] o = tt
Once-retained k (e ∷ es) o =
    ground (arith, Once-retained k es o.1, has-retained k e.request_id es o.0)

reset_found-IsIndexed :
    (o : Option Snapshot) (k : String) (store : UsageStore)
    → IsIndexed store
    → IsIndexed (reset_found o k store).1
unfolding has
reset_found-IsIndexed none k store v = v
reset_found-IsIndexed (some p) k store v = record {
  same = λ s. ground (arith, has-set_of s [] (ids_of (retained k store.events)));
  once = Once-retained k store.events v.once;
}

no_user : (k : String) (es : List UsageEvent) → keep (of_user k) es ≡ [] → retained k es ≡ es
no_user k [] h = refl
no_user k (e ∷ es) h = ground (arith, no_user k es)

reset_events :
    (k : String) (store : UsageStore) (es : List UsageEvent)
    → keep (of_user k) store.events ≡ es
    → (reset_found (snapshot_of k es) k store).1.events ≡ retained k store.events
reset_events k store [] h = sym (no_user k store.events h)
reset_events k store (e ∷ es) h = refl

user_gone : (k : String) (es : List UsageEvent) → keep (of_user k) (retained k es) ≡ []
user_gone k [] = refl
user_gone k (e ∷ es) = ground (arith, user_gone k es)

others_stay :
    (k j : String) (es : List UsageEvent)
    → k ≢ j
    → keep (of_user j) (retained k es) ≡ keep (of_user j) es
others_stay k j [] h = refl
others_stay k j (e ∷ es) h = ground (arith, others_stay k j es h)

-- A reset drops the events of the developer, and only those: the developer has no snapshot any
-- more, that of every other developer is the same, and the set of request ids follows the events,
-- so the dropped requests can be recorded again. The result is the snapshot from before.
pub reset_developer_usage_lem :
    (k j : String) (store : UsageStore)
    → k ≢ j
    → IsIndexed store
    → let (prior, store') = reset_developer_usage k store in
      (prior ≡ get_developer_usage_snapshot k store)
      × (get_developer_usage_snapshot k store' ≡ none)
      × (get_developer_usage_snapshot j store' ≡ get_developer_usage_snapshot j store)
      × IsIndexed store'
unfolding reset_developer_usage get_developer_usage_snapshot
reset_developer_usage_lem k j store h v = (
  prior_of (keep (of_user k) store.events) refl,
  ap (snapshot_of k) (ap (keep (of_user k)) events ∙ user_gone k store.events),
  ap (snapshot_of j) (ap (keep (of_user j)) events ∙ others_stay k j store.events h),
  reset_found-IsIndexed _ k store v,
)
  where
    events :
        (reset_found (snapshot_of k (keep (of_user k) store.events)) k store).1.events
        ≡ retained k store.events
    events = reset_events k store (keep (of_user k) store.events) refl

    prior_of :
        (es : List UsageEvent)
        → keep (of_user k) store.events ≡ es
        → (reset_found (snapshot_of k es) k store).0 ≡ snapshot_of k es
    prior_of [] e = refl
    prior_of (x ∷ es) e = refl
