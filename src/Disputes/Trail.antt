-- ===== src/Disputes/Trail.antt =====
-- services/disputeService.ts: every dispute has the audit trail of its state.
use mathlib.Core.List.{append-nil}
use callora_backend.Common.{
  ℕ, ◌+◌, ◌≤◌, ◌<◌, ◌≡◌, ◌≢◌, refl, inl, inr, String, List, [], ◌∷◌, ◌++◌, false, none, arith, All,
  All-append, Option-cases, map, if◌then◌else◌,
}
use callora_backend.Disputes.{
  DisputeStatus, open_, refunded, upheld, IssuedId, same_id, Dispute, opened, resolved,
  DisputeEvent, Repository, find_by_usage_event_id, create, append_event, get_events, open_dispute,
  new_dispute, create_unless_found, log_opened,
}

-- What a trail says, its details left out.
pub data Mark : Type 0 where
  was_opened : Mark
  was_resolved : DisputeStatus → Mark

abbrev pub mark : DisputeEvent → Mark
mark e = elim e.action [ opened u r ↦ was_opened | resolved s n ↦ was_resolved s ]

abbrev pub marks : IssuedId → List DisputeEvent → List Mark
marks id es = map mark (get_events id es)

abbrev pub trail_of : DisputeStatus → List Mark
trail_of open_ = was_opened ∷ []
trail_of refunded = was_opened ∷ was_resolved refunded ∷ []
trail_of upheld = was_opened ∷ was_resolved upheld ∷ []

abbrev pub Dated : DisputeStatus → Dispute → Type 0
Dated open_ d = (d.resolved_at ≡ none) × (d.resolved_by ≡ none)
Dated refunded d = (d.resolved_at ≢ none) × (d.resolved_by ≢ none)
Dated upheld d = (d.resolved_at ≢ none) × (d.resolved_by ≢ none)

-- No two disputes are over one usage event.
abbrev pub OnePerEvent : List Dispute → Type 0
OnePerEvent [] = Unit
OnePerEvent (d ∷ ds) = (find_by_usage_event_id d.usage_event_id ds ≡ none) × OnePerEvent ds

-- Nor do two have one id.
abbrev pub OneId : List Dispute → Type 0
OneId [] = Unit
OneId (d ∷ ds) = All (λ (x : Dispute). same_id x.id d.id ≡ false) ds × OneId ds

pub record IsAudited (repo : Repository) : Type 0 where
  pub per_event : OnePerEvent repo.disputes
  pub per_id : OneId repo.disputes
  pub issued : All (λ (d : Dispute). d.id.serial ≤ repo.counter) repo.disputes
  pub logged : All (λ (e : DisputeEvent). e.dispute_id.serial ≤ repo.counter) repo.events
  pub trails : All (λ (d : Dispute). marks d.id repo.events ≡ trail_of d.status) repo.disputes
  pub dates : All (λ (d : Dispute). Dated d.status d) repo.disputes

unfoldable pub empty_repository : Repository
empty_repository = record { disputes = []; events = []; counter = 0; refunds_cached = false }

pub empty_repository-IsAudited : IsAudited empty_repository
unfolding empty_repository
empty_repository-IsAudited = record {
  per_event = tt;
  per_id = tt;
  issued = tt;
  logged = tt;
  trails = tt;
  dates = tt;
}

-- One event more.
pub marks-snoc :
    (id : IssuedId) (es : List DisputeEvent) (e : DisputeEvent)
    → marks id (es ++ e ∷ []) ≡ marks id es ++ (if same_id e.dispute_id id then mark e ∷ [] else [])
unfolding get_events
marks-snoc id [] e = ground arith
marks-snoc id (x ∷ es) e = ground (arith, marks-snoc id es e)

marks_fresh :
    (id : IssuedId) (n : ℕ) (es : List DisputeEvent)
    → n < id.serial
    → All (λ (e : DisputeEvent). e.dispute_id.serial ≤ n) es
    → marks id es ≡ []
unfolding get_events
marks_fresh id n [] h a = refl
marks_fresh id n (e ∷ es) h (k, a) = ground (arith, marks_fresh id n es h a)

pub issued_mono :
    (m n : ℕ) (ds : List Dispute)
    → m ≤ n
    → All (λ (d : Dispute). d.id.serial ≤ m) ds
    → All (λ (d : Dispute). d.id.serial ≤ n) ds
issued_mono m n [] h a = tt
issued_mono m n (d ∷ ds) h (k, a) = (omega arith, issued_mono m n ds h a)

pub logged_mono :
    (m n : ℕ) (es : List DisputeEvent)
    → m ≤ n
    → All (λ (e : DisputeEvent). e.dispute_id.serial ≤ m) es
    → All (λ (e : DisputeEvent). e.dispute_id.serial ≤ n) es
logged_mono m n [] h a = tt
logged_mono m n (e ∷ es) h (k, a) = (omega arith, logged_mono m n es h a)

find_usage_snoc :
    (k : String) (ds : List Dispute) (d : Dispute)
    → find_by_usage_event_id k ds ≡ none
    → d.usage_event_id ≢ k
    → find_by_usage_event_id k (ds ++ d ∷ []) ≡ none
unfolding find_by_usage_event_id
find_usage_snoc k [] d e h = ground arith
find_usage_snoc k (x ∷ ds) d e h = ground (arith, find_usage_snoc k ds d)

OnePerEvent-snoc :
    (ds : List Dispute) (d : Dispute)
    → find_by_usage_event_id d.usage_event_id ds ≡ none
    → OnePerEvent ds
    → OnePerEvent (ds ++ d ∷ [])
unfolding find_by_usage_event_id
OnePerEvent-snoc [] d e o = (refl, tt)
OnePerEvent-snoc (x ∷ ds) d e o = (
  ground (arith, find_usage_snoc x.usage_event_id ds d o.0),
  OnePerEvent-snoc ds d (ground arith) o.1,
)

OneId-snoc :
    (n : ℕ) (ds : List Dispute) (d : Dispute)
    → n < d.id.serial
    → All (λ (x : Dispute). x.id.serial ≤ n) ds
    → OneId ds
    → OneId (ds ++ d ∷ [])
OneId-snoc n [] d h a o = (tt, tt)
OneId-snoc n (x ∷ ds) d h (k, a) o =
    (All-append _ ds (d ∷ []) o.0 (ground arith, tt), OneId-snoc n ds d h a o.1)

-- The trails of disputes that an event is not about.
trails-snoc :
    (n : ℕ) (ds : List Dispute) (es : List DisputeEvent) (e : DisputeEvent)
    → n < e.dispute_id.serial
    → All (λ (d : Dispute). d.id.serial ≤ n) ds
    → All (λ (d : Dispute). marks d.id es ≡ trail_of d.status) ds
    → All (λ (d : Dispute). marks d.id (es ++ e ∷ []) ≡ trail_of d.status) ds
trails-snoc n [] es e h a t = tt
trails-snoc n (d ∷ ds) es e h (k, a) (t, ts) =
    (ground (arith, marks-snoc d.id es e, append-nil (marks d.id es)), trails-snoc n ds es e h a ts)

open-IsAudited :
    (usage_event_id reason opened_by : String) (now : ℕ) (repo : Repository)
    → find_by_usage_event_id usage_event_id repo.disputes ≡ none
    → IsAudited repo
    → IsAudited
        (log_opened opened_by now (
          create_unless_found none
            (new_dispute usage_event_id reason opened_by now (repo.counter + 1))
            repo)).1
unfolding append_event
open-IsAudited u r by now repo e v = record {
  per_event = OnePerEvent-snoc repo.disputes d e v.per_event;
  per_id = OneId-snoc repo.counter repo.disputes d (omega arith) v.issued v.per_id;
  issued =
      All-append _ repo.disputes (d ∷ [])
        (issued_mono repo.counter (repo.counter + 1 + 1) repo.disputes (omega arith) v.issued)
        (omega arith, tt);
  logged =
      All-append _ repo.events (ev ∷ [])
        (logged_mono repo.counter (repo.counter + 1 + 1) repo.events (omega arith) v.logged)
        (omega arith, tt);
  trails =
      All-append _ repo.disputes (d ∷ [])
        (trails-snoc repo.counter repo.disputes repo.events ev (omega arith) v.issued v.trails)
        (
          ground (
            arith,
            marks-snoc d.id repo.events ev,
            marks_fresh d.id repo.counter repo.events (omega arith) v.logged,
          ),
          tt,
        );
  dates = All-append _ repo.disputes (d ∷ []) v.dates ((refl, refl), tt);
}
  where
    d : Dispute
    d = new_dispute u r by now (repo.counter + 1)

    ev : DisputeEvent
    ev = record {
      id = record { issued_at = now; serial = repo.counter + 1 + 1 };
      dispute_id = d.id;
      actor = by;
      action = opened u r;
      created_at = now;
    }

-- Opening keeps the repository audited.
pub open_dispute-IsAudited :
    (usage_event_id reason opened_by : String) (now : ℕ) (repo : Repository)
    → IsAudited repo
    → IsAudited (open_dispute usage_event_id reason opened_by now repo).1
unfolding open_dispute create
open_dispute-IsAudited u r by now repo v =
    elim (Option-cases (find_by_usage_event_id u repo.disputes)) [
      | inl e ↦ rw e (open-IsAudited u r by now repo e v)
      | inr (d, e) ↦ rw e v
    ]
