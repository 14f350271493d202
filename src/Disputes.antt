-- ===== src/Disputes.antt =====
-- services/disputeService.ts: disputes, their states and their audit trail. Operations of the
-- service are functions on the repository; times are milliseconds.
pub mod Trail
pub mod Resolution
pub mod Once
use callora_backend.Common.{
  ℕ, ◌+◌, String, List, [], ◌∷◌, ◌++◌, Bool, true, false, ◌&&◌, Option, none, some, ite, str_dec,
  ◌==◌, if◌then◌else◌, keep,
}

pub data DisputeStatus : Type 0 where
  open_ refunded upheld : DisputeStatus

-- The text `${prefix}_${Date.now()}_${++_counter}` of `nextId`, which its two numbers determine
-- where the prefix is known.
pub record IssuedId : Type 0 where
  pub issued_at : ℕ
  pub serial : ℕ

abbrev pub same_id : IssuedId → IssuedId → Bool
same_id a b = a.issued_at == b.issued_at && a.serial == b.serial

pub record Dispute : Type 0 where
  pub id : IssuedId
  pub usage_event_id : String
  pub opened_by : String
  pub reason : String
  pub status : DisputeStatus
  pub created_at : ℕ
  pub resolved_at : Option ℕ
  pub resolved_by : Option String

pub data Action : Type 0 where
  opened : (usage_event_id reason : String) → Action
  resolved : DisputeStatus → (notes : Option String) → Action

pub record DisputeEvent : Type 0 where
  pub id : IssuedId
  pub dispute_id : IssuedId
  pub actor : String
  pub action : Action
  pub created_at : ℕ

-- The repository, the counter of `nextId`, and whether the cache of refunds holds an entry.
pub record Repository : Type 0 where
  pub disputes : List Dispute
  pub events : List DisputeEvent
  pub counter : ℕ
  pub refunds_cached : Bool

pub data DisputeError : Type 0 where
  conflict not_found forbidden : DisputeError

pub data Result (A : Type 0) : Type 0 where
  ok : A → Result A
  err : DisputeError → Result A

unfoldable pub find_by_id : IssuedId → List Dispute → Option Dispute
find_by_id id [] = none
find_by_id id (d ∷ ds) = if same_id d.id id then some d else find_by_id id ds

unfoldable pub find_by_usage_event_id : String → List Dispute → Option Dispute
find_by_usage_event_id usage_event_id [] = none
find_by_usage_event_id usage_event_id (d ∷ ds) =
    ite (str_dec d.usage_event_id usage_event_id) (some d)
      (find_by_usage_event_id usage_event_id ds)

unfoldable pub find_by_user : String → List Dispute → List Dispute
find_by_user user_id [] = []
find_by_user user_id (d ∷ ds) =
    let rest = find_by_user user_id ds in ite (str_dec d.opened_by user_id) (d ∷ rest) rest

abbrev pub new_dispute : String → String → String → ℕ → ℕ → Dispute
new_dispute usage_event_id reason opened_by now serial = record {
  id = record { issued_at = now; serial = serial };
  usage_event_id = usage_event_id;
  opened_by = opened_by;
  reason = reason;
  status = open_;
  created_at = now;
  resolved_at = none;
  resolved_by = none;
}

abbrev pub create_unless_found : Option Dispute → Dispute → Repository → Result Dispute × Repository
create_unless_found (some _) d repo = (err conflict, repo)
create_unless_found none d repo =
    (ok d, record repo { disputes = repo.disputes ++ d ∷ []; counter = repo.counter + 1 })

unfoldable pub create : String → String → String → ℕ → Repository → Result Dispute × Repository
unfolding find_by_usage_event_id
create usage_event_id reason opened_by now repo =
    create_unless_found (find_by_usage_event_id usage_event_id repo.disputes)
      (new_dispute usage_event_id reason opened_by now (repo.counter + 1)) repo

-- `disputes.set(id, updated)` on a key that is there.
unfoldable pub replace : Dispute → List Dispute → List Dispute
replace updated [] = []
replace updated (d ∷ ds) = if same_id d.id updated.id then updated ∷ ds else d ∷ replace updated ds

abbrev pub settled : DisputeStatus → String → ℕ → Dispute → Dispute
settled resolution resolved_by now d = record d {
  status = resolution;
  resolved_at = some now;
  resolved_by = some resolved_by;
}

abbrev pub resolve_in :
    DisputeStatus → DisputeStatus → String → ℕ → Dispute → Repository → Result Dispute × Repository
resolve_in open_ resolution resolved_by now d repo =
    let updated = settled resolution resolved_by now d in
    (ok updated, record repo { disputes = replace updated repo.disputes })
resolve_in refunded resolution resolved_by now d repo = (err conflict, repo)
resolve_in upheld resolution resolved_by now d repo = (err conflict, repo)

abbrev pub resolve_found :
    Option Dispute → DisputeStatus → String → ℕ → Repository → Result Dispute × Repository
resolve_found none resolution resolved_by now repo = (err not_found, repo)
resolve_found (some d) resolution resolved_by now repo =
    resolve_in d.status resolution resolved_by now d repo

unfoldable pub resolve :
    IssuedId → DisputeStatus → String → ℕ → Repository → Result Dispute × Repository
unfolding find_by_id replace
resolve id resolution resolved_by now repo =
    resolve_found (find_by_id id repo.disputes) resolution resolved_by now repo

unfoldable pub append_event : IssuedId → String → Action → ℕ → Repository → Repository
append_event dispute_id actor action now repo = record repo {
  events =
      repo.events
      ++ record {
        id = record { issued_at = now; serial = repo.counter + 1 };
        dispute_id = dispute_id;
        actor = actor;
        action = action;
        created_at = now;
      }
        ∷ [];
  counter = repo.counter + 1;
}

unfoldable pub get_events : IssuedId → List DisputeEvent → List DisputeEvent
get_events dispute_id [] = []
get_events dispute_id (e ∷ es) =
    let rest = get_events dispute_id es in
    if same_id e.dispute_id dispute_id then e ∷ rest else rest

abbrev pub log_opened : String → ℕ → Result Dispute × Repository → Result Dispute × Repository
log_opened opened_by now (err e, repo) = (err e, repo)
log_opened opened_by now (ok d, repo) =
    (ok d, append_event d.id opened_by (opened d.usage_event_id d.reason) now repo)

unfoldable pub open_dispute :
    String → String → String → ℕ → Repository → Result Dispute × Repository
unfolding create append_event
open_dispute usage_event_id reason opened_by now repo =
    log_opened opened_by now (create usage_event_id reason opened_by now repo)

abbrev pub drop_refunds : DisputeStatus → Repository → Repository
drop_refunds refunded repo = record repo { refunds_cached = false }
drop_refunds upheld repo = repo
drop_refunds open_ repo = repo

abbrev pub log_resolved :
    DisputeStatus
    → Option String
    → String
    → ℕ
    → Result Dispute × Repository
    → Result Dispute × Repository
log_resolved resolution notes admin_actor now (err e, repo) = (err e, repo)
log_resolved resolution notes admin_actor now (ok d, repo) = (
  ok d,
  drop_refunds resolution (append_event d.id admin_actor (resolved resolution notes) now repo),
)

-- `resolution` is REFUNDED or UPHELD, as the request schema wants.
unfoldable pub resolve_dispute :
    IssuedId → DisputeStatus → Option String → String → ℕ → Repository → Result Dispute × Repository
unfolding resolve append_event
resolve_dispute id resolution notes admin_actor now repo =
    log_resolved resolution notes admin_actor now (resolve id resolution admin_actor now repo)

abbrev pub owned_by : String → Option Dispute → Result Dispute
owned_by user_id none = err not_found
owned_by user_id (some d) = ite (str_dec d.opened_by user_id) (ok d) (err forbidden)

unfoldable pub get_dispute_for_developer : IssuedId → String → Repository → Result Dispute
unfolding find_by_id
get_dispute_for_developer id user_id repo = owned_by user_id (find_by_id id repo.disputes)
