-- ===== src/Tests/Desks.antt =====
-- Disputes, usage events and quota requests on small stores.
use callora_backend.Common.{
  ℕ, ◌≡◌, ◌≢◌, ◌↔◌, refl, String, List, [], ◌∷◌, ◌++◌, true, false, Option, none, some, arith,
  lookup, All, str_ne, str_dec, if◌then◌else◌,
}
use callora_backend.Disputes.{refunded, IssuedId, Dispute, Repository, ok, resolve_dispute, open_}
use callora_backend.Disputes.Trail.{IsAudited, empty_repository}
use callora_backend.Disputes.Resolution.{opens, run, run-IsAudited}
use callora_backend.Usage.{
  UsageEvent, UsageStore, Snapshot, has, add, has_event, record_event, get_developer_usage_snapshot,
}
use callora_backend.Usage.Recording.{IsIndexed, ids_of, record_event_lem}
use callora_backend.Quota.{
  QuotaRequestStatus, pending, approved, rejected, QuotaRequest, PlanOverrides, Desk, list,
  list_quota_requests,
}
use callora_backend.Quota.Cache.{
  IsCoherent, IsPersistent, list_after, operate_all, approving, listing,
}
use callora_backend.Quota.Finality.{
  operate_all as operate_each, rejecting, updating, resolution_is_final,
}
use callora_backend.Quota.Bulk.{
  BulkOperation, approve, reject, BulkOperationError, BulkOperationResult, bulk_refused,
  bulk_applied, bulk_update_quota_requests,
}
use callora_backend.Quota.Bulk.Gate.{IsOpen, bulk_update_refused}
use callora_backend.Quota.Bulk.Effect.{IsResolved, bulk_update_applied}

run-IsAudited_example :
    IsAudited (run (opens "u1" "slow" "dev" 5 ∷ opens "u1" "slow" "dev" 6 ∷ []) empty_repository)
run-IsAudited_example = run-IsAudited (opens "u1" "slow" "dev" 5 ∷ opens "u1" "slow" "dev" 6 ∷ [])

abbrev first_id : IssuedId
first_id = record { issued_at = 5; serial = 1 }

abbrev one_dispute : Repository
one_dispute = record {
  disputes =
      record {
        id = first_id;
        usage_event_id = "u1";
        opened_by = "dev";
        reason = "slow";
        status = open_;
        created_at = 5;
        resolved_at = none;
        resolved_by = none;
      }
      ∷ [];
  events = [];
  counter = 1;
  refunds_cached = true;
}

abbrev refunded_dispute : Dispute
refunded_dispute = record {
  id = first_id;
  usage_event_id = "u1";
  opened_by = "dev";
  reason = "slow";
  status = refunded;
  created_at = 5;
  resolved_at = some 9;
  resolved_by = some "admin";
}

resolve_run : (resolve_dispute first_id refunded none "admin" 9 one_dispute).0 ≡ ok refunded_dispute
unfolding resolve_dispute
resolve_run = refl

abbrev event : String → String → ℕ → UsageEvent
event request_id user_id n = record {
  id = request_id;
  request_id = request_id;
  api_key = "key";
  api_key_id = "key1";
  api_id = "api";
  endpoint_id = "endpoint";
  user_id = user_id;
  amount_usdc = n;
  status_code = 200;
  timestamp = 4;
  settlement_id = none;
}

abbrev two_events : UsageStore
two_events = record {
  events = event "r1" "ann" 5 ∷ event "r2" "bob" 7 ∷ [];
  request_ids = "r1" ∷ "r2" ∷ [];
}

two_events-IsIndexed : IsIndexed two_events
unfolding has str_dec
two_events-IsIndexed = record { same = λ s. refl; once = (refl, (refl, tt)) }

abbrev ann : String
ann = "ann"

abbrev bob : String
bob = "bob"

ann_not_bob : ann ≢ bob
unfolding str_dec
ann_not_bob = str_ne ann bob refl

record_event_lem_example :
    let (fresh, store') = record_event (event "r3" "ann" 2) two_events in
    IsIndexed store'
    × (has_event "r3" store' ≡ true)
    × (store'.events
        ≡ (if fresh then two_events.events ++ event "r3" "ann" 2 ∷ [] else two_events.events))
    × ((fresh ≡ true) ↔ (has "r3" (ids_of two_events.events) ≡ false))
record_event_lem_example = record_event_lem (event "r3" "ann" 2) two_events two_events-IsIndexed

abbrev ann_snapshot : Snapshot
ann_snapshot = record {
  developer_id = "ann";
  total_events = 1;
  settled_events = 0;
  unsettled_events = 1;
  total_amount_usdc = 5;
  settled_amount_usdc = 0;
  unsettled_amount_usdc = 5;
  api_count = 1;
  endpoint_count = 1;
  first_event_at = some 4;
  last_event_at = some 4;
  status_codes = (200, 1) ∷ [];
}

snapshot_run : get_developer_usage_snapshot "ann" two_events ≡ some ann_snapshot
unfolding get_developer_usage_snapshot str_dec add
snapshot_run = refl

abbrev payout : String
payout = "stl_1"

abbrev no_text : String
no_text = ""

payout_named : payout ≢ no_text
unfolding str_dec
payout_named = str_ne payout no_text refl

abbrev quota : String → QuotaRequestStatus → QuotaRequest
quota id status = record {
  id = id;
  developer_id = "ann";
  requested_tier = "pro";
  reason = "growth";
  requested_overrides = none;
  status = status;
  admin_notes = none;
  created_at = 1;
  resolved_at = none;
  resolved_by = none;
}

abbrev desk : Desk (List String)
desk = record {
  requests = ("q1", quota "q1" pending) ∷ ("q2", quota "q2" rejected) ∷ [];
  cache = [];
  ttl_ms = 30000;
  plans = [];
}

abbrev note_plan : String → PlanOverrides → List String → Option (List String)
note_plan dev o plans = some (dev ∷ plans)

note_plan-IsPersistent : IsPersistent note_plan
note_plan-IsPersistent dev o plans = (dev ∷ plans, refl)

desk-IsCoherent : IsCoherent desk
unfolding lookup
desk-IsCoherent filter e l = cc

list_after_example :
    (list_quota_requests
      (some approved)
      9
      (operate_all note_plan (listing none 4 ∷ approving "q1" "admin" none 5 ∷ []) desk)).0
    ≡ list
        (some approved)
        (operate_all note_plan (listing none 4 ∷ approving "q1" "admin" none 5 ∷ []) desk).requests
list_after_example =
    list_after note_plan note_plan-IsPersistent
      (listing none 4 ∷ approving "q1" "admin" none 5 ∷ []) (some approved) 9 desk desk-IsCoherent

abbrev bulk : List BulkOperation
bulk =
    record { request_id = "q1"; action = approve; admin_notes = none }
    ∷ record { request_id = "q2"; action = approve; admin_notes = none }
    ∷ []

abbrev bulk_of_one : List BulkOperation
bulk_of_one = record { request_id = "q1"; action = reject; admin_notes = none } ∷ []

q2_found : lookup "q2" desk.requests ≡ some (quota "q2" rejected)
unfolding lookup str_dec
q2_found = refl

q1_found : lookup "q1" desk.requests ≡ some (quota "q1" pending)
unfolding lookup str_dec
q1_found = refl

resolution_is_final_example :
    lookup "q2"
      (operate_each note_plan
        (rejecting "q2" "admin" none 5 ∷ updating (λ i. 6) "admin" bulk_of_one ∷ [])
        desk).requests
    ≡ some (quota "q2" rejected)
resolution_is_final_example =
    resolution_is_final note_plan "q2" (quota "q2" rejected)
      (rejecting "q2" "admin" none 5 ∷ updating (λ i. 6) "admin" bulk_of_one ∷ []) desk
      (tt, (tt, tt)) refl q2_found

bulk_refusable : ¬ All (IsOpen desk.requests) bulk
bulk_refusable (a, ((r, e, p), u)) = ground (arith, e, p, q2_found)

bulk_of_one-IsOpen : All (IsOpen desk.requests) bulk_of_one
bulk_of_one-IsOpen = ((quota "q1" pending, q1_found, refl), tt)

bulk_update_refused_example :
    (details : List BulkOperationError) × (bulk_update_quota_requests note_plan
        (λ i. 6)
        "admin"
        bulk
        desk
      ≡ (bulk_refused details, desk))
bulk_update_refused_example =
    bulk_update_refused note_plan (λ i. 6) "admin" bulk desk bulk_refusable

bulk_update_applied_example :
    let (answer, desk') = bulk_update_quota_requests note_plan (λ i. 6) "admin" bulk_of_one desk in
    ((results : List BulkOperationResult) × (answer ≡ bulk_applied results 1 1 0))
    × All (IsResolved "admin" desk.requests desk'.requests) bulk_of_one
bulk_update_applied_example =
    bulk_update_applied note_plan note_plan-IsPersistent (λ i. 6) "admin" bulk_of_one desk
      bulk_of_one-IsOpen (tt, tt)
