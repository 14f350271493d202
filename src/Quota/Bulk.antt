-- ===== src/Quota/Bulk.antt =====
-- services/quotaService.ts, `bulkUpdateQuotaRequests`: the check of all operations, the gate, and the
-- operations in order.
pub mod Gate
pub mod Effect
use callora_backend.Common.{
  ℕ, ◌+◌, String, List, [], ◌∷◌, Bool, true, false, Option, none, some, if◌then◌else◌, length, Dict,
  lookup,
}
use callora_backend.Quota.{
  QuotaRequestStatus, approved, rejected, QuotaRequest, PlanOverrides, Desk, is_pending, update,
  plan_overrides, resolve_as,
}

pub data Action : Type 0 where
  approve reject : Action

pub record BulkOperation : Type 0 where
  pub request_id : String
  pub action : Action
  pub admin_notes : Option String

-- A `BulkOperationError`, whose code is the error: the request is not found, or resolved already.
pub data BulkOperationError : Type 0 where
  unknown : (request_id : String) → BulkOperationError
  resolved_before : (request_id : String) (status : QuotaRequestStatus) → BulkOperationError

pub record BulkOperationResult : Type 0 where
  pub request_id : String
  pub developer_id : String
  pub requested_tier : String
  pub status : Option QuotaRequestStatus

pub data BulkAnswer : Type 0 where
  bulk_refused : (details : List BulkOperationError) → BulkAnswer
  bulk_throws : BulkAnswer
  bulk_applied : (results : List BulkOperationResult) (total succeeded failed : ℕ) → BulkAnswer

abbrev pub Checked : Type 0
Checked = List BulkOperationError × List (BulkOperation × QuotaRequest)

abbrev pub check_operation : BulkOperation → Option QuotaRequest → Checked → Checked
check_operation op none (errors, ops) = (unknown op.request_id ∷ errors, ops)
check_operation op (some r) (errors, ops) =
    if is_pending r.status
    then (errors, (op, r) ∷ ops)
    else (resolved_before op.request_id r.status ∷ errors, ops)

-- Phase 1: every operation is checked against the store.
unfoldable pub check_operations : Dict QuotaRequest → List BulkOperation → Checked
unfolding lookup
check_operations requests [] = ([], [])
check_operations requests (op ∷ ops) =
    check_operation op (lookup op.request_id requests) (check_operations requests ops)

abbrev pub status_of : Option QuotaRequest → Option QuotaRequestStatus
status_of none = none
status_of (some r) = some r.status

abbrev pub result_of : BulkOperation → QuotaRequest → Dict QuotaRequest → BulkOperationResult
result_of op r requests = record {
  request_id = op.request_id;
  developer_id = r.developer_id;
  requested_tier = r.requested_tier;
  status = status_of (lookup op.request_id requests);
}

module _ {P : Type 0} (persist : String → PlanOverrides → P → Option P) where
  abbrev pub with_requests : Dict QuotaRequest → Desk P → Desk P
  with_requests requests desk = record desk { requests = requests }

  abbrev pub persisted_in_bulk : Option P → Desk P → Bool × Desk P
  persisted_in_bulk none desk = (false, desk)
  persisted_in_bulk (some plans) desk = (true, record desk { plans = plans })

  -- One operation of phase 2, by its action; `false` says that the plan store threw.
  abbrev pub act : Action → String → ℕ → BulkOperation → QuotaRequest → Desk P → Bool × Desk P
  act approve actor now op r desk =
      persisted_in_bulk
        (persist r.developer_id (plan_overrides r.requested_tier r.requested_overrides) desk.plans)
        (with_requests
          (update op.request_id (resolve_as approved op.admin_notes now actor) desk.requests).1
          desk)
  act reject actor now op r desk = (
    true,
    with_requests
        (update op.request_id (resolve_as rejected op.admin_notes now actor) desk.requests).1 desk,
  )

  unfoldable pub apply_operation :
      String → ℕ → BulkOperation → QuotaRequest → Desk P → Bool × Desk P
  unfolding update lookup
  apply_operation actor now op r desk = act op.action actor now op r desk

  abbrev pub stop_or :
      Bool × Desk P
      → (Desk P → Option (List BulkOperationResult) × Desk P)
      → Option (List BulkOperationResult) × Desk P
  stop_or (false, desk) go = (none, desk)
  stop_or (true, desk) go = go desk

  abbrev pub cons_result :
      BulkOperationResult
      → Option (List BulkOperationResult) × Desk P
      → Option (List BulkOperationResult) × Desk P
  cons_result x (none, desk) = (none, desk)
  cons_result x (some xs, desk) = (some (x ∷ xs), desk)

  -- Phase 2, in order; `none` says that the plan store threw, and the rest is not applied. `clock`
  -- is the time of each operation.
  unfoldable pub apply_operations :
      (ℕ → ℕ)
      → String
      → ℕ
      → List (BulkOperation × QuotaRequest)
      → Desk P
      → Option (List BulkOperationResult) × Desk P
  unfolding apply_operation
  apply_operations clock actor i [] desk = (some [], desk)
  apply_operations clock actor i ((op, r) ∷ ops) desk =
      stop_or (apply_operation actor (clock i) op r desk) λ next.
        cons_result (result_of op r next.requests) (apply_operations clock actor (i + 1) ops next)

  abbrev pub summarize : ℕ → Option (List BulkOperationResult) × Desk P → BulkAnswer × Desk P
  summarize total (none, desk) = (bulk_throws, desk)
  summarize total (some results, desk) = (bulk_applied results total (length results) 0, desk)

  -- The gate between the phases.
  abbrev pub gate : (ℕ → ℕ) → String → ℕ → Checked → Desk P → BulkAnswer × Desk P
  gate clock actor total ([], ops) desk = summarize total (apply_operations clock actor 0 ops desk)
  gate clock actor total (e ∷ errors, ops) desk = (bulk_refused (e ∷ errors), desk)

  unfoldable pub bulk_update_quota_requests :
      (ℕ → ℕ) → String → List BulkOperation → Desk P → BulkAnswer × Desk P
  unfolding apply_operations check_operations
  bulk_update_quota_requests clock actor operations desk =
      gate clock actor (length operations) (check_operations desk.requests operations) desk
