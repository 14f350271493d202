-- ===== src/Quota/Bulk/Gate.antt =====
-- services/quotaService.ts, `bulkUpdateQuotaRequests`: when the gate opens, and what passes it.
use callora_backend.Common.{
  map, ap, ℕ, suc, ◌+◌, ◌≡◌, refl, ◌∙◌, String, List, [], ◌∷◌, Bool, true, false, Option, none,
  some, arith, length, All, Bool-cases, inl, inr, Dict, lookup,
}
use callora_backend.Quota.{QuotaRequest, PlanOverrides, Desk, is_pending, plan_overrides}
use callora_backend.Quota.Cache.{IsPersistent}
use callora_backend.Quota.Bulk.{
  BulkOperation, BulkOperationError, BulkOperationResult, bulk_refused, bulk_applied, Checked,
  Action, approve, reject, check_operation, check_operations, apply_operation, apply_operations,
  act, stop_or, cons_result, summarize, gate, bulk_update_quota_requests,
}

-- The request of the operation is in the store and is pending.
abbrev pub IsOpen : Dict QuotaRequest → BulkOperation → Type 0
IsOpen requests op =
    (r : QuotaRequest) × (lookup op.request_id requests ≡ some r) × (is_pending r.status ≡ true)

check_one-opens :
    (requests : Dict QuotaRequest) (op : BulkOperation) (found : Option QuotaRequest) (c : Checked)
    → lookup op.request_id requests ≡ found
    → (check_operation op found c).0 ≡ []
    → IsOpen requests op × (c.0 ≡ [])
check_one-opens requests op none c e h = cc
check_one-opens requests op (some r) c e h = elim (Bool-cases (is_pending r.status)) [
  | inl p ↦ ((r, e, p), ground (arith, h, p))
  | inr p ↦ ground (arith, h, p)
]

check-opens :
    (requests : Dict QuotaRequest) (ops : List BulkOperation)
    → (check_operations requests ops).0 ≡ []
    → All (IsOpen requests) ops
unfolding check_operations
check-opens requests [] h = tt
check-opens requests (op ∷ ops) h =
    let (a, b) =
      check_one-opens requests op (lookup op.request_id requests) (check_operations requests ops)
        refl h in
    (a, check-opens requests ops b)

pub open-checks :
    (requests : Dict QuotaRequest) (ops : List BulkOperation)
    → All (IsOpen requests) ops
    → ((check_operations requests ops).0 ≡ [])
      × (length (check_operations requests ops).1 ≡ length ops)
      × (map (λ c. c.0) (check_operations requests ops).1 ≡ ops)
unfolding check_operations
open-checks requests [] h = (refl, refl, refl)
open-checks requests (op ∷ ops) ((r, e, p), h) =
    let (a, b, c) = open-checks requests ops h in
    (rw (e, p) a, rw (e, p) (omega (arith, b)), rw (e, p) (ap (λ xs. op ∷ xs) c))

module _ {P : Type 0} (persist : String → PlanOverrides → P → Option P) where
  gate-refuses :
      (clock : ℕ → ℕ) (actor : String) (total : ℕ) (c : Checked) (desk : Desk P)
      → ¬ (c.0 ≡ [])
      → (details : List BulkOperationError) × (gate persist clock actor total c desk
          ≡ (bulk_refused details, desk))
  gate-refuses clock actor total ([], ops) desk h = elim (h refl) [ ]
  gate-refuses clock actor total (e ∷ errors, ops) desk h = (e ∷ errors, refl)

  -- The gate is atomic: when the request of some operation is unknown or resolved already, the bulk
  -- update is refused and changes nothing.
  pub bulk_update_refused :
      (clock : ℕ → ℕ) (actor : String) (operations : List BulkOperation) (desk : Desk P)
      → ¬ All (IsOpen desk.requests) operations
      → (details : List BulkOperationError) × (bulk_update_quota_requests persist clock actor
            operations desk
          ≡ (bulk_refused details, desk))
  unfolding bulk_update_quota_requests
  bulk_update_refused clock actor operations desk h =
      gate-refuses clock actor (length operations) (check_operations desk.requests operations) desk
        λ e. h (check-opens desk.requests operations e)

module _ {P : Type 0} (persist : String → PlanOverrides → P → Option P)
    (hp : IsPersistent persist) where
  pub act-goes :
      (action : Action) (actor : String) (now : ℕ) (op : BulkOperation) (r : QuotaRequest)
      (desk : Desk P)
      → (act persist action actor now op r desk).0 ≡ true
  act-goes approve actor now op r desk =
      let (next, e) =
        hp r.developer_id (plan_overrides r.requested_tier r.requested_overrides) desk.plans in
      rw e refl
  act-goes reject actor now op r desk = refl

  cons-goes :
      (n : ℕ) (x : BulkOperationResult) (p : Option (List BulkOperationResult) × Desk P)
      → (results : List BulkOperationResult) × (p.0 ≡ some results) × (length results ≡ n)
      → (results : List BulkOperationResult) × ((cons_result persist x p).0 ≡ some results)
        × (length results ≡ suc n)
  cons-goes n x (none, desk) (results, e, l) = cc
  cons-goes n x (some xs, desk) (results, e, l) = (x ∷ xs, refl, ground (arith, e, l))

  stop_or-goes :
      (n : ℕ) (done : Bool × Desk P) (go : Desk P → Option (List BulkOperationResult) × Desk P)
      → done.0 ≡ true
      → (results : List BulkOperationResult) × ((go done.1).0 ≡ some results) × (length results ≡ n)
      → (results : List BulkOperationResult) × ((stop_or persist done go).0 ≡ some results)
        × (length results ≡ n)
  stop_or-goes n (false, desk) go h hg = cc
  stop_or-goes n (true, desk) go h hg = hg

  apply_operations-goes :
      (clock : ℕ → ℕ) (actor : String) (i : ℕ) (ops : List (BulkOperation × QuotaRequest))
      (desk : Desk P)
      → (results : List BulkOperationResult) × ((apply_operations persist clock actor i ops desk).0
          ≡ some results)
        × (length results ≡ length ops)
  unfolding apply_operations apply_operation
  apply_operations-goes clock actor i [] desk = ([], refl, refl)
  apply_operations-goes clock actor i ((op, r) ∷ ops) desk =
      stop_or-goes (suc (length ops)) (apply_operation persist actor (clock i) op r desk) _
        (act-goes op.action actor (clock i) op r desk)
        (cons-goes (length ops) _ _ (apply_operations-goes clock actor (i + 1) ops _))

  summarize-goes :
      (total : ℕ) (p : Option (List BulkOperationResult) × Desk P)
      → (results : List BulkOperationResult) × (p.0 ≡ some results) × (length results ≡ total)
      → (results : List BulkOperationResult) × ((summarize persist total p).0
          ≡ bulk_applied results total total 0)
  summarize-goes total (none, desk) (results, e, l) = cc
  summarize-goes total (some xs, desk) (results, e, l) = (xs, ground (arith, e, l))

  gate-goes :
      (clock : ℕ → ℕ) (actor : String) (total : ℕ) (c : Checked) (desk : Desk P)
      → c.0 ≡ []
      → length c.1 ≡ total
      → (results : List BulkOperationResult) × ((gate persist clock actor total c desk).0
          ≡ bulk_applied results total total 0)
  gate-goes clock actor total ([], ops) desk h l =
      let (results, e, k) = apply_operations-goes clock actor 0 ops desk in
      summarize-goes total _ (results, e, k ∙ l)
  gate-goes clock actor total (e ∷ errors, ops) desk h l = cc

  -- When the request of every operation is in the store and pending and the plan store does not throw,
  -- the bulk update reports as many successes as operations, and no failure.
  pub bulk_update_reported :
      (clock : ℕ → ℕ) (actor : String) (operations : List BulkOperation) (desk : Desk P)
      → All (IsOpen desk.requests) operations
      → (results : List BulkOperationResult) × ((bulk_update_quota_requests persist clock actor
            operations desk).0
          ≡ bulk_applied results (length operations) (length operations) 0)
  unfolding bulk_update_quota_requests
  bulk_update_reported clock actor operations desk h =
      let (a, b, c) = open-checks desk.requests operations h in
      gate-goes clock actor (length operations) (check_operations desk.requests operations) desk a b
