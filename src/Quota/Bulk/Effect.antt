-- ===== src/Quota/Bulk/Effect.antt =====
-- services/quotaService.ts, `bulkUpdateQuotaRequests`: what the operations of phase 2 do to the requests.
use callora_backend.Common.{
  ℕ, ◌+◌, ◌≡◌, ◌≢◌, refl, sym, ap, ◌∙◌, subst, String, List, [], ◌∷◌, Bool, true, false, Option,
  some, length, All, map, Dict, lookup, lookup-insert_self,
}
use callora_backend.Quota.{
  QuotaRequestStatus, approved, rejected, QuotaRequest, PlanOverrides, Desk, update, resolve_as,
  plan_overrides,
}
use callora_backend.Quota.Cache.{IsPersistent}
use callora_backend.Quota.Finality.{
  Misses, act-lookup, apply_operations-lookup, cons_result-desk, summarize-desk,
  persisted_in_bulk-requests,
}
use callora_backend.Quota.Bulk.{
  BulkOperation, BulkOperationResult, bulk_applied, Checked, Action, approve, reject,
  check_operations, apply_operation, apply_operations, act, stop_or, gate,
  bulk_update_quota_requests,
}
use callora_backend.Quota.Bulk.Gate.{IsOpen, open-checks, act-goes, bulk_update_reported}

abbrev pub status_by : Action → QuotaRequestStatus
status_by approve = approved
status_by reject = rejected

-- No two operations are for one request.
abbrev pub Distinct : List BulkOperation → Type 0
Distinct [] = Unit
Distinct (op ∷ ops) = All (λ (o : BulkOperation). o.request_id ≢ op.request_id) ops × Distinct ops

-- The request of the operation is stored as in `before`.
abbrev IsKept : (before requests : Dict QuotaRequest) → BulkOperation → Type 0
IsKept before requests op =
    (r : QuotaRequest) × (lookup op.request_id before ≡ some r)
    × (lookup op.request_id requests ≡ some r)

-- The request of the operation, as it was in `before`, is resolved as the operation says.
abbrev pub IsResolved :
    (actor : String) (before requests : Dict QuotaRequest) → BulkOperation → Type 0
IsResolved actor before requests op =
    (r : QuotaRequest) × (now : ℕ) × (lookup op.request_id before ≡ some r)
    × (lookup op.request_id requests
        ≡ some (resolve_as (status_by op.action) op.admin_notes now actor r))

update-lookup_self :
    (id : String) (f : QuotaRequest → QuotaRequest) (d : Dict QuotaRequest) (r : QuotaRequest)
    → lookup id d ≡ some r
    → lookup id (update id f d).1 ≡ some (f r)
unfolding update
update-lookup_self id f d r e = rw e (lookup-insert_self id (f r) d)

all-IsKept :
    (requests : Dict QuotaRequest) (ops : List BulkOperation)
    → All (IsOpen requests) ops
    → All (IsKept requests requests) ops
all-IsKept requests [] h = tt
all-IsKept requests (op ∷ ops) ((r, e, p), h) = ((r, e, e), all-IsKept requests ops h)

all-Misses :
    (id : String) (cs : List (BulkOperation × QuotaRequest))
    → All (λ (o : BulkOperation). o.request_id ≢ id) (map (λ c. c.0) cs)
    → All (Misses id) cs
all-Misses id [] h = tt
all-Misses id ((op, r) ∷ cs) h = (h.0, all-Misses id cs h.1)

module _ {P : Type 0} (persist : String → PlanOverrides → P → Option P)
    (hp : IsPersistent persist) where
  act-resolves :
      (action : Action) (actor : String) (now : ℕ) (op : BulkOperation) (r q : QuotaRequest)
      (desk : Desk P)
      → lookup op.request_id desk.requests ≡ some q
      → lookup op.request_id (act persist action actor now op r desk).1.requests
        ≡ some (resolve_as (status_by action) op.admin_notes now actor q)
  act-resolves approve actor now op r q desk e =
      ap (lookup op.request_id) (
        persisted_in_bulk-requests persist
          (persist r.developer_id (plan_overrides r.requested_tier r.requested_overrides)
            desk.plans)
          _)
      ∙ update-lookup_self op.request_id _ desk.requests q e
  act-resolves reject actor now op r q desk e = update-lookup_self op.request_id _ desk.requests q e

  stop_or-true :
      (done : Bool × Desk P) (go : Desk P → Option (List BulkOperationResult) × Desk P)
      → done.0 ≡ true
      → stop_or persist done go ≡ go done.1
  stop_or-true (true, desk) go e = refl
  stop_or-true (false, desk) go e = cc

  -- The first operation, then the others.
  step-desk :
      (clock : ℕ → ℕ) (actor : String) (i : ℕ) (op : BulkOperation) (r : QuotaRequest)
      (cs : List (BulkOperation × QuotaRequest)) (desk : Desk P)
      → (apply_operations persist clock actor i ((op, r) ∷ cs) desk).1
        ≡ (apply_operations persist clock actor
            (i + 1)
            cs
            (act persist op.action actor (clock i) op r desk).1).1
  unfolding apply_operations apply_operation
  step-desk clock actor i op r cs desk =
      ap (λ p. p.1)
        (stop_or-true (act persist op.action actor (clock i) op r desk) _
          (act-goes persist hp op.action actor (clock i) op r desk))
      ∙ cons_result-desk persist _ _

  act-IsKept :
      (actor : String) (now : ℕ) (before : Dict QuotaRequest) (op : BulkOperation)
      (r : QuotaRequest) (desk : Desk P) (ops : List BulkOperation)
      → All (λ (o : BulkOperation). o.request_id ≢ op.request_id) ops
      → All (IsKept before desk.requests) ops
      → All (IsKept before (act persist op.action actor now op r desk).1.requests) ops
  act-IsKept actor now before op r desk [] m k = tt
  act-IsKept actor now before op r desk (o ∷ ops) m ((q, b, e), k) = (
    (q, b, act-lookup persist o.request_id actor op.action now op r desk (λ s. m.0 (sym s)) ∙ e),
    act-IsKept actor now before op r desk ops m.1 k,
  )

  apply_operations-IsResolved :
      (clock : ℕ → ℕ) (actor : String) (i : ℕ) (before : Dict QuotaRequest)
      (cs : List (BulkOperation × QuotaRequest)) (desk : Desk P)
      → All (IsKept before desk.requests) (map (λ c. c.0) cs)
      → Distinct (map (λ c. c.0) cs)
      → All
          (IsResolved actor before (apply_operations persist clock actor i cs desk).1.requests)
          (map (λ c. c.0) cs)
  apply_operations-IsResolved clock actor i before [] desk k d = tt
  apply_operations-IsResolved clock actor i before ((op, r) ∷ cs) desk ((q, b, e), k) d =
      subst (λ x. All (IsResolved actor before x.requests) (op ∷ map (λ c. c.0) cs))
        (sym (step-desk clock actor i op r cs desk))
        (
          (
            q,
            clock i,
            b,
            apply_operations-lookup persist clock op.request_id actor (i + 1) cs _ _
                (all-Misses op.request_id cs d.0)
                (act-resolves op.action actor (clock i) op r q desk e),
          ),
          apply_operations-IsResolved clock actor (i + 1) before cs _
              (act-IsKept actor (clock i) before op r desk (map (λ c. c.0) cs) d.0 k) d.1,
        )

  gate-IsResolved :
      (clock : ℕ → ℕ) (actor : String) (total : ℕ) (c : Checked) (desk : Desk P)
      → c.0 ≡ []
      → All (IsKept desk.requests desk.requests) (map (λ x. x.0) c.1)
      → Distinct (map (λ x. x.0) c.1)
      → All
          (IsResolved actor desk.requests (gate persist clock actor total c desk).1.requests)
          (map (λ x. x.0) c.1)
  gate-IsResolved clock actor total ([], ops) desk h k d =
      subst (λ x. All (IsResolved actor desk.requests x.requests) (map (λ x. x.0) ops))
        (sym (summarize-desk persist total (apply_operations persist clock actor 0 ops desk)))
        (apply_operations-IsResolved clock actor 0 desk.requests ops desk k d)
  gate-IsResolved clock actor total (e ∷ errors, ops) desk h k d = cc

  -- When the request of every operation is in the store and pending, no two operations are for one
  -- request and the plan store does not throw, the bulk update goes through: it reports as many
  -- successes as operations and no failure, and each request is then stored as it was but for being
  -- approved or rejected, as its operation says, with the notes of the operation and the actor.
  pub bulk_update_applied :
      (clock : ℕ → ℕ) (actor : String) (operations : List BulkOperation) (desk : Desk P)
      → All (IsOpen desk.requests) operations
      → Distinct operations
      → let (answer, desk') = bulk_update_quota_requests persist clock actor operations desk in
        ((results : List BulkOperationResult) × (answer
            ≡ bulk_applied results (length operations) (length operations) 0))
        × All (IsResolved actor desk.requests desk'.requests) operations
  unfolding bulk_update_quota_requests
  bulk_update_applied clock actor operations desk h d =
      let (none_wrong, l, same) = open-checks desk.requests operations h in
      (
        bulk_update_reported persist hp clock actor operations desk h,
        subst
            (All (
              IsResolved actor desk.requests
                (gate persist clock actor (length operations)
                  (check_operations desk.requests operations) desk).1.requests))
            same
            (gate-IsResolved clock actor (length operations)
              (check_operations desk.requests operations) desk none_wrong
              (subst (All (IsKept desk.requests desk.requests)) (sym same)
                (all-IsKept desk.requests operations h))
              (subst Distinct (sym same) d)),
      )
