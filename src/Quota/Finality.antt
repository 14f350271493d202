-- ===== src/Quota/Finality.antt =====
-- services/quotaService.ts: a request that is resolved stays as it is.
use callora_backend.Common.{
  ℕ, ◌+◌, ◌≡◌, ◌≢◌, refl, sym, ap, ◌∙◌, String, List, [], ◌∷◌, Bool, true, false, Option, none,
  some, arith, Bool-cases, Option-cases, inl, inr, Dict, lookup, lookup-insert_ne, length, All,
}
use callora_backend.Quota.{
  QuotaRequestStatus, approved, rejected, QuotaRequest, CreateQuotaRequestInput, PlanOverrides,
  Desk, update, create_quota_request, list_quota_requests, list_uncached, reject_quota_request,
  approve_quota_request, when_pending, reject_pending, approve_pending, persisted, resolve_as,
  plan_overrides, is_pending, cache_get, cache_key, Answer,
}
use callora_backend.Quota.Bulk.{
  BulkOperation, BulkOperationResult, Action, approve, reject, check_operation, check_operations,
  Checked, apply_operation, apply_operations, bulk_update_quota_requests, act, stop_or, cons_result,
  summarize, gate, persisted_in_bulk, result_of,
}

pub update-lookup_ne :
    (id j : String) (f : QuotaRequest → QuotaRequest) (d : Dict QuotaRequest)
    → j ≢ id
    → lookup id (update j f d).1 ≡ lookup id d
unfolding update
update-lookup_ne id j f d h = elim (Option-cases (lookup j d)) [
  | inl e ↦ rw e refl
  | inr (r, e) ↦ rw e (lookup-insert_ne j id (f r) d h)
]

-- The operations of the service.
pub data Operation : Type 0 where
  creating : (id : String) (now : ℕ) (input : CreateQuotaRequestInput) → Operation
  listing : (filter : Option QuotaRequestStatus) (now : ℕ) → Operation
  approving : (id actor : String) (notes : Option String) (now : ℕ) → Operation
  rejecting : (id actor : String) (notes : Option String) (now : ℕ) → Operation
  updating : (clock : ℕ → ℕ) (actor : String) (operations : List BulkOperation) → Operation

-- A creation draws another id than this one.
abbrev pub Avoids : String → Operation → Type 0
Avoids id (creating j now input) = j ≢ id
Avoids id (listing filter now) = Unit
Avoids id (approving j actor notes now) = Unit
Avoids id (rejecting j actor notes now) = Unit
Avoids id (updating clock actor operations) = Unit

-- The request of the operation is not this one.
abbrev pub Misses : String → BulkOperation × QuotaRequest → Type 0
Misses id (op, r) = op.request_id ≢ id

pending_differs :
    (id j : String) (r q : QuotaRequest) (requests : Dict QuotaRequest)
    → lookup id requests ≡ some r
    → is_pending r.status ≡ false
    → lookup j requests ≡ some q
    → is_pending q.status ≡ true
    → j ≢ id
pending_differs id j r q requests h hr e hq m =
    let s = sym h ∙ ap (λ x. lookup x requests) (sym m) ∙ e in ground (arith, s, hr, hq)

check_one-Misses :
    (id : String) (r : QuotaRequest) (requests : Dict QuotaRequest) (op : BulkOperation)
    (found : Option QuotaRequest) (c : Checked)
    → lookup id requests ≡ some r
    → is_pending r.status ≡ false
    → lookup op.request_id requests ≡ found
    → All (Misses id) c.1
    → All (Misses id) (check_operation op found c).1
check_one-Misses id r requests op none c h hr e hc = hc
check_one-Misses id r requests op (some q) c h hr e hc = elim (Bool-cases (is_pending q.status)) [
  | inl p ↦ rw p (pending_differs id op.request_id r q requests h hr e p, hc)
  | inr p ↦ rw p hc
]

check-Misses :
    (id : String) (r : QuotaRequest) (requests : Dict QuotaRequest) (ops : List BulkOperation)
    → lookup id requests ≡ some r
    → is_pending r.status ≡ false
    → All (Misses id) (check_operations requests ops).1
unfolding check_operations
check-Misses id r requests [] h hr = tt
check-Misses id r requests (op ∷ ops) h hr =
    check_one-Misses id r requests op (lookup op.request_id requests)
      (check_operations requests ops) h hr refl (check-Misses id r requests ops h hr)

module _ {P : Type 0} (persist : String → PlanOverrides → P → Option P) where
  abbrev pub operate : Operation → Desk P → Desk P
  operate (creating id now input) desk = (create_quota_request id now input desk).1
  operate (listing filter now) desk = (list_quota_requests filter now desk).1
  operate (approving id actor notes now) desk =
      (approve_quota_request persist id actor notes now desk).1
  operate (rejecting id actor notes now) desk = (reject_quota_request id actor notes now desk).1
  operate (updating clock actor operations) desk =
      (bulk_update_quota_requests persist clock actor operations desk).1

  abbrev pub operate_all : List Operation → Desk P → Desk P
  operate_all [] desk = desk
  operate_all (op ∷ ops) desk = operate_all ops (operate op desk)

  pub persisted_in_bulk-requests :
      (plans : Option P) (desk : Desk P)
      → (persisted_in_bulk persist plans desk).1.requests ≡ desk.requests
  persisted_in_bulk-requests none desk = refl
  persisted_in_bulk-requests (some plans) desk = refl

  pub act-lookup :
      (id actor : String) (action : Action) (now : ℕ) (op : BulkOperation) (r : QuotaRequest)
      (desk : Desk P)
      → op.request_id ≢ id
      → lookup id (act persist action actor now op r desk).1.requests ≡ lookup id desk.requests
  act-lookup id actor approve now op r desk h =
      ap (lookup id) (
        persisted_in_bulk-requests
          (persist r.developer_id (plan_overrides r.requested_tier r.requested_overrides)
            desk.plans)
          _)
      ∙ (update-lookup_ne id op.request_id (resolve_as approved op.admin_notes now actor)
          desk.requests h)
  act-lookup id actor reject now op r desk h =
      update-lookup_ne id op.request_id (resolve_as rejected op.admin_notes now actor) desk.requests
        h

  when_pending-lookup :
      (id j : String) (act : QuotaRequest → Desk P → Answer × Desk P) (r : QuotaRequest)
      (desk : Desk P) (found : Option QuotaRequest)
      → lookup j desk.requests ≡ found
      → lookup id desk.requests ≡ some r
      → is_pending r.status ≡ false
      → ((q : QuotaRequest) → j ≢ id → lookup id (act q desk).1.requests ≡ some r)
      → lookup id (when_pending found act desk).1.requests ≡ some r
  when_pending-lookup id j act r desk none e h hr ha = h
  when_pending-lookup id j act r desk (some q) e h hr ha = elim (Bool-cases (is_pending q.status)) [
    | inl p ↦ rw p (ha q (pending_differs id j r q desk.requests h hr e p))
    | inr p ↦ rw p h
  ]

  persisted-requests :
      (plans : Option P) (updated : Option QuotaRequest) (desk : Desk P)
      → (persisted persist plans updated desk).1.requests ≡ desk.requests
  persisted-requests none updated desk = refl
  persisted-requests (some plans) updated desk = refl

  cached_list-requests :
      (filter : Option QuotaRequestStatus) (now : ℕ) (desk : Desk P)
      (found : Option (List QuotaRequest) × _)
      → (list_uncached filter now found desk).1.requests ≡ desk.requests
  cached_list-requests filter now desk (none, cache) = refl
  cached_list-requests filter now desk (some v, cache) = refl

  stop_or-lookup :
      (id : String) (o : Option QuotaRequest) (done : Bool × Desk P)
      (go : Desk P → Option (List BulkOperationResult) × Desk P)
      → lookup id done.1.requests ≡ o
      → lookup id (go done.1).1.requests ≡ o
      → lookup id (stop_or persist done go).1.requests ≡ o
  stop_or-lookup id o (false, desk) go h hg = h
  stop_or-lookup id o (true, desk) go h hg = hg

  pub cons_result-desk :
      (x : BulkOperationResult) (p : Option (List BulkOperationResult) × Desk P)
      → (cons_result persist x p).1 ≡ p.1
  cons_result-desk x (none, desk) = refl
  cons_result-desk x (some xs, desk) = refl

  pub apply_operations-lookup :
      (clock : ℕ → ℕ) (id actor : String) (i : ℕ) (ops : List (BulkOperation × QuotaRequest))
      (desk : Desk P) (o : Option QuotaRequest)
      → All (Misses id) ops
      → lookup id desk.requests ≡ o
      → lookup id (apply_operations persist clock actor i ops desk).1.requests ≡ o
  unfolding apply_operations apply_operation
  apply_operations-lookup clock id actor i [] desk o hm h = h
  apply_operations-lookup clock id actor i ((op, r) ∷ ops) desk o hm h =
      let done = apply_operation persist actor (clock i) op r desk in
      let hd = act-lookup id actor op.action (clock i) op r desk hm.0 ∙ h in
      stop_or-lookup id o done _ hd (
        ap (λ d. lookup id d.requests) (cons_result-desk (result_of op r done.1.requests) _)
        ∙ apply_operations-lookup clock id actor (i + 1) ops done.1 o hm.1 hd)

  pub summarize-desk :
      (total : ℕ) (p : Option (List BulkOperationResult) × Desk P)
      → (summarize persist total p).1 ≡ p.1
  summarize-desk total (none, desk) = refl
  summarize-desk total (some xs, desk) = refl

  gate-lookup :
      (clock : ℕ → ℕ) (id actor : String) (total : ℕ) (c : Checked) (desk : Desk P)
      (o : Option QuotaRequest)
      → All (Misses id) c.1
      → lookup id desk.requests ≡ o
      → lookup id (gate persist clock actor total c desk).1.requests ≡ o
  gate-lookup clock id actor total ([], ops) desk o hm h =
      ap (λ d. lookup id d.requests)
        (summarize-desk total (apply_operations persist clock actor 0 ops desk))
      ∙ apply_operations-lookup clock id actor 0 ops desk o hm h
  gate-lookup clock id actor total (e ∷ errors, ops) desk o hm h = h

  operate-lookup :
      (id : String) (r : QuotaRequest) (op : Operation) (desk : Desk P)
      → Avoids id op
      → is_pending r.status ≡ false
      → lookup id desk.requests ≡ some r
      → lookup id (operate op desk).requests ≡ some r
  unfolding create_quota_request list_quota_requests approve_quota_request reject_quota_request
      bulk_update_quota_requests
  operate-lookup id r (creating j now input) desk ha hr h =
      lookup-insert_ne j id _ desk.requests ha ∙ h
  operate-lookup id r (listing filter now) desk ha hr h =
      ap (lookup id)
        (cached_list-requests filter now desk (cache_get (cache_key filter) now desk.cache))
      ∙ h
  operate-lookup id r (approving j actor notes now) desk ha hr h =
      when_pending-lookup id j (approve_pending persist j actor notes now) r desk _ refl h hr λ q m.
        ap (lookup id) (
          persisted-requests
            (persist q.developer_id (plan_overrides q.requested_tier q.requested_overrides)
              desk.plans)
            _ _)
        ∙ update-lookup_ne id j (resolve_as approved notes now actor) desk.requests m
        ∙ h
  operate-lookup id r (rejecting j actor notes now) desk ha hr h =
      when_pending-lookup id j (reject_pending j actor notes now) r desk _ refl h hr
        λ q m. update-lookup_ne id j (resolve_as rejected notes now actor) desk.requests m ∙ h
  operate-lookup id r (updating clock actor operations) desk ha hr h =
      gate-lookup clock id actor (length operations) (check_operations desk.requests operations)
        desk (some r) (check-Misses id r desk.requests operations h hr) h

  -- A request that is approved or rejected stays exactly as it is, through any sequence of creations
  -- that draw other ids, listings, approvals, rejections and bulk updates, the plan store throwing or
  -- not.
  pub resolution_is_final :
      (id : String) (r : QuotaRequest) (ops : List Operation) (desk : Desk P)
      → All (Avoids id) ops
      → is_pending r.status ≡ false
      → lookup id desk.requests ≡ some r
      → lookup id (operate_all ops desk).requests ≡ some r
  resolution_is_final id r [] desk ha hr h = h
  resolution_is_final id r (op ∷ ops) desk ha hr h =
      resolution_is_final id r ops (operate op desk) ha.1 hr (operate-lookup id r op desk ha.0 hr h)
