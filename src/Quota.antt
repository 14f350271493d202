-- ===== src/Quota.antt =====
-- services/quotaService.ts: requests for a larger quota, their approval and rejection one at a time
-- and in bulk, and the list cache of services/quotasCacheWarm.ts. Times are milliseconds.
pub mod Finality
pub mod Cache
pub mod Bulk
use callora_backend.Common.{
  ℕ, ◌+◌, String, List, [], ◌∷◌, ◌++◌, Bool, true, false, Option, none, some, ite, str_dec, ltb,
  if◌then◌else◌, length, keep, Dict, lookup, insert, erase, values,
}

pub data QuotaRequestStatus : Type 0 where
  pending approved rejected : QuotaRequestStatus

-- `requestedOverrides`, both of whose numbers are optional.
pub record RequestedOverrides : Type 0 where
  pub monthly_call_limit : Option ℕ
  pub rate_limit_max_requests : Option ℕ

pub record QuotaRequest : Type 0 where
  pub id : String
  pub developer_id : String
  pub requested_tier : String
  pub reason : String
  pub requested_overrides : Option RequestedOverrides
  pub status : QuotaRequestStatus
  pub admin_notes : Option String
  pub created_at : ℕ
  pub resolved_at : Option ℕ
  pub resolved_by : Option String

pub record CreateQuotaRequestInput : Type 0 where
  pub developer_id : String
  pub requested_tier : String
  pub reason : String
  pub requested_overrides : Option RequestedOverrides

pub record QuotasCacheEntry : Type 0 where
  pub value : List QuotaRequest
  pub expires_at : ℕ

-- What is written to the developer's plan.
pub record PlanOverrides : Type 0 where
  pub plan_tier : String
  pub monthly_call_limit : Option ℕ
  pub rate_limit_max_requests : Option ℕ

-- The store, the cache with its time to live, and the plans, which another store keeps.
pub record Desk (P : Type 0) : Type 0 where
  pub requests : Dict QuotaRequest
  pub cache : Dict QuotasCacheEntry
  pub ttl_ms : ℕ
  pub plans : P

abbrev pub is_pending : QuotaRequestStatus → Bool
is_pending pending = true
is_pending approved = false
is_pending rejected = false

abbrev pub same_status : QuotaRequestStatus → QuotaRequestStatus → Bool
same_status pending s = is_pending s
same_status approved s = elim s [ pending ↦ false | approved ↦ true | rejected ↦ false ]
same_status rejected s = elim s [ pending ↦ false | approved ↦ false | rejected ↦ true ]

abbrev pub new_request : String → ℕ → CreateQuotaRequestInput → QuotaRequest
new_request id now input = record {
  id = id;
  developer_id = input.developer_id;
  requested_tier = input.requested_tier;
  reason = input.reason;
  requested_overrides = input.requested_overrides;
  status = pending;
  admin_notes = none;
  created_at = now;
  resolved_at = none;
  resolved_by = none;
}

-- `InMemoryQuotaRequestStore.list`
unfoldable pub list : Option QuotaRequestStatus → Dict QuotaRequest → List QuotaRequest
unfolding values
list none requests = values requests
list (some s) requests = keep (λ r. same_status r.status s) (values requests)

abbrev pub update_found :
    Option QuotaRequest
    → String
    → (QuotaRequest → QuotaRequest)
    → Dict QuotaRequest
    → Option QuotaRequest × Dict QuotaRequest
update_found none id change requests = (none, requests)
update_found (some existing) id change requests =
    (some (change existing), insert id (change existing) requests)

-- `InMemoryQuotaRequestStore.update`
unfoldable pub update :
    String
    → (QuotaRequest → QuotaRequest)
    → Dict QuotaRequest
    → Option QuotaRequest × Dict QuotaRequest
update id change requests = update_found (lookup id requests) id change requests

abbrev pub cached :
    Option QuotasCacheEntry
    → String
    → ℕ
    → Dict QuotasCacheEntry
    → Option (List QuotaRequest) × Dict QuotasCacheEntry
cached none key now cache = (none, cache)
cached (some entry) key now cache =
    if ltb entry.expires_at now then (none, erase key cache) else (some entry.value, cache)

-- `QuotasCache.get`
unfoldable pub cache_get :
    String → ℕ → Dict QuotasCacheEntry → Option (List QuotaRequest) × Dict QuotasCacheEntry
unfolding lookup erase
cache_get key now cache = cached (lookup key cache) key now cache

-- `QuotasCache.set`
unfoldable pub cache_set :
    ℕ → String → ℕ → List QuotaRequest → Dict QuotasCacheEntry → Dict QuotasCacheEntry
unfolding insert
cache_set ttl_ms key now value cache =
    insert key (record { value = value; expires_at = now + ttl_ms }) cache

abbrev pub cache_key : Option QuotaRequestStatus → String
cache_key none = "all"
cache_key (some pending) = "pending"
cache_key (some approved) = "approved"
cache_key (some rejected) = "rejected"

-- `limit ? { ... } : {}`: a limit of 0 is left out.
abbrev pub positive_limit : Option ℕ → Option ℕ
positive_limit none = none
positive_limit (some n) = if ltb 0 n then some n else none

abbrev pub plan_overrides : String → Option RequestedOverrides → PlanOverrides
plan_overrides tier none = record {
  plan_tier = tier;
  monthly_call_limit = none;
  rate_limit_max_requests = none;
}
plan_overrides tier (some o) = record {
  plan_tier = tier;
  monthly_call_limit = positive_limit o.monthly_call_limit;
  rate_limit_max_requests = positive_limit o.rate_limit_max_requests;
}

abbrev pub resolve_as :
    QuotaRequestStatus → Option String → ℕ → String → QuotaRequest → QuotaRequest
resolve_as status notes now actor r = record r {
  status = status;
  admin_notes = notes;
  resolved_at = some now;
  resolved_by = some actor;
}

-- What a handler answers: the request as `update` gives it, or why it throws.
pub data Answer : Type 0 where
  resolved : (request : Option QuotaRequest) → Answer
  not_found : Answer
  already_resolved : (status : QuotaRequestStatus) → Answer
  persist_throws : Answer

module _ {P : Type 0} where
  abbrev pub invalidate_all : Desk P → Desk P
  invalidate_all desk = record desk { cache = [] }

  unfoldable pub create_quota_request :
      String → ℕ → CreateQuotaRequestInput → Desk P → QuotaRequest × Desk P
  unfolding insert
  create_quota_request id now input desk =
      let r = new_request id now input in
      (r, invalidate_all (record desk { requests = insert id r desk.requests }))

  abbrev pub list_uncached :
      Option QuotaRequestStatus
      → ℕ
      → Option (List QuotaRequest) × Dict QuotasCacheEntry
      → Desk P
      → List QuotaRequest × Desk P
  list_uncached filter now (some value, cache) desk = (value, record desk { cache = cache })
  list_uncached filter now (none, cache) desk =
      let result = list filter desk.requests in
      (result, record desk { cache = cache_set desk.ttl_ms (cache_key filter) now result cache })

  unfoldable pub list_quota_requests :
      Option QuotaRequestStatus → ℕ → Desk P → List QuotaRequest × Desk P
  unfolding cache_get cache_set list
  list_quota_requests filter now desk =
      list_uncached filter now (cache_get (cache_key filter) now desk.cache) desk

  -- The guards that approval and rejection share.
  abbrev pub when_pending :
      Option QuotaRequest → (QuotaRequest → Desk P → Answer × Desk P) → Desk P → Answer × Desk P
  when_pending none act desk = (not_found, desk)
  when_pending (some r) act desk =
      if is_pending r.status then act r desk else (already_resolved r.status, desk)

  abbrev pub reject_pending :
      String → String → Option String → ℕ → QuotaRequest → Desk P → Answer × Desk P
  reject_pending id actor notes now r desk =
      let (updated, requests) = update id (resolve_as rejected notes now actor) desk.requests in
      (resolved updated, invalidate_all (record desk { requests = requests }))

  unfoldable pub reject_quota_request :
      String → String → Option String → ℕ → Desk P → Answer × Desk P
  unfolding update lookup
  reject_quota_request id actor notes now desk =
      when_pending (lookup id desk.requests) (reject_pending id actor notes now) desk

-- The plan store is a parameter: the overrides of a developer, or `none` when it throws.
module _ {P : Type 0} (persist : String → PlanOverrides → P → Option P) where
  abbrev pub persisted : Option P → Option QuotaRequest → Desk P → Answer × Desk P
  persisted none updated desk = (persist_throws, desk)
  persisted (some plans) updated desk =
      (resolved updated, invalidate_all (record desk { plans = plans }))

  abbrev pub approve_pending :
      String → String → Option String → ℕ → QuotaRequest → Desk P → Answer × Desk P
  approve_pending id actor notes now r desk =
      let (updated, requests) = update id (resolve_as approved notes now actor) desk.requests in
      persisted
        (persist r.developer_id (plan_overrides r.requested_tier r.requested_overrides) desk.plans)
        updated (record desk { requests = requests })

  unfoldable pub approve_quota_request :
      String → String → Option String → ℕ → Desk P → Answer × Desk P
  unfolding update lookup
  approve_quota_request id actor notes now desk =
      when_pending (lookup id desk.requests) (approve_pending id actor notes now) desk
