-- ===== src/Quota/Cache.antt =====
-- services/quotaService.ts with services/quotasCacheWarm.ts: what the cache of lists holds.
use callora_backend.Common.{
  ℕ, ◌+◌, ◌≡◌, ◌≢◌, ◌⊎◌, refl, sym, ◌∙◌, subst, String, List, [], ◌∷◌, Option, none, some, str_dec,
  str_ne, arith, Bool-cases, Option-cases, inl, inr, Dict, lookup, erase, lookup-insert_self,
  lookup-insert_ne, lookup-erase_self, lookup-erase_ne,
}
use callora_backend.Quota.{
  Answer, QuotaRequestStatus, pending, approved, rejected, QuotaRequest, CreateQuotaRequestInput,
  QuotasCacheEntry, PlanOverrides, Desk, list, cached, cache_get, cache_set, cache_key,
  list_uncached, create_quota_request, list_quota_requests, reject_quota_request,
  approve_quota_request, when_pending, reject_pending, approve_pending, plan_overrides, is_pending,
}

-- Each list in the cache is the list of the store.
abbrev pub IsCoherent : {P : Type 0} → Desk P → Type 0
IsCoherent desk =
    (filter : Option QuotaRequestStatus) (e : QuotasCacheEntry)
    → lookup (cache_key filter) desk.cache ≡ some e
    → e.value ≡ list filter desk.requests

cache_key-cases : (f g : Option QuotaRequestStatus) → (f ≡ g) ⊎ (cache_key f ≢ cache_key g)
unfolding str_dec
cache_key-cases none none = inl refl
cache_key-cases none (some pending) = inr (str_ne (cache_key none) (cache_key (some pending)) refl)
cache_key-cases none (some approved) =
    inr (str_ne (cache_key none) (cache_key (some approved)) refl)
cache_key-cases none (some rejected) =
    inr (str_ne (cache_key none) (cache_key (some rejected)) refl)
cache_key-cases (some pending) none = inr (str_ne (cache_key (some pending)) (cache_key none) refl)
cache_key-cases (some pending) (some pending) = inl refl
cache_key-cases (some pending) (some approved) =
    inr (str_ne (cache_key (some pending)) (cache_key (some approved)) refl)
cache_key-cases (some pending) (some rejected) =
    inr (str_ne (cache_key (some pending)) (cache_key (some rejected)) refl)
cache_key-cases (some approved) none =
    inr (str_ne (cache_key (some approved)) (cache_key none) refl)
cache_key-cases (some approved) (some pending) =
    inr (str_ne (cache_key (some approved)) (cache_key (some pending)) refl)
cache_key-cases (some approved) (some approved) = inl refl
cache_key-cases (some approved) (some rejected) =
    inr (str_ne (cache_key (some approved)) (cache_key (some rejected)) refl)
cache_key-cases (some rejected) none =
    inr (str_ne (cache_key (some rejected)) (cache_key none) refl)
cache_key-cases (some rejected) (some pending) =
    inr (str_ne (cache_key (some rejected)) (cache_key (some pending)) refl)
cache_key-cases (some rejected) (some approved) =
    inr (str_ne (cache_key (some rejected)) (cache_key (some approved)) refl)
cache_key-cases (some rejected) (some rejected) = inl refl

cached-lookup :
    (entry : Option QuotasCacheEntry) (k j : String) (now : ℕ) (cache : Dict QuotasCacheEntry)
    (e : QuotasCacheEntry)
    → lookup j (cached entry k now cache).1 ≡ some e
    → lookup j cache ≡ some e
cached-lookup none k j now cache e h = h
cached-lookup (some entry) k j now cache e h = elim (str_dec k j) [
  | yes p ↦
      ground (arith, subst (λ x. lookup x (erase k cache) ≡ none) p (lookup-erase_self k cache))
  | no p ↦ ground (arith, lookup-erase_ne k j cache p)
]

module _ {P : Type 0} where
  get-value :
      (filter : Option QuotaRequestStatus) (now : ℕ) (desk : Desk P) (v : List QuotaRequest)
      → IsCoherent desk
      → (cache_get (cache_key filter) now desk.cache).0 ≡ some v
      → v ≡ list filter desk.requests
  unfolding cache_get
  get-value filter now desk v h g = elim (Option-cases (lookup (cache_key filter) desk.cache)) [
    | inl e ↦ ground (arith, e)
    | inr (e, l) ↦ ground (arith, l, h filter e l)
  ]

  set-IsCoherent :
      (filter : Option QuotaRequestStatus) (now : ℕ) (desk : Desk P) (cache : Dict QuotasCacheEntry)
      → IsCoherent (record desk { cache = cache })
      → IsCoherent (record desk {
        cache = cache_set desk.ttl_ms (cache_key filter) now (list filter desk.requests) cache;
      })
  unfolding cache_set
  set-IsCoherent filter now desk cache h g e l = elim (cache_key-cases filter g) [
    | inl p ↦ ground (
      arith,
      l,
      p,
      lookup-insert_self (cache_key filter)
          (record { value = list filter desk.requests; expires_at = now + desk.ttl_ms }) cache,
    )
    | inr p ↦ h g e (sym (lookup-insert_ne _ _ _ cache p) ∙ l)
  ]

  list-IsCoherent_at :
      (filter : Option QuotaRequestStatus) (now : ℕ) (desk : Desk P)
      (found : Option (List QuotaRequest)) (cache : Dict QuotasCacheEntry)
      → IsCoherent (record desk { cache = cache })
      → ((v : List QuotaRequest) → found ≡ some v → v ≡ list filter desk.requests)
      → ((list_uncached filter now (found, cache) desk).0 ≡ list filter desk.requests)
        × ((list_uncached filter now (found, cache) desk).1.requests ≡ desk.requests)
        × IsCoherent (list_uncached filter now (found, cache) desk).1
  list-IsCoherent_at filter now desk none cache h hv =
      (refl, refl, set-IsCoherent filter now desk cache h)
  list-IsCoherent_at filter now desk (some v) cache h hv = (hv v refl, refl, h)

  -- From a coherent cache, listing answers what the store holds under the filter, whether the answer
  -- comes from the cache or not; it leaves the requests as they are and the cache coherent.
  pub list_quota_requests_lem :
      (filter : Option QuotaRequestStatus) (now : ℕ) (desk : Desk P)
      → IsCoherent desk
      → ((list_quota_requests filter now desk).0 ≡ list filter desk.requests)
        × ((list_quota_requests filter now desk).1.requests ≡ desk.requests)
        × IsCoherent (list_quota_requests filter now desk).1
  unfolding list_quota_requests
  list_quota_requests_lem filter now desk h =
      let got = cache_get (cache_key filter) now desk.cache in
      list-IsCoherent_at filter now desk got.0 got.1
        (λ g e l. h g e (
          cached-lookup (lookup (cache_key filter) desk.cache) (cache_key filter) (cache_key g) now
            desk.cache e l))
        (λ v. get-value filter now desk v h)

  pub create-IsCoherent :
      (id : String) (now : ℕ) (input : CreateQuotaRequestInput) (desk : Desk P)
      → IsCoherent (create_quota_request id now input desk).1
  unfolding create_quota_request lookup
  create-IsCoherent id now input desk filter e l = cc

  when_pending-IsCoherent :
      (r : Option QuotaRequest) (act : QuotaRequest → Desk P → Answer × Desk P) (desk : Desk P)
      → IsCoherent desk
      → ((q : QuotaRequest) → IsCoherent (act q desk).1)
      → IsCoherent (when_pending r act desk).1
  when_pending-IsCoherent none act desk h ha = h
  when_pending-IsCoherent (some r) act desk h ha = elim (Bool-cases (is_pending r.status)) [
    | inl e ↦ rw e (ha r)
    | inr e ↦ rw e h
  ]

  pub reject-IsCoherent :
      (id actor : String) (notes : Option String) (now : ℕ) (desk : Desk P)
      → IsCoherent desk
      → IsCoherent (reject_quota_request id actor notes now desk).1
  unfolding reject_quota_request lookup
  reject-IsCoherent id actor notes now desk h =
      when_pending-IsCoherent (lookup id desk.requests) (reject_pending id actor notes now) desk h
        λ q filter e l. cc

-- The operations on single requests.
pub data Operation : Type 0 where
  creating : (id : String) (now : ℕ) (input : CreateQuotaRequestInput) → Operation
  listing : (filter : Option QuotaRequestStatus) (now : ℕ) → Operation
  approving : (id actor : String) (notes : Option String) (now : ℕ) → Operation
  rejecting : (id actor : String) (notes : Option String) (now : ℕ) → Operation

module _ {P : Type 0} (persist : String → PlanOverrides → P → Option P) where
  abbrev pub operate : Operation → Desk P → Desk P
  operate (creating id now input) desk = (create_quota_request id now input desk).1
  operate (listing filter now) desk = (list_quota_requests filter now desk).1
  operate (approving id actor notes now) desk =
      (approve_quota_request persist id actor notes now desk).1
  operate (rejecting id actor notes now) desk = (reject_quota_request id actor notes now desk).1

  abbrev pub operate_all : List Operation → Desk P → Desk P
  operate_all [] desk = desk
  operate_all (op ∷ ops) desk = operate_all ops (operate op desk)

-- The plan store does not throw.
abbrev pub IsPersistent : {P : Type 0} → (String → PlanOverrides → P → Option P) → Type 0
IsPersistent {P} persist =
    (dev : String) (o : PlanOverrides) (plans : P) → (next : P) × (persist dev o plans ≡ some next)

module _ {P : Type 0} (persist : String → PlanOverrides → P → Option P)
    (hp : IsPersistent persist) where
  approve-IsCoherent :
      (id actor : String) (notes : Option String) (now : ℕ) (desk : Desk P)
      → IsCoherent desk
      → IsCoherent (approve_quota_request persist id actor notes now desk).1
  unfolding approve_quota_request lookup
  approve-IsCoherent id actor notes now desk h =
      when_pending-IsCoherent (lookup id desk.requests) (approve_pending persist id actor notes now)
        desk h
        λ q.
          let (next, e) =
            hp q.developer_id (plan_overrides q.requested_tier q.requested_overrides) desk.plans in
          rw e (λ filter e' l. cc)

  operate-IsCoherent :
      (op : Operation) (desk : Desk P) → IsCoherent desk → IsCoherent (operate persist op desk)
  operate-IsCoherent (creating id now input) desk h = create-IsCoherent id now input desk
  operate-IsCoherent (listing filter now) desk h = (list_quota_requests_lem filter now desk h).2
  operate-IsCoherent (approving id actor notes now) desk h =
      approve-IsCoherent id actor notes now desk h
  operate-IsCoherent (rejecting id actor notes now) desk h =
      reject-IsCoherent id actor notes now desk h

  -- When the plan store does not throw, after any sequence of creations, listings, approvals and
  -- rejections from a coherent cache, listing answers exactly what the store holds under the filter.
  pub list_after :
      (ops : List Operation) (filter : Option QuotaRequestStatus) (now : ℕ) (desk : Desk P)
      → IsCoherent desk
      → (list_quota_requests filter now (operate_all persist ops desk)).0
        ≡ list filter (operate_all persist ops desk).requests
  list_after [] filter now desk h = (list_quota_requests_lem filter now desk h).0
  list_after (op ∷ ops) filter now desk h =
      list_after ops filter now (operate persist op desk) (operate-IsCoherent op desk h)
