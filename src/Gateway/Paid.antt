-- ===== src/Gateway/Paid.antt =====
-- routes/gatewayRoutes.ts over services/billingService.ts and services/usageStore.ts: the events of a
-- developer against the credits that the developer has paid.
use callora_backend.Common.{
  ℕ, ◌+◌, ◌≤◌, ◌≡◌, ◌≢◌, refl, sym, subst, ap, inl, inr, String, List, [], ◌∷◌, ◌++◌, Bool, true,
  false, ite, str_dec, arith, Bool-cases, length, keep,
}
use callora_backend.Usage.{UsageEvent, UsageStore, record_event, has, of_user}
use callora_backend.Gateway.Keys.{ApiKey}
use callora_backend.Gateway.Route.{
  Bindings, Charge, charged, refused_charge, BillingService, Upstream, responded, timed_out,
  unreachable, Request, Settings, credit_cost_per_call, event_of, World, proxy, proxy_all,
}
use callora_backend.Gateway.Metered.{outcome, proxy-IsMetered}
use callora_backend.Credits.{Credits, BillingResult, check_balance, deduct_credit}
use callora_backend.Credits.Balances.{deduct_credit_lem, taken}

-- The charge that a result of `deductCredit` stands for.
abbrev pub charge_of : Bool → Charge
charge_of true = charged
charge_of false = refused_charge

abbrev pub as_charge : BillingResult × Credits → Charge × Credits
as_charge (r, c) = (charge_of r.success, c)

-- The credits in memory as the service that the route asks.
abbrev pub credits_service : BillingService
credits_service = record {
  Ledger = Credits;
  deduct_credit = λ developer_id amount c. as_charge (deduct_credit developer_id amount c);
}

-- How many events of the developer are stored.
abbrev pub events_of : String → UsageStore → ℕ
events_of developer_id u = length (keep (of_user developer_id) u.events)

abbrev own : String → String → ℕ → ℕ
own a b n = ite (str_dec a b) n 0

own_same : (a b : String) (n : ℕ) → a ≡ b → own a b n ≡ n
own_same a b n p = ground (arith, p)

own_other : (a b : String) (n : ℕ) → a ≢ b → own a b n ≡ 0
own_other a b n p = ground (arith, p)

keep-snoc :
    (developer_id : String) (es : List UsageEvent) (e : UsageEvent)
    → length (keep (of_user developer_id) (es ++ e ∷ []))
      ≡ length (keep (of_user developer_id) es) + own e.user_id developer_id 1
keep-snoc developer_id [] e = ground arith
keep-snoc developer_id (x ∷ es) e = ground (arith, keep-snoc developer_id es e)

record_event-events_of :
    (developer_id : String) (e : UsageEvent) (u : UsageStore)
    → events_of developer_id (record_event e u).1
      ≤ events_of developer_id u + own e.user_id developer_id 1
unfolding record_event
record_event-events_of developer_id e u = elim (Bool-cases (has e.request_id u.request_ids)) [
  | inl h ↦ rw h (omega arith)
  | inr h ↦ rw h (omega (arith, keep-snoc developer_id u.events e))
]

outcome-events_of :
    (names : Bindings) (developer_id : String) (q : Request) (header : String) (owner : ApiKey)
    (b : Bool) (x : Upstream) (u : UsageStore)
    → events_of developer_id (outcome names q header owner (charge_of b) x u).1
      ≤ events_of developer_id u + own owner.developer_id developer_id (taken b 1)
outcome-events_of names developer_id q header owner true (responded s) u =
    record_event-events_of developer_id (event_of q header owner s) u
outcome-events_of names developer_id q header owner true timed_out u = omega arith
outcome-events_of names developer_id q header owner true unreachable u = omega arith
outcome-events_of names developer_id q header owner false x u = omega arith

deduct_credit-balance :
    (developer_id payer : String) (c : Credits)
    → let (r, c') = deduct_credit payer credit_cost_per_call c in
      check_balance developer_id c' + own payer developer_id (taken r.success 1)
      ≡ check_balance developer_id c
deduct_credit-balance developer_id payer c =
    let (paid, left, ok, others) = deduct_credit_lem payer credit_cost_per_call c in
    elim (str_dec payer developer_id) [
      | yes p ↦
          subst
            (λ d.
              check_balance d (deduct_credit payer 1 c).1
                + own payer d (taken (deduct_credit payer 1 c).0.success 1)
              ≡ check_balance d c)
            p
            (omega (
              arith,
              paid,
              own_same payer payer (taken (deduct_credit payer 1 c).0.success 1) refl,
            ))
      | no p ↦ omega (
        arith,
        others developer_id (λ e. p (sym e)),
        own_other payer developer_id (taken (deduct_credit payer 1 c).0.success 1) p,
      )
    ]

module _ (sha256_hex : String → String) (settings : Settings) where
  -- Events stored and credits left.
  abbrev pub stake : String → World sha256_hex credits_service settings → ℕ
  stake developer_id w = events_of developer_id w.usage + check_balance developer_id w.ledger

  proxy-stake :
      (developer_id : String) (q : Request) (w : World sha256_hex credits_service settings)
      → stake developer_id (proxy sha256_hex credits_service settings q w).1 ≤ stake developer_id w
  proxy-stake developer_id q w = elim (proxy-IsMetered sha256_hex credits_service settings q w) [
    | inl (e, l, u) ↦ rw (l, u) (omega arith)
    | inr (header, owner, ok, (l, o)) ↦ omega (
      arith,
      ap (λ p. events_of developer_id p.1) o,
      ap (λ m. check_balance developer_id m) l,
      outcome-events_of settings.bindings developer_id q header owner
          (deduct_credit owner.developer_id credit_cost_per_call w.ledger).0.success q.upstream
          w.usage,
      deduct_credit-balance developer_id owner.developer_id w.ledger,
    )
  ]

  -- With the credits kept in memory, for every developer the stored events and the credits left do
  -- not add up to more after any requests than before: each new event has been paid for.
  pub proxy_all-stake :
      (developer_id : String) (qs : List Request) (w : World sha256_hex credits_service settings)
      → stake developer_id (proxy_all sha256_hex credits_service settings qs w)
        ≤ stake developer_id w
  unfolding proxy_all
  proxy_all-stake developer_id [] w = omega arith
  proxy_all-stake developer_id (q ∷ qs) w = omega (
    arith,
    proxy-stake developer_id q w,
    proxy_all-stake developer_id qs (proxy sha256_hex credits_service settings q w).1,
  )
