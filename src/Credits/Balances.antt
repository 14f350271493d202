-- ===== src/Credits/Balances.antt =====
-- services/billingService.ts: what is taken from a balance.
use callora_backend.Common.{
  ℕ, ◌+◌, ◌-◌, ◌≡◌, ◌≢◌, refl, sym, ap, ◌∙◌, inl, inr, String, Bool, true, false, Option, none,
  some, ltb, ◌==◌, if◌then◌else◌, lookup, lookup-insert_self, lookup-insert_ne, arith, Bool-cases,
}
use callora_backend.Billing.Usdc.{Text}
use callora_backend.Credits.{
  BillingResult, ChargeResult, ChargeRequest, Credits, check_balance, deduct_credit, charge_usage,
  charge_unless, charge_new, zero_if_none, charged_result, fresh_charge, keep_success,
}

abbrev pub taken : Bool → ℕ → ℕ
taken true n = n
taken false n = 0

-- Whether a balance covers an amount.
abbrev pub covers : (balance amount : ℕ) → Bool
covers balance amount = if amount == 0 then false else if ltb balance amount then false else true

taken_from : (a b : ℕ) → ltb b a ≡ false → b - a + a ≡ b
taken_from a b h = ground arith

-- A deduction takes the whole amount from the developer's balance if it succeeds and nothing if it
-- fails, succeeds exactly for a positive amount that the balance covers, answers the balance that is
-- left, and leaves every other balance alone.
pub deduct_credit_lem :
    (developer_id : String) (amount : ℕ) (c : Credits)
    → let (r, c') = deduct_credit developer_id amount c in
      (check_balance developer_id c' + taken r.success amount ≡ check_balance developer_id c)
      × (r.balance ≡ check_balance developer_id c')
      × (r.success ≡ covers (check_balance developer_id c) amount)
      × ((other : String) → other ≢ developer_id → check_balance other c' ≡ check_balance other c)
unfolding deduct_credit check_balance
deduct_credit_lem developer_id amount c = elim (Bool-cases (amount == 0)) [
  | inl e ↦ rw e (omega arith, refl, refl, λ o h. refl)
  | inr e ↦ elim (Bool-cases (ltb (zero_if_none (lookup developer_id c.balances)) amount)) [
    | inl e' ↦ rw (e, e') (omega arith, refl, refl, λ o h. refl)
    | inr e' ↦
        rw
          (
            e,
            e',
            lookup-insert_self developer_id (check_balance developer_id c - amount) c.balances,
          )
          (
            taken_from amount _ e',
            refl,
            refl,
            λ o h. rw (lookup-insert_ne developer_id o _ c.balances (λ p. h (sym p))) refl,
          )
  ]
]

-- What a second charge of the request answers.
abbrev pub repeated : ChargeResult → ChargeResult
repeated r = record r { already_processed = true }

-- The charge that the map holds for a request, as it was answered.
abbrev Kept : ChargeRequest → ChargeResult × Credits → Type 0
Kept q (r, c) =
    (s : ChargeResult) × (lookup q.request_id c.processed_usage_charges ≡ some s)
    × (repeated s ≡ repeated r)

keep_success-lookup :
    (k : String) (b : Bool) (r : ChargeResult) (c : Credits)
    → b ≡ true
    → lookup k (keep_success k b r c).processed_usage_charges ≡ some r
keep_success-lookup k true r c h = lookup-insert_self k r c.processed_usage_charges
keep_success-lookup k false r c h = cc

charged_result-Kept :
    (q : ChargeRequest) (p : BillingResult × Credits)
    → p.0.success ≡ true
    → Kept q (charged_result q.request_id p)
charged_result-Kept q (b, c) h =
    (fresh_charge b, keep_success-lookup q.request_id b.success (fresh_charge b) c h, refl)

charge_new-Kept :
    (q : ChargeRequest) (f : Option (Text × Bool)) (c : Credits)
    → (charge_new q f c).0.charge.success ≡ true
    → Kept q (charge_new q f c)
charge_new-Kept q (some (x, again)) c h = cc
charge_new-Kept q none c h = charged_result-Kept q _ h

charge_unless-Kept :
    (q : ChargeRequest) (o : Option ChargeResult) (c : Credits)
    → lookup q.request_id c.processed_usage_charges ≡ o
    → (charge_unless q o c).0.charge.success ≡ true
    → Kept q (charge_unless q o c)
charge_unless-Kept q (some r) c e h = (r, e, refl)
charge_unless-Kept q none c e h = charge_new-Kept q c.next_usage_charge_failure c h

-- After a charge of a request that succeeded, charging a request with the same id again answers the
-- same charge, marked as processed, and changes nothing.
pub charge_usage_twice :
    (q again : ChargeRequest) (c : Credits)
    → again.request_id ≡ q.request_id
    → (charge_usage q c).0.charge.success ≡ true
    → let (r, c') = charge_usage q c in charge_usage again c' ≡ (repeated r, c')
unfolding charge_usage
charge_usage_twice q again c same h =
    let (s, e, p) = charge_unless-Kept q _ c refl h in
    ap (λ o. charge_unless again o (charge_usage q c).1)
      (ap (λ k. lookup k (charge_usage q c).1.processed_usage_charges) same ∙ e)
    ∙ ap (λ r. (r, (charge_usage q c).1)) p
