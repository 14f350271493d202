-- ===== src/Credits.antt =====
-- services/billingService.ts: the credits of the developers as the gateway charges them, in memory.
-- Amounts are natural numbers of a smallest unit.
pub mod Balances
use callora_backend.Common.{
  ℕ, ◌-◌, String, List, [], ◌∷◌, Bool, true, false, Option, none, some, ltb, ◌==◌, if◌then◌else◌,
  Dict, lookup, insert,
}
use callora_backend.Billing.Usdc.{Text}

-- `BillingResult`
pub record BillingResult : Type 0 where
  pub success : Bool
  pub balance : ℕ

-- `UsageChargeResult`
pub record ChargeResult : Type 0 where
  pub charge : BillingResult
  pub already_processed : Bool
  pub reconciliation_required : Bool
  pub error : Option Text

-- `UsageChargeRequest`
pub record ChargeRequest : Type 0 where
  pub request_id : String
  pub developer_id : String
  pub api_id : String
  pub endpoint_id : String
  pub api_key_id : String
  pub amount_usdc : ℕ

-- `MockSorobanBilling`
pub record Credits : Type 0 where
  pub balances : Dict ℕ
  pub processed_usage_charges : Dict ChargeResult
  pub next_usage_charge_failure : Option (Text × Bool)

abbrev pub zero_if_none : Option ℕ → ℕ
zero_if_none none = 0
zero_if_none (some n) = n

-- `checkBalance`
unfoldable pub check_balance : String → Credits → ℕ
check_balance developer_id c = zero_if_none (lookup developer_id c.balances)

abbrev pub deduct_from : String → (amount current : ℕ) → Credits → BillingResult × Credits
deduct_from developer_id amount current c =
    if ltb current amount then (record { success = false; balance = current }, c) else (
      record { success = true; balance = current - amount },
      record c { balances = insert developer_id (current - amount) c.balances },
    )

-- `deductCredit`
unfoldable pub deduct_credit : String → ℕ → Credits → BillingResult × Credits
unfolding check_balance
deduct_credit developer_id amount c =
    if amount == 0
    then (record { success = false; balance = check_balance developer_id c }, c)
    else deduct_from developer_id amount (check_balance developer_id c) c

abbrev pub keep_success : String → Bool → ChargeResult → Credits → Credits
keep_success request_id true r c = record c {
  processed_usage_charges = insert request_id r c.processed_usage_charges;
}
keep_success request_id false r c = c

abbrev pub fresh_charge : BillingResult → ChargeResult
fresh_charge b = record {
  charge = b;
  already_processed = false;
  reconciliation_required = false;
  error = none;
}

abbrev pub charged_result : String → BillingResult × Credits → ChargeResult × Credits
charged_result request_id (b, c) =
    (fresh_charge b, keep_success request_id b.success (fresh_charge b) c)

abbrev pub charge_new : ChargeRequest → Option (Text × Bool) → Credits → ChargeResult × Credits
charge_new q (some (e, again)) c = (
  record {
    charge = record { success = false; balance = check_balance q.developer_id c };
    already_processed = false;
    reconciliation_required = again;
    error = some e;
  },
  record c { next_usage_charge_failure = none },
)
charge_new q none c = charged_result q.request_id (deduct_credit q.developer_id q.amount_usdc c)

abbrev pub charge_unless : ChargeRequest → Option ChargeResult → Credits → ChargeResult × Credits
charge_unless q (some r) c = (record r { already_processed = true }, c)
charge_unless q none c = charge_new q c.next_usage_charge_failure c

-- `chargeUsage`
unfoldable pub charge_usage : ChargeRequest → Credits → ChargeResult × Credits
unfolding deduct_credit check_balance
charge_usage q c = charge_unless q (lookup q.request_id c.processed_usage_charges) c
