-- ===== src/Tests/Deductions.antt =====
-- Deductions, retries and amounts on a ledger that remembers its keys.
use callora_backend.Common.{
  ℕ, ◌≡◌, ◌≢◌, ◌⊎◌, refl, inl, inr, String, List, [], ◌∷◌, true, false, Option, none, some, arith,
  Dict, lookup, insert, lookup-insert_self, lookup-insert_ne,
}
use callora_backend.Billing.Usdc.{
  units, parse_usdc_to_contract_units, format_contract_units_to_usdc,
}
use callora_backend.Billing.Usdc.RoundTrip.{parse-format}
use callora_backend.Billing.Soroban.{
  SorobanClient, Reply, value, thrown, codes, execute_deduct_with_retry,
}
use callora_backend.Billing.Soroban.Retry.{Retried, execute_deduct_with_retry-Retried}
use callora_backend.Billing.Events.{
  DeductRequest, Table, Surroundings, applied_result, pending_failure, inserts, sets_hash,
}
use callora_backend.Billing.Events.Rows.{IsKeyed}
use callora_backend.Billing.Deduct.{World, deduct}
use callora_backend.Billing.Deduct.Truth.{IsTruthful, deduct-IsTruthful}
use callora_backend.Billing.Deduct.Replay.{Keeps, deduct-IsKeyed}
use callora_backend.Billing.Deduct.Charges.{IsIdempotent, IsAccounted, deduct-IsAccounted}

abbrev pay : Option ℕ → Dict ℕ → ℕ → String → Reply String × Dict ℕ
pay none l a key = (value "tx", insert key a l)
pay (some n) l a key = (value "tx", l)

abbrev pub bank : SorobanClient
bank = record {
  Ledger = Dict ℕ;
  get_balance = λ l u. (value 100000000, l);
  deduct_balance = λ l u a key. pay (lookup key l) l a key;
  to_lower_case = λ t. t;
}

pay-other :
    (o : Option ℕ) (l : Dict ℕ) (a : ℕ) (key k : String)
    → k ≢ key
    → lookup k (pay o l a key).1 ≡ lookup k l
pay-other none l a key k h = lookup-insert_ne key k a l (λ p. h (ground (arith, p)))
pay-other (some n) l a key k h = refl

pay-once :
    (o : Option ℕ) (l : Dict ℕ) (a : ℕ) (key : String)
    → lookup key l ≡ o
    → (lookup key (pay o l a key).1 ≡ lookup key l)
      ⊎ ((lookup key l ≡ none) × (lookup key (pay o l a key).1 ≡ some a))
pay-once none l a key e = inr (e, lookup-insert_self key a l)
pay-once (some n) l a key e = inl refl

pay-paid :
    (o : Option ℕ) (l : Dict ℕ) (a : ℕ) (key : String)
    → lookup key l ≡ o
    → lookup key (pay o l a key).1 ≢ none
pay-paid none l a key e h = ground (arith, lookup-insert_self key a l, h)
pay-paid (some n) l a key e h = ground (arith, e, h)

pub bank-IsIdempotent : IsIdempotent bank
bank-IsIdempotent = record {
  charged = λ l k. lookup k l;
  balance_keeps = λ l u k. refl;
  other_key = λ l u a key k h. pay-other (lookup key l) l a key k h;
  once = λ l u a key. pay-once (lookup key l) l a key refl;
  paid = λ l u a key h e. pay-paid (lookup key l) l a key refl;
}

abbrev pub quiet : Surroundings
quiet = record {
  precheck_error = none;
  connect_error = none;
  before_phase1 = λ t. t;
  phase1_error = none;
  commit_lands = false;
  before_recovery = λ t. t;
  recovery_error = none;
  during_charge = [];
  phase3_fails = false;
}

abbrev broken_update : Surroundings
broken_update = record quiet { phase3_fails = true }

abbrev pub a_request : DeductRequest
a_request = record {
  request_id = "r1";
  user_id = "u1";
  api_id = "a1";
  endpoint_id = "e1";
  api_key_id = "k1";
  amount_usdc = codes "1.5";
  idempotency_key = none;
}

abbrev pub no_rows : Table
no_rows = record { rows = []; next_id = 1 }

abbrev pub delays : List ℕ
delays = 100 ∷ 200 ∷ []

abbrev pub start : World bank delays
start = record { table = no_rows; ledger = [] }

no_rows-IsKeyed : IsKeyed no_rows
no_rows-IsKeyed = record { distinct = tt; fresh = tt }

parse_run : parse_usdc_to_contract_units (codes "1.5") ≡ units 15000000
unfolding parse_usdc_to_contract_units
parse_run = refl

deduct_run : (deduct bank delays quiet a_request start).0 ≡ applied_result 1 "tx"
unfolding deduct lookup
deduct_run = refl

quiet-Keeps : Keeps bank delays quiet
quiet-Keeps = record { phase1 = λ t v. v; recovery = λ t v. v }

deduct-IsAccounted_example :
    let (r, w') = deduct bank delays quiet a_request start in
    IsAccounted bank bank-IsIdempotent delays a_request 15000000 [] r w'
deduct-IsAccounted_example =
    deduct-IsAccounted bank bank-IsIdempotent delays quiet a_request 15000000 start parse_run

-- A ledger that charges and then times out.
abbrev silent_bank : SorobanClient
silent_bank = record bank {
  deduct_balance = λ l u a key. (thrown (codes "down"), (pay (lookup key l) l a key).1);
}

silent_bank-IsIdempotent : IsIdempotent silent_bank
silent_bank-IsIdempotent = record {
  charged = λ l k. lookup k l;
  balance_keeps = λ l u k. refl;
  other_key = λ l u a key k h. pay-other (lookup key l) l a key k h;
  once = λ l u a key. pay-once (lookup key l) l a key refl;
  paid = λ l u a key h e. cc;
}

abbrev other_request : DeductRequest
other_request = record a_request { request_id = "r2" }

abbrev busy : Surroundings
busy = record quiet { during_charge = inserts other_request ∷ sets_hash 1 "found" ∷ [] }

abbrev silent_start : World silent_bank delays
silent_start = record { table = no_rows; ledger = [] }

-- The call fails although it has charged, and asks for reconciliation.
silent_run :
    let (r, w') = deduct silent_bank delays busy a_request silent_start in
    (r ≡ pending_failure 1 (codes "down")) × (w'.ledger ≡ ("r1", 15000000) ∷ [])
unfolding deduct lookup insert
silent_run = (refl, refl)

deduct-IsTruthful_example :
    let (r, w') = deduct silent_bank delays busy a_request silent_start in
    IsTruthful silent_bank silent_bank-IsIdempotent delays a_request [] r w'
deduct-IsTruthful_example =
    deduct-IsTruthful silent_bank silent_bank-IsIdempotent delays busy a_request silent_start

deduct-IsKeyed_example : IsKeyed (deduct bank delays quiet a_request start).1.table
deduct-IsKeyed_example =
    deduct-IsKeyed bank delays quiet a_request start quiet-Keeps no_rows-IsKeyed

execute_deduct_with_retry-Retried_example :
    Retried bank "u1" 5 "r1" delays [] (execute_deduct_with_retry bank delays [] "u1" 5 "r1")
execute_deduct_with_retry-Retried_example =
    execute_deduct_with_retry-Retried bank "u1" 5 "r1" delays []

parse-format_example :
    parse_usdc_to_contract_units (format_contract_units_to_usdc 15000000) ≡ units 15000000
parse-format_example = parse-format 15000000 (omega arith)
