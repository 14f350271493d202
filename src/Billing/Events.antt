-- ===== src/Billing/Events.antt =====
-- services/billing.ts: the table `usage_events` as the billing queries read and write it, phase 1
-- and phase 3, and the outcome that a stored row gives.
pub mod Rows
use callora_backend.Common.{
  ℕ, ◌+◌, String, List, [], ◌∷◌, ◌++◌, Bool, true, false, not, Option, none, some, ite, str_dec,
  ℕ_discrete,
}
use callora_backend.Billing.Usdc.{Text, UsdcError}

-- `BillingDeductRequest`
pub record DeductRequest : Type 0 where
  pub request_id : String
  pub user_id : String
  pub api_id : String
  pub endpoint_id : String
  pub api_key_id : String
  pub amount_usdc : Text
  pub idempotency_key : Option String

-- A row of `usage_events`; `stellar_tx_hash` is `none` while the event is pending.
pub record UsageRow : Type 0 where
  pub id : ℕ
  pub request : DeductRequest
  pub stellar_tx_hash : Option String

pub record Table : Type 0 where
  pub rows : List UsageRow
  pub next_id : ℕ

-- `SELECT … WHERE request_id = $1`, the first row of the result.
unfoldable pub find_row : String → List UsageRow → Option UsageRow
find_row request_id [] = none
find_row request_id (row ∷ rows) =
    ite (str_dec row.request.request_id request_id) (some row) (find_row request_id rows)

-- `INSERT … RETURNING id`
unfoldable pub insert_row : DeductRequest → Table → Table
insert_row request t = record {
  rows = t.rows ++ record { id = t.next_id; request = request; stellar_tx_hash = none } ∷ [];
  next_id = t.next_id + 1;
}

-- `UPDATE usage_events SET stellar_tx_hash = $1 WHERE id = $2`
unfoldable pub set_hash : String → ℕ → List UsageRow → List UsageRow
set_hash tx_hash id [] = []
set_hash tx_hash id (row ∷ rows) =
    ite (ℕ_discrete row.id id) (record row { stellar_tx_hash = some tx_hash }) row
    ∷ set_hash tx_hash id rows

-- What a statement of the database can throw: 23505 is PostgreSQL's unique violation.
pub data DbError : Type 0 where
  unique_violation : Text → DbError
  other_error : Text → DbError

abbrev pub db_message : DbError → Text
db_message (unique_violation m) = m
db_message (other_error m) = m

-- What phase 1 comes to.
pub data Phase1Result : Type 0 where
  already_exists : UsageRow → Phase1Result
  inserted : ℕ → Phase1Result
  failed : DbError → Phase1Result

-- What another session commits to the table: a row for a request that has none, or a hash.
pub data Commit : Type 0 where
  inserts : DeductRequest → Commit
  sets_hash : (id : ℕ) → (tx_hash : String) → Commit

-- What happens around one call, in its order: an error of the precheck query; an error of connecting;
-- what other sessions commit before phase 1 takes its lock; an error in phase 1, which is rolled back
-- unless it is one of a COMMIT that took effect all the same; what other sessions commit before the
-- recovery query, and its error; what they commit during the charge; an error in phase 3. A call in
-- bulk reads the fields on phase 1, on the table before the recovery query, and on phase 3.
pub record Surroundings : Type 0 where
  pub precheck_error : Option Text
  pub connect_error : Option Text
  pub before_phase1 : Table → Table
  pub phase1_error : Option DbError
  pub commit_lands : Bool
  pub before_recovery : Table → Table
  pub recovery_error : Option Text
  pub during_charge : List Commit
  pub phase3_fails : Bool

abbrev pub insert_unless_found : Option UsageRow → DeductRequest → Table → Phase1Result × Table
insert_unless_found (some row) request t = (already_exists row, t)
insert_unless_found none request t = (inserted t.next_id, insert_row request t)

-- The statements of phase 1.
unfoldable pub find_or_insert : DeductRequest → Table → Phase1Result × Table
unfolding find_row insert_row
find_or_insert request t = insert_unless_found (find_row request.request_id t.rows) request t

abbrev pub run_unless_error : Option DbError → Bool → DeductRequest → Table → Phase1Result × Table
run_unless_error (some e) true request t = (failed e, (find_or_insert request t).1)
run_unless_error (some e) false request t = (failed e, t)
run_unless_error none lands request t = find_or_insert request t

unfoldable pub run_phase1 : Surroundings → DeductRequest → Table → Phase1Result × Table
unfolding find_or_insert
run_phase1 env request t =
    run_unless_error env.phase1_error env.commit_lands request (env.before_phase1 t)

-- An update that throws leaves the row pending.
unfoldable pub run_phase3 : Bool → ℕ → String → Table → Table
unfolding set_hash
run_phase3 true id tx_hash t = t
run_phase3 false id tx_hash t = record t { rows = set_hash tx_hash id t.rows }

-- What other sessions commit, one after the other.
unfoldable pub commit_all : List Commit → Table → Table
unfolding find_or_insert set_hash
commit_all [] t = t
commit_all (inserts request ∷ cs) t = commit_all cs (find_or_insert request t).1
commit_all (sets_hash id tx_hash ∷ cs) t =
    commit_all cs (record t { rows = set_hash tx_hash id t.rows })

-- The error of a result. A call that throws returns no result: the model writes it as the refusal with
-- `call_throws`.
pub data DeductError : Type 0 where
  call_throws : Text → DeductError
  invalid_amount : UsdcError → DeductError
  balance_check_failed : Text → DeductError
  insufficient_balance : (required available : ℕ) → DeductError
  database_error : DbError → DeductError
  soroban_error : Text → DeductError

-- `BillingDeductResult`; the empty `usageEventId` is `none`.
pub record DeductResult : Type 0 where
  pub success : Bool
  pub usage_event_id : Option ℕ
  pub stellar_tx_hash : Option String
  pub already_processed : Bool
  pub deduction_applied : Bool
  pub reconciliation_required : Bool
  pub error : Option DeductError

-- `Boolean(hash)`: null and the empty text are false.
abbrev pub truthy : Option String → Bool
truthy none = false
truthy (some h) = ite (str_dec h "") false true

abbrev pub is_null : Option String → Bool
is_null none = true
is_null (some h) = false

-- The result for a request whose event is stored already.
unfoldable pub stored_result : UsageRow → DeductResult
stored_result row = record {
  success = true;
  usage_event_id = some row.id;
  stellar_tx_hash = row.stellar_tx_hash;
  already_processed = true;
  deduction_applied = truthy row.stellar_tx_hash;
  reconciliation_required = is_null row.stellar_tx_hash;
  error = none;
}

-- A failure before anything is stored.
unfoldable pub refusal : DeductError → DeductResult
refusal e = record {
  success = false;
  usage_event_id = none;
  stellar_tx_hash = none;
  already_processed = false;
  deduction_applied = false;
  reconciliation_required = false;
  error = some e;
}

-- The chain refused the deduction: the stored row stays pending.
unfoldable pub pending_failure : ℕ → Text → DeductResult
pending_failure id message = record {
  success = false;
  usage_event_id = some id;
  stellar_tx_hash = none;
  already_processed = false;
  deduction_applied = false;
  reconciliation_required = true;
  error = some (soroban_error message);
}

unfoldable pub applied_result : ℕ → String → DeductResult
applied_result id tx_hash = record {
  success = true;
  usage_event_id = some id;
  stellar_tx_hash = some tx_hash;
  already_processed = false;
  deduction_applied = true;
  reconciliation_required = false;
  error = none;
}
