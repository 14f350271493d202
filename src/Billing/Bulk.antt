-- ===== src/Billing/Bulk.antt =====
-- services/billing.ts: `BillingService.deductBulk`, between the moment it holds the slot of its user
-- and the moment it gives the slot back.
pub mod Flow
pub mod Charged
pub mod Totals
use callora_backend.Common.{
  ℕ, zero, ◌+◌, String, List, [], ◌∷◌, ◌++◌, Bool, true, false, not, ◌||◌, Option, none, some, ite,
  str_dec, ltb, if◌then◌else◌, length, keep, map, Dict, lookup, insert,
}
use callora_backend.Billing.Usdc.{
  Text, Parsed, UsdcError, units, refused, parse_usdc_to_contract_units,
  format_contract_units_to_usdc,
}
use callora_backend.Billing.Soroban.{
  SorobanClient, Reply, value, thrown, codes, execute_deduct_with_retry,
}
use callora_backend.Billing.Events.{
  DeductRequest, UsageRow, Table, insert_row, set_hash, DbError, unique_violation, other_error,
  Surroundings, DeductError, invalid_amount, balance_check_failed, insufficient_balance,
  database_error, soroban_error, truthy, is_null,
}
use callora_backend.Billing.Deduct.{World}
use callora_backend.Usage.{has, add}

-- `BillingBulkDeductEntryResult`
pub record EntryResult : Type 0 where
  pub request_id : String
  pub usage_event_id : ℕ
  pub stellar_tx_hash : Option String
  pub already_processed : Bool
  pub deduction_applied : Bool
  pub reconciliation_required : Bool

pub data BulkError : Type 0 where
  no_entries mixed_users : BulkError
  deduct_error : DeductError → BulkError

-- `BillingBulkDeductResult`
pub record BulkResult : Type 0 where
  pub success : Bool
  pub results : List EntryResult
  pub entry_count : ℕ
  pub deducted_count : ℕ
  pub total_deducted_amount_usdc : Text
  pub stellar_tx_hash : Option String
  pub error : Option BulkError

-- What the call comes to: a result, or the TypeError on the row of a request that no query found.
pub data BulkReply : Type 0 where
  answered : BulkResult → BulkReply
  row_missing : BulkReply

-- The amounts of all requests: their total, and the amount of each request id.
pub data ParsedBulk : Type 0 where
  amounts : (total : ℕ) → Dict ℕ → ParsedBulk
  bad_amount : UsdcError → ParsedBulk

abbrev pub add_amount : String → ℕ → ParsedBulk → ParsedBulk
add_amount id n (amounts total d) = amounts (total + n) (insert id n d)
add_amount id n (bad_amount e) = bad_amount e

abbrev pub parse_next : Parsed → String → (ParsedBulk → ParsedBulk) → ParsedBulk → ParsedBulk
parse_next (units n) id rest p = rest (add_amount id n p)
parse_next (refused e) id rest p = bad_amount e

-- The loop over the amounts, which stops at the first one that is refused.
unfoldable pub parse_requests : List DeductRequest → ParsedBulk → ParsedBulk
unfolding parse_usdc_to_contract_units insert
parse_requests [] p = p
parse_requests (r ∷ rs) p =
    parse_next (parse_usdc_to_contract_units r.amount_usdc) r.request_id (λ q. parse_requests rs q)
      p

abbrev pub request_ids : List DeductRequest → List String
request_ids = map (λ r. r.request_id)

-- `new Map(result.rows.map((row) => [row.request_id, row]))`
unfoldable pub map_rows : List UsageRow → Dict UsageRow → Dict UsageRow
map_rows [] d = d
map_rows (row ∷ rows) d = map_rows rows (insert row.request.request_id row d)

-- `getUsageEventsByRequestIds`
unfoldable pub get_usage_events_by_request_ids : List String → List UsageRow → Dict UsageRow
unfolding map_rows has
get_usage_events_by_request_ids ids rows =
    map_rows (keep (λ row. has row.request.request_id ids) rows) []

-- `map.get(id) ?? 0n`
abbrev pub or_zero : Option ℕ → ℕ
or_zero none = 0
or_zero (some n) = n

abbrev pub amount_of : Dict ℕ → String → ℕ
amount_of d id = or_zero (lookup id d)

abbrev pub is_none : Option UsageRow → Bool
is_none none = true
is_none (some row) = false

unfoldable pub total_new : Dict UsageRow → Dict ℕ → List DeductRequest → ℕ
total_new existing d [] = 0
total_new existing d (r ∷ rs) =
    (if is_none (lookup r.request_id existing) then amount_of d r.request_id else 0)
    + total_new existing d rs

-- The rows by request id, the events inserted, and the table.
pub record Phase1 : Type 0 where
  pub rows : Dict UsageRow
  pub inserted : List (String × ℕ)
  pub table : Table

abbrev pub new_row : DeductRequest → Table → UsageRow
new_row r t = record { id = t.next_id; request = r; stellar_tx_hash = none }

abbrev pub insert_one : DeductRequest → Phase1 → Phase1
insert_one r p = record {
  rows = insert r.request_id (new_row r p.table) p.rows;
  inserted = p.inserted ++ (r.request_id, p.table.next_id) ∷ [];
  table = insert_row r p.table;
}

abbrev pub insert_missing : Option UsageRow → DeductRequest → Phase1 → Phase1
insert_missing (some row) r p = p
insert_missing none r p = insert_one r p

-- The loop of `runPhase1Bulk`.
unfoldable pub insert_new : List DeductRequest → Phase1 → Phase1
unfolding insert_row
insert_new [] p = p
insert_new (r ∷ rs) p = insert_new rs (insert_missing (lookup r.request_id p.rows) r p)

unfoldable pub run_phase1_bulk : List DeductRequest → Table → Phase1
unfolding insert_new get_usage_events_by_request_ids
run_phase1_bulk requests t = insert_new requests (record {
  rows = get_usage_events_by_request_ids (request_ids requests) t.rows;
  inserted = [];
  table = t;
})

-- `UPDATE … WHERE id = ANY($2)`
unfoldable pub run_phase3_bulk : Bool → List (String × ℕ) → String → Table → Table
unfolding set_hash
run_phase3_bulk true inserted tx_hash t = t
run_phase3_bulk false [] tx_hash t = t
run_phase3_bulk false ((k, id) ∷ inserted) tx_hash t =
    run_phase3_bulk false inserted tx_hash (record t { rows = set_hash tx_hash id t.rows })

unfoldable pub total_inserted : Dict ℕ → List (String × ℕ) → ℕ
total_inserted d [] = 0
total_inserted d ((k, id) ∷ inserted) = amount_of d k + total_inserted d inserted

-- The entry of a request whose event was there before.
abbrev pub stored_entry : String → UsageRow → EntryResult
stored_entry id row = record {
  request_id = id;
  usage_event_id = row.id;
  stellar_tx_hash = row.stellar_tx_hash;
  already_processed = true;
  deduction_applied = truthy row.stellar_tx_hash;
  reconciliation_required = is_null row.stellar_tx_hash;
}

abbrev pub cons_entry : Option EntryResult → Option (List EntryResult) → Option (List EntryResult)
cons_entry none o = none
cons_entry (some e) none = none
cons_entry (some e) (some es) = some (e ∷ es)

abbrev pub entry_of : (UsageRow → EntryResult) → Option UsageRow → Option EntryResult
entry_of f none = none
entry_of f (some row) = some (f row)

-- `requests.map(…)` with `rows.get(request.requestId)!`
unfoldable pub entries :
    (String → UsageRow → EntryResult)
    → Dict UsageRow
    → List DeductRequest
    → Option (List EntryResult)
entries f rows [] = some []
entries f rows (r ∷ rs) =
    cons_entry (entry_of (f r.request_id) (lookup r.request_id rows)) (entries f rows rs)

abbrev pub zero_text : Text
zero_text = codes "0"
