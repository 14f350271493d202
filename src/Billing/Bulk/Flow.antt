-- ===== src/Billing/Bulk/Flow.antt =====
-- services/billing.ts: `deductBulk` from its guards to its result.
use callora_backend.Common.{
  ℕ, String, List, [], ◌∷◌, Bool, true, false, not, ◌||◌, Option, none, some, ite, str_dec, ltb,
  if◌then◌else◌, length, map, Dict,
}
use callora_backend.Billing.Usdc.{Text, format_contract_units_to_usdc}
use callora_backend.Billing.Soroban.{SorobanClient, Reply, value, thrown, execute_deduct_with_retry}
use callora_backend.Billing.Events.{
  DeductRequest, UsageRow, Table, DbError, unique_violation, other_error, Surroundings,
  invalid_amount, balance_check_failed, insufficient_balance, database_error, soroban_error, truthy,
  is_null,
}
use callora_backend.Billing.Deduct.{World}
use callora_backend.Billing.Bulk.{
  EntryResult, BulkError, no_entries, mixed_users, deduct_error, BulkReply, answered, row_missing,
  ParsedBulk, amounts, bad_amount, parse_requests, request_ids, get_usage_events_by_request_ids,
  total_new, Phase1, run_phase1_bulk, run_phase3_bulk, total_inserted, stored_entry, entries,
  zero_text,
}
use callora_backend.Usage.{has}

-- A result with no entries.
abbrev pub bulk_refusal : ℕ → Text → BulkError → BulkReply
bulk_refusal count total e = answered (record {
  success = false;
  results = [];
  entry_count = count;
  deducted_count = 0;
  total_deducted_amount_usdc = total;
  stellar_tx_hash = none;
  error = some e;
})

-- The result when every event was there before.
abbrev pub replayed : ℕ → Option (List EntryResult) → BulkReply
replayed count none = row_missing
replayed count (some es) = answered (record {
  success = true;
  results = es;
  entry_count = count;
  deducted_count = 0;
  total_deducted_amount_usdc = zero_text;
  stellar_tx_hash = none;
  error = none;
})

abbrev pub inserted_ids : List (String × ℕ) → List String
inserted_ids = map (λ e. e.0)

-- The entry of a request when the ledger has refused the charge.
abbrev pub failed_entry : List (String × ℕ) → String → UsageRow → EntryResult
failed_entry inserted id row =
    let was_inserted = has id (inserted_ids inserted) in
    record {
      request_id = id;
      usage_event_id = row.id;
      stellar_tx_hash = row.stellar_tx_hash;
      already_processed = not was_inserted;
      deduction_applied = if was_inserted then false else truthy row.stellar_tx_hash;
      reconciliation_required = was_inserted || is_null row.stellar_tx_hash;
    }

-- The entry of a request when the charge went through.
abbrev pub charged_entry : String → List (String × ℕ) → String → UsageRow → EntryResult
charged_entry tx_hash inserted id row =
    let was_inserted = has id (inserted_ids inserted) in
    record {
      request_id = id;
      usage_event_id = row.id;
      stellar_tx_hash = if was_inserted then some tx_hash else row.stellar_tx_hash;
      already_processed = not was_inserted;
      deduction_applied = was_inserted || truthy row.stellar_tx_hash;
      reconciliation_required = if was_inserted then false else is_null row.stellar_tx_hash;
    }

abbrev pub failed_reply : ℕ → Text → Option (List EntryResult) → BulkReply
failed_reply count message none = row_missing
failed_reply count message (some es) = answered (record {
  success = false;
  results = es;
  entry_count = count;
  deducted_count = 0;
  total_deducted_amount_usdc = zero_text;
  stellar_tx_hash = none;
  error = some (deduct_error (soroban_error message));
})

abbrev pub charged_reply : ℕ → ℕ → ℕ → String → Option (List EntryResult) → BulkReply
charged_reply count deducted total tx_hash none = row_missing
charged_reply count deducted total tx_hash (some es) = answered (record {
  success = true;
  results = es;
  entry_count = count;
  deducted_count = deducted;
  total_deducted_amount_usdc = format_contract_units_to_usdc total;
  stellar_tx_hash = some tx_hash;
  error = none;
})

-- `requests.some((request) => request.userId !== firstRequest.userId)`
unfoldable pub other_user : String → List DeductRequest → Bool
other_user user [] = false
other_user user (r ∷ rs) = ite (str_dec r.user_id user) false true || other_user user rs

abbrev pub key_or : Option String → String → String
key_or none k = k
key_or (some key) k = key

-- `digest` is the hash of the sorted request ids, `buildBulkDeductIdempotencyKey`.
module _ (client : SorobanClient) (retry_delays_ms : List ℕ) (digest : List String → String) where
  open client use {Ledger, get_balance}

  abbrev pub finish_bulk :
      Surroundings
      → List DeductRequest
      → ℕ
      → Phase1
      → Reply String × Ledger
      → BulkReply × World client retry_delays_ms
  finish_bulk env requests total p (thrown message, l) = (
    failed_reply (length requests) message (entries (failed_entry p.inserted) p.rows requests),
    record { table = p.table; ledger = l },
  )
  finish_bulk env requests total p (value tx_hash, l) = (
    charged_reply (length requests) (length p.inserted) total tx_hash
        (entries (charged_entry tx_hash p.inserted) p.rows requests),
    record { table = run_phase3_bulk env.phase3_fails p.inserted tx_hash p.table; ledger = l },
  )

  abbrev pub bulk_key : Option String → Phase1 → String
  bulk_key key p = key_or key (digest (inserted_ids p.inserted))

  abbrev pub charge_inserted :
      Surroundings
      → String
      → List DeductRequest
      → Option String
      → Dict ℕ
      → Ledger
      → Phase1
      → List (String × ℕ)
      → BulkReply × World client retry_delays_ms
  charge_inserted env user requests key d l p [] = (
    replayed (length requests) (entries stored_entry p.rows requests),
    record { table = p.table; ledger = l },
  )
  charge_inserted env user requests key d l p (e ∷ es) =
      let total = total_inserted d p.inserted in
      finish_bulk env requests total p
        (execute_deduct_with_retry client retry_delays_ms l user total (bulk_key key p))

  -- The `catch` of phase 1.
  abbrev pub settle_bulk_error :
      Surroundings
      → List DeductRequest
      → DbError
      → Table
      → Ledger
      → BulkReply × World client retry_delays_ms
  settle_bulk_error env requests (other_error m) t l = (
    bulk_refusal (length requests) zero_text (deduct_error (database_error (other_error m))),
    record { table = t; ledger = l },
  )
  settle_bulk_error env requests (unique_violation m) t l =
      let recovered = env.before_recovery t in
      (
        replayed (length requests) (
            entries stored_entry
              (get_usage_events_by_request_ids (request_ids requests) recovered.rows) requests),
        record { table = recovered; ledger = l },
      )

  abbrev pub phase1_or_error :
      Surroundings
      → String
      → List DeductRequest
      → Option String
      → Dict ℕ
      → Table
      → Ledger
      → Option DbError
      → BulkReply × World client retry_delays_ms
  phase1_or_error env user requests key d t l (some e) = settle_bulk_error env requests e t l
  phase1_or_error env user requests key d t l none =
      let p = run_phase1_bulk requests t in charge_inserted env user requests key d l p p.inserted

  unfoldable pub charge_bulk :
      Surroundings
      → String
      → List DeductRequest
      → Option String
      → Dict ℕ
      → Table
      → Ledger
      → BulkReply × World client retry_delays_ms
  unfolding run_phase1_bulk run_phase3_bulk total_inserted entries has
      get_usage_events_by_request_ids execute_deduct_with_retry
  charge_bulk env user requests key d t l =
      phase1_or_error env user requests key d (env.before_phase1 t) l env.phase1_error

  abbrev pub checked_balance :
      Surroundings
      → String
      → List DeductRequest
      → Option String
      → (total new : ℕ) → Dict ℕ
      → Table
      → Reply ℕ × Ledger
      → BulkReply × World client retry_delays_ms
  checked_balance env user requests key total new d t (thrown message, l) = (
    bulk_refusal (length requests) zero_text (deduct_error (balance_check_failed message)),
    record { table = t; ledger = l },
  )
  checked_balance env user requests key total new d t (value available, l) =
      if ltb available new
      then (
        bulk_refusal (length requests) (format_contract_units_to_usdc total)
            (deduct_error (insufficient_balance new available)),
        record { table = t; ledger = l },
      )
      else charge_bulk env user requests key d t l

  abbrev pub check_balance_if :
      Bool
      → Surroundings
      → String
      → List DeductRequest
      → Option String
      → (total new : ℕ) → Dict ℕ
      → World client retry_delays_ms
      → BulkReply × World client retry_delays_ms
  check_balance_if true env user requests key total new d w =
      checked_balance env user requests key total new d w.table (get_balance w.ledger user)
  check_balance_if false env user requests key total new d w =
      charge_bulk env user requests key d w.table w.ledger

  abbrev pub after_amounts :
      Surroundings
      → String
      → List DeductRequest
      → Option String
      → World client retry_delays_ms
      → ParsedBulk
      → BulkReply × World client retry_delays_ms
  after_amounts env user requests key w (bad_amount e) =
      (bulk_refusal (length requests) zero_text (deduct_error (invalid_amount e)), w)
  after_amounts env user requests key w (amounts total d) =
      let new =
        total_new (get_usage_events_by_request_ids (request_ids requests) w.table.rows) d
          requests in
      check_balance_if (ltb 0 new) env user requests key total new d w

  -- `deductBulkInternal` of requests whose first is of `user`.
  unfoldable pub deduct_bulk_internal :
      Surroundings
      → String
      → List DeductRequest
      → Option String
      → World client retry_delays_ms
      → BulkReply × World client retry_delays_ms
  unfolding charge_bulk parse_requests total_new get_usage_events_by_request_ids
  deduct_bulk_internal env user requests key w =
      after_amounts env user requests key w (parse_requests requests (amounts 0 []))

  -- `deductBulk`
  unfoldable pub deduct_bulk :
      Surroundings
      → List DeductRequest
      → Option String
      → World client retry_delays_ms
      → BulkReply × World client retry_delays_ms
  unfolding deduct_bulk_internal other_user
  deduct_bulk env [] key w = (bulk_refusal 0 zero_text no_entries, w)
  deduct_bulk env (r ∷ rs) key w =
      if other_user r.user_id (r ∷ rs)
      then (bulk_refusal (length (r ∷ rs)) zero_text mixed_users, w)
      else deduct_bulk_internal env r.user_id (r ∷ rs) key w
