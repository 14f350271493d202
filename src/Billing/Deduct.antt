-- ===== src/Billing/Deduct.antt =====
-- services/billing.ts: `BillingService.deduct` for one request, between the moment it holds the
-- slot of its user and the moment it gives the slot back.
pub mod Outcome
pub mod Replay
pub mod Charges
pub mod Truth
use callora_backend.Common.{
  ℕ, String, List, Bool, true, false, Option, none, some, ltb, if◌then◌else◌,
}
use callora_backend.Billing.Usdc.{
  Text, Parsed, units, refused, parse_usdc_to_contract_units, usdc_7_decimal_factor,
}
use callora_backend.Billing.Soroban.{SorobanClient, Reply, value, thrown, execute_deduct_with_retry}
use callora_backend.Billing.Events.{
  DeductRequest, UsageRow, Table, find_row, Phase1Result, already_exists, inserted, failed, DbError,
  unique_violation, other_error, Surroundings, run_phase1, run_phase3, commit_all, call_throws,
  DeductError, invalid_amount, balance_check_failed, insufficient_balance, database_error,
  DeductResult, stored_result, refusal, pending_failure, applied_result,
}

abbrev pub key_of : DeductRequest → Option String → String
key_of request none = request.request_id
key_of request (some key) = key

-- `request.idempotencyKey ?? request.requestId`
abbrev pub charge_key : DeductRequest → String
charge_key request = key_of request request.idempotency_key

module _ (client : SorobanClient) (retry_delays_ms : List ℕ) where
  open client use {Ledger, get_balance}

  pub record World : Type 0 where
    pub table : Table
    pub ledger : Ledger

  -- The recovery query after a unique violation.
  unfoldable pub recover : Option Text → DbError → Option UsageRow → DeductResult
  unfolding stored_result refusal
  recover (some m) e found = refusal (call_throws m)
  recover none e (some row) = stored_result row
  recover none e none = refusal (database_error e)

  unfoldable pub settle_error :
      Surroundings → DeductRequest → DbError → World → DeductResult × World
  unfolding recover find_row
  settle_error env request (other_error m) w = (refusal (database_error (other_error m)), w)
  settle_error env request (unique_violation m) w =
      let t = env.before_recovery w.table in
      (
        recover env.recovery_error (unique_violation m) (find_row request.request_id t.rows),
        record w { table = t },
      )

  -- Phase 3, or the pending failure, on the table that other sessions have left.
  unfoldable pub finish : Surroundings → ℕ → Table → Reply String × Ledger → DeductResult × World
  unfolding pending_failure applied_result run_phase3
  finish env id t (thrown message, l) =
      (pending_failure id message, record { table = t; ledger = l })
  finish env id t (value tx_hash, l) = (
    applied_result id tx_hash,
    record { table = run_phase3 env.phase3_fails id tx_hash t; ledger = l },
  )

  -- What follows phase 1.
  unfoldable pub after_phase1 :
      Surroundings → DeductRequest → ℕ → Ledger → Phase1Result × Table → DeductResult × World
  unfolding settle_error finish execute_deduct_with_retry commit_all
  after_phase1 env request amount l (failed e, t) =
      settle_error env request e (record { table = t; ledger = l })
  after_phase1 env request amount l (already_exists row, t) =
      (stored_result row, record { table = t; ledger = l })
  after_phase1 env request amount l (inserted id, t) =
      finish env id (commit_all env.during_charge t) (
        execute_deduct_with_retry client retry_delays_ms l request.user_id amount
          (charge_key request))

  -- The connection, then phase 1.
  abbrev pub connect :
      Option Text → Surroundings → DeductRequest → ℕ → Ledger → Table → DeductResult × World
  connect (some m) env request amount l t =
      (refusal (call_throws m), record { table = t; ledger = l })
  connect none env request amount l t = after_phase1 env request amount l (run_phase1 env request t)

  -- The balance check.
  unfoldable pub after_balance :
      Surroundings → DeductRequest → ℕ → Table → Reply ℕ × Ledger → DeductResult × World
  unfolding after_phase1 run_phase1
  after_balance env request amount t (thrown message, l) =
      (refusal (balance_check_failed message), record { table = t; ledger = l })
  after_balance env request amount t (value available, l) =
      if ltb available amount
      then (refusal (insufficient_balance amount available), record { table = t; ledger = l })
      else connect env.connect_error env request amount l t

  -- The early return on a stored event.
  unfoldable pub after_precheck :
      Surroundings → DeductRequest → ℕ → World → Option UsageRow → DeductResult × World
  unfolding after_balance
  after_precheck env request amount w (some row) = (stored_result row, w)
  after_precheck env request amount w none =
      after_balance env request amount w.table (get_balance w.ledger request.user_id)

  -- The precheck, whose query may throw.
  abbrev pub precheck :
      Option Text → Surroundings → DeductRequest → ℕ → World → DeductResult × World
  precheck (some m) env request amount w = (refusal (call_throws m), w)
  precheck none env request amount w =
      after_precheck env request amount w (find_row request.request_id w.table.rows)

  unfoldable pub after_parse : Surroundings → DeductRequest → World → Parsed → DeductResult × World
  unfolding after_precheck
  after_parse env request w (refused e) = (refusal (invalid_amount e), w)
  after_parse env request w (units amount) = precheck env.precheck_error env request amount w

  -- `deductInternal`; a call that throws is the refusal with `call_throws`.
  unfoldable pub deduct : Surroundings → DeductRequest → World → DeductResult × World
  unfolding after_parse parse_usdc_to_contract_units
  deduct env request w =
      after_parse env request w (parse_usdc_to_contract_units request.amount_usdc)

  -- `getByRequestId`
  unfoldable pub get_by_request_id : String → Table → Option DeductResult
  unfolding find_row stored_result
  get_by_request_id request_id t = elim (find_row request_id t.rows) [
    | none ↦ none
    | some row ↦ some (stored_result row)
  ]
