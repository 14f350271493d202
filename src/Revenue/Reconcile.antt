-- ===== src/Revenue/Reconcile.antt =====
-- services/revenueSettlementService.ts: the reconciliation of the pending settlements with Horizon.
pub mod Accounts
use callora_backend.Common.{
  ℕ, ◌+◌, String, List, [], ◌∷◌, ◌++◌, Bool, true, false, Option, none, some, ltb, leb, ◌==◌,
  if◌then◌else◌, length, sum_of, map, Dict, lookup, insert,
}
use callora_backend.Settlement.{
  Status, pending, retryable, completed, failed, Settlement, create, update_status, schedule_retry,
  get_pending_settlements, HashChange, keep_hash, set_hash,
}
use callora_backend.Revenue.{Options}

-- What a query of Horizon gives for one settlement, retries of `withRetry` included.
pub data HorizonAnswer : Type 0 where
  successful : HorizonAnswer
  too_early : HorizonAnswer
  unsuccessful : HorizonAnswer
  not_found : HorizonAnswer
  odd_shape : HorizonAnswer
  fetch_throws : HorizonAnswer

pub record ReconcileResult : Type 0 where
  pub checked : ℕ
  pub completed : ℕ
  pub failed : ℕ
  pub retried : ℕ
  pub errors : ℕ

-- What surrounds one settlement of a pass: Horizon's answer, the time, and whether the write throws.
pub record Reading : Type 0 where
  pub answer : HorizonAnswer
  pub now : ℕ
  pub write_fails : Bool

abbrev pub count_error : ReconcileResult → ReconcileResult
count_error r = record r { errors = r.errors + 1 }

abbrev pub count_completed : ReconcileResult → ReconcileResult
count_completed r = record r { completed = r.completed + 1 }

abbrev pub count_failed : ReconcileResult → ReconcileResult
count_failed r = record r { failed = r.failed + 1 }

abbrev pub count_retried : ReconcileResult → ReconcileResult
count_retried r = record r { retried = r.retried + 1 }

-- A write with its counter, or an error when it throws.
abbrev pub attempt :
    Bool
    → (List Settlement → List Settlement)
    → (ReconcileResult → ReconcileResult)
    → List Settlement × ReconcileResult
    → List Settlement × ReconcileResult
attempt true write count (settlements, r) = (settlements, count_error r)
attempt false write count (settlements, r) = (write settlements, count r)

abbrev pub fail_settlement :
    Reading → Settlement → List Settlement × ReconcileResult → List Settlement × ReconcileResult
fail_settlement reading s p =
    attempt reading.write_fails (update_status s.id failed keep_hash reading.now) count_failed p

abbrev pub by_answer :
    Options
    → Reading
    → HorizonAnswer
    → Settlement
    → List Settlement × ReconcileResult
    → List Settlement × ReconcileResult
by_answer options reading successful s p =
    attempt reading.write_fails (update_status s.id completed keep_hash reading.now) count_completed
      p
by_answer options reading too_early s p =
    if leb options.max_too_early_retries s.retry_count
    then fail_settlement reading s p
    else attempt reading.write_fails
        (schedule_retry s.id (reading.now + options.too_early_backoff_ms)) count_retried p
by_answer options reading unsuccessful s p = fail_settlement reading s p
by_answer options reading not_found s p = fail_settlement reading s p
by_answer options reading odd_shape s (settlements, r) = (settlements, count_error r)
by_answer options reading fetch_throws s (settlements, r) = (settlements, count_error r)

abbrev pub count_checked : List Settlement × ReconcileResult → List Settlement × ReconcileResult
count_checked (settlements, r) = (settlements, record r { checked = r.checked + 1 })

-- The loop body of `reconcilePendingSettlementsOnce`.
unfoldable pub reconcile_one :
    Options
    → Reading
    → Settlement
    → List Settlement × ReconcileResult
    → List Settlement × ReconcileResult
reconcile_one options reading s p = by_answer options reading reading.answer s (count_checked p)

unfoldable pub reconcile_all :
    Options
    → (String → Reading)
    → List Settlement
    → List Settlement × ReconcileResult
    → List Settlement × ReconcileResult
unfolding reconcile_one
reconcile_all options reading [] p = p
reconcile_all options reading (s ∷ ss) p =
    reconcile_all options reading ss (reconcile_one options (reading s.id) s p)

abbrev pub no_result : ReconcileResult
no_result = record { checked = 0; completed = 0; failed = 0; retried = 0; errors = 0 }

abbrev pub reconcile_configured :
    Bool → Options → (String → Reading) → ℕ → List Settlement → List Settlement × ReconcileResult
reconcile_configured false options reading now settlements = (settlements, no_result)
reconcile_configured true options reading now settlements =
    reconcile_all options reading (get_pending_settlements now settlements) (settlements, no_result)

-- `reconcilePendingSettlementsOnce`; the first argument says whether a Horizon URL is configured.
unfoldable pub reconcile_pending_settlements_once :
    Bool → Options → (String → Reading) → ℕ → List Settlement → List Settlement × ReconcileResult
unfolding reconcile_all get_pending_settlements
reconcile_pending_settlements_once configured options reading now settlements =
    reconcile_configured configured options reading now settlements
