-- ===== src/Revenue.antt =====
-- services/revenueSettlementService.ts: a settlement batch over the stores in memory.
pub mod Batch
pub mod Reconcile
use callora_backend.Common.{
  ℕ, ◌+◌, String, List, [], ◌∷◌, ◌++◌, Bool, true, false, Option, none, some, ltb, leb, ◌==◌,
  if◌then◌else◌, length, sum_of, map, Dict, lookup, insert,
}
use callora_backend.Usage.{UsageEvent, UsageStore, get_unsettled_events, mark_as_settled, amount}
use callora_backend.Settlement.{
  Status, pending, retryable, completed, failed, Settlement, create, update_status, schedule_retry,
  get_pending_settlements, HashChange, keep_hash, set_hash,
}

-- What the settlement client answers, or that it throws.
pub data Distribution : Type 0 where
  paid : (tx_hash : String) → Distribution
  paid_without_hash : Distribution
  refused : Distribution
  thrown : Distribution

-- What surrounds the payout of one developer: the random id and the time, the answer of the client,
-- and which writes throw. `emit` runs the listeners and does not throw.
pub record Weather : Type 0 where
  pub settlement_id : String
  pub now : ℕ
  pub create_fails : Bool
  pub distribution : Distribution
  pub update_fails : Bool
  pub mark_fails : Bool
  pub failure_update_fails : Bool

pub record Options : Type 0 where
  pub min_payout_usdc : ℕ
  pub max_events_per_batch : ℕ
  pub too_early_backoff_ms : ℕ
  pub max_too_early_retries : ℕ

pub record Books : Type 0 where
  pub usage : UsageStore
  pub settlements : List Settlement

pub record Tally : Type 0 where
  pub processed : ℕ
  pub settled_amount : ℕ
  pub errors : ℕ

abbrev pub group_of : Option (List UsageEvent) → List UsageEvent
group_of none = []
group_of (some g) = g

abbrev pub push_event : ℕ → String → UsageEvent → Dict (List UsageEvent) → Dict (List UsageEvent)
push_event max_events dev e groups =
    let group = group_of (lookup dev groups) in
    if ltb (length group) max_events then insert dev (group ++ e ∷ []) groups else groups

abbrev pub push_resolved :
    ℕ → Option String → UsageEvent → Dict (List UsageEvent) → Dict (List UsageEvent)
push_resolved max_events none e groups = groups
push_resolved max_events (some dev) e groups = push_event max_events dev e groups

-- The grouping loop. `developer_of` is the registry: the developer of an API, if it is known.
unfoldable pub group_events :
    (String → Option String) → ℕ → List UsageEvent → Dict (List UsageEvent) → Dict (List UsageEvent)
group_events developer_of max_events [] groups = groups
group_events developer_of max_events (e ∷ es) groups = group_events developer_of max_events es (
    if e.amount_usdc == 0
    then groups
    else push_resolved max_events (developer_of e.api_id) e groups)

abbrev pub new_settlement : String → ℕ → Weather → Settlement
new_settlement developer_id total w = record {
  id = w.settlement_id;
  developer_id = developer_id;
  amount = total;
  status = pending;
  tx_hash = none;
  created_at = w.now;
  completed_at = none;
  retry_after = none;
  retry_count = 0;
}

-- `recordFailedSettlement`
unfoldable pub record_failed_settlement : Weather → HashChange → Books → Books
record_failed_settlement w change books = if w.failure_update_fails then books else record books {
  settlements = update_status w.settlement_id failed change w.now books.settlements;
}

abbrev pub fail_payout : Weather → HashChange → Books × Tally → Books × Tally
fail_payout w change (books, tally) =
    (record_failed_settlement w change books, record tally { errors = tally.errors + 1 })

abbrev pub ids : List UsageEvent → List String
ids = map (λ e. e.id)

abbrev pub hash_stored : Weather → String → Books → Books
hash_stored w tx_hash books = record books {
  settlements =
      update_status w.settlement_id pending (set_hash (some tx_hash)) w.now books.settlements;
}

abbrev pub marked : Weather → List UsageEvent → Books → Books
marked w events books = record books {
  usage = mark_as_settled (ids events) w.settlement_id books.usage;
}

-- The writes after a payout, each of which may throw.
abbrev pub finalize :
    Bool → Bool → Weather → String → List UsageEvent → Books × Tally → Books × Tally
finalize true mark_fails w tx_hash events (books, tally) =
    fail_payout w (set_hash none) (books, tally)
finalize false true w tx_hash events (books, tally) =
    fail_payout w (set_hash none) (hash_stored w tx_hash books, tally)
finalize false false w tx_hash events (books, tally) = (
  marked w events (hash_stored w tx_hash books),
  record tally {
    processed = tally.processed + length events;
    settled_amount = tally.settled_amount + sum_of amount events;
  },
)

-- `result.success && result.txHash`; an empty hash counts as none and is `paid_without_hash` here.
abbrev pub pay_out : Distribution → Weather → List UsageEvent → Books × Tally → Books × Tally
pay_out (paid tx_hash) w events p = finalize w.update_fails w.mark_fails w tx_hash events p
pay_out paid_without_hash w events p = fail_payout w keep_hash p
pay_out refused w events p = fail_payout w keep_hash p
pay_out thrown w events p = fail_payout w keep_hash p

abbrev pub create_and_pay :
    Bool → Weather → String → List UsageEvent → Books × Tally → Books × Tally
create_and_pay true w developer_id events (books, tally) =
    (books, record tally { errors = tally.errors + 1 })
create_and_pay false w developer_id events (books, tally) = pay_out w.distribution w events (
  record books {
    settlements = create (new_settlement developer_id (sum_of amount events) w) books.settlements;
  },
  tally,
)

-- The body of the loop over the developers.
unfoldable pub settle_developer :
    ℕ → Weather → String → List UsageEvent → Books × Tally → Books × Tally
unfolding record_failed_settlement
settle_developer min_payout w developer_id events p =
    if ltb (sum_of amount events) min_payout
    then p
    else create_and_pay w.create_fails w developer_id events p

unfoldable pub settle_all :
    ℕ → (String → Weather) → Dict (List UsageEvent) → Books × Tally → Books × Tally
unfolding settle_developer
settle_all min_payout weather [] p = p
settle_all min_payout weather ((dev, events) ∷ groups) p =
    settle_all min_payout weather groups (settle_developer min_payout (weather dev) dev events p)

abbrev pub no_tally : Tally
no_tally = record { processed = 0; settled_amount = 0; errors = 0 }

-- `runBatchOnce`
unfoldable pub run_batch_once :
    Options → (String → Option String) → (String → Weather) → Books → Books × Tally
unfolding group_events settle_all
run_batch_once options developer_of weather books =
    settle_all options.min_payout_usdc weather
      (group_events developer_of options.max_events_per_batch (get_unsettled_events books.usage) [])
      (books, no_tally)
