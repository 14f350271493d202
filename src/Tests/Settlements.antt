-- ===== src/Tests/Settlements.antt =====
-- A settlement batch and a reconciliation pass on small stores.
use callora_backend.Common.{
  ℕ, ◌+◌, ◌≡◌, ◌⊎◌, refl, String, List, [], ◌∷◌, true, false, none, some, length, lookup, insert,
  str_dec,
}
use callora_backend.Usage.{UsageEvent, get_unsettled_events}
use callora_backend.Settlement.{Settlement, pending, get_pending_settlements}
use callora_backend.Revenue.{
  paid, Weather, Options, Books, no_tally, settle_developer, run_batch_once,
}
use callora_backend.Revenue.Reconcile.{Reading, too_early, reconcile_pending_settlements_once}
use callora_backend.Revenue.Batch.{IsPaid, IsUnpaid, settle_developer_lem}
use callora_backend.Revenue.Reconcile.Accounts.{reconcile_accounts, SameDebts, reconcile-SameDebts}

abbrev event : String → String → ℕ → UsageEvent
event id api_id n = record {
  id = id;
  request_id = id;
  api_key = "key";
  api_key_id = "key1";
  api_id = api_id;
  endpoint_id = "endpoint";
  user_id = "user";
  amount_usdc = n;
  status_code = 200;
  timestamp = 4;
  settlement_id = none;
}

abbrev events : List UsageEvent
events = event "e1" "maps" 5 ∷ event "e2" "maps" 7 ∷ []

abbrev books : Books
books = record { usage = record { events = events; request_ids = [] }; settlements = [] }

abbrev fair : Weather
fair = record {
  settlement_id = "stl_1";
  now = 9;
  create_fails = false;
  distribution = paid "tx";
  update_fails = false;
  mark_fails = false;
  failure_update_fails = false;
}

abbrev options : Options
options = record {
  min_payout_usdc = 5;
  max_events_per_batch = 1000;
  too_early_backoff_ms = 60000;
  max_too_early_retries = 10;
}

batch_run :
    (run_batch_once options (λ api. some "dev") (λ dev. fair) books).1
    ≡ record { processed = 2; settled_amount = 12; errors = 0 }
unfolding run_batch_once get_unsettled_events lookup insert str_dec
batch_run = refl

settle_developer_lem_example :
    IsPaid 5 fair events (books, no_tally) (settle_developer 5 fair "dev" events (books, no_tally))
    ⊎ IsUnpaid (books, no_tally) (settle_developer 5 fair "dev" events (books, no_tally))
settle_developer_lem_example = settle_developer_lem 5 fair "dev" events books no_tally

abbrev settlements : List Settlement
settlements =
    record {
      id = "stl_1";
      developer_id = "dev";
      amount = 12;
      status = pending;
      tx_hash = some "tx";
      created_at = 9;
      completed_at = none;
      retry_after = none;
      retry_count = 0;
    }
    ∷ []

abbrev early : Reading
early = record { answer = too_early; now = 20; write_fails = false }

reconcile_accounts_example :
    let r = (reconcile_pending_settlements_once true options (λ id. early) 20 settlements).1 in
    (r.checked ≡ length (get_pending_settlements 20 settlements))
    × (r.completed + r.failed + r.retried + r.errors ≡ r.checked)
reconcile_accounts_example = reconcile_accounts options (λ id. early) 20 settlements

reconcile-SameDebts_example :
    SameDebts settlements
      (reconcile_pending_settlements_once true options (λ id. early) 20 settlements).0
reconcile-SameDebts_example = reconcile-SameDebts true options (λ id. early) 20 settlements
