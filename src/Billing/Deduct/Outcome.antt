-- ===== src/Billing/Deduct/Outcome.antt =====
-- services/billing.ts: what the result of `deduct` says of the stored event.
use callora_backend.Common.{
  ℕ, ◌≡◌, ◌≢◌, refl, List, true, false, Option, none, some, ltb, inl, inr, Bool-cases, Option-cases,
  arith,
}
use callora_backend.Billing.Usdc.{Text, Parsed, units, refused}
use callora_backend.Billing.Soroban.{SorobanClient, Reply, value, thrown}
use callora_backend.Billing.Events.{
  DeductRequest, UsageRow, Table, find_row, insert_row, DbError, unique_violation, other_error,
  Surroundings, run_phase1, find_or_insert, commit_all, DeductError, DeductResult, stored_result,
  refusal, pending_failure, applied_result,
}
use callora_backend.Billing.Events.Rows.{
  Stored, row_of, find_row-insert_row, run_phase3-Stored, commit_all-Stored,
}
use callora_backend.Billing.Deduct.{
  World, recover, connect, precheck, settle_error, finish, after_phase1, after_balance,
  after_precheck, after_parse, deduct,
}

-- The flags of the result `r` of a call for `request` agree with each other and with the rows that the
-- call leaves.
pub record IsHonest (request : DeductRequest) (rows : List UsageRow) (r : DeductResult)
    : Type 0 where
  pub applied :
      r.deduction_applied ≡ true
      → (r.success ≡ true) × (r.reconciliation_required ≡ false) × (r.stellar_tx_hash ≢ none)
  pub failure :
      r.success ≡ false
      → (r.deduction_applied ≡ false) × (r.stellar_tx_hash ≡ none) × (r.error ≢ none)
  pub event : (i : ℕ) → r.usage_event_id ≡ some i → Stored request i rows
  pub reconciles :
      r.reconciliation_required ≡ true
      → (i : ℕ) × (r.usage_event_id ≡ some i) × Stored request i rows
  pub replay : r.already_processed ≡ true → r.success ≡ true

refusal-IsHonest :
    (request : DeductRequest) (rows : List UsageRow) (e : DeductError)
    → IsHonest request rows (refusal e)
unfolding refusal
refusal-IsHonest request rows e = record {
  applied = λ h. cc;
  failure = λ h. (refl, refl, λ p. cc);
  event = λ i p. cc;
  reconciles = λ h. cc;
  replay = λ h. cc;
}

stored_result-IsHonest :
    (request : DeductRequest) (rows : List UsageRow) (row : UsageRow)
    → find_row request.request_id rows ≡ some row
    → IsHonest request rows (stored_result row)
unfolding stored_result
stored_result-IsHonest request rows row e = record {
  applied = ground arith;
  failure = λ h. cc;
  event = λ i p. (row, e, ground arith);
  reconciles = λ h. (row.id, refl, (row, e, refl));
  replay = λ h. refl;
}

-- The row that phase 1 has inserted is stored after what other sessions commit during the charge.
pub inserted-Stored :
    (env : Surroundings) (request : DeductRequest) (t : Table)
    → find_row request.request_id t.rows ≡ none
    → Stored request t.next_id (commit_all env.during_charge (insert_row request t)).rows
inserted-Stored env request t e =
    commit_all-Stored env.during_charge request t.next_id (insert_row request t)
      (row_of request t.next_id, find_row-insert_row request t e, refl)

module _ (client : SorobanClient) (retry_delays_ms : List ℕ) where
  abbrev Good : DeductRequest → DeductResult × World client retry_delays_ms → Type 0
  Good request (r, w) = IsHonest request w.table.rows r

  recover-IsHonest :
      (failure : Option Text) (request : DeductRequest) (rows : List UsageRow) (e : DbError)
      (o : Option UsageRow)
      → find_row request.request_id rows ≡ o
      → IsHonest request rows (recover client retry_delays_ms failure e o)
  unfolding recover
  recover-IsHonest (some m) request rows e o p = refusal-IsHonest request rows _
  recover-IsHonest none request rows e (some row) p = stored_result-IsHonest request rows row p
  recover-IsHonest none request rows e none p = refusal-IsHonest request rows _

  settle_error-Good :
      (env : Surroundings) (request : DeductRequest) (e : DbError)
      (w : World client retry_delays_ms)
      → Good request (settle_error client retry_delays_ms env request e w)
  unfolding settle_error
  settle_error-Good env request (other_error m) w = refusal-IsHonest request _ _
  settle_error-Good env request (unique_violation m) w = recover-IsHonest _ request _ _ _ refl

  finish-Good :
      (env : Surroundings) (request : DeductRequest) (id : ℕ) (t : Table)
      (p : Reply _ × client.Ledger)
      → Stored request id t.rows
      → Good request (finish client retry_delays_ms env id t p)
  unfolding finish pending_failure applied_result
  finish-Good env request id t (thrown message, l) (row, e, same) = record {
    applied = λ h. cc;
    failure = λ h. (refl, refl, λ p. cc);
    event = λ i p. (row, e, ground (arith, same, p));
    reconciles = λ h. (id, refl, (row, e, same));
    replay = λ h. cc;
  }
  finish-Good env request id t (value tx_hash, l) (row, e, same) = record {
    applied = λ h. (refl, refl, λ p. cc);
    failure = λ h. cc;
    event = λ i p.
        run_phase3-Stored env.phase3_fails id tx_hash request i t (row, e, ground (arith, same, p));
    reconciles = λ h. cc;
    replay = λ h. cc;
  }

  found-Good :
      (env : Surroundings) (request : DeductRequest) (amount : ℕ) (l : client.Ledger) (t : Table)
      → Good request
          (after_phase1 client retry_delays_ms env request amount l (run_phase1 env request t))
  unfolding run_phase1 find_or_insert after_phase1
  found-Good env request amount l t = elim (Option-cases env.phase1_error) [
    | inr (e, p) ↦ rw p (elim (Bool-cases env.commit_lands) [
      | inl c ↦ rw c (settle_error-Good env request e _)
      | inr c ↦ rw c (settle_error-Good env request e _)
    ])
    | inl p ↦ rw p (elim (Option-cases (find_row request.request_id (env.before_phase1 t).rows)) [
      | inr (row, q) ↦ rw q (stored_result-IsHonest request _ row q)
      | inl q ↦ rw q (
          finish-Good env request (env.before_phase1 t).next_id _ _
            (inserted-Stored env request (env.before_phase1 t) q))
    ])
  ]

  connect-Good :
      (failure : Option Text) (env : Surroundings) (request : DeductRequest) (amount : ℕ)
      (l : client.Ledger) (t : Table)
      → Good request (connect client retry_delays_ms failure env request amount l t)
  connect-Good (some m) env request amount l t = refusal-IsHonest request _ _
  connect-Good none env request amount l t = found-Good env request amount l t

  after_balance-Good :
      (env : Surroundings) (request : DeductRequest) (amount : ℕ) (t : Table)
      (p : Reply ℕ × client.Ledger)
      → Good request (after_balance client retry_delays_ms env request amount t p)
  unfolding after_balance
  after_balance-Good env request amount t (thrown m, l) = refusal-IsHonest request _ _
  after_balance-Good env request amount t (value b, l) = elim (Bool-cases (ltb b amount)) [
    | inl e ↦ rw e (refusal-IsHonest request _ _)
    | inr e ↦ rw e (connect-Good env.connect_error env request amount l t)
  ]

  after_precheck-Good :
      (env : Surroundings) (request : DeductRequest) (amount : ℕ) (w : World client retry_delays_ms)
      (o : Option UsageRow)
      → find_row request.request_id w.table.rows ≡ o
      → Good request (after_precheck client retry_delays_ms env request amount w o)
  unfolding after_precheck
  after_precheck-Good env request amount w (some row) e = stored_result-IsHonest request _ row e
  after_precheck-Good env request amount w none e = after_balance-Good env request amount w.table _

  precheck-Good :
      (failure : Option Text) (env : Surroundings) (request : DeductRequest) (amount : ℕ)
      (w : World client retry_delays_ms)
      → Good request (precheck client retry_delays_ms failure env request amount w)
  precheck-Good (some m) env request amount w = refusal-IsHonest request _ _
  precheck-Good none env request amount w = after_precheck-Good env request amount w _ refl

  after_parse-Good :
      (env : Surroundings) (request : DeductRequest) (w : World client retry_delays_ms) (p : Parsed)
      → Good request (after_parse client retry_delays_ms env request w p)
  unfolding after_parse
  after_parse-Good env request w (refused e) = refusal-IsHonest request _ _
  after_parse-Good env request w (units n) = precheck-Good env.precheck_error env request n w

  -- Whatever the ledger, the database and the other sessions do: an applied deduction is reported as a
  -- success with a hash and without reconciliation; a failure is reported without a deduction and
  -- without a hash, and with an error; a reported event id is that of the row stored for the request;
  -- reconciliation is asked for only with the id of such a row; a replay is a success.
  pub deduct-IsHonest :
      (env : Surroundings) (request : DeductRequest) (w : World client retry_delays_ms)
      → let (r, w') = deduct client retry_delays_ms env request w in
        IsHonest request w'.table.rows r
  unfolding deduct
  deduct-IsHonest env request w = after_parse-Good env request w _
