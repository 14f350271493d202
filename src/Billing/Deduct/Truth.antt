-- ===== src/Billing/Deduct/Truth.antt =====
-- services/billing.ts: what the flags of the result of `deduct` tell about the ledger.
use callora_backend.Common.{
  ℕ, ◌≡◌, refl, ◌⊎◌, inl, inr, String, List, true, false, Option, none, some, ltb, Bool-cases,
  Option-cases, arith,
}
use callora_backend.Billing.Usdc.{Text, Parsed, units, refused}
use callora_backend.Billing.Soroban.{SorobanClient, Reply, value, thrown}
use callora_backend.Billing.Events.{
  DeductRequest, UsageRow, Table, find_row, DbError, unique_violation, other_error, Surroundings,
  run_phase1, find_or_insert, DeductResult, pending_failure, applied_result,
}
use callora_backend.Billing.Deduct.{
  World, connect, precheck, settle_error, finish, after_phase1, after_balance, after_precheck,
  after_parse, deduct,
}
use callora_backend.Billing.Deduct.Outcome.{IsHonest, deduct-IsHonest}
use callora_backend.Billing.Deduct.Charges.{IsIdempotent}

module _ (client : SorobanClient) (law : IsIdempotent client) (retry_delays_ms : List ℕ) where
  open law use {charged, balance_keeps}

  -- No key was charged from `l` to `l'`.
  abbrev pub SameCharges : client.Ledger → client.Ledger → Type 0
  SameCharges l l' = (k : String) → charged l' k ≡ charged l k

  -- The result `r` of a call that began on the ledger `l` tells the truth: its flags agree with each
  -- other and with the stored row; unless it reports a deduction or asks for reconciliation, nothing
  -- was charged; and a replay charged nothing.
  pub record IsTruthful (request : DeductRequest) (l : client.Ledger) (r : DeductResult)
      (w : World client retry_delays_ms) : Type 0 where
    pub flags : IsHonest request w.table.rows r
    pub silent :
        r.deduction_applied ≡ false → r.reconciliation_required ≡ false → SameCharges l w.ledger
    pub replays : r.already_processed ≡ true → SameCharges l w.ledger

  -- The ledger is as before, or the result is new and reports a deduction or asks for reconciliation.
  abbrev Told : client.Ledger → DeductResult × World client retry_delays_ms → Type 0
  Told l (r, w) =
      SameCharges l w.ledger
      ⊎ ((r.already_processed ≡ false)
          × ((r.deduction_applied ≡ true) ⊎ (r.reconciliation_required ≡ true)))

  settle_error-ledger :
      (env : Surroundings) (request : DeductRequest) (e : DbError)
      (w : World client retry_delays_ms)
      → (settle_error client retry_delays_ms env request e w).1.ledger ≡ w.ledger
  unfolding settle_error
  settle_error-ledger env request (other_error m) w = refl
  settle_error-ledger env request (unique_violation m) w = refl

  settle_error-Told :
      (env : Surroundings) (request : DeductRequest) (l : client.Ledger) (e : DbError)
      (w : World client retry_delays_ms)
      → SameCharges l w.ledger
      → Told l (settle_error client retry_delays_ms env request e w)
  settle_error-Told env request l e w same = inl (rw (settle_error-ledger env request e w) same)

  finish-Told :
      (env : Surroundings) (l : client.Ledger) (id : ℕ) (t : Table) (p : Reply _ × client.Ledger)
      → Told l (finish client retry_delays_ms env id t p)
  unfolding finish pending_failure applied_result
  finish-Told env l id t (thrown m, l') = inr (refl, inr refl)
  finish-Told env l id t (value h, l') = inr (refl, inl refl)

  phase1-Told :
      (env : Surroundings) (request : DeductRequest) (a : ℕ) (l m : client.Ledger) (t : Table)
      → SameCharges l m
      → Told l (after_phase1 client retry_delays_ms env request a m (run_phase1 env request t))
  unfolding run_phase1 find_or_insert after_phase1
  phase1-Told env request a l m t same = elim (Option-cases env.phase1_error) [
    | inr (e, p) ↦ rw p (elim (Bool-cases env.commit_lands) [
      | inl c ↦ rw c (settle_error-Told env request l e _ same)
      | inr c ↦ rw c (settle_error-Told env request l e _ same)
    ])
    | inl p ↦ rw p (elim (Option-cases (find_row request.request_id (env.before_phase1 t).rows)) [
      | inr (row, q) ↦ rw q (inl same)
      | inl q ↦ rw q (finish-Told env l _ _ _)
    ])
  ]

  connect-Told :
      (failure : Option Text) (env : Surroundings) (request : DeductRequest) (a : ℕ)
      (l m : client.Ledger) (t : Table)
      → SameCharges l m
      → Told l (connect client retry_delays_ms failure env request a m t)
  connect-Told (some x) env request a l m t same = inl same
  connect-Told none env request a l m t same = phase1-Told env request a l m t same

  balance-Told :
      (env : Surroundings) (request : DeductRequest) (a : ℕ) (l : client.Ledger) (t : Table)
      (p : Reply ℕ × client.Ledger)
      → SameCharges l p.1
      → Told l (after_balance client retry_delays_ms env request a t p)
  unfolding after_balance
  balance-Told env request a l t (thrown m, l') same = inl same
  balance-Told env request a l t (value b, l') same = elim (Bool-cases (ltb b a)) [
    | inl e ↦ rw e (inl same)
    | inr e ↦ rw e (connect-Told env.connect_error env request a l l' t same)
  ]

  after_precheck-Told :
      (env : Surroundings) (request : DeductRequest) (a : ℕ) (w : World client retry_delays_ms)
      (o : Option UsageRow)
      → Told w.ledger (after_precheck client retry_delays_ms env request a w o)
  unfolding after_precheck
  after_precheck-Told env request a w (some row) = inl (λ k. refl)
  after_precheck-Told env request a w none =
      balance-Told env request a w.ledger w.table _ (λ k. balance_keeps w.ledger request.user_id k)

  precheck-Told :
      (failure : Option Text) (env : Surroundings) (request : DeductRequest) (a : ℕ)
      (w : World client retry_delays_ms)
      → Told w.ledger (precheck client retry_delays_ms failure env request a w)
  precheck-Told (some x) env request a w = inl (λ k. refl)
  precheck-Told none env request a w = after_precheck-Told env request a w _

  parse-Told :
      (env : Surroundings) (request : DeductRequest) (w : World client retry_delays_ms) (p : Parsed)
      → Told w.ledger (after_parse client retry_delays_ms env request w p)
  unfolding after_parse
  parse-Told env request w (refused e) = inl (λ k. refl)
  parse-Told env request w (units a) = precheck-Told env.precheck_error env request a w

  Told-silent :
      (l : client.Ledger) (p : DeductResult × World client retry_delays_ms)
      → Told l p
      → p.0.deduction_applied ≡ false
      → p.0.reconciliation_required ≡ false
      → SameCharges l p.1.ledger
  Told-silent l p (inl same) a c = same
  Told-silent l p (inr (n, t)) a c = absurd (ground (arith, t, a, c))

  Told-replays :
      (l : client.Ledger) (p : DeductResult × World client retry_delays_ms)
      → Told l p
      → p.0.already_processed ≡ true
      → SameCharges l p.1.ledger
  Told-replays l p (inl same) a = same
  Told-replays l p (inr (n, t)) a = absurd (ground (arith, n, a))

  deduct-Told :
      (env : Surroundings) (request : DeductRequest) (w : World client retry_delays_ms)
      → Told w.ledger (deduct client retry_delays_ms env request w)
  unfolding deduct
  deduct-Told env request w = parse-Told env request w _

  -- On a ledger that honours its idempotency keys, and that never loses a charge when a balance is
  -- read, whatever the database does and other sessions commit, which during the charge are rows and
  -- hashes: a deduction that is reported as applied is a success with a hash and without
  -- reconciliation; a failure is reported without a deduction and without a hash, and with an error; a
  -- reported event id is that of the row stored for the request, and reconciliation is asked for only
  -- with such an id; a replay is a success that charged nothing; and a result that neither reports a
  -- deduction nor asks for reconciliation charged nothing.
  pub deduct-IsTruthful :
      (env : Surroundings) (request : DeductRequest) (w : World client retry_delays_ms)
      → let (r, w') = deduct client retry_delays_ms env request w in
        IsTruthful request w.ledger r w'
  deduct-IsTruthful env request w =
      let p = deduct client retry_delays_ms env request w in
      record {
        flags = deduct-IsHonest client retry_delays_ms env request w;
        silent = Told-silent w.ledger p (deduct-Told env request w);
        replays = Told-replays w.ledger p (deduct-Told env request w);
      }
