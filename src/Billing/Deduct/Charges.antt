-- ===== src/Billing/Deduct/Charges.antt =====
-- services/billing.ts: what a call of `deduct` can charge on a ledger that honours its keys.
use callora_backend.Common.{
  ℕ, ◌≡◌, ◌≢◌, refl, sym, ◌∙◌, String, List, [], ◌∷◌, true, false, Option, none, some, ltb, inl,
  inr, ◌⊎◌, Bool-cases, Option-cases, arith,
}
use callora_backend.Billing.Usdc.{Text, units, parse_usdc_to_contract_units}
use callora_backend.Billing.Soroban.{
  SorobanClient, Reply, value, thrown, after_attempt, execute_deduct_with_retry,
  is_transient_soroban_error,
}
use callora_backend.Billing.Events.{
  DeductRequest, UsageRow, Table, find_row, DbError, unique_violation, other_error, Surroundings,
  run_phase1, find_or_insert, DeductError, call_throws, database_error, DeductResult, refusal,
  stored_result, pending_failure,
}
use callora_backend.Billing.Events.Rows.{Stored, run_phase3-Stored}
use callora_backend.Billing.Deduct.Outcome.{inserted-Stored}
use callora_backend.Billing.Deduct.{
  World, recover, connect, precheck, charge_key, settle_error, finish, after_phase1, after_balance,
  after_precheck, after_parse, deduct,
}

-- The documented behaviour of the contract: a deduction under a key is made at most once, and a
-- call that fails may have made it or not.
pub record IsIdempotent (client : SorobanClient) : Type 0 where
  pub charged : client.Ledger → String → Option ℕ
  pub balance_keeps :
      (l : client.Ledger) (u k : String) → charged (client.get_balance l u).1 k ≡ charged l k
  pub other_key :
      (l : client.Ledger) (u : String) (a : ℕ) (key k : String)
      → k ≢ key
      → charged (client.deduct_balance l u a key).1 k ≡ charged l k
  pub once :
      (l : client.Ledger) (u : String) (a : ℕ) (key : String)
      → (charged (client.deduct_balance l u a key).1 key ≡ charged l key)
        ⊎ ((charged l key ≡ none) × (charged (client.deduct_balance l u a key).1 key ≡ some a))
  pub paid :
      (l : client.Ledger) (u : String) (a : ℕ) (key : String) (h : String)
      → (client.deduct_balance l u a key).0 ≡ value h
      → charged (client.deduct_balance l u a key).1 key ≢ none

module _ (client : SorobanClient) (law : IsIdempotent client) where
  open law use {charged, balance_keeps, other_key, once, paid}

  -- From `l` to `l'` nothing was charged but, at most, `a` under a key that had no charge.
  pub record Charges (key : String) (a : ℕ) (l l' : client.Ledger) : Type 0 where
    pub others : (k : String) → k ≢ key → charged l' k ≡ charged l k
    pub own :
        (charged l' key ≡ charged l key) ⊎ ((charged l key ≡ none) × (charged l' key ≡ some a))

  pub Charges-refl : (key : String) (a : ℕ) (l : client.Ledger) → Charges key a l l
  Charges-refl key a l = record { others = λ k h. refl; own = inl refl }

  own_trans :
      (key : String) (a : ℕ) (l m n : client.Ledger)
      → (charged m key ≡ charged l key) ⊎ ((charged l key ≡ none) × (charged m key ≡ some a))
      → (charged n key ≡ charged m key) ⊎ ((charged m key ≡ none) × (charged n key ≡ some a))
      → (charged n key ≡ charged l key) ⊎ ((charged l key ≡ none) × (charged n key ≡ some a))
  own_trans key a l m n p q = ground arith

  pub Charges-trans :
      (key : String) (a : ℕ) (l m n : client.Ledger)
      → Charges key a l m
      → Charges key a m n
      → Charges key a l n
  Charges-trans key a l m n p q = record {
    others = λ k h. q.others k h ∙ p.others k h;
    own = own_trans key a l m n p.own q.own;
  }

  one_call-Charges :
      (key u : String) (a : ℕ) (l : client.Ledger)
      → Charges key a l (client.deduct_balance l u a key).1
  one_call-Charges key u a l = record { others = other_key l u a key; own = once l u a key }

  pub balance-Charges :
      (key u : String) (a : ℕ) (l : client.Ledger) → Charges key a l (client.get_balance l u).1
  balance-Charges key u a l = record {
    others = λ k h. balance_keeps l u k;
    own = inl (balance_keeps l u key);
  }

  -- A reply with a hash means that the key is charged.
  abbrev pub Paid : String → Reply String → client.Ledger → Type 0
  Paid key r l = (h : String) → r ≡ value h → charged l key ≢ none

  abbrev pub Settles : String → ℕ → client.Ledger → Reply String × client.Ledger → Type 0
  Settles key a l (r, l') = Charges key a l l' × Paid key r l'

  Settles-trans :
      (key : String) (a : ℕ) (l m : client.Ledger) (p : Reply String × client.Ledger)
      → Charges key a l m
      → Settles key a m p
      → Settles key a l p
  Settles-trans key a l m (r, l') c (d, s) = (Charges-trans key a l m l' c d, s)

  Settles-thrown :
      (key : String) (a : ℕ) (l l' : client.Ledger) (m : List ℕ)
      → Charges key a l l'
      → Settles key a l (thrown m, l')
  Settles-thrown key a l l' m c = (c, λ h e. cc)

  after_attempt-Settles :
      (key : String) (a : ℕ) (l : client.Ledger)
      (again : client.Ledger → Reply String × client.Ledger) (p : Reply String × client.Ledger)
      → Settles key a l p
      → ((m : client.Ledger) → Settles key a m (again m))
      → Settles key a l (after_attempt client again p)
  unfolding after_attempt
  after_attempt-Settles key a l again (value h, l') s rest = s
  after_attempt-Settles key a l again (thrown m, l') (c, s) rest =
      elim (Bool-cases (is_transient_soroban_error client m)) [
        | inl t ↦ rw t (Settles-trans key a l l' (again l') c (rest l'))
        | inr f ↦ rw f (Settles-thrown key a l l' m c)
      ]

  one_call-Settles :
      (key u : String) (a : ℕ) (l : client.Ledger)
      → Settles key a l (client.deduct_balance l u a key)
  one_call-Settles key u a l = (one_call-Charges key u a l, paid l u a key)

  pub retry-Settles :
      (delays : List ℕ) (key u : String) (a : ℕ) (l : client.Ledger)
      → Settles key a l (execute_deduct_with_retry client delays l u a key)
  unfolding execute_deduct_with_retry
  retry-Settles [] key u a l = one_call-Settles key u a l
  retry-Settles (d ∷ ds) key u a l =
      after_attempt-Settles key a l (λ m. execute_deduct_with_retry client ds m u a key) _
        (one_call-Settles key u a l) (λ m. retry-Settles ds key u a m)

  module _ (retry_delays_ms : List ℕ) where
    -- The charges of a whole call, with the row that has to stand for a new charge, and the charge
    -- that has to stand for a new success.
    pub record IsAccounted (request : DeductRequest) (a : ℕ) (l : client.Ledger) (r : DeductResult)
        (w : World client retry_delays_ms) : Type 0 where
      pub others : (k : String) → k ≢ charge_key request → charged w.ledger k ≡ charged l k
      pub own :
          (charged w.ledger (charge_key request) ≡ charged l (charge_key request))
          ⊎ ((charged l (charge_key request) ≡ none)
              × (charged w.ledger (charge_key request) ≡ some a)
              × ((i : ℕ) × Stored request i w.table.rows))
      pub paid_for :
          r.already_processed ≡ false
          → r.deduction_applied ≡ true
          → charged w.ledger (charge_key request) ≢ none

    abbrev Accounted :
        DeductRequest → ℕ → client.Ledger → DeductResult × World client retry_delays_ms → Type 0
    Accounted request a l (r, w) = IsAccounted request a l r w

    -- A result that applied nothing new, on a ledger with the same charges.
    abbrev Idle : DeductResult → Type 0
    Idle r = (r.already_processed ≡ true) ⊎ (r.deduction_applied ≡ false)

    uncharged :
        (request : DeductRequest) (a : ℕ) (l : client.Ledger) (r : DeductResult)
        (w : World client retry_delays_ms)
        → ((k : String) → charged w.ledger k ≡ charged l k)
        → Idle r
        → IsAccounted request a l r w
    uncharged request a l r w same idle = record {
      others = λ k h. same k;
      own = inl (same (charge_key request));
      paid_for = λ p q. ground arith;
    }

    refusal-Idle : (e : DeductError) → Idle (refusal e)
    unfolding refusal
    refusal-Idle e = inr refl

    recover-Idle :
        (failure : Option Text) (e : DbError) (o : Option UsageRow)
        → Idle (recover client retry_delays_ms failure e o)
    unfolding recover stored_result
    recover-Idle (some m) e o = refusal-Idle (call_throws m)
    recover-Idle none e (some row) = inl refl
    recover-Idle none e none = refusal-Idle (database_error e)

    uncharged_settle_error :
        (env : Surroundings) (request : DeductRequest) (a : ℕ) (l : client.Ledger) (e : DbError)
        (w : World client retry_delays_ms)
        → ((k : String) → charged w.ledger k ≡ charged l k)
        → Accounted request a l (settle_error client retry_delays_ms env request e w)
    unfolding settle_error
    uncharged_settle_error env request a l (other_error m) w same =
        uncharged request a l _ _ same (refusal-Idle (database_error (other_error m)))
    uncharged_settle_error env request a l (unique_violation m) w same =
        uncharged request a l _ _ same (
          recover-Idle env.recovery_error (unique_violation m)
            (find_row request.request_id (env.before_recovery w.table).rows))

    IsAccounted-of :
        (request : DeductRequest) (a : ℕ) (l m : client.Ledger) (r : DeductResult)
        (w : World client retry_delays_ms)
        → ((k : String) → charged m k ≡ charged l k)
        → Charges (charge_key request) a m w.ledger
        → ((i : ℕ) × Stored request i w.table.rows)
        → (r.deduction_applied ≡ true → charged w.ledger (charge_key request) ≢ none)
        → IsAccounted request a l r w
    IsAccounted-of request a l m r w same c row paid_up = record {
      others = λ k h. c.others k h ∙ same k;
      own = own_of c.own;
      paid_for = λ p q. paid_up q;
    }
      where
        own_of :
            (charged w.ledger (charge_key request) ≡ charged m (charge_key request))
              ⊎ ((charged m (charge_key request) ≡ none)
                  × (charged w.ledger (charge_key request) ≡ some a))
            → (charged w.ledger (charge_key request) ≡ charged l (charge_key request))
              ⊎ ((charged l (charge_key request) ≡ none)
                  × (charged w.ledger (charge_key request) ≡ some a)
                  × ((i : ℕ) × Stored request i w.table.rows))
        own_of (inl q) = inl (q ∙ same (charge_key request))
        own_of (inr (q, q')) = inr (sym (same (charge_key request)) ∙ q, q', row)

    finish-Accounted :
        (env : Surroundings) (request : DeductRequest) (a : ℕ) (l m : client.Ledger) (id : ℕ)
        (t : Table) (p : Reply String × client.Ledger)
        → Stored request id t.rows
        → ((k : String) → charged m k ≡ charged l k)
        → Settles (charge_key request) a m p
        → Accounted request a l (finish client retry_delays_ms env id t p)
    unfolding finish pending_failure
    finish-Accounted env request a l m id t (thrown msg, l') e same (c, s) =
        IsAccounted-of request a l m _ _ same c (id, e) (λ q. cc)
    finish-Accounted env request a l m id t (value h, l') e same (c, s) =
        IsAccounted-of request a l m _ _ same c
          (id, run_phase3-Stored env.phase3_fails id h request id t e) (λ q. s h refl)

    phase1-Accounted :
        (env : Surroundings) (request : DeductRequest) (a : ℕ) (l m : client.Ledger) (t : Table)
        → ((k : String) → charged m k ≡ charged l k)
        → Accounted request a l
            (after_phase1 client retry_delays_ms env request a m (run_phase1 env request t))
    unfolding run_phase1 find_or_insert after_phase1 stored_result
    phase1-Accounted env request a l m t same = elim (Option-cases env.phase1_error) [
      | inr (e, p) ↦ rw p (elim (Bool-cases env.commit_lands) [
        | inl c ↦ rw c (uncharged_settle_error env request a l e _ same)
        | inr c ↦ rw c (uncharged_settle_error env request a l e _ same)
      ])
      | inl p ↦ rw p (elim (Option-cases (find_row request.request_id (env.before_phase1 t).rows)) [
        | inr (row, q) ↦ rw q (uncharged request a l _ _ same (inl refl))
        | inl q ↦ rw q (
            finish-Accounted env request a l m (env.before_phase1 t).next_id _ _
              (inserted-Stored env request (env.before_phase1 t) q) same
              (retry-Settles retry_delays_ms (charge_key request) request.user_id a m))
      ])
    ]

    connect-Accounted :
        (failure : Option Text) (env : Surroundings) (request : DeductRequest) (a : ℕ)
        (l m : client.Ledger) (t : Table)
        → ((k : String) → charged m k ≡ charged l k)
        → Accounted request a l (connect client retry_delays_ms failure env request a m t)
    connect-Accounted (some x) env request a l m t same =
        uncharged request a l _ _ same (refusal-Idle (call_throws x))
    connect-Accounted none env request a l m t same = phase1-Accounted env request a l m t same

    balance-Accounted :
        (env : Surroundings) (request : DeductRequest) (a : ℕ) (l : client.Ledger) (t : Table)
        (p : Reply ℕ × client.Ledger)
        → ((k : String) → charged p.1 k ≡ charged l k)
        → Accounted request a l (after_balance client retry_delays_ms env request a t p)
    unfolding after_balance refusal
    balance-Accounted env request a l t (thrown msg, m) same =
        uncharged request a l _ _ same (inr refl)
    balance-Accounted env request a l t (value b, m) same = elim (Bool-cases (ltb b a)) [
      | inl e ↦ rw e (uncharged request a l _ _ same (inr refl))
      | inr e ↦ rw e (connect-Accounted env.connect_error env request a l m t same)
    ]

    precheck-Accounted :
        (env : Surroundings) (request : DeductRequest) (a : ℕ) (w : World client retry_delays_ms)
        (o : Option UsageRow)
        → Accounted request a w.ledger (after_precheck client retry_delays_ms env request a w o)
    unfolding after_precheck stored_result
    precheck-Accounted env request a w (some row) =
        uncharged request a w.ledger _ _ (λ k. refl) (inl refl)
    precheck-Accounted env request a w none =
        balance-Accounted env request a w.ledger w.table _
          (λ k. balance_keeps w.ledger request.user_id k)

    query-Accounted :
        (failure : Option Text) (env : Surroundings) (request : DeductRequest) (a : ℕ)
        (w : World client retry_delays_ms)
        → Accounted request a w.ledger (precheck client retry_delays_ms failure env request a w)
    query-Accounted (some x) env request a w =
        uncharged request a w.ledger _ _ (λ k. refl) (refusal-Idle (call_throws x))
    query-Accounted none env request a w = precheck-Accounted env request a w _

    -- On such a ledger a call for an amount of `a` units charges no other key, and its own key at
    -- most once, with `a`; a new charge has a stored row; a new success has a charge.
    pub deduct-IsAccounted :
        (env : Surroundings) (request : DeductRequest) (a : ℕ) (w : World client retry_delays_ms)
        → parse_usdc_to_contract_units request.amount_usdc ≡ units a
        → let (r, w') = deduct client retry_delays_ms env request w in
          IsAccounted request a w.ledger r w'
    unfolding deduct after_parse
    deduct-IsAccounted env request a w p =
        rw (p, after_parse) (query-Accounted env.precheck_error env request a w)
