-- ===== src/Billing/Deduct/Replay.antt =====
-- services/billing.ts: a request that is sent again, and the keys of the table.
use callora_backend.Common.{
  ℕ, ◌≡◌, List, true, Option, none, some, ltb, inl, inr, Bool-cases, Option-cases,
}
use callora_backend.Billing.Usdc.{Text, Parsed, units, refused}
use callora_backend.Billing.Soroban.{SorobanClient, Reply, value, thrown}
use callora_backend.Billing.Events.{
  DeductRequest, UsageRow, Table, find_row, insert_row, DbError, unique_violation, other_error,
  Surroundings, run_phase1, find_or_insert, commit_all, DeductResult,
}
use callora_backend.Billing.Events.Rows.{
  IsKeyed, insert_row-IsKeyed, run_phase3-IsKeyed, find_or_insert-IsKeyed, commit_all-IsKeyed,
}
use callora_backend.Billing.Deduct.{
  World, connect, precheck, settle_error, finish, after_phase1, after_balance, after_precheck,
  after_parse, deduct,
}

module _ (client : SorobanClient) (retry_delays_ms : List ℕ) where
  -- The result of a second call: a replay of the stored event `i`.
  abbrev pub IsReplay : ℕ → DeductResult → Type 0
  IsReplay i r =
      (r.success ≡ true)
      × (r.already_processed ≡ true)
      × (r.usage_event_id ≡ some i)
      × (r.error ≡ none)

  -- What other sessions commit keeps the keys of the table.
  pub record Keeps (env : Surroundings) : Type 0 where
    pub phase1 : (t : Table) → IsKeyed t → IsKeyed (env.before_phase1 t)
    pub recovery : (t : Table) → IsKeyed t → IsKeyed (env.before_recovery t)

  abbrev Keyed : DeductResult × World client retry_delays_ms → Type 0
  Keyed (r, w) = IsKeyed w.table

  settle_error-Keyed :
      (env : Surroundings) (request : DeductRequest) (e : DbError)
      (w : World client retry_delays_ms)
      → Keeps env
      → IsKeyed w.table
      → Keyed (settle_error client retry_delays_ms env request e w)
  unfolding settle_error
  settle_error-Keyed env request (other_error m) w k v = v
  settle_error-Keyed env request (unique_violation m) w k v = k.recovery w.table v

  finish-Keyed :
      (env : Surroundings) (id : ℕ) (t : Table) (p : Reply _ × client.Ledger)
      → IsKeyed t
      → Keyed (finish client retry_delays_ms env id t p)
  unfolding finish
  finish-Keyed env id t (thrown m, l) v = v
  finish-Keyed env id t (value h, l) v = run_phase3-IsKeyed env.phase3_fails id h t v

  phase1-Keyed :
      (env : Surroundings) (request : DeductRequest) (amount : ℕ) (l : client.Ledger) (t : Table)
      → Keeps env
      → IsKeyed t
      → Keyed (after_phase1 client retry_delays_ms env request amount l (run_phase1 env request t))
  unfolding run_phase1 find_or_insert after_phase1
  phase1-Keyed env request amount l t k v = elim (Option-cases env.phase1_error) [
    | inr (e, p) ↦ rw p (elim (Bool-cases env.commit_lands) [
      | inl c ↦ rw c (
          settle_error-Keyed env request e _ k
            (find_or_insert-IsKeyed request (env.before_phase1 t) (k.phase1 t v)))
      | inr c ↦ rw c (settle_error-Keyed env request e _ k (k.phase1 t v))
    ])
    | inl p ↦ rw p (elim (Option-cases (find_row request.request_id (env.before_phase1 t).rows)) [
      | inr (row, q) ↦ rw q (k.phase1 t v)
      | inl q ↦ rw q (
          finish-Keyed env _
            (commit_all env.during_charge (insert_row request (env.before_phase1 t))) _
            (commit_all-IsKeyed env.during_charge _
              (insert_row-IsKeyed request (env.before_phase1 t) q (k.phase1 t v))))
    ])
  ]

  connect-Keyed :
      (failure : Option Text) (env : Surroundings) (request : DeductRequest) (amount : ℕ)
      (l : client.Ledger) (t : Table)
      → Keeps env
      → IsKeyed t
      → Keyed (connect client retry_delays_ms failure env request amount l t)
  connect-Keyed (some m) env request amount l t k v = v
  connect-Keyed none env request amount l t k v = phase1-Keyed env request amount l t k v

  balance-Keyed :
      (env : Surroundings) (request : DeductRequest) (amount : ℕ) (t : Table)
      (p : Reply ℕ × client.Ledger)
      → Keeps env
      → IsKeyed t
      → Keyed (after_balance client retry_delays_ms env request amount t p)
  unfolding after_balance
  balance-Keyed env request amount t (thrown m, l) k v = v
  balance-Keyed env request amount t (value b, l) k v = elim (Bool-cases (ltb b amount)) [
    | inl e ↦ rw e v
    | inr e ↦ rw e (connect-Keyed env.connect_error env request amount l t k v)
  ]

  precheck-Keyed :
      (env : Surroundings) (request : DeductRequest) (amount : ℕ) (w : World client retry_delays_ms)
      (o : Option UsageRow)
      → Keeps env
      → IsKeyed w.table
      → Keyed (after_precheck client retry_delays_ms env request amount w o)
  unfolding after_precheck
  precheck-Keyed env request amount w (some row) k v = v
  precheck-Keyed env request amount w none k v = balance-Keyed env request amount w.table _ k v

  query-Keyed :
      (failure : Option Text) (env : Surroundings) (request : DeductRequest) (amount : ℕ)
      (w : World client retry_delays_ms)
      → Keeps env
      → IsKeyed w.table
      → Keyed (precheck client retry_delays_ms failure env request amount w)
  query-Keyed (some m) env request amount w k v = v
  query-Keyed none env request amount w k v = precheck-Keyed env request amount w _ k v

  parse-Keyed :
      (env : Surroundings) (request : DeductRequest) (w : World client retry_delays_ms) (p : Parsed)
      → Keeps env
      → IsKeyed w.table
      → Keyed (after_parse client retry_delays_ms env request w p)
  unfolding after_parse
  parse-Keyed env request w (refused e) k v = v
  parse-Keyed env request w (units n) k v = query-Keyed env.precheck_error env request n w k v

  -- If the other sessions keep it, each call keeps the table keyed: no two rows share a request id,
  -- and every row id is below the next one.
  pub deduct-IsKeyed :
      (env : Surroundings) (request : DeductRequest) (w : World client retry_delays_ms)
      → Keeps env
      → IsKeyed w.table
      → IsKeyed (deduct client retry_delays_ms env request w).1.table
  unfolding deduct
  deduct-IsKeyed env request w k v = parse-Keyed env request w _ k v
