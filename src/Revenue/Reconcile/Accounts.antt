-- ===== src/Revenue/Reconcile/Accounts.antt =====
-- services/revenueSettlementService.ts: the bookkeeping of a reconciliation pass.
use callora_backend.Common.{
  ℕ, ◌+◌, ◌≡◌, refl, inl, inr, String, List, [], ◌∷◌, Bool, true, false, arith, length, str_dec,
  if_pos, if_neg, leb, Bool-cases,
}
use callora_backend.Settlement.{
  Status, completed, failed, Settlement, update_first, update_status, schedule_retry,
  get_pending_settlements, with_status, with_retry, keep_hash,
}
use callora_backend.Revenue.{Options}
use callora_backend.Revenue.Reconcile.{
  Reading, HorizonAnswer, successful, too_early, unsuccessful, not_found, odd_shape, fetch_throws,
  ReconcileResult, attempt, fail_settlement, by_answer, count_completed, count_failed,
  count_retried, reconcile_one, reconcile_all, no_result, reconcile_pending_settlements_once,
}

-- Each settlement that was checked is counted once.
abbrev pub Adds : ℕ → ReconcileResult → ReconcileResult → Type 0
Adds n r r' =
    (r'.checked ≡ r.checked + n)
    × (r'.completed + r'.failed + r'.retried + r'.errors
        ≡ r.completed + r.failed + r.retried + r.errors + n)

one-Adds :
    (o : Options) (reading : Reading) (s : Settlement) (p : List Settlement × ReconcileResult)
    → Adds 1 p.1 (reconcile_one o reading s p).1
unfolding reconcile_one
one-Adds o reading s p = (ground arith, ground arith)

all-Adds :
    (o : Options) (reading : String → Reading) (ss : List Settlement)
    (p : List Settlement × ReconcileResult)
    → Adds (length ss) p.1 (reconcile_all o reading ss p).1
unfolding reconcile_all
all-Adds o reading [] p = (omega arith, omega arith)
all-Adds o reading (s ∷ ss) p =
    let (a, b) = one-Adds o (reading s.id) s p in
    let (c, d) = all-Adds o reading ss (reconcile_one o (reading s.id) s p) in
    (omega (arith, a, c), omega (arith, b, d))

-- With a Horizon URL, a pass checks every settlement that is due, and counts each of them exactly once as completed,
-- failed, retried or in error, whatever Horizon answers and whichever writes fail.
pub reconcile_accounts :
    (o : Options) (reading : String → Reading) (now : ℕ) (settlements : List Settlement)
    → let r = (reconcile_pending_settlements_once true o reading now settlements).1 in
      (r.checked ≡ length (get_pending_settlements now settlements))
      × (r.completed + r.failed + r.retried + r.errors ≡ r.checked)
unfolding reconcile_pending_settlements_once
reconcile_accounts o reading now settlements =
    let (a, b) =
      all-Adds o reading (get_pending_settlements now settlements) (settlements, no_result) in
    (omega (arith, a), omega (arith, a, b))

-- A change of one settlement by a pass: its identity, developer, amount and hash stay.
pub record SameDebt (s t : Settlement) : Type 0 where
  pub id : t.id ≡ s.id
  pub developer : t.developer_id ≡ s.developer_id
  pub amount : t.amount ≡ s.amount
  pub hash : t.tx_hash ≡ s.tx_hash

-- Two stores that list the same debts in the same order.
abbrev pub SameDebts : List Settlement → List Settlement → Type 0
SameDebts [] [] = Unit
SameDebts [] (t ∷ ts) = ⊥
SameDebts (s ∷ ss) [] = ⊥
SameDebts (s ∷ ss) (t ∷ ts) = SameDebt s t × SameDebts ss ts

SameDebt-refl : (s : Settlement) → SameDebt s s
SameDebt-refl s = record { id = refl; developer = refl; amount = refl; hash = refl }

SameDebts-refl : (ss : List Settlement) → SameDebts ss ss
SameDebts-refl [] = tt
SameDebts-refl (s ∷ ss) = (SameDebt-refl s, SameDebts-refl ss)

SameDebt-trans : (s t u : Settlement) → SameDebt s t → SameDebt t u → SameDebt s u
SameDebt-trans s t u p q = ground arith

SameDebts-trans : (ss ts us : List Settlement) → SameDebts ss ts → SameDebts ts us → SameDebts ss us
SameDebts-trans [] [] [] p q = tt
SameDebts-trans [] (t ∷ ts) us p q = elim p [ ]
SameDebts-trans [] [] (u ∷ us) p q = elim q [ ]
SameDebts-trans (s ∷ ss) [] us p q = elim p [ ]
SameDebts-trans (s ∷ ss) (t ∷ ts) [] p q = elim q [ ]
SameDebts-trans (s ∷ ss) (t ∷ ts) (u ∷ us) p q =
    (SameDebt-trans s t u p.0 q.0, SameDebts-trans ss ts us p.1 q.1)

update-SameDebts :
    (id : String) (f : Settlement → Settlement) (ss : List Settlement)
    → ((s : Settlement) → SameDebt s (f s))
    → SameDebts ss (update_first id f ss)
unfolding update_first
update-SameDebts id f [] h = tt
update-SameDebts id f (s ∷ ss) h = elim (str_dec s.id id) [
  | yes p ↦ rw (if_pos (str_dec s.id id) p) (h s, SameDebts-refl ss)
  | no p ↦ rw (if_neg (str_dec s.id id) p) (SameDebt-refl s, update-SameDebts id f ss h)
]

update_status-SameDebts :
    (id : String) (st : Status) (now : ℕ) (ss : List Settlement)
    → SameDebts ss (update_status id st keep_hash now ss)
unfolding update_status
update_status-SameDebts id st now ss =
    update-SameDebts id (with_status st keep_hash now) ss
      λ s. record { id = refl; developer = refl; amount = refl; hash = refl }

schedule_retry-SameDebts :
    (id : String) (t : ℕ) (ss : List Settlement) → SameDebts ss (schedule_retry id t ss)
unfolding schedule_retry
schedule_retry-SameDebts id t ss =
    update-SameDebts id (with_retry t) ss
      λ s. record { id = refl; developer = refl; amount = refl; hash = refl }

attempt-SameDebts :
    (fails : Bool) (write : List Settlement → List Settlement)
    (count : ReconcileResult → ReconcileResult) (ss : List Settlement) (r : ReconcileResult)
    → SameDebts ss (write ss)
    → SameDebts ss (attempt fails write count (ss, r)).0
attempt-SameDebts true write count ss r h = SameDebts-refl ss
attempt-SameDebts false write count ss r h = h

fail_settlement-SameDebts :
    (reading : Reading) (s : Settlement) (ss : List Settlement) (r : ReconcileResult)
    → SameDebts ss (fail_settlement reading s (ss, r)).0
fail_settlement-SameDebts reading s ss r =
    attempt-SameDebts reading.write_fails (update_status s.id failed keep_hash reading.now)
      count_failed ss r (update_status-SameDebts s.id failed reading.now ss)

by_answer-SameDebts :
    (o : Options) (reading : Reading) (answer : HorizonAnswer) (s : Settlement)
    (ss : List Settlement) (r : ReconcileResult)
    → SameDebts ss (by_answer o reading answer s (ss, r)).0
by_answer-SameDebts o reading successful s ss r =
    attempt-SameDebts reading.write_fails (update_status s.id completed keep_hash reading.now)
      count_completed ss r (update_status-SameDebts s.id completed reading.now ss)
by_answer-SameDebts o reading too_early s ss r =
    elim (Bool-cases (leb o.max_too_early_retries s.retry_count)) [
      | inl e ↦ rw e (fail_settlement-SameDebts reading s ss r)
      | inr e ↦ rw e (
          attempt-SameDebts reading.write_fails
            (schedule_retry s.id (reading.now + o.too_early_backoff_ms)) count_retried ss r
            (schedule_retry-SameDebts s.id (reading.now + o.too_early_backoff_ms) ss))
    ]
by_answer-SameDebts o reading unsuccessful s ss r = fail_settlement-SameDebts reading s ss r
by_answer-SameDebts o reading not_found s ss r = fail_settlement-SameDebts reading s ss r
by_answer-SameDebts o reading odd_shape s ss r = SameDebts-refl ss
by_answer-SameDebts o reading fetch_throws s ss r = SameDebts-refl ss

all-SameDebts :
    (o : Options) (reading : String → Reading) (ts : List Settlement) (ss : List Settlement)
    (r : ReconcileResult)
    → SameDebts ss (reconcile_all o reading ts (ss, r)).0
unfolding reconcile_all reconcile_one
all-SameDebts o reading [] ss r = SameDebts-refl ss
all-SameDebts o reading (t ∷ ts) ss r =
    let q = reconcile_one o (reading t.id) t (ss, r) in
    SameDebts-trans ss q.0 _ (by_answer-SameDebts o (reading t.id) (reading t.id).answer t ss _)
      (all-SameDebts o reading ts q.0 q.1)

-- A pass only moves settlements between states: it keeps every settlement, in order, with its id,
-- developer, amount and transaction hash, whatever Horizon answers and whichever writes fail.
pub reconcile-SameDebts :
    (configured : Bool) (o : Options) (reading : String → Reading) (now : ℕ)
    (settlements : List Settlement)
    → SameDebts settlements
        (reconcile_pending_settlements_once configured o reading now settlements).0
unfolding reconcile_pending_settlements_once
reconcile-SameDebts false o reading now settlements = SameDebts-refl settlements
reconcile-SameDebts true o reading now settlements =
    all-SameDebts o reading (get_pending_settlements now settlements) settlements no_result
