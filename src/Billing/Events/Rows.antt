-- ===== src/Billing/Events/Rows.antt =====
-- services/billing.ts: what the billing statements do to the rows of `usage_events`.
use callora_backend.Common.{
  Option-cases, inl, inr, ℕ, ◌+◌, ◌<◌, ◌≡◌, ◌≢◌, refl, String, List, [], ◌∷◌, ◌++◌, Bool, true,
  false, none, some, ite, ℕ_discrete, arith, All, All-append,
}
use callora_backend.Billing.Events.{
  DeductRequest, UsageRow, Table, find_row, insert_row, set_hash, run_phase3, Commit, inserts,
  sets_hash, find_or_insert, commit_all,
}

abbrev pub row_of : DeductRequest → ℕ → UsageRow
row_of request id = record { id = id; request = request; stellar_tx_hash = none }

abbrev pub Stored : DeductRequest → ℕ → List UsageRow → Type 0
Stored request id rows =
    (row : UsageRow) × (find_row request.request_id rows ≡ some row) × (row.id ≡ id)

pub find_row-snoc :
    (request : DeductRequest) (id : ℕ) (rows : List UsageRow)
    → find_row request.request_id rows ≡ none
    → find_row request.request_id (rows ++ row_of request id ∷ []) ≡ some (row_of request id)
unfolding find_row
find_row-snoc request id [] e = ground arith
find_row-snoc request id (row ∷ rows) e = ground (arith, find_row-snoc request id rows)

pub find_row-insert_row :
    (request : DeductRequest) (t : Table)
    → find_row request.request_id t.rows ≡ none
    → find_row request.request_id (insert_row request t).rows ≡ some (row_of request t.next_id)
unfolding insert_row
find_row-insert_row request t e = find_row-snoc request t.next_id t.rows e

abbrev pub with_hash : String → ℕ → UsageRow → UsageRow
with_hash h id row = ite (ℕ_discrete row.id id) (record row { stellar_tx_hash = some h }) row

pub find_row-set_hash :
    (h : String) (id : ℕ) (request_id : String) (rows : List UsageRow) (row : UsageRow)
    → find_row request_id rows ≡ some row
    → find_row request_id (set_hash h id rows) ≡ some (with_hash h id row)
unfolding find_row set_hash
find_row-set_hash h id k [] row e = cc
find_row-set_hash h id k (r ∷ rows) row e = ground (arith, find_row-set_hash h id k rows row)

pub find_row-set_hash-none :
    (h : String) (id : ℕ) (request_id : String) (rows : List UsageRow)
    → find_row request_id rows ≡ none
    → find_row request_id (set_hash h id rows) ≡ none
unfolding find_row set_hash
find_row-set_hash-none h id k [] e = refl
find_row-set_hash-none h id k (r ∷ rows) e = ground (arith, find_row-set_hash-none h id k rows)

-- No two rows share a request id, and every id is below the next one.
abbrev pub Distinct : List UsageRow → Type 0
Distinct [] = Unit
Distinct (row ∷ rows) = (find_row row.request.request_id rows ≡ none) × Distinct rows

pub record IsKeyed (t : Table) : Type 0 where
  pub distinct : Distinct t.rows
  pub fresh : All (λ (row : UsageRow). row.id < t.next_id) t.rows

find_row-snoc_none :
    (k : String) (rows : List UsageRow) (r : UsageRow)
    → find_row k rows ≡ none
    → r.request.request_id ≢ k
    → find_row k (rows ++ r ∷ []) ≡ none
unfolding find_row
find_row-snoc_none k [] r e h = ground arith
find_row-snoc_none k (row ∷ rows) r e h = ground (arith, find_row-snoc_none k rows r)

Distinct-snoc :
    (request : DeductRequest) (id : ℕ) (rows : List UsageRow)
    → find_row request.request_id rows ≡ none
    → Distinct rows
    → Distinct (rows ++ row_of request id ∷ [])
unfolding find_row
Distinct-snoc request id [] e d = (refl, tt)
Distinct-snoc request id (row ∷ rows) e d = (
  ground (arith, find_row-snoc_none row.request.request_id rows (row_of request id) d.0),
  Distinct-snoc request id rows (ground arith) d.1,
)

below-suc :
    (n : ℕ) (rows : List UsageRow)
    → All (λ (row : UsageRow). row.id < n) rows
    → All (λ (row : UsageRow). row.id < n + 1) rows
below-suc n [] h = tt
below-suc n (row ∷ rows) h = (omega arith, below-suc n rows h.1)

pub insert_row-IsKeyed :
    (request : DeductRequest) (t : Table)
    → find_row request.request_id t.rows ≡ none
    → IsKeyed t
    → IsKeyed (insert_row request t)
unfolding insert_row
insert_row-IsKeyed request t e v = record {
  distinct = Distinct-snoc request t.next_id t.rows e v.distinct;
  fresh = All-append _ t.rows _ (below-suc t.next_id t.rows v.fresh) (omega arith, tt);
}

set_hash-Distinct :
    (h : String) (id : ℕ) (rows : List UsageRow) → Distinct rows → Distinct (set_hash h id rows)
unfolding set_hash
set_hash-Distinct h id [] d = tt
set_hash-Distinct h id (row ∷ rows) d = (
  ground (arith, find_row-set_hash-none h id row.request.request_id rows d.0),
  set_hash-Distinct h id rows d.1,
)

set_hash_below :
    (h : String) (id n : ℕ) (rows : List UsageRow)
    → All (λ (row : UsageRow). row.id < n) rows
    → All (λ (row : UsageRow). row.id < n) (set_hash h id rows)
unfolding set_hash
set_hash_below h id n [] b = tt
set_hash_below h id n (row ∷ rows) b = (ground arith, set_hash_below h id n rows b.1)

pub run_phase3-IsKeyed :
    (f : Bool) (id : ℕ) (h : String) (t : Table) → IsKeyed t → IsKeyed (run_phase3 f id h t)
unfolding run_phase3
run_phase3-IsKeyed true id h t v = v
run_phase3-IsKeyed false id h t v = record {
  distinct = set_hash-Distinct h id t.rows v.distinct;
  fresh = set_hash_below h id t.next_id t.rows v.fresh;
}

-- Phase 3 leaves a stored event stored.
pub run_phase3-Stored :
    (f : Bool) (id : ℕ) (h : String) (request : DeductRequest) (i : ℕ) (t : Table)
    → Stored request i t.rows
    → Stored request i (run_phase3 f id h t).rows
unfolding run_phase3
run_phase3-Stored true id h request i t s = s
run_phase3-Stored false id h request i t (row, e, same) =
    (with_hash h id row, find_row-set_hash h id request.request_id t.rows row e, ground arith)

find_row-append :
    (k : String) (rows : List UsageRow) (r row : UsageRow)
    → find_row k rows ≡ some row
    → find_row k (rows ++ r ∷ []) ≡ some row
unfolding find_row
find_row-append k [] r row e = cc
find_row-append k (x ∷ rows) r row e = ground (arith, find_row-append k rows r row)

find_or_insert-Stored :
    (q request : DeductRequest) (i : ℕ) (t : Table)
    → Stored request i t.rows
    → Stored request i (find_or_insert q t).1.rows
unfolding find_or_insert insert_row
find_or_insert-Stored q request i t (row, e, same) =
    elim (Option-cases (find_row q.request_id t.rows)) [
      | inr (x, f) ↦ rw f (row, e, same)
      | inl f ↦ rw f (row, find_row-append request.request_id t.rows _ row e, same)
    ]

-- What other sessions commit leaves a stored event stored.
pub commit_all-Stored :
    (cs : List Commit) (request : DeductRequest) (i : ℕ) (t : Table)
    → Stored request i t.rows
    → Stored request i (commit_all cs t).rows
unfolding commit_all run_phase3
commit_all-Stored [] request i t s = s
commit_all-Stored (inserts q ∷ cs) request i t s =
    commit_all-Stored cs request i _ (find_or_insert-Stored q request i t s)
commit_all-Stored (sets_hash id h ∷ cs) request i t s =
    commit_all-Stored cs request i _ (run_phase3-Stored false id h request i t s)

pub find_or_insert-IsKeyed :
    (q : DeductRequest) (t : Table) → IsKeyed t → IsKeyed (find_or_insert q t).1
unfolding find_or_insert
find_or_insert-IsKeyed q t v = elim (Option-cases (find_row q.request_id t.rows)) [
  | inr (x, f) ↦ rw f v
  | inl f ↦ rw f (insert_row-IsKeyed q t f v)
]

pub commit_all-IsKeyed : (cs : List Commit) (t : Table) → IsKeyed t → IsKeyed (commit_all cs t)
unfolding commit_all run_phase3
commit_all-IsKeyed [] t v = v
commit_all-IsKeyed (inserts q ∷ cs) t v = commit_all-IsKeyed cs _ (find_or_insert-IsKeyed q t v)
commit_all-IsKeyed (sets_hash id h ∷ cs) t v =
    commit_all-IsKeyed cs _ (run_phase3-IsKeyed false id h t v)
