-- ===== src/Billing/Bulk/Totals.antt =====
-- services/billing.ts: what a bulk call charges is what its new rows say.
use callora_backend.Common.{
  ℕ, ◌+◌, ◌≡◌, ◌≢◌, refl, sym, ◌∙◌, String, List, [], ◌∷◌, ◌++◌, Bool, true, ◌&&◌, Option, none,
  some, if◌then◌else◌, arith, Dict, lookup, insert, lookup-insert, lookup-insert_self,
  lookup-insert_ne, keep, All,
}
use callora_backend.Billing.Usdc.{Parsed, units, refused, parse_usdc_to_contract_units}
use callora_backend.Billing.Events.{DeductRequest, UsageRow, Table, find_row}
use callora_backend.Billing.Bulk.{
  ParsedBulk, amounts, parse_requests, parse_next, add_amount, amount_of, is_none, total_new,
  Phase1, insert_missing, insert_new, run_phase1_bulk, total_inserted,
  get_usage_events_by_request_ids, map_rows, request_ids, new_row,
}
use callora_backend.Usage.{has}

-- No later request has the id.
abbrev pub Unused : String → List DeductRequest → Type 0
Unused k rs = All (λ (r : DeductRequest). r.request_id ≢ k) rs

-- No request id occurs twice.
abbrev pub Once : List DeductRequest → Type 0
Once [] = Unit
Once (r ∷ rs) = Unused r.request_id rs × Once rs

abbrev pub units_in : Parsed → ℕ
units_in (units n) = n
units_in (refused e) = 0

-- The amounts of the requests that have no row.
unfoldable pub owed : List UsageRow → List DeductRequest → ℕ
unfolding find_row parse_usdc_to_contract_units
owed rows [] = 0
owed rows (r ∷ rs) =
    (if is_none (find_row r.request_id rows)
      then units_in (parse_usdc_to_contract_units r.amount_usdc)
      else 0)
    + owed rows rs

total_inserted-append :
    (d : Dict ℕ) (xs : List (String × ℕ)) (k : String) (i : ℕ)
    → total_inserted d (xs ++ (k, i) ∷ []) ≡ total_inserted d xs + amount_of d k
unfolding total_inserted
total_inserted-append d [] k i = omega arith
total_inserted-append d ((j, n) ∷ xs) k i = omega (arith, total_inserted-append d xs k i)

total_new-insert :
    (k : String) (row : UsageRow) (e : Dict UsageRow) (d : Dict ℕ) (rs : List DeductRequest)
    → Unused k rs
    → total_new (insert k row e) d rs ≡ total_new e d rs
unfolding total_new
total_new-insert k row e d [] u = refl
total_new-insert k row e d (r ∷ rs) u =
    rw (lookup-insert_ne k r.request_id row e (λ p. u.0 (sym p)), total_new-insert k row e d rs u.1)
      refl

insert_missing-total :
    (d : Dict ℕ) (r : DeductRequest) (rs : List DeductRequest) (p : Phase1) (o : Option UsageRow)
    → Unused r.request_id rs
    → total_inserted d (insert_missing o r p).inserted + total_new (insert_missing o r p).rows d rs
      ≡ total_inserted d p.inserted
        + ((if is_none o then amount_of d r.request_id else 0) + total_new p.rows d rs)
insert_missing-total d r rs p (some row) u = omega arith
insert_missing-total d r rs p none u = omega (
  arith,
  total_inserted-append d p.inserted r.request_id p.table.next_id,
  total_new-insert r.request_id (new_row r p.table) p.rows d rs u,
)

insert_new-total :
    (d : Dict ℕ) (rs : List DeductRequest) (p : Phase1)
    → Once rs
    → total_inserted d (insert_new rs p).inserted
      ≡ total_inserted d p.inserted + total_new p.rows d rs
unfolding insert_new total_new
insert_new-total d [] p o = omega arith
insert_new-total d (r ∷ rs) p o =
    insert_new-total d rs (insert_missing (lookup r.request_id p.rows) r p) o.1
    ∙ insert_missing-total d r rs p (lookup r.request_id p.rows) o.0

map_rows-find :
    (k : String) (rows : List UsageRow) (d : Dict UsageRow) (ids : List String)
    → has k ids ≡ true
    → is_none (lookup k (map_rows (keep (λ row. has row.request.request_id ids) rows) d))
      ≡ (is_none (find_row k rows) && is_none (lookup k d))
unfolding map_rows find_row
map_rows-find k [] d ids h = refl
map_rows-find k (row ∷ rows) d ids h = ground (
  arith,
  map_rows-find k rows d ids h,
  map_rows-find k rows (insert row.request.request_id row d) ids h,
  lookup-insert row.request.request_id k row d,
)

parse_next-amounts :
    (q : Parsed) (k : String) (rest : ParsedBulk → ParsedBulk) (p : ParsedBulk) (total : ℕ)
    (d : Dict ℕ)
    → parse_next q k rest p ≡ amounts total d
    → (n : ℕ) × (q ≡ units n) × (rest (add_amount k n p) ≡ amounts total d)
parse_next-amounts (units n) k rest p total d e = (n, refl, e)
parse_next-amounts (refused x) k rest p total d e = cc

parse_requests-other :
    (k : String) (rs : List DeductRequest) (a : ℕ) (c : Dict ℕ) (total : ℕ) (d : Dict ℕ)
    → Unused k rs
    → parse_requests rs (amounts a c) ≡ amounts total d
    → lookup k d ≡ lookup k c
unfolding parse_requests
parse_requests-other k [] a c total d u e = cc
parse_requests-other k (r ∷ rs) a c total d u e =
    let (n, q, e') =
      parse_next-amounts (parse_usdc_to_contract_units r.amount_usdc) r.request_id _ _ total d e in
    parse_requests-other k rs (a + n) (insert r.request_id n c) total d u.1 e'
    ∙ lookup-insert_ne r.request_id k n c u.0

-- The amounts by id are those of the requests.
abbrev pub Priced : Dict ℕ → List DeductRequest → Type 0
Priced d rs =
    All
      (λ (r : DeductRequest).
        amount_of d r.request_id ≡ units_in (parse_usdc_to_contract_units r.amount_usdc))
      rs

priced_head :
    (k : String) (n : ℕ) (q : Parsed) (c d : Dict ℕ)
    → q ≡ units n
    → lookup k d ≡ lookup k (insert k n c)
    → amount_of d k ≡ units_in q
priced_head k n q c d e h = rw (h, lookup-insert_self k n c, e) refl

parse_requests-Priced :
    (rs : List DeductRequest) (a : ℕ) (c : Dict ℕ) (total : ℕ) (d : Dict ℕ)
    → Once rs
    → parse_requests rs (amounts a c) ≡ amounts total d
    → Priced d rs
unfolding parse_requests
parse_requests-Priced [] a c total d o e = tt
parse_requests-Priced (r ∷ rs) a c total d o e =
    let (n, q, e') =
      parse_next-amounts (parse_usdc_to_contract_units r.amount_usdc) r.request_id _ _ total d e in
    (
      priced_head r.request_id n _ c d q
          (parse_requests-other r.request_id rs (a + n) (insert r.request_id n c) total d o.0 e'),
      parse_requests-Priced rs (a + n) (insert r.request_id n c) total d o.1 e',
    )

abbrev Among : List String → List DeductRequest → Type 0
Among ids rs = All (λ (r : DeductRequest). has r.request_id ids ≡ true) rs

Among-more :
    (k : String) (ids : List String) (rs : List DeductRequest) → Among ids rs → Among (k ∷ ids) rs
unfolding has
Among-more k ids [] h = tt
Among-more k ids (r ∷ rs) h = (ground (arith, h.0), Among-more k ids rs h.1)

Among-own : (rs : List DeductRequest) → Among (request_ids rs) rs
unfolding has
Among-own [] = tt
Among-own (r ∷ rs) = (ground arith, Among-more r.request_id (request_ids rs) rs (Among-own rs))

and_true : (b : Bool) → (b && true) ≡ b
and_true b = ground arith

existing_none :
    (k : String) (ids : List String) (rows : List UsageRow)
    → has k ids ≡ true
    → is_none (lookup k (get_usage_events_by_request_ids ids rows)) ≡ is_none (find_row k rows)
unfolding get_usage_events_by_request_ids lookup
existing_none k ids rows h = map_rows-find k rows [] ids h ∙ and_true (is_none (find_row k rows))

total_new-owed :
    (ids : List String) (rows : List UsageRow) (d : Dict ℕ) (rs : List DeductRequest)
    → Among ids rs
    → Priced d rs
    → total_new (get_usage_events_by_request_ids ids rows) d rs ≡ owed rows rs
unfolding total_new owed
total_new-owed ids rows d [] h p = refl
total_new-owed ids rows d (r ∷ rs) h p =
    rw (existing_none r.request_id ids rows h.0, p.0, total_new-owed ids rows d rs h.1 p.1) refl

zero_plus : (n : ℕ) → 0 + n ≡ n
zero_plus n = omega arith

run_phase1_bulk-total :
    (d : Dict ℕ) (rs : List DeductRequest) (t : Table)
    → Once rs
    → total_inserted d (run_phase1_bulk rs t).inserted
      ≡ total_new (get_usage_events_by_request_ids (request_ids rs) t.rows) d rs
unfolding run_phase1_bulk total_inserted
run_phase1_bulk-total d rs t o =
    insert_new-total d rs
      (record {
        rows = get_usage_events_by_request_ids (request_ids rs) t.rows;
        inserted = [];
        table = t;
      })
      o
    ∙ zero_plus (total_new (get_usage_events_by_request_ids (request_ids rs) t.rows) d rs)

-- For valid requests with distinct ids, the amount to be charged after phase 1 is the sum of the
-- amounts of the requests that had no row, and so is the amount that the balance is compared with.
pub total_inserted_lem :
    (rs : List DeductRequest) (t : Table) (total : ℕ) (d : Dict ℕ)
    → Once rs
    → parse_requests rs (amounts 0 []) ≡ amounts total d
    → (total_inserted d (run_phase1_bulk rs t).inserted ≡ owed t.rows rs)
      × (total_new (get_usage_events_by_request_ids (request_ids rs) t.rows) d rs ≡ owed t.rows rs)
total_inserted_lem rs t total d o e =
    let same =
      total_new-owed (request_ids rs) t.rows d rs (Among-own rs)
        (parse_requests-Priced rs 0 [] total d o e) in
    (run_phase1_bulk-total d rs t o ∙ same, same)
