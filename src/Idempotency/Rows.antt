-- ===== src/Idempotency/Rows.antt =====
-- middleware/idempotency.ts: what the statements do to the record of a key.
use callora_backend.Common.{
  ℕ, ◌≤◌, ◌≡◌, ◌≢◌, refl, ◌∙◌, String, List, [], ◌∷◌, ◌++◌, Bool, true, false, Option, none, some,
  leb, keep, All, arith, if-intro,
}
use callora_backend.Billing.Usdc.{Text}
use callora_backend.Idempotency.{
  RowStatus, completed, StoreRow, IdempotencyConfig, purge, find, insert_unless, insert_started,
  delete_key, complete_key, save_response,
}

-- The record of the key.
abbrev pub Holds : Text → String → RowStatus → ℕ → List StoreRow → Type 0
Holds key hash s until rows =
    find key rows
    ≡ some (record { idempotency_key = key; request_hash = hash; status = s; expires_at = until })

pub find-keep :
    (key : Text) (p : StoreRow → Bool) (rows : List StoreRow) (r : StoreRow)
    → find key rows ≡ some r
    → p r ≡ true
    → find key (keep p rows) ≡ some r
unfolding find
find-keep key p [] r e h = cc
find-keep key p (x ∷ rows) r e h = ground (arith, find-keep key p rows r, e, h)

pub find-keep-none :
    (key : Text) (p : StoreRow → Bool) (rows : List StoreRow)
    → find key rows ≡ none
    → find key (keep p rows) ≡ none
unfolding find
find-keep-none key p [] e = refl
find-keep-none key p (x ∷ rows) e = ground (arith, find-keep-none key p rows, e)

find-append :
    (key : Text) (rows : List StoreRow) (x r : StoreRow)
    → find key rows ≡ some r
    → find key (rows ++ x ∷ []) ≡ some r
unfolding find
find-append key [] x r e = cc
find-append key (y ∷ rows) x r e = ground (arith, find-append key rows x r, e)

pub find-append_new :
    (key : Text) (rows : List StoreRow) (x : StoreRow)
    → find key rows ≡ none
    → x.idempotency_key ≡ key
    → find key (rows ++ x ∷ []) ≡ some x
unfolding find
find-append_new key [] x e h = ground (arith, h)
find-append_new key (y ∷ rows) x e h = ground (arith, find-append_new key rows x, e, h)

find-complete_other :
    (key other : Text) (status : ℕ) (body : Text) (rows : List StoreRow)
    → other ≢ key
    → find key (complete_key other status body rows) ≡ find key rows
unfolding find complete_key
find-complete_other key other status body [] h = refl
find-complete_other key other status body (x ∷ rows) h =
    ground (arith, find-complete_other key other status body rows h, h)

pub find-complete_self :
    (key : Text) (status : ℕ) (body : Text) (rows : List StoreRow) (r : StoreRow)
    → find key rows ≡ some r
    → find key (complete_key key status body rows)
      ≡ some (record r { status = completed status body })
unfolding find complete_key
find-complete_self key status body [] r e = cc
find-complete_self key status body (x ∷ rows) r e =
    ground (arith, find-complete_self key status body rows r, e)

-- What other requests do to the table, statement by statement.
pub data Step : Type 0 where
  purges : ℕ → Step
  inserts : IdempotencyConfig → Text → String → ℕ → Step
  saves : (fails : Bool) → Text → ℕ → Text → Step

unfoldable pub step : Step → List StoreRow → List StoreRow
unfolding purge insert_started save_response
step (purges now) rows = purge now rows
step (inserts config key hash now) rows = (insert_started config key hash now rows).1
step (saves fails key status body) rows = save_response fails key status body rows

unfoldable pub steps : List Step → List StoreRow → List StoreRow
unfolding step
steps [] rows = rows
steps (s ∷ ss) rows = steps ss (step s rows)

-- The step is not later than the expiry, and saves no response under the key.
abbrev pub IsForeign : Text → ℕ → Step → Type 0
IsForeign key until (purges now) = now ≤ until
IsForeign key until (inserts config other hash now) = Unit
IsForeign key until (saves fails other status body) = other ≢ key

insert_unless-keeps :
    (key : Text) (o : Option StoreRow) (row : StoreRow) (rows : List StoreRow) (r : StoreRow)
    → find key rows ≡ some r
    → find key (insert_unless o row rows).1 ≡ some r
insert_unless-keeps key (some x) row rows r e = e
insert_unless-keeps key none row rows r e = find-append key rows row r e

save_response-keeps :
    (fails : Bool) (key other : Text) (status : ℕ) (body : Text) (rows : List StoreRow)
    (r : StoreRow)
    → other ≢ key
    → r.idempotency_key ≡ key
    → find key rows ≡ some r
    → find key (save_response fails other status body rows) ≡ some r
unfolding save_response delete_key
save_response-keeps true key other status body rows r h k e = e
save_response-keeps false key other status body rows r h k e =
    if-intro (λ x. find key x ≡ some r) (leb 500 status) _ _
      (λ q. find-keep key _ rows r e (ground (arith, h, k)))
      (λ q. find-complete_other key other status body rows h ∙ e)

step-Holds :
    (key : Text) (hash : String) (s : RowStatus) (until : ℕ) (x : Step) (rows : List StoreRow)
    → IsForeign key until x
    → Holds key hash s until rows
    → Holds key hash s until (step x rows)
unfolding step purge insert_started
step-Holds key hash s until (purges now) rows h e = find-keep key _ rows _ e (ground (arith, h))
step-Holds key hash s until (inserts config other hash' now) rows h e =
    insert_unless-keeps key _ _ rows _ e
step-Holds key hash s until (saves fails other status body) rows h e =
    save_response-keeps fails key other status body rows _ h refl e

pub steps-Holds :
    (key : Text) (hash : String) (s : RowStatus) (until : ℕ) (xs : List Step) (rows : List StoreRow)
    → All (IsForeign key until) xs
    → Holds key hash s until rows
    → Holds key hash s until (steps xs rows)
unfolding steps
steps-Holds key hash s until [] rows h e = e
steps-Holds key hash s until (x ∷ xs) rows h e =
    steps-Holds key hash s until xs _ h.1 (step-Holds key hash s until x rows h.0 e)
