-- ===== src/Idempotency.antt =====
-- middleware/idempotency.ts: the middleware up to the handler of the route, and what it does with the
-- response. The table `idempotency_store` has its key as primary key. The hash of a request, which
-- calculateRequestHash makes of its user, method, path and body, comes with the request. Times are
-- milliseconds.
pub mod Rows
pub mod Replays
use callora_backend.Common.{
  ℕ, ◌+◌, ◌*◌, ◌≡◌, refl, ap, ◌∙◌, String, List, [], ◌∷◌, ◌++◌, Bool, true, false, not, ◌&&◌, ◌||◌,
  ◌==◌, Option, none, some, ltb, leb, if◌then◌else◌, ite, str_dec, keep, length, ℕ_discrete,
}
use callora_backend.Billing.Usdc.{Text, is_digit, is_nil, trim_start, trim_end}
use callora_backend.Usage.{has}

pub data RowStatus : Type 0 where
  started : RowStatus
  completed : (response_status : ℕ) → (response_body : Text) → RowStatus

-- A row of `idempotency_store`.
pub record StoreRow : Type 0 where
  pub idempotency_key : Text
  pub request_hash : String
  pub status : RowStatus
  pub expires_at : ℕ

-- `IdempotencyConfig`, as far as it is used here, with the defaults filled in.
pub record IdempotencyConfig : Type 0 where
  pub methods : List String
  pub max_key_length : ℕ
  pub retention_seconds : ℕ

-- The request: `raw_key` is the header or the field of the body, if that is a text.
pub record Incoming : Type 0 where
  pub method : String
  pub raw_key : Option Text
  pub request_hash : String

-- What the middleware does: it hands on without a record, answers itself, or admits the request with
-- a record of it.
pub data Begin : Type 0 where
  bypassed invalid_key mismatch in_progress admitted raised : Begin
  replayed : (status : ℕ) → (body : Text) → Begin

cons_dec : (c d : ℕ) (cs ds : Text) → Dec (c ≡ d) → Dec (cs ≡ ds) → Dec (c ∷ cs ≡ d ∷ ds)
cons_dec c d cs ds (yes p) (yes q) = yes (ap (λ x. x ∷ cs) p ∙ ap (λ xs. d ∷ xs) q)
cons_dec c d cs ds (yes p) (no q) = no (λ e. q (cc))
cons_dec c d cs ds (no p) q = no (λ e. p (cc))

-- Equality of keys.
unfoldable pub text_dec : Discrete Text
unfolding cons_dec
text_dec [] [] = yes refl
text_dec [] (d ∷ ds) = no (λ e. cc)
text_dec (c ∷ cs) [] = no (λ e. cc)
text_dec (c ∷ cs) (d ∷ ds) = cons_dec c d cs ds (ℕ_discrete c d) (text_dec cs ds)

abbrev pub same_key : Text → Text → Bool
same_key s t = ite (text_dec s t) true false

-- `[A-Za-z0-9._:-]`
abbrev pub is_key_char : ℕ → Bool
is_key_char c =
    (leb 65 c && leb c 90)
    || (leb 97 c && leb c 122)
    || is_digit c
    || c == 46
    || c == 95
    || c == 58
    || c == 45

abbrev pub all_key_chars : Text → Bool
all_key_chars [] = true
all_key_chars (c ∷ cs) = is_key_char c && all_key_chars cs

-- The length and the pattern of a trimmed key that is not empty.
abbrev pub is_valid_key : ℕ → Text → Bool
is_valid_key max_key_length key = leb (length key) max_key_length && all_key_chars key

-- `DELETE FROM idempotency_store WHERE expires_at < …`
unfoldable pub purge : ℕ → List StoreRow → List StoreRow
purge now rows = keep (λ r. not (ltb r.expires_at now)) rows

-- `SELECT … WHERE idempotency_key = $1`
unfoldable pub find : Text → List StoreRow → Option StoreRow
unfolding text_dec
find key [] = none
find key (r ∷ rs) =
    let rest = find key rs in if same_key r.idempotency_key key then some r else rest

abbrev pub insert_unless : Option StoreRow → StoreRow → List StoreRow → Begin × List StoreRow
insert_unless (some r) row rows = (raised, rows)
insert_unless none row rows = (admitted, rows ++ row ∷ [])

-- `INSERT INTO idempotency_store …`, which throws when the key is there.
unfoldable pub insert_started :
    IdempotencyConfig → Text → String → ℕ → List StoreRow → Begin × List StoreRow
unfolding find
insert_started config key hash now rows =
    insert_unless (find key rows)
      (record {
        idempotency_key = key;
        request_hash = hash;
        status = started;
        expires_at = now + config.retention_seconds * 1000;
      })
      rows

-- What a fresh record of the key says.
abbrev pub by_status : RowStatus → Begin
by_status started = in_progress
by_status (completed status body) = replayed status body

-- `none` goes on to the insertion.
abbrev pub judge_record : String → ℕ → Option StoreRow → Option Begin
judge_record hash now none = none
judge_record hash now (some r) =
    if ltb now r.expires_at
    then ite (str_dec r.request_hash hash) (some (by_status r.status)) (some mismatch)
    else none

-- `before_insert` is what other sessions write between the query and the insertion.
abbrev pub insert_or_answer :
    IdempotencyConfig
    → Text
    → String
    → ℕ
    → (List StoreRow → List StoreRow)
    → List StoreRow
    → Option Begin
    → Begin × List StoreRow
insert_or_answer config key hash now before_insert rows (some b) = (b, rows)
insert_or_answer config key hash now before_insert rows none =
    insert_started config key hash now (before_insert rows)

-- The part on the database.
unfoldable pub begin_with_key :
    IdempotencyConfig
    → Text
    → String
    → ℕ
    → (List StoreRow → List StoreRow)
    → List StoreRow
    → Begin × List StoreRow
unfolding purge find insert_started
begin_with_key config key hash now before_insert rows =
    insert_or_answer config key hash now before_insert (purge now rows)
      (judge_record hash now (find key (purge now rows)))

abbrev pub begin_trimmed :
    IdempotencyConfig
    → Text
    → String
    → ℕ
    → (List StoreRow → List StoreRow)
    → List StoreRow
    → Begin × List StoreRow
begin_trimmed config key hash now before_insert rows =
    if is_nil key
    then (bypassed, rows)
    else if is_valid_key config.max_key_length key
    then begin_with_key config key hash now before_insert rows
    else (invalid_key, rows)

abbrev pub begin_raw :
    IdempotencyConfig
    → Option Text
    → String
    → ℕ
    → (List StoreRow → List StoreRow)
    → List StoreRow
    → Begin × List StoreRow
begin_raw config none hash now before_insert rows = (bypassed, rows)
begin_raw config (some raw) hash now before_insert rows =
    begin_trimmed config (trim_end (trim_start raw)) hash now before_insert rows

-- `idempotencyMiddleware`; the method is in upper case.
unfoldable pub idempotency_middleware :
    IdempotencyConfig
    → Incoming
    → ℕ
    → (List StoreRow → List StoreRow)
    → List StoreRow
    → Begin × List StoreRow
unfolding begin_with_key has trim_start trim_end
idempotency_middleware config q now before_insert rows =
    if has q.method config.methods
    then begin_raw config q.raw_key q.request_hash now before_insert rows
    else (bypassed, rows)

-- `DELETE … WHERE idempotency_key = $1`
unfoldable pub delete_key : Text → List StoreRow → List StoreRow
unfolding text_dec
delete_key key rows = keep (λ r. not (same_key r.idempotency_key key)) rows

-- `UPDATE … SET status = 'completed'`
unfoldable pub complete_key : Text → ℕ → Text → List StoreRow → List StoreRow
unfolding text_dec
complete_key key status body [] = []
complete_key key status body (r ∷ rs) =
    (if same_key r.idempotency_key key then record r { status = completed status body } else r)
    ∷ complete_key key status body rs

-- The writes of `saveResponse`.
abbrev pub write_response : Text → ℕ → Text → List StoreRow → List StoreRow
write_response key status body rows =
    if leb 500 status then delete_key key rows else complete_key key status body rows

-- `saveResponse`, once, at the time it reaches the database, which may be after the reply was sent:
-- `body` is the text that it stores, and `fails` says that its statement throws, which it swallows.
-- A response of the server's fault is forgotten.
unfoldable pub save_response : (fails : Bool) → Text → ℕ → Text → List StoreRow → List StoreRow
unfolding delete_key complete_key
save_response true key status body rows = rows
save_response false key status body rows = write_response key status body rows
