-- ===== src/Idempotency/Replays.antt =====
-- middleware/idempotency.ts: a response that was saved is replayed until its record expires, whatever
-- other requests do to the table.
use callora_backend.Common.{
  true, ℕ, ◌+◌, ◌*◌, ◌≤◌, ◌<◌, ◌≡◌, ◌≢◌, refl, sym, ap, ◌∙◌, subst, String, List, [], ◌∷◌, false,
  not, Option, none, some, ltb, leb, lt→ltb, le→leb, if◌then◌else◌, ite, str_dec, keep, All, arith,
  ite-intro, if-intro,
}
use callora_backend.Billing.Usdc.{Text}
use callora_backend.Idempotency.{
  RowStatus, started, completed, StoreRow, IdempotencyConfig, Begin, mismatch, in_progress,
  admitted, replayed, same_key, purge, find, insert_unless, insert_started, by_status, judge_record,
  insert_or_answer, begin_with_key, delete_key, complete_key, save_response,
}
use callora_backend.Idempotency.Rows.{
  Holds, find-keep, find-keep-none, find-append_new, find-complete_self, Step, steps, IsForeign,
  steps-Holds,
}

admitted_insert :
    (config : IdempotencyConfig) (key : Text) (hash : String) (now : ℕ) (o : Option StoreRow)
    (rows : List StoreRow) (row : StoreRow)
    → find key rows ≡ o
    → row.idempotency_key ≡ key
    → (insert_unless o row rows).0 ≡ admitted
    → find key (insert_unless o row rows).1 ≡ some row
admitted_insert config key hash now (some r) rows row f k e = cc
admitted_insert config key hash now none rows row f k e = find-append_new key rows row f k

by_status-answers : (s : RowStatus) → by_status s ≢ admitted
by_status-answers started e = cc
by_status-answers (completed s b) e = cc

judge_record-answers :
    (hash : String) (now : ℕ) (o : Option StoreRow) → judge_record hash now o ≢ some admitted
judge_record-answers hash now none = λ e. cc
judge_record-answers hash now (some r) =
    if-intro (λ x. x ≢ some admitted) (ltb now r.expires_at) _ _
      (λ q.
        ite-intro (λ x. x ≢ some admitted) (str_dec r.request_hash hash) _ _
          (λ p e. by_status-answers r.status (ground (arith, e))) (λ p e. cc))
      (λ q e. cc)

insert_or_answer-Holds :
    (config : IdempotencyConfig) (key : Text) (hash : String) (now : ℕ)
    (before_insert : List StoreRow → List StoreRow) (rows : List StoreRow) (b : Option Begin)
    → b ≢ some admitted
    → (insert_or_answer config key hash now before_insert rows b).0 ≡ admitted
    → Holds key hash started
        (now + config.retention_seconds * 1000)
        (insert_or_answer config key hash now before_insert rows b).1
unfolding insert_started
insert_or_answer-Holds config key hash now before_insert rows (some b) h e =
    absurd (h (ap (λ x. some x) e))
insert_or_answer-Holds config key hash now before_insert rows none h e =
    admitted_insert config key hash now _ (before_insert rows) _ refl refl e

begin_with_key-Holds :
    (config : IdempotencyConfig) (key : Text) (hash : String) (now : ℕ)
    (before_insert : List StoreRow → List StoreRow) (rows : List StoreRow)
    → (begin_with_key config key hash now before_insert rows).0 ≡ admitted
    → Holds key hash started
        (now + config.retention_seconds * 1000)
        (begin_with_key config key hash now before_insert rows).1
unfolding begin_with_key
begin_with_key-Holds config key hash now before_insert rows e =
    insert_or_answer-Holds config key hash now before_insert (purge now rows) _
      (judge_record-answers hash now _) e

answer :
    {X : Type 0} (config : IdempotencyConfig) (key : Text) (hash : String) (now : ℕ)
    (before_insert : List StoreRow → List StoreRow) (rows : List StoreRow) (d : Dec X) (a b : Begin)
    → insert_or_answer config key hash now before_insert rows (ite d (some a) (some b))
      ≡ (ite d a b, rows)
answer config key hash now before_insert rows (yes x) a b = refl
answer config key hash now before_insert rows (no x) a b = refl

same_hash : (h : String) (a b : Begin) → ite (str_dec h h) a b ≡ a
same_hash h a b = ground arith

find-delete :
    (key : Text) (rows : List StoreRow)
    → find key (keep (λ r. not (same_key r.idempotency_key key)) rows) ≡ none
unfolding find
find-delete key [] = refl
find-delete key (x ∷ rows) = ground (arith, find-delete key rows)

insert_started_free :
    (config : IdempotencyConfig) (key : Text) (hash : String) (now : ℕ) (rows : List StoreRow)
    → find key rows ≡ none
    → (insert_started config key hash now rows).0 ≡ admitted
unfolding insert_started
insert_started_free config key hash now rows e = rw e refl

begin_with_key_free :
    (config : IdempotencyConfig) (key : Text) (hash : String) (now : ℕ) (rows : List StoreRow)
    → find key rows ≡ none
    → (begin_with_key config key hash now (λ x. x) rows).0 ≡ admitted
unfolding begin_with_key purge
begin_with_key_free config key hash now rows e =
    rw (find-keep-none key (λ r. not (ltb r.expires_at now)) rows e) (
      insert_started_free config key hash now _
        (find-keep-none key (λ r. not (ltb r.expires_at now)) rows e))

-- While the record of a key is fresh, a request under the key is answered from it: by its status when
-- the request has the same hash, as a mismatch when not; and nothing is written but the purge.
pub begin_with_key_fresh :
    (config : IdempotencyConfig) (key : Text) (hash : String) (now : ℕ)
    (before_insert : List StoreRow → List StoreRow) (rows : List StoreRow) (stored : String)
    (s : RowStatus) (until : ℕ)
    → Holds key stored s until rows
    → now < until
    → begin_with_key config key hash now before_insert rows
      ≡ (ite (str_dec stored hash) (by_status s) mismatch, purge now rows)
unfolding begin_with_key purge
begin_with_key_fresh config key hash now before_insert rows stored s until e h =
    rw
      (
        find-keep key (λ r. not (ltb r.expires_at now)) rows _ e (ground (arith, h)),
        lt→ltb now until h,
      )
      (answer config key hash now before_insert _ (str_dec stored hash) (by_status s) mismatch)

not_fault : (status : ℕ) → status < 500 → leb 500 status ≡ false
not_fault status h = ground (arith, h)

-- After a request was admitted and until its record expires: the same request is told that it is in
-- progress while no response is saved; once a response that is not of the server's fault is saved,
-- without an error of its statement, it is replayed; whatever other requests do to the table before and after.
pub response-replayed :
    (config : IdempotencyConfig) (key : Text) (hash : String) (now later : ℕ)
    (before again : List StoreRow → List StoreRow) (rows : List StoreRow) (xs ys : List Step)
    (status : ℕ) (body : Text)
    → (begin_with_key config key hash now before rows).0 ≡ admitted
    → All (IsForeign key (now + config.retention_seconds * 1000)) xs
    → All (IsForeign key (now + config.retention_seconds * 1000)) ys
    → status < 500
    → later < now + config.retention_seconds * 1000
    → let during = steps xs (begin_with_key config key hash now before rows).1 in
      let after = steps ys (save_response false key status body during) in
      ((begin_with_key config key hash later again during).0 ≡ in_progress)
      × ((begin_with_key config key hash later again after).0 ≡ replayed status body)
unfolding save_response
response-replayed config key hash now later before again rows xs ys status body e hx hy h l =
    let during =
      steps-Holds key hash started _ xs _ hx
        (begin_with_key-Holds config key hash now before rows e) in
    let saved =
      subst
        (λ b. Holds key hash (completed status body) (now + config.retention_seconds * 1000) (
          if b
          then delete_key key (steps xs (begin_with_key config key hash now before rows).1)
          else complete_key key status body
              (steps xs (begin_with_key config key hash now before rows).1)))
        (sym (not_fault status h)) (find-complete_self key status body _ _ during) in
    let after = steps-Holds key hash (completed status body) _ ys _ hy saved in
    (
      ap (λ p. p.0) (begin_with_key_fresh config key hash later again _ hash started _ during l)
          ∙ same_hash hash in_progress mismatch,
      ap (λ p. p.0)
            (begin_with_key_fresh config key hash later again _ hash (completed status body) _ after
              l)
          ∙ same_hash hash (replayed status body) mismatch,
    )

freed :
    (config : IdempotencyConfig) (key : Text) (hash : String) (now : ℕ) (rows : List StoreRow)
    (status : ℕ) (body : Text)
    → 500 ≤ status
    → (begin_with_key config key hash now (λ x. x) (save_response false key status body rows)).0
      ≡ admitted
unfolding save_response delete_key
freed config key hash now rows status body h = begin_with_key_free config key hash now _ (
    subst
      (λ b. find key (if b then delete_key key rows else complete_key key status body rows) ≡ none)
      (sym (le→leb 500 status h)) (find-delete key rows))

-- What the save of a response of the server's fault leaves for the request that was admitted, while
-- other requests do what they do: when its statement went through, the same request is admitted
-- again at once; when it threw, the request is told that it is in progress until its record expires.
pub failure-frees :
    (config : IdempotencyConfig) (key : Text) (hash : String) (now later : ℕ)
    (before : List StoreRow → List StoreRow) (rows : List StoreRow) (xs : List Step) (status : ℕ)
    (body : Text)
    → (begin_with_key config key hash now before rows).0 ≡ admitted
    → All (IsForeign key (now + config.retention_seconds * 1000)) xs
    → 500 ≤ status
    → later < now + config.retention_seconds * 1000
    → let during = steps xs (begin_with_key config key hash now before rows).1 in
      ((begin_with_key config key hash later
          (λ x. x)
          (save_response false key status body during)).0
        ≡ admitted)
      × ((begin_with_key config key hash later
            (λ x. x)
            (save_response true key status body during)).0
          ≡ in_progress)
unfolding save_response
failure-frees config key hash now later before rows xs status body e hx h l =
    let during =
      steps-Holds key hash started _ xs _ hx
        (begin_with_key-Holds config key hash now before rows e) in
    (
      freed config key hash later _ status body h,
      ap (λ p. p.0) (begin_with_key_fresh config key hash later (λ x. x) _ hash started _ during l)
          ∙ same_hash hash in_progress mismatch,
    )
