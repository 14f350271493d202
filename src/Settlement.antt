-- ===== src/Settlement.antt =====
-- services/settlementStore.ts, `InMemorySettlementStore`; the settlement of types/developer.ts.
-- Amounts are natural numbers of a smallest unit, times are milliseconds.
use callora_backend.Common.{
  ℕ, ◌+◌, String, List, [], ◌∷◌, ◌++◌, Bool, true, false, Option, none, some, ite, str_dec, leb,
  keep, if◌then◌else◌,
}

pub data Status : Type 0 where
  pending retryable completed failed : Status

pub record Settlement : Type 0 where
  pub id : String
  pub developer_id : String
  pub amount : ℕ
  pub status : Status
  pub tx_hash : Option String
  pub created_at : ℕ
  pub completed_at : Option ℕ
  pub retry_after : Option ℕ
  pub retry_count : ℕ

unfoldable pub create : Settlement → List Settlement → List Settlement
create s settlements = settlements ++ s ∷ []

-- The first settlement with the id is changed, as with `find`.
unfoldable pub update_first : String → (Settlement → Settlement) → List Settlement → List Settlement
update_first id f [] = []
update_first id f (s ∷ settlements) =
    ite (str_dec s.id id) (f s ∷ settlements) (s ∷ update_first id f settlements)

abbrev pub completion : Status → ℕ → Option ℕ
completion completed now = some now
completion pending now = none
completion retryable now = none
completion failed now = none

-- `txHash?: string | null`: not given, or given.
pub data HashChange : Type 0 where
  keep_hash : HashChange
  set_hash : Option String → HashChange

abbrev pub new_hash : HashChange → Option String → Option String
new_hash keep_hash old = old
new_hash (set_hash h) old = h

abbrev pub with_status : Status → HashChange → ℕ → Settlement → Settlement
with_status status change now s = record s {
  status = status;
  tx_hash = new_hash change s.tx_hash;
  completed_at = completion status now;
}

unfoldable pub update_status : String → Status → HashChange → ℕ → List Settlement → List Settlement
unfolding update_first
update_status id status change now settlements =
    update_first id (with_status status change now) settlements

abbrev pub with_retry : ℕ → Settlement → Settlement
with_retry retry_after s = record s {
  status = retryable;
  retry_after = some retry_after;
  retry_count = s.retry_count + 1;
}

unfoldable pub schedule_retry : String → ℕ → List Settlement → List Settlement
unfolding update_first
schedule_retry id retry_after settlements = update_first id (with_retry retry_after) settlements

abbrev pub due : Option ℕ → ℕ → Bool
due none now = true
due (some t) now = leb t now

abbrev pub is_pending : ℕ → Settlement → Bool
is_pending now s = elim s.status [
  | pending ↦ true
  | retryable ↦ due s.retry_after now
  | completed ↦ false
  | failed ↦ false
]

-- Stable insertion by `created_at`, ascending.
unfoldable pub insert_by_age : Settlement → List Settlement → List Settlement
insert_by_age s [] = s ∷ []
insert_by_age s (t ∷ ts) =
    if leb s.created_at t.created_at then s ∷ t ∷ ts else t ∷ insert_by_age s ts

unfoldable pub sort_by_age : List Settlement → List Settlement
unfolding insert_by_age
sort_by_age [] = []
sort_by_age (s ∷ ss) = insert_by_age s (sort_by_age ss)

unfoldable pub get_pending_settlements : ℕ → List Settlement → List Settlement
unfolding sort_by_age
get_pending_settlements now settlements = sort_by_age (keep (is_pending now) settlements)
