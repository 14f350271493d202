-- ===== src/Usage.antt =====
-- services/usageStore.ts, `InMemoryUsageStore`; the event of types/gateway.ts. Amounts are natural
-- numbers of a smallest unit, where the source adds floating-point numbers; times are milliseconds.
pub mod Recording
pub mod Amounts
use callora_backend.Common.{
  ℕ, ◌+◌, String, List, [], ◌∷◌, ◌++◌, Bool, true, false, not, ◌&&◌, ◌||◌, Option, none, some, ite,
  str_dec, ltb, leb, ◌==◌, if◌then◌else◌, length, keep, sum_of, map,
}

pub record UsageEvent : Type 0 where
  pub id : String
  pub request_id : String
  pub api_key : String
  pub api_key_id : String
  pub api_id : String
  pub endpoint_id : String
  pub user_id : String
  pub amount_usdc : ℕ
  pub status_code : ℕ
  pub timestamp : ℕ
  pub settlement_id : Option String

pub record UsageStore : Type 0 where
  pub events : List UsageEvent
  pub request_ids : List String

-- `set.has(s)`
unfoldable pub has : String → List String → Bool
has s [] = false
has s (t ∷ ts) = ite (str_dec t s) true (has s ts)

-- `set.add(s)`
unfoldable pub add : String → List String → List String
unfolding has
add s ts = if has s ts then ts else ts ++ s ∷ []

unfoldable pub set_of : List String → List String → List String
set_of seen [] = seen
set_of seen (s ∷ ss) = set_of (add s seen) ss

unfoldable pub record_event : UsageEvent → UsageStore → Bool × UsageStore
unfolding has add
record_event event store = if has event.request_id store.request_ids then (false, store) else (
  true,
  record store {
    events = store.events ++ event ∷ [];
    request_ids = add event.request_id store.request_ids;
  },
)

unfoldable pub has_event : String → UsageStore → Bool
unfolding has
has_event request_id store = has request_id store.request_ids

-- `if (event.settlementId)`: the empty text is false.
abbrev pub is_settled : UsageEvent → Bool
is_settled e = elim e.settlement_id [ none ↦ false | some s ↦ ite (str_dec s "") false true ]

abbrev pub of_user : String → UsageEvent → Bool
of_user developer_id e = ite (str_dec e.user_id developer_id) true false

abbrev pub of_key : String → UsageEvent → Bool
of_key api_key e = ite (str_dec e.api_key api_key) true false

unfoldable pub get_events : Option String → UsageStore → List UsageEvent
get_events none store = store.events
get_events (some api_key) store =
    ite (str_dec api_key "") store.events (keep (of_key api_key) store.events)

-- `new Set(events.map(f)).size`
abbrev pub distinct_count : (UsageEvent → String) → List UsageEvent → ℕ
distinct_count f es = length (set_of [] (map f es))

-- First and last of the timestamps in order.
unfoldable pub earliest : List UsageEvent → Option ℕ
earliest [] = none
earliest (e ∷ es) = elim (earliest es) [
  | none ↦ some e.timestamp
  | some t ↦ some (if ltb t e.timestamp then t else e.timestamp)
]

unfoldable pub latest : List UsageEvent → Option ℕ
latest [] = none
latest (e ∷ es) = elim (latest es) [
  | none ↦ some e.timestamp
  | some t ↦ some (if ltb e.timestamp t then t else e.timestamp)
]

-- `statusCodes[code] = (statusCodes[code] ?? 0) + 1`
unfoldable pub bump : ℕ → List (ℕ × ℕ) → List (ℕ × ℕ)
bump code [] = (code, 1) ∷ []
bump code ((c, n) ∷ counts) = if c == code then (c, n + 1) ∷ counts else (c, n) ∷ bump code counts

unfoldable pub count_codes : List (ℕ × ℕ) → List UsageEvent → List (ℕ × ℕ)
count_codes counts [] = counts
count_codes counts (e ∷ es) = count_codes (bump e.status_code counts) es

-- `UsageAggregateSnapshot`
pub record Snapshot : Type 0 where
  pub developer_id : String
  pub total_events : ℕ
  pub settled_events : ℕ
  pub unsettled_events : ℕ
  pub total_amount_usdc : ℕ
  pub settled_amount_usdc : ℕ
  pub unsettled_amount_usdc : ℕ
  pub api_count : ℕ
  pub endpoint_count : ℕ
  pub first_event_at : Option ℕ
  pub last_event_at : Option ℕ
  pub status_codes : List (ℕ × ℕ)

abbrev pub unsettled : UsageEvent → Bool
unsettled e = not (is_settled e)

abbrev pub amount : UsageEvent → ℕ
amount e = e.amount_usdc

abbrev pub snapshot_of : String → List UsageEvent → Option Snapshot
snapshot_of developer_id [] = none
snapshot_of developer_id (e ∷ es) = some (record {
  developer_id = developer_id;
  total_events = length (e ∷ es);
  settled_events = length (keep is_settled (e ∷ es));
  unsettled_events = length (keep unsettled (e ∷ es));
  total_amount_usdc = sum_of amount (e ∷ es);
  settled_amount_usdc = sum_of amount (keep is_settled (e ∷ es));
  unsettled_amount_usdc = sum_of amount (keep unsettled (e ∷ es));
  api_count = distinct_count (λ x. x.api_id) (e ∷ es);
  endpoint_count = distinct_count (λ x. x.endpoint_id) (e ∷ es);
  first_event_at = earliest (e ∷ es);
  last_event_at = latest (e ∷ es);
  status_codes = count_codes [] (e ∷ es);
})

unfoldable pub get_developer_usage_snapshot : String → UsageStore → Option Snapshot
unfolding set_of earliest latest count_codes bump
get_developer_usage_snapshot developer_id store =
    snapshot_of developer_id (keep (of_user developer_id) store.events)

abbrev pub reset_found : Option Snapshot → String → UsageStore → Option Snapshot × UsageStore
reset_found none developer_id store = (none, store)
reset_found (some prior) developer_id store =
    let retained = keep (λ e. not (of_user developer_id e)) store.events in
    (
      some prior,
      record store {
        events = retained;
        request_ids = set_of [] (map (λ e. e.request_id) retained);
      },
    )

unfoldable pub reset_developer_usage : String → UsageStore → Option Snapshot × UsageStore
unfolding get_developer_usage_snapshot set_of
reset_developer_usage developer_id store =
    reset_found (get_developer_usage_snapshot developer_id store) developer_id store

abbrev pub payable : UsageEvent → Bool
payable e = not (is_settled e) && ltb 0 e.amount_usdc

unfoldable pub get_unsettled_events : UsageStore → List UsageEvent
get_unsettled_events store = keep payable store.events

unfoldable pub mark_all : List String → String → List UsageEvent → List UsageEvent
unfolding has
mark_all ids settlement_id [] = []
mark_all ids settlement_id (e ∷ es) =
    (if has e.id ids then record e { settlement_id = some settlement_id } else e)
    ∷ mark_all ids settlement_id es

unfoldable pub mark_as_settled : List String → String → UsageStore → UsageStore
unfolding mark_all
mark_as_settled event_ids settlement_id store = record store {
  events = mark_all event_ids settlement_id store.events;
}
