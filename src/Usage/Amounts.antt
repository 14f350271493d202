-- ===== src/Usage/Amounts.antt =====
-- services/usageStore.ts: settled and unsettled amounts, and what settling changes.
use callora_backend.Common.{
  ◌+◌, ◌≡◌, ◌≢◌, refl, String, List, [], ◌∷◌, Bool, not, some, arith, keep, length, sum_of,
}
use callora_backend.Usage.{
  UsageEvent, UsageStore, Snapshot, has, is_settled, unsettled, amount, payable,
  get_developer_usage_snapshot, snapshot_of, mark_all, mark_as_settled, get_unsettled_events,
}

split_length :
    (es : List UsageEvent) → length (keep is_settled es) + length (keep unsettled es) ≡ length es
split_length [] = omega arith
split_length (e ∷ es) = ground (arith, split_length es)

split_amount :
    (es : List UsageEvent)
    → sum_of amount (keep is_settled es) + sum_of amount (keep unsettled es) ≡ sum_of amount es
split_amount [] = omega arith
split_amount (e ∷ es) = ground (arith, split_amount es)

snapshot_balances :
    (k : String) (es : List UsageEvent) (s : Snapshot)
    → snapshot_of k es ≡ some s
    → (s.settled_events + s.unsettled_events ≡ s.total_events)
      × (s.settled_amount_usdc + s.unsettled_amount_usdc ≡ s.total_amount_usdc)
snapshot_balances k [] s h = cc
snapshot_balances k (e ∷ es) s h =
    (ground (arith, split_length (e ∷ es)), ground (arith, split_amount (e ∷ es)))

-- A snapshot balances: settled and unsettled events make up all events, in number and in amount.
pub get_developer_usage_snapshot_balances :
    (k : String) (store : UsageStore) (s : Snapshot)
    → get_developer_usage_snapshot k store ≡ some s
    → (s.settled_events + s.unsettled_events ≡ s.total_events)
      × (s.settled_amount_usdc + s.unsettled_amount_usdc ≡ s.total_amount_usdc)
unfolding get_developer_usage_snapshot
get_developer_usage_snapshot_balances k store s h = snapshot_balances k _ s h

abbrev pub not_in : List String → UsageEvent → Bool
not_in ids e = not (has e.id ids)

keep-mark_all :
    (ids : List String) (s : String) (es : List UsageEvent)
    → s ≢ ""
    → keep payable (mark_all ids s es) ≡ keep (not_in ids) (keep payable es)
unfolding mark_all
keep-mark_all ids s [] h = refl
keep-mark_all ids s (e ∷ es) h = ground (arith, keep-mark_all ids s es h)

sum-mark_all :
    (ids : List String) (s : String) (es : List UsageEvent)
    → sum_of amount (mark_all ids s es) ≡ sum_of amount es
unfolding mark_all
sum-mark_all ids s [] = refl
sum-mark_all ids s (e ∷ es) = ground (arith, sum-mark_all ids s es)

-- Marking under a settlement id takes exactly the events named out of the unsettled ones, in place,
-- and changes no amount.
pub mark_as_settled_lem :
    (ids : List String) (s : String) (store : UsageStore)
    → s ≢ ""
    → (get_unsettled_events (mark_as_settled ids s store)
        ≡ keep (not_in ids) (get_unsettled_events store))
      × (sum_of amount (mark_as_settled ids s store).events ≡ sum_of amount store.events)
unfolding mark_as_settled get_unsettled_events
mark_as_settled_lem ids s store h =
    (keep-mark_all ids s store.events h, sum-mark_all ids s store.events)
