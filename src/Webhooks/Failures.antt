-- ===== src/Webhooks/Failures.antt =====
-- webhooks/webhook.store.ts: how long the log of failed deliveries is, and what it answers.
use callora_backend.Common.{
  ℕ, ◌-◌, ◌≤◌, ◌<◌, ◌≡◌, refl, List, [], ◌∷◌, arith, length, length-append, length-drop, min,
}
use callora_backend.Webhooks.{
  FailedDeliveryEntry, shift, record_failed_delivery, last_entries, reversed, get_recent_failures,
}

length-shift : (log : List FailedDeliveryEntry) → length (shift log) ≡ length log - 1
length-shift [] = omega arith
length-shift (e ∷ es) = omega arith

length-record :
    (e : FailedDeliveryEntry) (log : List FailedDeliveryEntry)
    → length log ≤ 200
    → length (record_failed_delivery e log) ≤ 200
unfolding record_failed_delivery
length-record e log h =
    ground (arith, length-append (shift log) (e ∷ []), length-append log (e ∷ []), length-shift log)

abbrev pub record_all :
    List FailedDeliveryEntry → List FailedDeliveryEntry → List FailedDeliveryEntry
record_all [] log = log
record_all (e ∷ es) log = record_all es (record_failed_delivery e log)

length-record_all :
    (es log : List FailedDeliveryEntry) → length log ≤ 200 → length (record_all es log) ≤ 200
length-record_all [] log h = h
length-record_all (e ∷ es) log h =
    length-record_all es (record_failed_delivery e log) (length-record e log h)

length-reversed : (es : List FailedDeliveryEntry) → length (reversed es) ≡ length es
unfolding reversed
length-reversed [] = refl
length-reversed (e ∷ es) = omega (arith, length-append (reversed es) (e ∷ []), length-reversed es)

recent_le :
    (limit : ℕ) (log : List FailedDeliveryEntry)
    → 0 < limit
    → (length (get_recent_failures limit log) ≤ limit)
      × (length (get_recent_failures limit log) ≤ 100)
unfolding get_recent_failures
recent_le limit log h = (
  ground (
    arith,
    length-reversed (last_entries (min limit 100) log),
    length-drop (length log - min limit 100) log,
  ),
  ground (
    arith,
    length-reversed (last_entries (min limit 100) log),
    length-drop (length log - min limit 100) log,
  ),
)

-- However many failures are recorded, the log that began empty holds at most 200; a read with a
-- positive limit answers at most that many entries, and at most 100.
pub get_recent_failures_le :
    (es : List FailedDeliveryEntry) (limit : ℕ)
    → 0 < limit
    → (length (record_all es []) ≤ 200)
      × (length (get_recent_failures limit (record_all es [])) ≤ limit)
      × (length (get_recent_failures limit (record_all es [])) ≤ 100)
get_recent_failures_le es limit h =
    let (a, b) = recent_le limit (record_all es []) h in
    (length-record_all es [] (omega arith), a, b)
