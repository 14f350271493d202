-- ===== src/Revenue/Batch.antt =====
-- services/revenueSettlementService.ts: what a batch groups, and what a payout changes.
use callora_backend.Common.{
  ℕ, ◌+◌, ◌≤◌, ◌<◌, ◌≡◌, refl, ◌⊎◌, inl, inr, String, List, [], ◌∷◌, ◌++◌, Bool, true, false,
  Option, none, some, arith, length, sum_of, str_dec, if_pos, if_neg, Option-cases, Bool-cases,
  Dict, lookup, insert, ◌∙◌, ap, sym, subst, length-append, All-append, ltb, ◌==◌, if◌then◌else◌,
  All,
}
use callora_backend.Usage.{UsageEvent, mark_as_settled, amount}
use callora_backend.Settlement.{HashChange, keep_hash, set_hash}
use callora_backend.Revenue.{
  Distribution, paid, paid_without_hash, refused, thrown, Weather, Books, Tally, ids, group_of,
  fail_payout, hash_stored, push_event, push_resolved, group_events, settle_developer,
  record_failed_settlement, finalize, pay_out, create_and_pay,
}

-- A payout that is counted: the client paid, and every write went through.
pub record IsPaid (min_payout : ℕ) (w : Weather) (events : List UsageEvent) (p q : Books × Tally)
    : Type 0 where
  pub tx_hash : String
  pub distribution : w.distribution ≡ paid tx_hash
  pub enough : min_payout ≤ sum_of amount events
  pub usage : q.0.usage ≡ mark_as_settled (ids events) w.settlement_id p.0.usage
  pub processed : q.1.processed ≡ p.1.processed + length events
  pub settled_amount : q.1.settled_amount ≡ p.1.settled_amount + sum_of amount events
  pub errors : q.1.errors ≡ p.1.errors

-- A payout that is not: no event is marked and none is counted.
pub record IsUnpaid (p q : Books × Tally) : Type 0 where
  pub usage : q.0.usage ≡ p.0.usage
  pub processed : q.1.processed ≡ p.1.processed
  pub settled_amount : q.1.settled_amount ≡ p.1.settled_amount

record_failed-usage :
    (w : Weather) (books : Books) (change : _)
    → (record_failed_settlement w change books).usage ≡ books.usage
unfolding record_failed_settlement
record_failed-usage w books change = ground arith

fail_payout-IsUnpaid :
    (w : Weather) (change : HashChange) (books c : Books) (t u : Tally)
    → c.usage ≡ books.usage
    → u.processed ≡ t.processed
    → u.settled_amount ≡ t.settled_amount
    → IsUnpaid (books, t) (fail_payout w change (c, u))
fail_payout-IsUnpaid w change books c t u h p s = record {
  usage = record_failed-usage w c change ∙ h;
  processed = p;
  settled_amount = s;
}

finalize-IsPaid :
    (update_fails mark_fails : Bool) (mp : ℕ) (w : Weather) (hash : String)
    (events : List UsageEvent) (books c : Books) (t : Tally)
    → c.usage ≡ books.usage
    → w.distribution ≡ paid hash
    → mp ≤ sum_of amount events
    → IsPaid mp w events (books, t) (finalize update_fails mark_fails w hash events (c, t))
      ⊎ IsUnpaid (books, t) (finalize update_fails mark_fails w hash events (c, t))
finalize-IsPaid true m mp w hash events books c t u d h =
    inr (fail_payout-IsUnpaid w (set_hash none) books c t t u refl refl)
finalize-IsPaid false true mp w hash events books c t u d h =
    inr (fail_payout-IsUnpaid w (set_hash none) books (hash_stored w hash c) t t u refl refl)
finalize-IsPaid false false mp w hash events books c t u d h = inl (record {
  tx_hash = hash;
  distribution = d;
  enough = h;
  usage = ap (mark_as_settled (ids events) w.settlement_id) u;
  processed = refl;
  settled_amount = refl;
  errors = refl;
})

pay_out-IsPaid :
    (d : Distribution) (mp : ℕ) (w : Weather) (events : List UsageEvent) (books c : Books)
    (t : Tally)
    → w.distribution ≡ d
    → c.usage ≡ books.usage
    → mp ≤ sum_of amount events
    → IsPaid mp w events (books, t) (pay_out d w events (c, t))
      ⊎ IsUnpaid (books, t) (pay_out d w events (c, t))
pay_out-IsPaid (paid hash) mp w events books c t e u h =
    finalize-IsPaid w.update_fails w.mark_fails mp w hash events books c t u e h
pay_out-IsPaid paid_without_hash mp w events books c t e u h =
    inr (fail_payout-IsUnpaid w keep_hash books c t t u refl refl)
pay_out-IsPaid refused mp w events books c t e u h =
    inr (fail_payout-IsUnpaid w keep_hash books c t t u refl refl)
pay_out-IsPaid thrown mp w events books c t e u h =
    inr (fail_payout-IsUnpaid w keep_hash books c t t u refl refl)

create_and_pay-IsPaid :
    (fails : Bool) (mp : ℕ) (w : Weather) (dev : String) (events : List UsageEvent) (books : Books)
    (t : Tally)
    → mp ≤ sum_of amount events
    → IsPaid mp w events (books, t) (create_and_pay fails w dev events (books, t))
      ⊎ IsUnpaid (books, t) (create_and_pay fails w dev events (books, t))
create_and_pay-IsPaid true mp w dev events books t h =
    inr (record { usage = refl; processed = refl; settled_amount = refl })
create_and_pay-IsPaid false mp w dev events books t h =
    pay_out-IsPaid w.distribution mp w events books _ t refl refl h

-- For each developer of a batch, either the client paid with a hash, the amount reaches the minimum
-- payout, exactly the events of the group are marked under the settlement's id, and the result counts
-- their number and their amount with no further error; or no event is marked and neither number
-- grows, whatever fails on the way.
pub settle_developer_lem :
    (mp : ℕ) (w : Weather) (dev : String) (events : List UsageEvent) (books : Books) (t : Tally)
    → IsPaid mp w events (books, t) (settle_developer mp w dev events (books, t))
      ⊎ IsUnpaid (books, t) (settle_developer mp w dev events (books, t))
unfolding settle_developer
settle_developer_lem mp w dev events books t = elim (Bool-cases (ltb (sum_of amount events) mp)) [
  | inl e ↦ rw e (inr (record { usage = refl; processed = refl; settled_amount = refl }))
  | inr e ↦ rw e (create_and_pay-IsPaid w.create_fails mp w dev events books t (ground (arith, e)))
]

-- The group of a developer: so many events at most, each of an API of that developer and not free.
abbrev pub IsPayable : (String → Option String) → String → UsageEvent → Type 0
IsPayable developer_of dev e = (developer_of e.api_id ≡ some dev) × (0 < e.amount_usdc)

abbrev pub IsGroup : (String → Option String) → ℕ → String × List UsageEvent → Type 0
IsGroup developer_of max_events (dev, group) =
    (length group ≤ max_events) × All (IsPayable developer_of dev) group

module _ (developer_of : String → Option String) (max_events : ℕ) where
  lookup-IsGroup :
      (dev : String) (groups : Dict (List UsageEvent))
      → All (IsGroup developer_of max_events) groups
      → All (IsPayable developer_of dev) (group_of (lookup dev groups))
  unfolding lookup
  lookup-IsGroup dev [] h = tt
  lookup-IsGroup dev ((d, g) ∷ groups) h = elim (str_dec d dev) [
    | yes p ↦ rw (if_pos (str_dec d dev) p) (subst (λ x. All (IsPayable developer_of x) g) p h.0.1)
    | no p ↦ rw (if_neg (str_dec d dev) p) (lookup-IsGroup dev groups h.1)
  ]

  insert-IsGroup :
      (dev : String) (g : List UsageEvent) (groups : Dict (List UsageEvent))
      → IsGroup developer_of max_events (dev, g)
      → All (IsGroup developer_of max_events) groups
      → All (IsGroup developer_of max_events) (insert dev g groups)
  unfolding insert
  insert-IsGroup dev g [] hg h = (hg, tt)
  insert-IsGroup dev g ((d, g') ∷ groups) hg h = elim (str_dec d dev) [
    | yes p ↦
        rw (if_pos (str_dec d dev) p)
          (subst (λ x. IsGroup developer_of max_events (x, g)) (sym p) hg, h.1)
    | no p ↦ rw (if_neg (str_dec d dev) p) (h.0, insert-IsGroup dev g groups hg h.1)
  ]

  push_event-IsGroup :
      (dev : String) (e : UsageEvent) (groups : Dict (List UsageEvent))
      → IsPayable developer_of dev e
      → All (IsGroup developer_of max_events) groups
      → All (IsGroup developer_of max_events) (push_event max_events dev e groups)
  push_event-IsGroup dev e groups he h =
      let g = group_of (lookup dev groups) in
      elim (Bool-cases (ltb (length g) max_events)) [
        | inl t ↦ rw t (
            insert-IsGroup dev (g ++ e ∷ []) groups
              (
                ground (arith, length-append g (e ∷ []), t),
                All-append _ g (e ∷ []) (lookup-IsGroup dev groups h) (he, tt),
              )
              h)
        | inr t ↦ rw t h
      ]

  event-IsGroup :
      (e : UsageEvent) (groups : Dict (List UsageEvent))
      → All (IsGroup developer_of max_events) groups
      → All (IsGroup developer_of max_events) (
          if e.amount_usdc == 0
          then groups
          else push_resolved max_events (developer_of e.api_id) e groups)
  event-IsGroup e groups h = elim (Bool-cases (e.amount_usdc == 0)) [
    | inl z ↦ rw z h
    | inr z ↦ rw z (elim (Option-cases (developer_of e.api_id)) [
      | inl n ↦ rw n h
      | inr (dev, s) ↦ rw s (push_event-IsGroup dev e groups (s, ground (arith, z)) h)
    ])
  ]

  -- The grouping of a batch puts an event with a developer only if the registry gives that developer
  -- for the event's API and the event is not free, and no group exceeds the maximum of events, when
  -- the groups that it starts from are such.
  pub group_events-IsGroup :
      (es : List UsageEvent) (groups : Dict (List UsageEvent))
      → All (IsGroup developer_of max_events) groups
      → All (IsGroup developer_of max_events) (group_events developer_of max_events es groups)
  unfolding group_events
  group_events-IsGroup [] groups h = h
  group_events-IsGroup (e ∷ es) groups h = group_events-IsGroup es _ (event-IsGroup e groups h)
