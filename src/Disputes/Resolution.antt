-- ===== src/Disputes/Resolution.antt =====
-- services/disputeService.ts: resolving a dispute, and any sequence of calls of the service.
use mathlib.Core.List.{append-nil}
use callora_backend.Common.{
  ℕ, ◌+◌, ◌≡◌, refl, inl, inr, String, List, [], ◌∷◌, true, false, Option, none, some, arith, All,
  All-append, Option-cases, Bool-cases, subst,
}
use callora_backend.Disputes.{
  DisputeStatus, open_, refunded, upheld, IssuedId, same_id, Dispute, resolved, DisputeEvent,
  Repository, find_by_id, find_by_usage_event_id, replace, resolve, append_event, open_dispute,
  resolve_dispute, settled, resolve_in, log_resolved, drop_refunds,
}
use callora_backend.Disputes.Trail.{
  was_opened, was_resolved, marks, trail_of, Dated, OnePerEvent, OneId, IsAudited, marks-snoc,
  logged_mono, open_dispute-IsAudited, empty_repository, empty_repository-IsAudited,
}

pub found_id :
    (id : IssuedId) (ds : List Dispute) (d : Dispute)
    → find_by_id id ds ≡ some d
    → same_id d.id id ≡ true
unfolding find_by_id
found_id id [] d e = cc
found_id id (x ∷ ds) d e = ground (arith, found_id id ds d)

found_All {κ} :
    (P : Dispute → Type κ) (id : IssuedId) (ds : List Dispute) (d : Dispute)
    → find_by_id id ds ≡ some d
    → All P ds
    → P d
unfolding find_by_id
found_All P id [] d e a = cc
found_All P id (x ∷ ds) d e a = elim (Bool-cases (same_id x.id id)) [
  | inl here ↦ subst P (ground arith) a.0
  | inr later ↦ found_All P id ds d (ground arith) a.1
]

-- Over disputes with distinct ids, `replace` changes just the one that was found.
module _ (id : IssuedId) (d u : Dispute) (same : u.id ≡ d.id) where
  All-keep {κ} :
      (P Q : Dispute → Type κ) (ds : List Dispute)
      → ((x : Dispute) → same_id x.id d.id ≡ false → P x → Q x)
      → All (λ (z : Dispute). same_id z.id d.id ≡ false) ds
      → All P ds
      → All Q ds
  All-keep P Q [] keep o a = tt
  All-keep P Q (x ∷ ds) keep (o, os) (a, as_) = (keep x o a, All-keep P Q ds keep os as_)

  All-replace {κ} :
      (P Q : Dispute → Type κ) (ds : List Dispute)
      → find_by_id id ds ≡ some d
      → OneId ds
      → ((x : Dispute) → same_id x.id d.id ≡ false → P x → Q x)
      → (P d → Q u)
      → All P ds
      → All Q (replace u ds)
  unfolding find_by_id replace
  All-replace P Q [] e o keep change a = cc
  All-replace P Q (x ∷ ds) e o keep change a = elim (Bool-cases (same_id x.id id)) [
    | inl here ↦
        let hit : x ≡ d = ground arith in
        let put : replace u (x ∷ ds) ≡ u ∷ ds = ground arith in
        rw put (
          change (subst P hit a.0),
          All-keep P Q ds keep
              (subst (λ y. All (λ (z : Dispute). same_id z.id y.id ≡ false) ds) hit o.0) a.1,
        )
    | inr later ↦
        let past : replace u (x ∷ ds) ≡ x ∷ replace u ds = ground (arith, found_id id ds d) in
        rw past (
          keep x (ground (arith, found_id id ds d)) a.0,
          All-replace P Q ds (ground arith) o.1 keep change a.1,
        )
  ]

  find_usage-replace :
      (k : String) (ds : List Dispute)
      → u.usage_event_id ≡ d.usage_event_id
      → find_by_id id ds ≡ some d
      → find_by_usage_event_id k ds ≡ none
      → find_by_usage_event_id k (replace u ds) ≡ none
  unfolding find_by_id replace find_by_usage_event_id
  find_usage-replace k [] h e n = cc
  find_usage-replace k (x ∷ ds) h e n = ground (arith, find_usage-replace k ds h, found_id id ds d)

  OnePerEvent-replace :
      (ds : List Dispute)
      → u.usage_event_id ≡ d.usage_event_id
      → find_by_id id ds ≡ some d
      → OnePerEvent ds
      → OnePerEvent (replace u ds)
  unfolding find_by_id replace
  OnePerEvent-replace [] h e o = cc
  OnePerEvent-replace (x ∷ ds) h e o = elim (Bool-cases (same_id x.id id)) [
    | inl here ↦
        let hit : x ≡ d = ground arith in
        let put : replace u (x ∷ ds) ≡ u ∷ ds = ground arith in rw put (ground arith, o.1)
    | inr later ↦
        let past : replace u (x ∷ ds) ≡ x ∷ replace u ds = ground (arith, found_id id ds d) in
        rw past (
          find_usage-replace x.usage_event_id ds h (ground arith) o.0,
          OnePerEvent-replace ds h (ground arith) o.1,
        )
  ]

  OneId-replace : (ds : List Dispute) → find_by_id id ds ≡ some d → OneId ds → OneId (replace u ds)
  unfolding find_by_id replace
  OneId-replace [] e o = cc
  OneId-replace (x ∷ ds) e o = elim (Bool-cases (same_id x.id id)) [
    | inl here ↦
        let hit : x.id ≡ u.id = ground arith in
        let put : replace u (x ∷ ds) ≡ u ∷ ds = ground arith in
        rw put (subst (λ i. All (λ (z : Dispute). same_id z.id i ≡ false) ds) hit o.0, o.1)
    | inr later ↦
        let past : replace u (x ∷ ds) ≡ x ∷ replace u ds = ground (arith, found_id id ds d) in
        rw past (
          All-replace (λ z. same_id z.id x.id ≡ false) (λ z. same_id z.id x.id ≡ false) ds
              (ground arith) o.1 (λ y n p. p) (λ p. ground arith) o.0,
          OneId-replace ds (ground arith) o.1,
        )
  ]

abbrev after_resolve :
    DisputeStatus → Option String → String → ℕ → Dispute → Repository → Repository
after_resolve s notes by now d repo = drop_refunds s (
    append_event d.id by (resolved s notes) now
      (record repo { disputes = replace (settled s by now d) repo.disputes }))

abbrev pub IsFinal : DisputeStatus → Type 0
IsFinal open_ = ⊥
IsFinal refunded = Unit
IsFinal upheld = Unit

drop_refunds-IsAudited :
    (s : DisputeStatus) (repo : Repository) → IsAudited repo → IsAudited (drop_refunds s repo)
drop_refunds-IsAudited open_ repo v = v
drop_refunds-IsAudited refunded repo v = record {
  per_event = v.per_event;
  per_id = v.per_id;
  issued = v.issued;
  logged = v.logged;
  trails = v.trails;
  dates = v.dates;
}
drop_refunds-IsAudited upheld repo v = v

settled_trail : (s : DisputeStatus) → IsFinal s → trail_of s ≡ was_opened ∷ was_resolved s ∷ []
settled_trail open_ f = elim f [ ]
settled_trail refunded f = refl
settled_trail upheld f = refl

settled-Dated :
    (s : DisputeStatus) (by : String) (now : ℕ) (d : Dispute)
    → IsFinal s
    → Dated s (settled s by now d)
settled-Dated open_ by now d f = elim f [ ]
settled-Dated refunded by now d f = (λ e. cc, λ e. cc)
settled-Dated upheld by now d f = (λ e. cc, λ e. cc)

resolved-IsAudited :
    (id : IssuedId) (s : DisputeStatus) (notes : Option String) (by : String) (now : ℕ)
    (d : Dispute) (repo : Repository)
    → IsFinal s
    → find_by_id id repo.disputes ≡ some d
    → d.status ≡ open_
    → IsAudited repo
    → IsAudited (after_resolve s notes by now d repo)
unfolding append_event
resolved-IsAudited id s notes by now d repo final e opened v = drop_refunds-IsAudited s _ (record {
  per_event = OnePerEvent-replace id d u refl repo.disputes refl e v.per_event;
  per_id = OneId-replace id d u refl repo.disputes e v.per_id;
  issued =
      All-replace id d u refl _ _ repo.disputes e v.per_id (λ x n p. omega arith) (λ p. omega arith)
        v.issued;
  logged =
      All-append _ repo.events (ev ∷ [])
        (logged_mono repo.counter (repo.counter + 1) repo.events (omega arith) v.logged)
        (omega (arith, found_All _ id repo.disputes d e v.issued), tt);
  trails =
      All-replace id d u refl _ _ repo.disputes e v.per_id
        (λ x n p.
          ground (arith, marks-snoc x.id repo.events ev, append-nil (marks x.id repo.events)))
        (λ p. ground (arith, marks-snoc d.id repo.events ev, settled_trail s final)) v.trails;
  dates =
      All-replace id d u refl _ _ repo.disputes e v.per_id (λ x n p. p)
        (λ p. settled-Dated s by now d final) v.dates;
})
  where
    u : Dispute
    u = settled s by now d

    ev : DisputeEvent
    ev = record {
      id = record { issued_at = now; serial = repo.counter + 1 };
      dispute_id = d.id;
      actor = by;
      action = resolved s notes;
      created_at = now;
    }

-- The statuses of a dispute that is looked up.
resolve_in-IsAudited :
    (id : IssuedId) (s : DisputeStatus) (notes : Option String) (by : String) (now : ℕ)
    (d : Dispute) (repo : Repository) (st : DisputeStatus)
    → d.status ≡ st
    → IsFinal s
    → find_by_id id repo.disputes ≡ some d
    → IsAudited repo
    → IsAudited (log_resolved s notes by now (resolve_in st s by now d repo)).1
resolve_in-IsAudited id s notes by now d repo open_ h f e v =
    resolved-IsAudited id s notes by now d repo f e h v
resolve_in-IsAudited id s notes by now d repo refunded h f e v = v
resolve_in-IsAudited id s notes by now d repo upheld h f e v = v

pub resolve_dispute-IsAudited :
    (id : IssuedId) (s : DisputeStatus) (notes : Option String) (by : String) (now : ℕ)
    (repo : Repository)
    → IsFinal s
    → IsAudited repo
    → IsAudited (resolve_dispute id s notes by now repo).1
unfolding resolve_dispute resolve
resolve_dispute-IsAudited id s notes by now repo f v =
    elim (Option-cases (find_by_id id repo.disputes)) [
      | inl e ↦ rw e v
      | inr (d, e) ↦ rw e (resolve_in-IsAudited id s notes by now d repo d.status refl f e v)
    ]

-- A call of the service that writes.
pub data Call : Type 0 where
  opens : (usage_event_id reason opened_by : String) → (now : ℕ) → Call
  refunds : IssuedId → Option String → String → (now : ℕ) → Call
  upholds : IssuedId → Option String → String → (now : ℕ) → Call

pub step : Call → Repository → Repository
step (opens u r by now) repo = (open_dispute u r by now repo).1
step (refunds id notes by now) repo = (resolve_dispute id refunded notes by now repo).1
step (upholds id notes by now) repo = (resolve_dispute id upheld notes by now repo).1

pub run : List Call → Repository → Repository
run [] repo = repo
run (c ∷ cs) repo = run cs (step c repo)

step-IsAudited : (c : Call) (repo : Repository) → IsAudited repo → IsAudited (step c repo)
unfolding step
step-IsAudited (opens u r by now) repo v = open_dispute-IsAudited u r by now repo v
step-IsAudited (refunds id notes by now) repo v =
    resolve_dispute-IsAudited id refunded notes by now repo tt v
step-IsAudited (upholds id notes by now) repo v =
    resolve_dispute-IsAudited id upheld notes by now repo tt v

run_from-IsAudited : (cs : List Call) (repo : Repository) → IsAudited repo → IsAudited (run cs repo)
unfolding run
run_from-IsAudited [] repo v = v
run_from-IsAudited (c ∷ cs) repo v = run_from-IsAudited cs (step c repo) (step-IsAudited c repo v)

-- After any calls on the empty repository: one dispute at most for each usage event, distinct ids,
-- for an open dispute the trail OPENED and no resolution date, for a resolved one the trail OPENED,
-- RESOLVED with its resolution, and both resolution fields.
pub run-IsAudited : (cs : List Call) → IsAudited (run cs empty_repository)
run-IsAudited cs = run_from-IsAudited cs empty_repository empty_repository-IsAudited
