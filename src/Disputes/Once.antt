-- ===== src/Disputes/Once.antt =====
-- services/disputeService.ts: a dispute that is resolved stays resolved.
use callora_backend.Common.{
  ℕ, ◌≡◌, refl, inl, inr, String, List, [], ◌∷◌, Option, some, arith, Option-cases,
}
use callora_backend.Disputes.{
  DisputeStatus, open_, refunded, upheld, IssuedId, Dispute, Repository, conflict, Result, ok, err,
  find_by_id, replace, resolve, append_event, resolve_dispute, settled, resolve_in, log_resolved,
}
use callora_backend.Disputes.Resolution.{IsFinal, found_id}

found_replaced :
    (id : IssuedId) (ds : List Dispute) (d u : Dispute)
    → u.id ≡ d.id
    → find_by_id id ds ≡ some d
    → find_by_id id (replace u ds) ≡ some u
unfolding find_by_id replace
found_replaced id [] d u h e = cc
found_replaced id (x ∷ ds) d u h e = ground (arith, found_replaced id ds d u h, found_id id ds d)

again_in :
    (s : DisputeStatus) (id : IssuedId) (by : String) (now : ℕ) (d u : Dispute) (repo : Repository)
    (st : DisputeStatus)
    → IsFinal s
    → d.status ≡ st
    → find_by_id id repo.disputes ≡ some d
    → (resolve_in st s by now d repo).0 ≡ ok u
    → (notes : Option String)
    → (x : Dispute) × (find_by_id id
          (log_resolved s notes by now (resolve_in st s by now d repo)).1.disputes
        ≡ some x)
      × (x.status ≡ s)
unfolding append_event
again_in open_ id by now d u repo st f h e r notes = elim f [ ]
again_in refunded id by now d u repo open_ f h e r notes =
    (settled refunded by now d, found_replaced id repo.disputes d _ refl e, refl)
again_in upheld id by now d u repo open_ f h e r notes =
    (settled upheld by now d, found_replaced id repo.disputes d _ refl e, refl)
again_in s id by now d u repo refunded f h e r notes = cc
again_in s id by now d u repo upheld f h e r notes = cc

log_resolved-ok :
    (s : DisputeStatus) (notes : Option String) (by : String) (now : ℕ)
    (p : Result Dispute × Repository) (u : Dispute)
    → (log_resolved s notes by now p).0 ≡ ok u
    → p.0 ≡ ok u
log_resolved-ok s notes by now (ok d, repo) u e = e
log_resolved-ok s notes by now (err x, repo) u e = cc

settled_conflict :
    (id : IssuedId) (s s' : DisputeStatus) (notes : Option String) (by : String) (now : ℕ)
    (repo : Repository) (x : Dispute)
    → IsFinal s
    → find_by_id id repo.disputes ≡ some x
    → x.status ≡ s
    → resolve_dispute id s' notes by now repo ≡ (err conflict, repo)
unfolding resolve_dispute resolve
settled_conflict id open_ s' notes by now repo x f e h = elim f [ ]
settled_conflict id refunded s' notes by now repo x f e h = rw (e, h) refl
settled_conflict id upheld s' notes by now repo x f e h = rw (e, h) refl

resolved_stands :
    (id : IssuedId) (s : DisputeStatus) (notes : Option String) (by : String) (now : ℕ)
    (repo : Repository) (u : Dispute)
    → IsFinal s
    → (resolve_dispute id s notes by now repo).0 ≡ ok u
    → (x : Dispute) × (find_by_id id (resolve_dispute id s notes by now repo).1.disputes ≡ some x)
      × (x.status ≡ s)
unfolding resolve_dispute resolve
resolved_stands id s notes by now repo u f e =
    let made = log_resolved-ok s notes by now (resolve id s by now repo) u e in
    elim (Option-cases (find_by_id id repo.disputes)) [
      | inl q ↦ absurd (ground arith)
      | inr (d, q) ↦ rw q (again_in s id by now d u repo d.status f refl q (rw q at made) notes)
    ]

-- A dispute is resolved once: after a call that resolved it, as refunded or upheld, a call for any
-- resolution by anyone is a conflict and changes nothing.
pub resolve_dispute_once :
    (id : IssuedId) (s s' : DisputeStatus) (notes notes' : Option String) (by by' : String)
    (now later : ℕ) (repo : Repository) (u : Dispute)
    → IsFinal s
    → (resolve_dispute id s notes by now repo).0 ≡ ok u
    → let repo' = (resolve_dispute id s notes by now repo).1 in
      resolve_dispute id s' notes' by' later repo' ≡ (err conflict, repo')
resolve_dispute_once id s s' notes notes' by by' now later repo u f e =
    let (x, found, st) = resolved_stands id s notes by now repo u f e in
    settled_conflict id s s' notes' by' later (resolve_dispute id s notes by now repo).1 x f found
      st
