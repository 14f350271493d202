-- ===== src/Billing/Bulk/Charged.antt =====
-- services/billing.ts: what a call of `deductBulk` can charge on a ledger that honours its keys.
use callora_backend.Common.{
  ℕ, ◌≡◌, ◌≢◌, refl, String, List, [], ◌∷◌, true, Option, none, some, inl, inr, ◌⊎◌, Bool-cases,
  arith,
}
use callora_backend.Billing.Usdc.{UsdcError}
use callora_backend.Billing.Soroban.{SorobanClient}
use callora_backend.Billing.Events.{DeductRequest, Table, Surroundings}
use callora_backend.Billing.Deduct.{World}
use callora_backend.Billing.Deduct.Charges.{IsIdempotent, Charges}
use callora_backend.Billing.Bulk.{
  BulkReply, answered, row_missing, amounts, bad_amount, parse_requests, Phase1, run_phase1_bulk,
}
use callora_backend.Billing.Bulk.Flow.{deduct_bulk, deduct_bulk_internal, other_user}

-- The hash of a reply.
abbrev pub hash_of : BulkReply → Option String
hash_of (answered r) = r.stellar_tx_hash
hash_of row_missing = none

-- Why a bulk call is refused before anything is read.
abbrev pub Refused : List DeductRequest → Type 0
Refused [] = Unit
Refused (r ∷ rs) =
    (other_user r.user_id (r ∷ rs) ≡ true)
    ⊎ ((e : UsdcError) × (parse_requests (r ∷ rs) (amounts 0 []) ≡ bad_amount e))

module _ (client : SorobanClient) (law : IsIdempotent client) (retry_delays_ms : List ℕ)
    (digest : List String → String) where
  open law use {charged}

  -- The charges of a whole call: no other key than `key`, and `key` at most once, with `a`; and a
  -- result with a hash stands on a charge.
  pub record IsCharged (key : String) (a : ℕ) (l : client.Ledger) (r : BulkReply)
      (w : World client retry_delays_ms) : Type 0 where
    pub charges : Charges client law key a l w.ledger
    pub paid_for : (h : String) → hash_of r ≡ some h → charged w.ledger key ≢ none

  abbrev Charged : String → ℕ → client.Ledger → BulkReply × World client retry_delays_ms → Type 0
  Charged key a l (r, w) = IsCharged key a l r w

  abbrev phase1_of : Surroundings → List DeductRequest → Table → Phase1
  phase1_of env requests t = run_phase1_bulk requests (env.before_phase1 t)

module _ (client : SorobanClient) (retry_delays_ms : List ℕ) (digest : List String → String) where
  -- A bulk call with no entry, of several users or with an amount that is refused changes nothing.
  pub deduct_bulk-Refused :
      (env : Surroundings) (requests : List DeductRequest) (k : Option String)
      (w : World client retry_delays_ms)
      → Refused requests
      → (deduct_bulk client retry_delays_ms digest env requests k w).1 ≡ w
  unfolding deduct_bulk deduct_bulk_internal
  deduct_bulk-Refused env [] k w h = refl
  deduct_bulk-Refused env (r ∷ rs) k w h = elim (Bool-cases (other_user r.user_id (r ∷ rs))) [
    | inl e ↦ rw e refl
    | inr e ↦ elim h [ inl e' ↦ ground (arith, e, e') | inr (x, e') ↦ rw (e, e') refl ]
  ]
