-- ===== src/Billing/Soroban/Retry.antt =====
-- services/billing.ts: how often `executeDeductWithRetry` calls the ledger, and when it stops.
use callora_backend.Common.{
  ℕ, suc, ◌≤◌, ◌≡◌, refl, String, List, [], ◌∷◌, true, false, ◌⊎◌, inl, inr, Bool-cases, arith,
  length,
}
use callora_backend.Billing.Soroban.{
  SorobanClient, Reply, value, thrown, is_transient_soroban_error, after_attempt,
  execute_deduct_with_retry,
}

module _ (client : SorobanClient) (user_id : String) (amount : ℕ) (key : String) where
  open client use {Ledger, deduct_balance}

  -- `Tries l n r l'`: `n` calls lead from `l` to the reply `r` and to `l'`, all but the last of
  -- them with a transient error.
  pub data Tries : Ledger → ℕ → Reply String → Ledger → Type 0 where
    last :
        {l l' : Ledger} {r : Reply String}
        → deduct_balance l user_id amount key ≡ (r, l')
        → Tries l 1 r l'
    again :
        {l l₁ l' : Ledger} {n : ℕ} {m : List ℕ} {r : Reply String}
        → deduct_balance l user_id amount key ≡ (thrown m, l₁)
        → is_transient_soroban_error client m ≡ true
        → Tries l₁ n r l'
        → Tries l (suc n) r l'

  -- Why the loop stopped after `n` calls with `left` delays unused.
  abbrev pub Stops : Reply String → ℕ → ℕ → Type 0
  Stops (value h) n total = Unit
  Stops (thrown m) n total = (is_transient_soroban_error client m ≡ false) ⊎ (n ≡ total)

  abbrev pub Retried : List ℕ → Ledger → Reply String × Ledger → Type 0
  Retried delays l (r, l') =
      (n : ℕ) × Tries l n r l' × (n ≤ suc (length delays)) × Stops r n (suc (length delays))

  Stops-suc : (r : Reply String) (n total : ℕ) → Stops r n total → Stops r (suc n) (suc total)
  Stops-suc (value h) n total s = tt
  Stops-suc (thrown m) n total (inl e) = inl e
  Stops-suc (thrown m) n total (inr e) = inr (omega arith)

  Retried-suc :
      (delay : ℕ) (delays : List ℕ) (l l₁ : Ledger) (m : List ℕ) (p : Reply String × Ledger)
      → deduct_balance l user_id amount key ≡ (thrown m, l₁)
      → is_transient_soroban_error client m ≡ true
      → Retried delays l₁ p
      → Retried (delay ∷ delays) l p
  Retried-suc delay delays l l₁ m (r, l') called transient (n, tries, few, stops) =
      (suc n, again called transient tries, omega arith, Stops-suc r n _ stops)

  after_attempt-Retried :
      (delay : ℕ) (delays : List ℕ) (l : Ledger) (p : Reply String × Ledger)
      → deduct_balance l user_id amount key ≡ p
      → ((l₁ : Ledger)
          → Retried delays l₁ (execute_deduct_with_retry client delays l₁ user_id amount key))
      → Retried (delay ∷ delays) l (
          after_attempt client
            (λ l₁. execute_deduct_with_retry client delays l₁ user_id amount key)
            p)
  unfolding after_attempt
  after_attempt-Retried delay delays l (value h, l') e rest = (1, last e, omega arith, tt)
  after_attempt-Retried delay delays l (thrown m, l') e rest =
      elim (Bool-cases (is_transient_soroban_error client m)) [
        | inl t ↦ rw t (Retried-suc delay delays l l' m _ e t (rest l'))
        | inr f ↦ rw f (1, last e, omega arith, inl f)
      ]

  Retried-once :
      (l : Ledger) (p : Reply String × Ledger)
      → deduct_balance l user_id amount key ≡ p
      → Retried [] l p
  Retried-once l (value h, l') e = (1, last e, omega arith, tt)
  Retried-once l (thrown m, l') e = (1, last e, omega arith, inr refl)

  -- The loop makes at most one call more than there are delays. It goes on only after a transient
  -- error, and it ends with an error only if that error is not transient or the delays are used up.
  pub execute_deduct_with_retry-Retried :
      (delays : List ℕ) (l : Ledger)
      → Retried delays l (execute_deduct_with_retry client delays l user_id amount key)
  unfolding execute_deduct_with_retry
  execute_deduct_with_retry-Retried [] l = Retried-once l _ refl
  execute_deduct_with_retry-Retried (delay ∷ delays) l =
      after_attempt-Retried delay delays l _ refl (execute_deduct_with_retry-Retried delays)
