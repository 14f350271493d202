-- ===== src/Billing/Soroban.antt =====
-- services/billing.ts: the Soroban client as the service uses it (a parameter, since the ledger is
-- outside the repository), the test for transient errors and the retry loop.
pub mod Retry
use Prim.Native.Char.{code}
use Prim.Native.String
use callora_backend.Common.{
  ℕ, suc, String, List, [], ◌∷◌, Bool, true, false, ◌||◌, ◌&&◌, ◌==◌, if◌then◌else◌,
}
use callora_backend.Billing.Usdc.{Text}

-- What a call gives back: a value, or the message of what it throws.
pub data Reply (A : Type 0) : Type 0 where
  value : A → Reply A
  thrown : Text → Reply A

-- `SorobanClient` over the states of the external ledger.
pub record SorobanClient : Type 1 where
  pub Ledger : Type 0
  pub get_balance : Ledger → String → Reply ℕ × Ledger
  pub deduct_balance : Ledger → String → ℕ → String → Reply String × Ledger
  pub to_lower_case : Text → Text

abbrev pub codes : String → Text
codes String.[] = []
codes (String.◌∷◌ c s) = code c ∷ codes s

starts_with : Text → Text → Bool
starts_with [] s = true
starts_with (c ∷ cs) [] = false
starts_with (c ∷ cs) (d ∷ ds) = c == d && starts_with cs ds

-- `message.includes(token)`
includes : Text → Text → Bool
unfolding starts_with
includes [] token = starts_with token []
includes (c ∷ cs) token = starts_with token (c ∷ cs) || includes cs token

abbrev transient_tokens : List String
transient_tokens =
    "timeout" ∷ "timed out" ∷ "socket hang up" ∷ "temporarily unavailable" ∷ "temporary outage"
    ∷ "econnreset" ∷ "econnrefused" ∷ "503" ∷ "429" ∷ "rate limit" ∷ "network error"
    ∷ "transport error" ∷ []

includes_any : Text → List String → Bool
unfolding includes
includes_any message [] = false
includes_any message (token ∷ tokens) =
    includes message (codes token) || includes_any message tokens

module _ (client : SorobanClient) where
  open client use {Ledger, deduct_balance, to_lower_case}

  unfoldable pub is_transient_soroban_error : Text → Bool
  unfolding includes_any
  is_transient_soroban_error message = includes_any (to_lower_case message) transient_tokens

  -- The `catch` of one attempt: a transient error goes on with the next attempt.
  unfoldable pub after_attempt :
      (Ledger → Reply String × Ledger) → Reply String × Ledger → Reply String × Ledger
  unfolding is_transient_soroban_error
  after_attempt again (value tx_hash, l) = (value tx_hash, l)
  after_attempt again (thrown message, l) =
      if is_transient_soroban_error message then again l else (thrown message, l)

  -- The loop of `executeDeductWithRetry`. Each delay that is left is one more attempt.
  unfoldable pub execute_deduct_with_retry :
      List ℕ → Ledger → String → ℕ → String → Reply String × Ledger
  unfolding after_attempt
  execute_deduct_with_retry [] l user_id amount key = deduct_balance l user_id amount key
  execute_deduct_with_retry (delay ∷ delays) l user_id amount key =
      after_attempt (λ l'. execute_deduct_with_retry delays l' user_id amount key)
        (deduct_balance l user_id amount key)
