-- ===== src/Common/Text.antt =====
-- Equality of texts as a decision, which runs on literals.
use Prim.Native.String.{String}
use mathlib.Core.Path.{◌≡◌}
use mathlib.Core.Logic.{◌⊎◌, ◌≢◌, inl, inr, ite}
use mathlib.Core.Bool.{true, false}
use native.Mathlib.Omega.{arith}
use text.Mathlib.Text.{◌==◌}
use text.Mathlib.TextEquality.{eq_iff}
use callora_backend.Common.Tests.{Bool-cases}

decide_eq : (s t : String) → ((s == t) ≡ true) ⊎ ((s == t) ≡ false) → Dec (s ≡ t)
decide_eq s t (inl e) = yes ((eq_iff s t).0 e)
decide_eq s t (inr e) = no (λ p. ground (arith, eq_iff s t))

-- `a === b` on strings.
unfoldable pub str_dec : Discrete String
unfolding decide_eq Bool-cases
str_dec s t = decide_eq s t (Bool-cases (s == t))

-- Texts that the test tells apart.
pub str_ne : (s t : String) → ite (str_dec s t) true false ≡ false → s ≢ t
str_ne s t h p = ground (arith, h, p)
