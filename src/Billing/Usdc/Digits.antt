-- ===== src/Billing/Usdc/Digits.antt =====
-- services/billing.ts: printed numbers, and runs of digits.
use native.Mathlib.Nat.{pow-suc}
use callora_backend.Common.{
  ℕ, zero, suc, ◌+◌, ◌-◌, ◌*◌, ◌/◌, ◌%◌, ◌^◌, ◌≤◌, ◌<◌, ◌≡◌, refl, [], ◌∷◌, ◌++◌, false, arith, All,
  All-append, length, length-append,
}
use callora_backend.Billing.Usdc.{
  Text, is_space, is_nil, trim_start, trim_end, span_digits, value_from, value, decimal_from,
  decimal,
}

abbrev pub Digit : ℕ → Type 0
Digit c = (48 ≤ c) × (c ≤ 57)

abbrev pub Digits : Text → Type 0
Digits cs = All Digit cs

pub value_from-snoc :
    (acc : ℕ) (cs : Text) (c : ℕ)
    → value_from acc (cs ++ c ∷ []) ≡ value_from acc cs * 10 + (c - 48)
unfolding value_from
value_from-snoc acc [] c = refl
value_from-snoc acc (d ∷ cs) c = value_from-snoc (acc * 10 + (d - 48)) cs c

decimal_from-Digits : (f n : ℕ) → Digits (decimal_from f n)
unfolding decimal_from
decimal_from-Digits zero n = tt
decimal_from-Digits (suc f) n =
    let front =
      All-append Digit (decimal_from f (n / 10)) ((48 + n % 10) ∷ [])
        (decimal_from-Digits f (n / 10)) (omega arith) in
    ground arith

pub decimal-Digits : (n : ℕ) → Digits (decimal n)
unfolding decimal
decimal-Digits n = decimal_from-Digits (suc n) n

value-decimal_from : (f n : ℕ) → n < f → value (decimal_from f n) ≡ n
unfolding decimal_from value_from
value-decimal_from zero n h = absurd (omega arith)
value-decimal_from (suc f) n h = ground (
  arith,
  value-decimal_from f (n / 10),
  value_from-snoc 0 (decimal_from f (n / 10)) (48 + n % 10),
)

pub value-decimal : (n : ℕ) → value (decimal n) ≡ n
unfolding decimal
value-decimal n = value-decimal_from (suc n) n (omega arith)

is_nil-snoc : (cs : Text) (c : ℕ) → is_nil (cs ++ c ∷ []) ≡ false
is_nil-snoc [] c = refl
is_nil-snoc (d ∷ cs) c = refl

pub is_nil-decimal : (n : ℕ) → is_nil (decimal n) ≡ false
unfolding decimal decimal_from
is_nil-decimal n = ground (arith, is_nil-snoc (decimal_from n (n / 10)) (48 + n % 10))

length-decimal_from : (f k n : ℕ) → n < 10 ^ suc k → length (decimal_from f n) ≤ suc k
unfolding decimal_from
length-decimal_from zero k n h = omega arith
length-decimal_from (suc f) zero n h = ground arith
length-decimal_from (suc f) (suc k) n h = ground (
  arith,
  length-decimal_from f k (n / 10),
  pow-suc 10 (suc k),
  length-append {0} (decimal_from f (n / 10)) ((48 + n % 10) ∷ []),
)

pub length-decimal : (n : ℕ) → n < 10000000 → length (decimal n) ≤ 7
unfolding decimal
length-decimal n h = length-decimal_from (suc n) 6 n h

-- A run of digits in front of what is no digit is found whole.
pub span_digits-append :
    (ds s : Text) → Digits ds → span_digits s ≡ ([], s) → span_digits (ds ++ s) ≡ (ds, s)
unfolding span_digits
span_digits-append [] s h e = e
span_digits-append (d ∷ ds) s h e = ground (arith, span_digits-append ds s h.1 e)

abbrev pub NoSpace : Text → Type 0
NoSpace cs = All (λ c. is_space c ≡ false) cs

pub Digits-NoSpace : (cs : Text) → Digits cs → NoSpace cs
Digits-NoSpace [] h = tt
Digits-NoSpace (c ∷ cs) h = (ground arith, Digits-NoSpace cs h.1)

pub trim_start-NoSpace : (cs : Text) → NoSpace cs → trim_start cs ≡ cs
unfolding trim_start
trim_start-NoSpace [] h = refl
trim_start-NoSpace (c ∷ cs) h = ground arith

pub trim_end-NoSpace : (cs : Text) → NoSpace cs → trim_end cs ≡ cs
unfolding trim_end
trim_end-NoSpace [] h = refl
trim_end-NoSpace (c ∷ []) h = ground arith
trim_end-NoSpace (c ∷ d ∷ ds) h = ground (arith, trim_end-NoSpace (d ∷ ds) h.1)
