-- ===== src/Billing/Usdc/Fractions.antt =====
-- services/billing.ts: the seven fractional digits, padded in front and stripped behind.
use callora_backend.Common.{
  ℕ, zero, suc, ◌+◌, ◌-◌, ◌≤◌, ◌<◌, ◌≡◌, refl, ◌∙◌, [], ◌∷◌, ◌++◌, true, false, inl, inr,
  Bool-cases, arith, length,
}
use callora_backend.Billing.Usdc.{
  Text, is_nil, value_from, value, take, decimal, pad_zeros, strip_zeros, seven_zeros,
  fraction_digits,
}
use callora_backend.Billing.Usdc.Digits.{Digits, decimal-Digits, value-decimal, length-decimal}

zeros : ℕ → Text
zeros n = pad_zeros n []

length-pad_zeros : (n : ℕ) (cs : Text) → length (pad_zeros n cs) ≡ n + length cs
unfolding pad_zeros
length-pad_zeros zero cs = omega arith
length-pad_zeros (suc n) cs = omega (arith, length-pad_zeros n cs)

value-pad_zeros : (n : ℕ) (cs : Text) → value (pad_zeros n cs) ≡ value cs
unfolding pad_zeros value_from
value-pad_zeros zero cs = refl
value-pad_zeros (suc n) cs = value-pad_zeros n cs

pad_zeros-Digits : (n : ℕ) (cs : Text) → Digits cs → Digits (pad_zeros n cs)
unfolding pad_zeros
pad_zeros-Digits zero cs h = h
pad_zeros-Digits (suc n) cs h = (omega arith, pad_zeros-Digits n cs h)

strip_zeros-Digits : (cs : Text) → Digits cs → Digits (strip_zeros cs)
unfolding strip_zeros
strip_zeros-Digits [] h = tt
strip_zeros-Digits (c ∷ cs) h = ground (arith, strip_zeros-Digits cs h.1)

length-strip_zeros-le : (cs : Text) → length (strip_zeros cs) ≤ length cs
unfolding strip_zeros
length-strip_zeros-le [] = omega arith
length-strip_zeros-le (c ∷ cs) = ground (arith, length-strip_zeros-le cs)

-- What `strip_zeros` drops comes back when zeros are put behind.
take-strip_zeros :
    (cs : Text) (m : ℕ) → length cs ≤ m → take (length cs) (strip_zeros cs ++ zeros m) ≡ cs
unfolding strip_zeros take zeros pad_zeros
take-strip_zeros [] m h = ground arith
take-strip_zeros (c ∷ cs) zero h = absurd (omega arith)
take-strip_zeros (c ∷ cs) (suc m) h =
    ground (arith, take-strip_zeros cs m, take-strip_zeros cs (suc m))

value-take-zeros : (n : ℕ) → value (take n (zeros n)) ≡ 0
unfolding take zeros pad_zeros value_from
value-take-zeros zero = refl
value-take-zeros (suc n) = value-take-zeros n

empty_value : (cs : Text) → is_nil cs ≡ true → value (take 7 (cs ++ seven_zeros)) ≡ 0
unfolding take value_from
empty_value [] e = refl
empty_value (c ∷ cs) e = cc

module _ (f : ℕ) (small : f < 10000000) where
  padded : Text
  padded = pad_zeros (7 - length (decimal f)) (decimal f)

  length-padded : length padded ≡ 7
  unfolding padded
  length-padded =
      omega (arith, length-pad_zeros (7 - length (decimal f)) (decimal f), length-decimal f small)

  value-padded : value padded ≡ f
  unfolding padded
  value-padded = value-pad_zeros (7 - length (decimal f)) (decimal f) ∙ value-decimal f

  pub fraction_digits-Digits : Digits (fraction_digits f)
  unfolding fraction_digits
  fraction_digits-Digits =
      strip_zeros-Digits _ (pad_zeros-Digits (7 - length (decimal f)) _ (decimal-Digits f))

  pub length-fraction_digits-le : length (fraction_digits f) ≤ 7
  unfolding fraction_digits padded
  length-fraction_digits-le = omega (arith, length-strip_zeros-le padded, length-padded)

  pub take-fraction_digits : value (take 7 (fraction_digits f ++ seven_zeros)) ≡ f
  unfolding fraction_digits padded zeros pad_zeros
  take-fraction_digits = ground (arith, take-strip_zeros padded 7, length-padded, value-padded)

  pub is_nil-fraction_digits : 0 < f → is_nil (fraction_digits f) ≡ false
  unfolding take value_from
  is_nil-fraction_digits pos = elim (Bool-cases (is_nil (fraction_digits f))) [
    | inl e ↦ absurd (omega (arith, take-fraction_digits, empty_value (fraction_digits f) e))
    | inr e ↦ e
  ]
