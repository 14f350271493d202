-- ===== src/Billing/Usdc/RoundTrip.antt =====
-- services/billing.ts: what the formatter prints, the parser reads back.
use callora_backend.Common.{
  ℕ, zero, suc, ◌+◌, ◌*◌, ◌/◌, ◌%◌, ◌≤◌, ◌<◌, ◌≡◌, refl, [], ◌∷◌, ◌++◌, false, some, arith,
  All-append, length,
}
use mathlib.Core.List.{append-nil}
use callora_backend.Billing.Usdc.{
  Text, is_nil, value, value_from, take, decimal, trim_start, trim_end, span_digits, fraction_part,
  split_amount, parse_parts, positive_units, units, seven_zeros, fraction_digits,
  parse_usdc_to_contract_units, format_contract_units_to_usdc,
}
use callora_backend.Billing.Usdc.Digits.{
  Digits, NoSpace, decimal-Digits, value-decimal, is_nil-decimal, span_digits-append,
  Digits-NoSpace, trim_start-NoSpace, trim_end-NoSpace,
}
use callora_backend.Billing.Usdc.Fractions.{
  fraction_digits-Digits, length-fraction_digits-le, take-fraction_digits, is_nil-fraction_digits,
}

span_digits-Digits : (ds : Text) → Digits ds → span_digits ds ≡ (ds, [])
unfolding span_digits
span_digits-Digits ds h = rw (append-nil ds) at (span_digits-append ds [] h refl)

-- A whole number and a group of one to seven digits are split where they were joined.
split_amount_whole : (n : ℕ) → split_amount (decimal n) ≡ some (decimal n, [])
unfolding split_amount fraction_part
split_amount_whole n =
    ground (arith, span_digits-Digits (decimal n) (decimal-Digits n), is_nil-decimal n)

fraction_part-Digits :
    (ds : Text) → Digits ds → is_nil ds ≡ false → length ds ≤ 7 → fraction_part (46 ∷ ds) ≡ some ds
unfolding fraction_part
fraction_part-Digits [] h e k = cc
fraction_part-Digits (d ∷ ds) h e k = ground (arith, span_digits-Digits (d ∷ ds) h)

split_amount_fraction :
    (n : ℕ) (ds : Text)
    → Digits ds
    → is_nil ds ≡ false
    → length ds ≤ 7
    → split_amount (decimal n ++ 46 ∷ ds) ≡ some (decimal n, ds)
unfolding split_amount
split_amount_fraction n ds h e k = ground (
  arith,
  span_digits-append (decimal n) (46 ∷ ds) (decimal-Digits n) (unfold span_digits in refl),
  is_nil-decimal n,
  fraction_part-Digits ds h e k,
)

trim_NoSpace : (s : Text) → NoSpace s → trim_end (trim_start s) ≡ s
trim_NoSpace s h = rw (trim_start-NoSpace s h) (trim_end-NoSpace s h)

positive_units_pos : (n : ℕ) → 0 < n → positive_units n ≡ units n
unfolding positive_units
positive_units_pos zero h = absurd (omega arith)
positive_units_pos (suc n) h = refl

parse_whole : (w : ℕ) → 0 < w → parse_usdc_to_contract_units (decimal w) ≡ units (w * 10000000)
unfolding parse_parts parse_usdc_to_contract_units value_from take
parse_whole w h = ground (
  arith,
  trim_NoSpace (decimal w) (Digits-NoSpace _ (decimal-Digits w)),
  split_amount_whole w,
  value-decimal w,
  no_fraction,
  positive_units_pos (w * 10000000),
)
  where
    no_fraction : value (take 7 ([] ++ seven_zeros)) ≡ 0
    no_fraction = refl

parse_fraction :
    (w f : ℕ)
    → 0 < f
    → f < 10000000
    → parse_usdc_to_contract_units (decimal w ++ 46 ∷ fraction_digits f) ≡ units (w * 10000000 + f)
unfolding parse_parts parse_usdc_to_contract_units
parse_fraction w f h small = ground (
  arith,
  trim_NoSpace (decimal w ++ 46 ∷ fraction_digits f) (
      All-append _ (decimal w) _ (Digits-NoSpace _ (decimal-Digits w))
        (refl, Digits-NoSpace _ (fraction_digits-Digits f small))),
  split_amount_fraction w (fraction_digits f) (fraction_digits-Digits f small)
      (is_nil-fraction_digits f small h) (length-fraction_digits-le f small),
  value-decimal w,
  take-fraction_digits f small,
  positive_units_pos (w * 10000000 + f),
)

-- Every positive number of contract units survives being printed as USDC and parsed again.
pub parse-format :
    (n : ℕ) → 0 < n → parse_usdc_to_contract_units (format_contract_units_to_usdc n) ≡ units n
unfolding format_contract_units_to_usdc
parse-format n h =
    ground (arith, parse_whole (n / 10000000), parse_fraction (n / 10000000) (n % 10000000))
