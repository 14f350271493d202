-- ===== src/Billing/Usdc.antt =====
-- services/billing.ts: amounts of USDC as decimal text and as contract units of 10^-7 USDC.
-- A text is the list of its code units.
pub mod Digits
pub mod Fractions
pub mod RoundTrip
use callora_backend.Common.{
  ℕ, zero, suc, ◌+◌, ◌-◌, ◌*◌, ◌/◌, ◌%◌, List, [], ◌∷◌, ◌++◌, Bool, true, false, ◌&&◌, ◌||◌, Option,
  none, some, ltb, leb, ◌==◌, if◌then◌else◌, length,
}

abbrev pub Text : Type 0
Text = List ℕ

-- USDC_7_DECIMAL_FACTOR
abbrev pub usdc_7_decimal_factor : ℕ
usdc_7_decimal_factor = 10000000

abbrev pub is_digit : ℕ → Bool
is_digit c = leb 48 c && leb c 57

-- The characters that `String.prototype.trim` removes.
abbrev pub is_space : ℕ → Bool
is_space c =
    (leb 9 c && leb c 13)
    || c == 32
    || c == 160
    || c == 0x1680
    || (leb 0x2000 c && leb c 0x200a)
    || c == 0x2028
    || c == 0x2029
    || c == 0x202f
    || c == 0x205f
    || c == 0x3000
    || c == 0xfeff

unfoldable pub trim_start : Text → Text
trim_start [] = []
trim_start (c ∷ cs) = let rest = trim_start cs in if is_space c then rest else c ∷ cs

abbrev pub unless_blank : ℕ → Text → Text
unless_blank c [] = if is_space c then [] else c ∷ []
unless_blank c (d ∷ ds) = c ∷ d ∷ ds

unfoldable pub trim_end : Text → Text
trim_end [] = []
trim_end (c ∷ cs) = unless_blank c (trim_end cs)

-- The longest run of digits, and what follows it.
unfoldable pub span_digits : Text → Text × Text
span_digits [] = ([], [])
span_digits (c ∷ cs) =
    let rest = span_digits cs in if is_digit c then (c ∷ rest.0, rest.1) else ([], c ∷ cs)

abbrev pub is_nil : Text → Bool
is_nil [] = true
is_nil (_ ∷ _) = false

-- The optional group `(\.\d{1,7})?$` behind the whole part.
unfoldable pub fraction_part : Text → Option Text
unfolding span_digits
fraction_part [] = some []
fraction_part (c ∷ cs) =
    if c == 46 && is_nil (span_digits cs).1 && ltb 0 (length cs) && leb (length cs) 7
    then some cs
    else none

abbrev pub with_whole : Text → Option Text → Option (Text × Text)
with_whole whole none = none
with_whole whole (some frac) = some (whole, frac)

abbrev pub split_span : Text × Text → Option (Text × Text)
split_span (whole, rest) = if is_nil whole then none else with_whole whole (fraction_part rest)

-- `/^\d+(\.\d{1,7})?$/.test(trimmed)` and `trimmed.split(".")` in one.
unfoldable pub split_amount : Text → Option (Text × Text)
unfolding span_digits fraction_part
split_amount s = split_span (span_digits s)

-- `BigInt` of a run of digits.
unfoldable pub value_from : ℕ → Text → ℕ
value_from acc [] = acc
value_from acc (c ∷ cs) = value_from (acc * 10 + (c - 48)) cs

abbrev pub value : Text → ℕ
value cs = value_from 0 cs

unfoldable pub take : ℕ → Text → Text
take zero cs = []
take (suc n) [] = []
take (suc n) (c ∷ cs) = c ∷ take n cs

abbrev pub seven_zeros : Text
seven_zeros = 48 ∷ 48 ∷ 48 ∷ 48 ∷ 48 ∷ 48 ∷ 48 ∷ []

-- The two errors that the parser throws.
pub data UsdcError : Type 0 where
  bad_format not_positive : UsdcError

pub data Parsed : Type 0 where
  units : ℕ → Parsed
  refused : UsdcError → Parsed

unfoldable pub positive_units : ℕ → Parsed
positive_units zero = refused not_positive
positive_units (suc n) = units (suc n)

unfoldable pub parse_parts : Option (Text × Text) → Parsed
unfolding value_from take positive_units
parse_parts none = refused bad_format
parse_parts (some (whole, frac)) =
    positive_units (value whole * usdc_7_decimal_factor + value (take 7 (frac ++ seven_zeros)))

unfoldable pub parse_usdc_to_contract_units : Text → Parsed
unfolding trim_start trim_end split_amount parse_parts
parse_usdc_to_contract_units amount_usdc =
    parse_parts (split_amount (trim_end (trim_start amount_usdc)))

-- `n.toString()`, on fuel: `suc n` rounds are enough for `n`.
unfoldable pub decimal_from : ℕ → ℕ → Text
decimal_from zero n = []
decimal_from (suc f) n =
    let rest = decimal_from f (n / 10) ++ (48 + n % 10) ∷ [] in
    if ltb n 10 then (48 + n) ∷ [] else rest

unfoldable pub decimal : ℕ → Text
unfolding decimal_from
decimal n = decimal_from (suc n) n

-- `s.padStart(n, "0")`, with the number of missing places as fuel.
unfoldable pub pad_zeros : ℕ → Text → Text
pad_zeros zero cs = cs
pad_zeros (suc n) cs = 48 ∷ pad_zeros n cs

abbrev pub unless_zero : ℕ → Text → Text
unless_zero c [] = if c == 48 then [] else c ∷ []
unless_zero c (d ∷ ds) = c ∷ d ∷ ds

-- `s.replace(/0+$/, "")`
unfoldable pub strip_zeros : Text → Text
strip_zeros [] = []
strip_zeros (c ∷ cs) = unless_zero c (strip_zeros cs)

unfoldable pub fraction_digits : ℕ → Text
unfolding decimal pad_zeros strip_zeros
fraction_digits f = strip_zeros (pad_zeros (7 - length (decimal f)) (decimal f))

unfoldable pub format_contract_units_to_usdc : ℕ → Text
unfolding decimal fraction_digits
format_contract_units_to_usdc amount =
    let whole = amount / usdc_7_decimal_factor in
    let fraction = amount % usdc_7_decimal_factor in
    if fraction == 0 then decimal whole else decimal whole ++ 46 ∷ fraction_digits fraction
