-- ===== src/Gateway/Keys.antt =====
-- routes/gatewayRoutes.ts, `resolveApiKey`: the candidates with the prefix of the key, then the
-- comparison of hashes. The hash is a parameter, since it is the one of the platform.
use Prim.Native.Char.{code}
use callora_backend.Common.{
  ℕ, zero, suc, ◌≡◌, refl, String, [], ◌∷◌, Bool, true, false, ◌&&◌, ◌==◌, Option, none, some,
  if◌then◌else◌, ite, str_dec, Dict, lookup, arith,
}
use callora_backend.Billing.Usdc.{Text}

-- `ApiKey`
pub record ApiKey : Type 0 where
  pub key : String
  pub developer_id : String
  pub api_id : String
  pub revoked : Bool
  pub tier : Option String

pub data Resolved : Type 0 where
  found : ApiKey → Resolved
  not_found hash_mismatch : Resolved

abbrev pub api_key_prefix_length : ℕ
api_key_prefix_length = 16

-- `s.slice(0, n)`
abbrev pub slice : ℕ → String → Text
slice zero s = []
slice (suc n) String.[] = []
slice (suc n) (String.◌∷◌ c s) = code c ∷ slice n s

-- `timingSafeStringEqual`
abbrev pub timing_safe_equal : Text → Text → Bool
timing_safe_equal [] [] = true
timing_safe_equal [] (d ∷ ds) = false
timing_safe_equal (c ∷ cs) [] = false
timing_safe_equal (c ∷ cs) (d ∷ ds) = c == d && timing_safe_equal cs ds

abbrev pub missing_as : Bool → Resolved
missing_as true = hash_mismatch
missing_as false = not_found

module _ (sha256_hex : String → String) where
  -- The loop over the keys; the flag is `prefixFound`.
  unfoldable pub resolve_among : String → Bool → Dict ApiKey → Resolved
  resolve_among header prefix_found [] = missing_as prefix_found
  resolve_among header prefix_found ((raw, owner) ∷ keys) =
      let among = resolve_among header true keys in
      let skipped = resolve_among header prefix_found keys in
      if timing_safe_equal (slice api_key_prefix_length raw) (slice api_key_prefix_length header)
      then ite (str_dec (sha256_hex header) (sha256_hex raw)) (found owner) among
      else skipped

  -- `resolveApiKey`
  unfoldable pub resolve_api_key : String → Dict ApiKey → Resolved
  unfolding resolve_among
  resolve_api_key header keys = resolve_among header false keys

  abbrev pub record_of : Resolved → Option ApiKey
  record_of (found r) = some r
  record_of not_found = none
  record_of hash_mismatch = none

  timing_safe_equal_refl : (t : Text) → timing_safe_equal t t ≡ true
  timing_safe_equal_refl [] = refl
  timing_safe_equal_refl (c ∷ cs) = ground (arith, timing_safe_equal_refl cs)

  resolve_among_lem :
      (collision_free : (s t : String) → sha256_hex s ≡ sha256_hex t → s ≡ t) (header : String)
      (b : Bool) (keys : Dict ApiKey)
      → record_of (resolve_among header b keys) ≡ lookup header keys
  unfolding resolve_among lookup
  resolve_among_lem collision_free header true [] = refl
  resolve_among_lem collision_free header false [] = refl
  resolve_among_lem collision_free header b ((raw, owner) ∷ keys) = elim (str_dec raw header) [
    | yes p ↦ rw p (ground (arith, timing_safe_equal_refl (slice api_key_prefix_length header)))
    | no p ↦ ground (
      arith,
      p,
      collision_free header raw,
      resolve_among_lem collision_free header true keys,
      resolve_among_lem collision_free header b keys,
    )
  ]

  -- With a hash that has no collisions, a key resolves to its record in the map of keys, and a text
  -- that is no key does not resolve.
  pub resolve_api_key-lookup :
      (collision_free : (s t : String) → sha256_hex s ≡ sha256_hex t → s ≡ t) (header : String)
      (keys : Dict ApiKey)
      → record_of (resolve_api_key header keys) ≡ lookup header keys
  unfolding resolve_api_key
  resolve_api_key-lookup collision_free header keys =
      resolve_among_lem collision_free header false keys
