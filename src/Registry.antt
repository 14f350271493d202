-- ===== src/Registry.antt =====
-- data/apiRegistry.ts: the registry of APIs in memory, and the price of a path. The normalisation of a
-- base URL, which throws on a bad one, is a parameter; paths are lists of character codes.
pub mod Sorting
pub mod Prices
pub mod Pages
pub mod Cursors
use callora_backend.Common.{
  ℕ, ◌≡◌, String, List, [], ◌∷◌, ◌++◌, Bool, true, false, not, ◌&&◌, ◌==◌, Option, none, some, ltb,
  leb, if◌then◌else◌, keep, length, Dict, lookup, insert,
}
use callora_backend.Billing.Usdc.{Text}
use callora_backend.Gateway.Keys.{timing_safe_equal}

-- `EndpointPricing`
pub record EndpointPricing : Type 0 where
  pub endpoint_id : String
  pub path : Text
  pub price_usdc : ℕ

-- `ApiRegistryEntry`
pub record ApiRegistryEntry : Type 0 where
  pub id : String
  pub slug : String
  pub base_url : String
  pub developer_id : String
  pub endpoints : List EndpointPricing
  pub created_at : Option ℕ

-- `InMemoryApiRegistry`
pub record ApiRegistry : Type 0 where
  pub by_id : Dict ApiRegistryEntry
  pub by_slug : Dict ApiRegistryEntry

abbrev pub put : ApiRegistryEntry → ApiRegistry → ApiRegistry
put e r = record { by_id = insert e.id e r.by_id; by_slug = insert e.slug e r.by_slug }

abbrev pub put_valid : ApiRegistryEntry → Option String → ApiRegistry → Option ApiRegistry
put_valid e none r = none
put_valid e (some url) r = some (put (record e { base_url = url }) r)

-- `register`; `none` is the error of a bad base URL.
unfoldable pub register :
    (String → Option String) → ApiRegistryEntry → ApiRegistry → Option ApiRegistry
unfolding insert
register validate_upstream_base_url entry r =
    put_valid entry (validate_upstream_base_url entry.base_url) r

abbrev pub or_else : Option ApiRegistryEntry → Option ApiRegistryEntry → Option ApiRegistryEntry
or_else (some e) o = some e
or_else none o = o

-- `resolve`
unfoldable pub resolve : String → ApiRegistry → Option ApiRegistryEntry
unfolding lookup
resolve slug_or_id r = or_else (lookup slug_or_id r.by_id) (lookup slug_or_id r.by_slug)

-- `s.startsWith(prefix)`
abbrev pub starts_with : Text → Text → Bool
starts_with s [] = true
starts_with [] (c ∷ cs) = false
starts_with (d ∷ ds) (c ∷ cs) = d == c && starts_with ds cs

abbrev pub slash : Text
slash = 47 ∷ []

abbrev pub star : Text
star = 42 ∷ []

-- `path.startsWith('/') ? path : '/' + path`
abbrev pub with_slash : Text → Text
with_slash path = if starts_with path slash then path else slash ++ path

abbrev pub is_wildcard : EndpointPricing → Bool
is_wildcard e = timing_safe_equal e.path star

-- One step of the stable sort by falling length of the path.
unfoldable pub insert_by_length : EndpointPricing → List EndpointPricing → List EndpointPricing
insert_by_length e [] = e ∷ []
insert_by_length e (x ∷ xs) =
    let rest = insert_by_length e xs in
    if leb (length x.path) (length e.path) then e ∷ x ∷ xs else x ∷ rest

unfoldable pub sort_by_length : List EndpointPricing → List EndpointPricing
unfolding insert_by_length
sort_by_length [] = []
sort_by_length (e ∷ es) = insert_by_length e (sort_by_length es)

abbrev pub covers : Text → EndpointPricing → Bool
covers normalised e = starts_with normalised (with_slash e.path)

-- The first element that passes a test.
unfoldable pub find_first : (EndpointPricing → Bool) → List EndpointPricing → Option EndpointPricing
find_first p [] = none
find_first p (e ∷ es) = let rest = find_first p es in if p e then some e else rest

abbrev pub default_price : EndpointPricing
default_price = record { endpoint_id = "default"; path = star; price_usdc = 0 }

abbrev pub or_wildcard : Option EndpointPricing → Option EndpointPricing → EndpointPricing
or_wildcard (some e) o = e
or_wildcard none (some w) = w
or_wildcard none none = default_price

-- `resolveEndpointPrice`
unfoldable pub resolve_endpoint_price : List EndpointPricing → Text → EndpointPricing
unfolding find_first sort_by_length
resolve_endpoint_price endpoints path =
    or_wildcard
      (find_first (covers (with_slash path))
        (sort_by_length (keep (λ e. not (is_wildcard e)) endpoints)))
      (find_first is_wildcard endpoints)
