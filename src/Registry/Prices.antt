-- ===== src/Registry/Prices.antt =====
-- data/apiRegistry.ts: which endpoint prices a path, and what resolves after a registration.
use callora_backend.Common.{
  ◌≡◌, ◌≢◌, refl, sym, ap, subst, ◌∙◌, inl, inr, String, List, Bool, true, false, not, Option, none,
  some, keep, arith, lookup, lookup-insert_self, lookup-insert_ne,
}
use callora_backend.Billing.Usdc.{Text}
use callora_backend.Registry.{
  EndpointPricing, ApiRegistryEntry, ApiRegistry, register, resolve, with_slash, is_wildcard,
  sort_by_length, covers, resolve_endpoint_price, put, put_valid,
}
use callora_backend.Registry.Sorting.{
  Among, sort_by_length-LongestFirst, sort_by_length-Among, sort_by_length-from, keep-Among,
  keep-from, find_first-IsLongest, first_of, IsPriceOf,
}

not-true : (b : Bool) → b ≡ false → not b ≡ true
not-true b h = ground (arith, h)

not-false : (b : Bool) → not b ≡ true → b ≡ false
not-false b h = ground (arith, h)

abbrev plain : EndpointPricing → Bool
plain e = not (is_wildcard e)

abbrev candidates : List EndpointPricing → List EndpointPricing
candidates endpoints = sort_by_length (keep plain endpoints)

candidate-Among :
    (endpoints : List EndpointPricing) (e : EndpointPricing)
    → Among e (candidates endpoints)
    → Among e endpoints × (is_wildcard e ≡ false)
candidate-Among endpoints e h =
    let (a, p) = keep-from plain e endpoints (sort_by_length-from e (keep plain endpoints) h) in
    (a, not-false (is_wildcard e) p)

Among-candidate :
    (endpoints : List EndpointPricing) (e : EndpointPricing)
    → Among e endpoints
    → is_wildcard e ≡ false
    → Among e (candidates endpoints)
Among-candidate endpoints e a w =
    sort_by_length-Among e (keep plain endpoints)
      (keep-Among plain e endpoints a (not-true (is_wildcard e) w))

-- The price of a path is that of an endpoint of the API, not the wildcard, whose path begins the given
-- one, with no longer path among those that do; if none begins it, that of a wildcard endpoint; if
-- there is none, the free default.
pub resolve_endpoint_price-IsPriceOf :
    (endpoints : List EndpointPricing) (path : Text)
    → IsPriceOf endpoints path (resolve_endpoint_price endpoints path)
unfolding resolve_endpoint_price
resolve_endpoint_price-IsPriceOf endpoints path =
    elim (find_first-IsLongest (covers (with_slash path)) (candidates endpoints)
      (sort_by_length-LongestFirst (keep plain endpoints))) [
        | inr (e, f, (a, q, m)) ↦ rw f (
            inl (
              (candidate-Among endpoints e a).0,
              (candidate-Among endpoints e a).1,
              q,
              λ y b w c. m y (Among-candidate endpoints y b w) c,
            ))
        | inl (f, n) ↦ elim (first_of is_wildcard endpoints) [
          | inr (e, g, a, w) ↦
              rw (f, g) (inr (λ y b v. n y (Among-candidate endpoints y b v), inl (a, w)))
          | inl (g, h) ↦
              rw (f, g) (inr (λ y b v. n y (Among-candidate endpoints y b v), inr (refl, h)))
        ]
      ]

abbrev registry_or : ApiRegistry → Option ApiRegistry → ApiRegistry
registry_or r none = r
registry_or r (some s) = s

put_same :
    (entry : ApiRegistryEntry) (url : String) (o : Option String) (r r' : ApiRegistry)
    → o ≡ some url
    → put_valid entry o r ≡ some r'
    → put (record entry { base_url = url }) r ≡ r'
put_same entry url o r r' v e = ap (registry_or r) (ap (λ x. put_valid entry x r) (sym v) ∙ e)

-- After a registration that succeeds, the API resolves by its id, with the URL that was validated; by
-- its slug too, if no API has the slug as its id; and every text but its id and its slug resolves as
-- before.
pub register-resolve :
    (validate : String → Option String) (entry : ApiRegistryEntry) (url : String)
    (r r' : ApiRegistry)
    → validate entry.base_url ≡ some url
    → register validate entry r ≡ some r'
    → (resolve entry.id r' ≡ some (record entry { base_url = url }))
      × (lookup entry.slug r'.by_id ≡ none
          → resolve entry.slug r' ≡ some (record entry { base_url = url }))
      × ((k : String) → k ≢ entry.id → k ≢ entry.slug → resolve k r' ≡ resolve k r)
unfolding register resolve
register-resolve validate entry url r r' v e =
    let same : put (record entry { base_url = url }) r ≡ r' = put_same entry url _ r r' v e in
    subst
      (λ s.
        (resolve entry.id s ≡ some (record entry { base_url = url }))
        × (lookup entry.slug s.by_id ≡ none
            → resolve entry.slug s ≡ some (record entry { base_url = url }))
        × ((k : String) → k ≢ entry.id → k ≢ entry.slug → resolve k s ≡ resolve k r))
      same
      (
        rw (lookup-insert_self entry.id (record entry { base_url = url }) r.by_id) refl,
        λ n. rw (n, lookup-insert_self entry.slug (record entry { base_url = url }) r.by_slug) refl,
        λ k h g.
            rw
              (
                lookup-insert_ne entry.id k (record entry { base_url = url }) r.by_id
                    (λ p. h (sym p)),
                lookup-insert_ne entry.slug k (record entry { base_url = url }) r.by_slug
                    (λ p. g (sym p)),
              )
              refl,
      )
