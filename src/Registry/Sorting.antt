-- ===== src/Registry/Sorting.antt =====
-- data/apiRegistry.ts: the endpoints by falling length of their paths, and the first that passes a test.
use callora_backend.Common.{
  ℕ, ◌≤◌, ◌≡◌, refl, sym, ap, subst, ◌∙◌, ◌⊎◌, inl, inr, List, [], ◌∷◌, Bool, true, false, none,
  some, leb, keep, length, All, arith, Bool-cases, if-intro,
}
use callora_backend.Billing.Usdc.{Text}
use callora_backend.Registry.{
  EndpointPricing, with_slash, is_wildcard, insert_by_length, sort_by_length, covers, find_first,
  default_price,
}

-- Some element of the list.
abbrev pub Among : EndpointPricing → List EndpointPricing → Type 0
Among e [] = ⊥
Among e (x ∷ xs) = (x ≡ e) ⊎ Among e xs

abbrev LongestFirst : List EndpointPricing → Type 0
LongestFirst [] = Unit
LongestFirst (x ∷ xs) =
    All (λ (y : EndpointPricing). length y.path ≤ length x.path) xs × LongestFirst xs

insert_by_length-All :
    (n : ℕ) (e : EndpointPricing) (xs : List EndpointPricing)
    → length e.path ≤ n
    → All (λ (y : EndpointPricing). length y.path ≤ n) xs
    → All (λ (y : EndpointPricing). length y.path ≤ n) (insert_by_length e xs)
unfolding insert_by_length
insert_by_length-All n e [] h a = (h, tt)
insert_by_length-All n e (x ∷ xs) h a =
    if-intro (λ l. All (λ (y : EndpointPricing). length y.path ≤ n) l)
      (leb (length x.path) (length e.path)) _ _ (λ q. (h, a))
      (λ q. (a.0, insert_by_length-All n e xs h a.1))

shorter_All :
    (m n : ℕ) (xs : List EndpointPricing)
    → m ≤ n
    → All (λ (y : EndpointPricing). length y.path ≤ m) xs
    → All (λ (y : EndpointPricing). length y.path ≤ n) xs
shorter_All m n [] h a = tt
shorter_All m n (x ∷ xs) h a = (omega (arith, h, a.0), shorter_All m n xs h a.1)

insert_by_length-LongestFirst :
    (e : EndpointPricing) (xs : List EndpointPricing)
    → LongestFirst xs
    → LongestFirst (insert_by_length e xs)
unfolding insert_by_length
insert_by_length-LongestFirst e [] s = (tt, tt)
insert_by_length-LongestFirst e (x ∷ xs) s =
    if-intro LongestFirst (leb (length x.path) (length e.path)) _ _
      (λ q. (
        (ground (arith, q), shorter_All (length x.path) (length e.path) xs (ground (arith, q)) s.0),
        s,
      ))
      (λ q. (
        insert_by_length-All (length x.path) e xs (ground (arith, q)) s.0,
        insert_by_length-LongestFirst e xs s.1,
      ))

pub sort_by_length-LongestFirst : (xs : List EndpointPricing) → LongestFirst (sort_by_length xs)
unfolding sort_by_length
sort_by_length-LongestFirst [] = tt
sort_by_length-LongestFirst (x ∷ xs) =
    insert_by_length-LongestFirst x _ (sort_by_length-LongestFirst xs)

insert_by_length-Among :
    (y e : EndpointPricing) (xs : List EndpointPricing)
    → (y ≡ e) ⊎ Among e xs
    → Among e (insert_by_length y xs)
unfolding insert_by_length
insert_by_length-Among y e [] h = h
insert_by_length-Among y e (x ∷ xs) h =
    if-intro (Among e) (leb (length x.path) (length y.path)) _ _ (λ q. h)
      (λ q. elim h [
        | inl p ↦ inr (insert_by_length-Among y e xs (inl p))
        | inr (inl p) ↦ inl p
        | inr (inr p) ↦ inr (insert_by_length-Among y e xs (inr p))
      ])

insert_by_length-from :
    (y e : EndpointPricing) (xs : List EndpointPricing)
    → Among e (insert_by_length y xs)
    → (y ≡ e) ⊎ Among e xs
unfolding insert_by_length
insert_by_length-from y e [] = λ h. h
insert_by_length-from y e (x ∷ xs) =
    if-intro (λ l. Among e l → (y ≡ e) ⊎ Among e (x ∷ xs)) (leb (length x.path) (length y.path)) _ _
      (λ q h. h)
      (λ q h. elim h [
        | inl p ↦ inr (inl p)
        | inr p ↦ elim (insert_by_length-from y e xs p) [ inl r ↦ inl r | inr r ↦ inr (inr r) ]
      ])

pub sort_by_length-Among :
    (e : EndpointPricing) (xs : List EndpointPricing) → Among e xs → Among e (sort_by_length xs)
unfolding sort_by_length
sort_by_length-Among e [] h = h
sort_by_length-Among e (x ∷ xs) (inl p) = insert_by_length-Among x e _ (inl p)
sort_by_length-Among e (x ∷ xs) (inr p) =
    insert_by_length-Among x e _ (inr (sort_by_length-Among e xs p))

pub sort_by_length-from :
    (e : EndpointPricing) (xs : List EndpointPricing) → Among e (sort_by_length xs) → Among e xs
unfolding sort_by_length
sort_by_length-from e [] h = h
sort_by_length-from e (x ∷ xs) h = elim (insert_by_length-from x e (sort_by_length xs) h) [
  | inl p ↦ inl p
  | inr p ↦ inr (sort_by_length-from e xs p)
]

pub keep-Among :
    (p : EndpointPricing → Bool) (e : EndpointPricing) (xs : List EndpointPricing)
    → Among e xs
    → p e ≡ true
    → Among e (keep p xs)
keep-Among p e [] h q = h
keep-Among p e (x ∷ xs) h q =
    if-intro (Among e) (p x) _ _
      (λ t. elim h [ inl r ↦ inl r | inr r ↦ inr (keep-Among p e xs r q) ])
      (λ t. elim h [ inl r ↦ absurd (differ x e t q r) | inr r ↦ keep-Among p e xs r q ])
  where
    differ : (x e : EndpointPricing) → p x ≡ false → p e ≡ true → ¬ (x ≡ e)
    differ x e t q r = ground (arith, t, q, ap p r)

pub keep-from :
    (p : EndpointPricing → Bool) (e : EndpointPricing) (xs : List EndpointPricing)
    → Among e (keep p xs)
    → Among e xs × (p e ≡ true)
keep-from p e [] = λ h. absurd h
keep-from p e (x ∷ xs) =
    if-intro (λ l. Among e l → Among e (x ∷ xs) × (p e ≡ true)) (p x) _ _
      (λ t h. elim h [
        | inl r ↦ (inl r, ap p (sym r) ∙ t)
        | inr r ↦ let (a, b) = keep-from p e xs r in (inr a, b)
      ])
      (λ t h. let (a, b) = keep-from p e xs h in (inr a, b))

-- What the first element that passes is, on a list with the longest paths first.
abbrev IsLongest : (EndpointPricing → Bool) → List EndpointPricing → EndpointPricing → Type 0
IsLongest p xs e =
    Among e xs
    × (p e ≡ true)
    × ((y : EndpointPricing) → Among y xs → p y ≡ true → length y.path ≤ length e.path)

-- Nothing passes.
abbrev pub NonePasses : (EndpointPricing → Bool) → List EndpointPricing → Type 0
NonePasses p xs = (y : EndpointPricing) → Among y xs → p y ≡ false

all_at :
    (n : ℕ) (xs : List EndpointPricing) (y : EndpointPricing)
    → All (λ (z : EndpointPricing). length z.path ≤ n) xs
    → Among y xs
    → length y.path ≤ n
all_at n [] y a h = absurd h
all_at n (x ∷ xs) y a (inl p) = subst (λ z. length z.path ≤ n) p a.0
all_at n (x ∷ xs) y a (inr p) = all_at n xs y a.1 p

clash : {b : Bool} → b ≡ false → b ≡ true → ⊥
clash p q = ground (arith, p, q)

pub find_first-IsLongest :
    (p : EndpointPricing → Bool) (xs : List EndpointPricing)
    → LongestFirst xs
    → ((find_first p xs ≡ none) × NonePasses p xs)
      ⊎ ((e : EndpointPricing) × (find_first p xs ≡ some e) × IsLongest p xs e)
unfolding find_first
find_first-IsLongest p [] s = inl (refl, λ y h. absurd h)
find_first-IsLongest p (x ∷ xs) s = elim (Bool-cases (p x)) [
  | inl t ↦ inr (
    x,
    rw t refl,
    (
      inl refl,
      t,
      λ y a q. elim a [
        | inl r ↦ subst (λ z. length z.path ≤ length x.path) r (omega arith)
        | inr r ↦ all_at (length x.path) xs y s.0 r
      ],
    ),
  )
  | inr t ↦ elim (find_first-IsLongest p xs s.1) [
    | inl (n, h) ↦ inl (rw t n, λ y a. elim a [ inl r ↦ ap p (sym r) ∙ t | inr r ↦ h y r ])
    | inr (e, f, (a, q, m)) ↦ inr (
      e,
      rw t f,
      (inr a, q, λ y b u. elim b [ inl r ↦ absurd (clash t (ap p r ∙ u)) | inr r ↦ m y r u ]),
    )
  ]
]

pub first_of :
    (p : EndpointPricing → Bool) (xs : List EndpointPricing)
    → ((find_first p xs ≡ none) × NonePasses p xs)
      ⊎ ((e : EndpointPricing) × (find_first p xs ≡ some e) × Among e xs × (p e ≡ true))
unfolding find_first
first_of p [] = inl (refl, λ y h. absurd h)
first_of p (x ∷ xs) = elim (Bool-cases (p x)) [
  | inl t ↦ inr (x, rw t refl, inl refl, t)
  | inr t ↦ elim (first_of p xs) [
    | inl (n, h) ↦ inl (rw t n, λ y a. elim a [ inl r ↦ ap p (sym r) ∙ t | inr r ↦ h y r ])
    | inr (e, f, a, q) ↦ inr (e, rw t f, inr a, q)
  ]
]

-- Which endpoint prices a path.
abbrev pub IsPriceOf : List EndpointPricing → Text → EndpointPricing → Type 0
IsPriceOf endpoints path e =
    (Among e endpoints
      × (is_wildcard e ≡ false)
      × (covers (with_slash path) e ≡ true)
      × ((y : EndpointPricing)
          → Among y endpoints
          → is_wildcard y ≡ false
          → covers (with_slash path) y ≡ true
          → length y.path ≤ length e.path))
    ⊎ (((y : EndpointPricing)
          → Among y endpoints
          → is_wildcard y ≡ false
          → covers (with_slash path) y ≡ false)
        × ((Among e endpoints × (is_wildcard e ≡ true))
            ⊎ ((e ≡ default_price) × NonePasses is_wildcard endpoints)))
