-- ===== src/Registry/Pages/Walk.antt =====
-- data/apiRegistry.ts: reading page after page gives every API once.
use callora_backend.Common.{
  ℕ, zero, suc, ◌+◌, ◌≤◌, ◌<◌, ◌≡◌, ◌≢◌, refl, sym, ap, ◌∙◌, subst, String, List, [], ◌∷◌, ◌++◌,
  Bool, true, false, ◌&&◌, ◌==◌, Option, none, some, ltb, str_dec, length, values, drop, All, arith,
  Bool-cases, inl, inr, if-intro, ite-intro, lt→ltb, ltb→lt, length-drop,
}
use callora_backend.Registry.{ApiRegistryEntry, ApiRegistry}
use callora_backend.Registry.Pages.{
  CursorPayload, CursorCodec, cursor_of, take, last_of, rest_after, goes_before, insert_sorted,
  sorted, start_at, page_of, list, follow, read_pages,
}

-- No entry has the id.
abbrev pub Without : String → List ApiRegistryEntry → Type 0
Without id xs = All (λ (e : ApiRegistryEntry). e.id ≢ id) xs

-- The ids are distinct.
abbrev pub Distinct : List ApiRegistryEntry → Type 0
Distinct [] = Unit
Distinct (x ∷ xs) = Without x.id xs × Distinct xs

Distinct-before :
    (xs : List ApiRegistryEntry) (e : ApiRegistryEntry) (ys : List ApiRegistryEntry)
    → Distinct (xs ++ e ∷ ys)
    → Without e.id xs
Distinct-before [] e ys d = tt
Distinct-before (x ∷ xs) e ys d = (λ p. here xs e ys d.0 (sym p), Distinct-before xs e ys d.1)
  where
    here :
        (xs : List ApiRegistryEntry) (e : ApiRegistryEntry) (ys : List ApiRegistryEntry)
        {k : String}
        → Without k (xs ++ e ∷ ys)
        → e.id ≢ k
    here [] e ys a = a.0
    here (x ∷ xs) e ys a = here xs e ys a.1

rest_after-found :
    (xs : List ApiRegistryEntry) (e : ApiRegistryEntry) (ys : List ApiRegistryEntry)
    → Without e.id xs
    → rest_after (cursor_of e) (xs ++ e ∷ ys) ≡ some ys
unfolding rest_after
rest_after-found [] e ys w = ground arith
rest_after-found (x ∷ xs) e ys w = ground (arith, rest_after-found xs e ys w.1, w.0)

last_of-snoc : (xs : List ApiRegistryEntry) (e : ApiRegistryEntry) → last_of (xs ++ e ∷ []) ≡ some e
last_of-snoc [] e = refl
last_of-snoc (x ∷ []) e = refl
last_of-snoc (x ∷ y ∷ ys) e = last_of-snoc (y ∷ ys) e

-- A page that is not the last ends in an entry, behind which the rest stands.
split_page :
    (n : ℕ) (xs : List ApiRegistryEntry)
    → n + 1 < length xs
    → (init : List ApiRegistryEntry) × (e : ApiRegistryEntry) × (take (suc n) xs ≡ init ++ e ∷ [])
      × (xs ≡ init ++ e ∷ drop (suc n) xs)
split_page n [] h = absurd (omega (arith, h))
split_page zero (x ∷ xs) h = ([], x, refl, refl)
split_page (suc n) (x ∷ xs) h =
    let (init, e, p, q) = split_page n xs (omega (arith, h)) in
    (x ∷ init, e, ap (λ l. x ∷ l) p, ap (λ l. x ∷ l) q)

take-drop : (n : ℕ) (xs : List ApiRegistryEntry) → take n xs ++ drop n xs ≡ xs
take-drop zero xs = refl
take-drop (suc n) [] = refl
take-drop (suc n) (x ∷ xs) = ap (λ l. x ∷ l) (take-drop n xs)

take_all : (n : ℕ) (xs : List ApiRegistryEntry) → length xs ≤ n → take n xs ≡ xs
take_all zero [] h = refl
take_all zero (x ∷ xs) h = absurd (omega (arith, h))
take_all (suc n) [] h = refl
take_all (suc n) (x ∷ xs) h = ap (λ l. x ∷ l) (take_all n xs (omega (arith, h)))

length-take : (n : ℕ) (xs : List ApiRegistryEntry) → n ≤ length xs → length (take n xs) ≡ n
length-take zero xs h = refl
length-take (suc n) [] h = omega (arith, h)
length-take (suc n) (x ∷ xs) h = omega (arith, length-take n xs (omega (arith, h)))

append_assoc : (xs ys zs : List ApiRegistryEntry) → (xs ++ ys) ++ zs ≡ xs ++ (ys ++ zs)
append_assoc [] ys zs = refl
append_assoc (x ∷ xs) ys zs = ap (λ l. x ∷ l) (append_assoc xs ys zs)

and_false : (b : Bool) → (b && false) ≡ false
and_false b = ground arith

same_number : (a b : ℕ) → a ≡ b → (a == b) ≡ true
same_number a b h = ground (arith, h)

not_longer : (a b : ℕ) → b ≤ a → ltb a b ≡ false
not_longer a b h = ground (arith, h)

longer_false : (a b : ℕ) → ltb a b ≡ false → b ≤ a
longer_false a b h = ground (arith, h)

All-middle :
    (P : ApiRegistryEntry → Type 0) (pre : List ApiRegistryEntry) (e : ApiRegistryEntry)
    (ys : List ApiRegistryEntry)
    → All P (pre ++ e ∷ ys)
    → P e
All-middle P [] e ys h = h.0
All-middle P (x ∷ pre) e ys h = All-middle P pre e ys h.1

module _ (locale_le : String → String → Bool) (codec : CursorCodec) where
  insert_sorted-All :
      (P : ApiRegistryEntry → Type 0) (e : ApiRegistryEntry) (xs : List ApiRegistryEntry)
      → P e
      → All P xs
      → All P (insert_sorted locale_le codec e xs)
  unfolding insert_sorted
  insert_sorted-All P e [] h w = (h, tt)
  insert_sorted-All P e (x ∷ xs) h w =
      if-intro (All P) (goes_before locale_le codec e x) _ _ (λ q. (h, w))
        (λ q. (w.0, insert_sorted-All P e xs h w.1))

  insert_sorted-Distinct :
      (e : ApiRegistryEntry) (xs : List ApiRegistryEntry)
      → Without e.id xs
      → Distinct xs
      → Distinct (insert_sorted locale_le codec e xs)
  unfolding insert_sorted
  insert_sorted-Distinct e [] w d = (tt, tt)
  insert_sorted-Distinct e (x ∷ xs) w d =
      if-intro Distinct (goes_before locale_le codec e x) _ _ (λ q. (w, d))
        (λ q. (
          insert_sorted-All (λ y. y.id ≢ x.id) e xs (λ p. w.0 (sym p)) d.0,
          insert_sorted-Distinct e xs w.1 d.1,
        ))

  sorted-All :
      (P : ApiRegistryEntry → Type 0) (xs : List ApiRegistryEntry)
      → All P xs
      → All P (sorted locale_le codec xs)
  unfolding sorted
  sorted-All P [] w = tt
  sorted-All P (x ∷ xs) w = insert_sorted-All P x _ w.0 (sorted-All P xs w.1)

  sorted-Distinct :
      (xs : List ApiRegistryEntry) → Distinct xs → Distinct (sorted locale_le codec xs)
  unfolding sorted
  sorted-Distinct [] d = tt
  sorted-Distinct (x ∷ xs) d =
      insert_sorted-Distinct x _ (sorted-All (λ y. y.id ≢ x.id) xs d.0) (sorted-Distinct xs d.1)

  page_last :
      (m : ℕ) (rest : List ApiRegistryEntry)
      → length rest ≤ suc m
      → (page_of locale_le codec (suc m) rest).next_cursor ≡ none
  page_last m rest h =
      rw (not_longer (suc m) (length rest) h, and_false (length (take (suc m) rest) == suc m)) refl

  page_more :
      (m : ℕ) (rest init : List ApiRegistryEntry) (e : ApiRegistryEntry)
      → suc m < length rest
      → take (suc m) rest ≡ init ++ e ∷ []
      → (page_of locale_le codec (suc m) rest).next_cursor
        ≡ some (codec.encode_cursor (cursor_of e))
  page_more m rest init e h p =
      rw
        (
          same_number _ _ (length-take (suc m) rest (omega (arith, h))),
          lt→ltb (suc m) (length rest) h,
          p,
          last_of-snoc init e,
        )
        refl

  start_at-found :
      (c : CursorPayload) (xs ys : List ApiRegistryEntry)
      → codec.decode_cursor (codec.encode_cursor c) ≡ some c
      → codec.encode_cursor c ≢ ""
      → rest_after c xs ≡ some ys
      → start_at locale_le codec (some (codec.encode_cursor c)) xs ≡ ys
  unfolding start_at
  start_at-found c xs ys d n f =
      ite-intro (λ l. l ≡ ys) (str_dec (codec.encode_cursor c) "") _ _ (λ e. absurd (n e))
        (λ e. rw (d, f) refl)

  -- What a codec has to do for the entries: read back the cursors that it writes, which are no empty
  -- texts.
  abbrev pub ReadsBack : List ApiRegistryEntry → Type 0
  ReadsBack = All λ e.
      (codec.decode_cursor (codec.encode_cursor (cursor_of e)) ≡ some (cursor_of e))
      × (codec.encode_cursor (cursor_of e) ≢ "")

  start_at-next :
      (all pre init : List ApiRegistryEntry) (e : ApiRegistryEntry) (ys : List ApiRegistryEntry)
      → ReadsBack all
      → Distinct all
      → all ≡ pre ++ (init ++ e ∷ ys)
      → start_at locale_le codec (some (codec.encode_cursor (cursor_of e))) all ≡ ys
  start_at-next all pre init e ys c d q =
      let q' : all ≡ (pre ++ init) ++ e ∷ ys = q ∙ sym (append_assoc pre init (e ∷ ys)) in
      let (back, given) = All-middle _ (pre ++ init) e ys (subst ReadsBack q' c) in
      start_at-found (cursor_of e) all ys back given (
        subst (λ l. rest_after (cursor_of e) l ≡ some ys) (sym q')
          (rest_after-found (pre ++ init) e ys
            (Distinct-before (pre ++ init) e ys (subst Distinct q' d))))

  one_page :
      (fuel m : ℕ) (r : ApiRegistry) (cursor : Option String) (rest : List ApiRegistryEntry)
      → start_at locale_le codec cursor (sorted locale_le codec (values r.by_id)) ≡ rest
      → read_pages locale_le codec (suc fuel) (suc m) r cursor
        ≡ follow locale_le codec
            (λ c. read_pages locale_le codec fuel (suc m) r c)
            (take (suc m) rest)
            (page_of locale_le codec (suc m) rest).next_cursor
  unfolding read_pages list
  one_page fuel m r cursor rest e = rw e refl

  pages_from :
      (fuel m : ℕ) (r : ApiRegistry) (cursor : Option String) (pre rest : List ApiRegistryEntry)
      → ReadsBack (sorted locale_le codec (values r.by_id))
      → Distinct (sorted locale_le codec (values r.by_id))
      → start_at locale_le codec cursor (sorted locale_le codec (values r.by_id)) ≡ rest
      → sorted locale_le codec (values r.by_id) ≡ pre ++ rest
      → length rest ≤ fuel
      → read_pages locale_le codec fuel (suc m) r cursor ≡ rest
  unfolding read_pages
  pages_from zero m r cursor pre [] c d e q h = refl
  pages_from zero m r cursor pre (x ∷ xs) c d e q h = absurd (omega (arith, h))
  pages_from (suc fuel) m r cursor pre rest c d e q h =
      one_page fuel m r cursor rest e ∙ elim (Bool-cases (ltb (suc m) (length rest))) [
        | inr f ↦
            ap
              (λ o.
                follow locale_le codec (λ k. read_pages locale_le codec fuel (suc m) r k)
                  (take (suc m) rest) o)
              (page_last m rest (omega (arith, longer_false _ _ f)))
            ∙ take_all (suc m) rest (longer_false _ _ f)
        | inl t ↦
            let (init, x, p, s) = split_page m rest (omega (arith, ltb→lt _ _ t)) in
            let next = q ∙ ap (λ l. pre ++ l) s in
            ap
              (λ o.
                follow locale_le codec (λ k. read_pages locale_le codec fuel (suc m) r k)
                  (take (suc m) rest) o)
              (page_more m rest init x (ltb→lt _ _ t) p)
            ∙ ap (λ l. take (suc m) rest ++ l)
                (pages_from fuel m r _ (pre ++ (init ++ x ∷ [])) (drop (suc m) rest) c d
                  (start_at-next _ pre init x (drop (suc m) rest) c d next)
                  (next
                    ∙ ap (λ l. pre ++ l) (sym (append_assoc init (x ∷ []) (drop (suc m) rest)))
                    ∙ sym (append_assoc pre (init ++ x ∷ []) (drop (suc m) rest)))
                  (omega (arith, h, length-drop (suc m) rest)))
            ∙ take-drop (suc m) rest
      ]

  -- Reading page after page from the start, with a positive limit and as much fuel as there are APIs,
  -- gives every API of the registry once, in the order of the listing, if their ids are distinct and
  -- the codec reads back the cursors that it writes for them.
  pub read_pages_lem :
      (m : ℕ) (r : ApiRegistry)
      → ReadsBack (values r.by_id)
      → Distinct (values r.by_id)
      → read_pages locale_le codec (length (sorted locale_le codec (values r.by_id))) (suc m) r none
        ≡ sorted locale_le codec (values r.by_id)
  unfolding start_at
  read_pages_lem m r c d =
      pages_from _ m r none [] (sorted locale_le codec (values r.by_id))
        (sorted-All _ (values r.by_id) c) (sorted-Distinct (values r.by_id) d) refl refl
        (omega arith)
