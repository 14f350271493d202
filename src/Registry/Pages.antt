-- ===== src/Registry/Pages.antt =====
-- data/apiRegistry.ts, `InMemoryApiRegistry.list`: the pages of the registry. The comparison of ids,
-- localeCompare, is a parameter; the codec of cursors is an interface, which Registry/Cursors fills.
pub mod Walk
use callora_backend.Common.{
  ℕ, zero, suc, String, List, [], ◌∷◌, ◌++◌, Bool, true, false, ◌&&◌, ◌==◌, Option, none, some, ltb,
  if◌then◌else◌, ite, str_dec, length, values,
}
use callora_backend.Registry.{ApiRegistryEntry, ApiRegistry}

-- `CursorPayload`
pub record CursorPayload : Type 0 where
  pub timestamp : ℕ
  pub id : String

-- `PaginatedApiList`
pub record PaginatedApiList : Type 0 where
  pub entries : List ApiRegistryEntry
  pub next_cursor : Option String

pub record CursorCodec : Type 0 where
  pub encode_cursor : CursorPayload → String
  pub decode_cursor : String → Option CursorPayload

abbrev pub time_or_zero : Option ℕ → ℕ
time_or_zero none = 0
time_or_zero (some t) = t

abbrev pub cursor_of : ApiRegistryEntry → CursorPayload
cursor_of e = record { timestamp = time_or_zero e.created_at; id = e.id }

-- `s.slice(0, n)` on entries
abbrev pub take : ℕ → List ApiRegistryEntry → List ApiRegistryEntry
take zero xs = []
take (suc n) [] = []
take (suc n) (x ∷ xs) = x ∷ take n xs

abbrev pub last_of : List ApiRegistryEntry → Option ApiRegistryEntry
last_of [] = none
last_of (x ∷ []) = some x
last_of (x ∷ y ∷ ys) = last_of (y ∷ ys)

abbrev pub is_at : CursorPayload → ApiRegistryEntry → Bool
is_at c e = time_or_zero e.created_at == c.timestamp && ite (str_dec e.id c.id) true false

-- The entries behind the one that the cursor names.
unfoldable pub rest_after : CursorPayload → List ApiRegistryEntry → Option (List ApiRegistryEntry)
rest_after c [] = none
rest_after c (e ∷ es) = let rest = rest_after c es in if is_at c e then some es else rest

module _ (locale_le : String → String → Bool) (codec : CursorCodec) where
  open codec use {encode_cursor, decode_cursor}

  -- The comparison: later first, then by falling id.
  abbrev pub goes_before : ApiRegistryEntry → ApiRegistryEntry → Bool
  goes_before a b =
      if time_or_zero a.created_at == time_or_zero b.created_at
      then locale_le b.id a.id
      else ltb (time_or_zero b.created_at) (time_or_zero a.created_at)

  unfoldable pub insert_sorted : ApiRegistryEntry → List ApiRegistryEntry → List ApiRegistryEntry
  insert_sorted e [] = e ∷ []
  insert_sorted e (x ∷ xs) =
      let rest = insert_sorted e xs in if goes_before e x then e ∷ x ∷ xs else x ∷ rest

  unfoldable pub sorted : List ApiRegistryEntry → List ApiRegistryEntry
  unfolding insert_sorted
  sorted [] = []
  sorted (e ∷ es) = insert_sorted e (sorted es)

  abbrev pub or_all : Option (List ApiRegistryEntry) → List ApiRegistryEntry → List ApiRegistryEntry
  or_all none xs = xs
  or_all (some rest) xs = rest

  abbrev pub from_payload : Option CursorPayload → List ApiRegistryEntry → List ApiRegistryEntry
  from_payload none xs = xs
  from_payload (some c) xs = or_all (rest_after c xs) xs

  -- The entries from `startIndex` on.
  unfoldable pub start_at : Option String → List ApiRegistryEntry → List ApiRegistryEntry
  unfolding rest_after
  start_at none xs = xs
  start_at (some cursor) xs = ite (str_dec cursor "") xs (from_payload (decode_cursor cursor) xs)

  abbrev pub cursor_after : Option ApiRegistryEntry → Option String
  cursor_after none = none
  cursor_after (some e) = some (encode_cursor (cursor_of e))

  -- A page of `rest`, for a positive limit.
  abbrev pub page_of : ℕ → List ApiRegistryEntry → PaginatedApiList
  page_of limit rest =
      let page = take limit rest in
      record {
        entries = page;
        next_cursor =
            if length page == limit && ltb limit (length rest)
            then cursor_after (last_of page)
            else none;
      }

  -- `list`
  unfoldable pub list : Option String → ℕ → ApiRegistry → PaginatedApiList
  unfolding sorted start_at values
  list cursor limit r = page_of limit (start_at cursor (sorted (values r.by_id)))

  abbrev pub follow :
      (Option String → List ApiRegistryEntry)
      → List ApiRegistryEntry
      → Option String
      → List ApiRegistryEntry
  follow next es none = es
  follow next es (some c) = es ++ next (some c)

  -- A client that reads page after page, `fuel` pages at most.
  unfoldable pub read_pages : ℕ → ℕ → ApiRegistry → Option String → List ApiRegistryEntry
  unfolding list
  read_pages zero limit r cursor = []
  read_pages (suc fuel) limit r cursor =
      let page = list cursor limit r in
      follow (λ c. read_pages fuel limit r c) page.entries page.next_cursor
