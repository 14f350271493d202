-- ===== src/Tests/Listing.antt =====
-- The pages of a registry of three APIs, with a cursor that writes its time in strokes.
use Prim.Native.Char.{code}
use callora_backend.Common.{
  ℕ, zero, suc, ◌≡◌, ◌≢◌, refl, sym, ap, ◌∙◌, String, [], ◌∷◌, Bool, arith, false, Option, none,
  some, ◌==◌, if◌then◌else◌, length, map, values, str_ne, str_dec,
}
use callora_backend.Gateway.Route.{prefixed}
use callora_backend.Registry.{ApiRegistryEntry, ApiRegistry}
use callora_backend.Registry.Pages.{CursorPayload, CursorCodec, sorted, read_pages}
use callora_backend.Registry.Pages.Walk.{Distinct, ReadsBack, read_pages_lem}

abbrev strokes : ℕ → String → String
strokes zero id = prefixed "b" id
strokes (suc n) id = prefixed "a" (strokes n id)

abbrev one_more : Option CursorPayload → Option CursorPayload
one_more none = none
one_more (some c) = some (record c { timestamp = suc c.timestamp })

abbrev count_strokes : String → Option CursorPayload
count_strokes String.[] = none
count_strokes (String.◌∷◌ c s) =
    let rest = count_strokes s in
    if code c == 97 then one_more rest else some (record { timestamp = 0; id = s })

abbrev codec : CursorCodec
codec = record { encode_cursor = λ c. strokes c.timestamp c.id; decode_cursor = count_strokes }

abbrev falling : String → String → Bool
falling a b = false

count-strokes :
    (n : ℕ) (id : String) → count_strokes (strokes n id) ≡ some (record { timestamp = n; id = id })
count-strokes zero id = refl
count-strokes (suc n) id = ap one_more (count-strokes n id)

not_none : (c : CursorPayload) → some c ≢ none
not_none c e = ground (arith, e)

strokes-empty : (n : ℕ) (id : String) → strokes n id ≢ ""
strokes-empty n id e = not_none _ (sym (count-strokes n id) ∙ ap count_strokes e)

abbrev k1 : String
k1 = "a1"

abbrev k2 : String
k2 = "a2"

abbrev k3 : String
k3 = "a3"

abbrev api : String → ℕ → ApiRegistryEntry
api id at = record {
  id = id;
  slug = id;
  base_url = "https://example.org";
  developer_id = "dev";
  endpoints = [];
  created_at = some at;
}

abbrev three : ApiRegistry
three = record { by_id = (k1, api k1 3) ∷ (k2, api k2 5) ∷ (k3, api k3 4) ∷ []; by_slug = [] }

three-ReadsBack : ReadsBack falling codec (values three.by_id)
unfolding values
three-ReadsBack = (
  (count-strokes 3 k1, strokes-empty 3 k1),
  ((count-strokes 5 k2, strokes-empty 5 k2), ((count-strokes 4 k3, strokes-empty 4 k3), tt)),
)

read_run : map (λ e. e.id) (read_pages falling codec 3 2 three none) ≡ k2 ∷ k3 ∷ k1 ∷ []
unfolding read_pages str_dec values
read_run = refl

three-Distinct : Distinct (values three.by_id)
unfolding str_dec values
three-Distinct = ((str_ne k2 k1 refl, (str_ne k3 k1 refl, tt)), ((str_ne k3 k2 refl, tt), (tt, tt)))

read_pages_lem_example :
    read_pages falling codec (length (sorted falling codec (values three.by_id))) 2 three none
    ≡ sorted falling codec (values three.by_id)
read_pages_lem_example = read_pages_lem falling codec 1 three three-ReadsBack three-Distinct
