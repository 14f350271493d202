-- ===== src/Registry/Cursors.antt =====
-- lib/cursorPagination.ts: `encodeCursor` and `decodeCursor`, over the dates, JSON and base64 of the
-- platform.
use callora_backend.Common.{ℕ, ◌≤◌, ◌≡◌, ◌≢◌, refl, String, Option, none, some, List, [], ◌∷◌, All}
use callora_backend.Registry.{ApiRegistryEntry}
use callora_backend.Registry.Pages.{CursorPayload, CursorCodec, cursor_of, time_or_zero}
use callora_backend.Registry.Pages.Walk.{ReadsBack}

-- What the text of a cursor parses to, as far as it is looked at: an object, with those of its two
-- fields that are texts, or something else.
pub data JsonValue : Type 0 where
  object : (timestamp id : Option String) → JsonValue
  no_object : JsonValue

-- The platform: `toISOString`, the parsing of a date (`none` is an invalid one), `JSON.stringify` of an
-- object with the two fields, `JSON.parse` (`none` is a throw), and base64 over UTF-8.
pub record Platform : Type 0 where
  pub to_iso_string : ℕ → String
  pub parse_date : String → Option ℕ
  pub stringify : (timestamp id : String) → String
  pub parse_json : String → Option JsonValue
  pub to_base64 : String → String
  pub from_base64 : String → String

-- The last time that a `Date` can hold.
abbrev pub last_time : ℕ
last_time = 8640000000000000

-- The documented behaviour of the platform on what `encodeCursor` gives it.
pub record IsDocumented (platform : Platform) : Type 0 where
  pub date : (t : ℕ) → t ≤ last_time → platform.parse_date (platform.to_iso_string t) ≡ some t
  pub json :
      (t id : String)
      → platform.parse_json (platform.stringify t id) ≡ some (object (some t) (some id))
  pub base64 :
      (t id : String)
      → platform.from_base64 (platform.to_base64 (platform.stringify t id))
        ≡ platform.stringify t id
  pub not_empty : (t id : String) → platform.to_base64 (platform.stringify t id) ≢ ""

module _ (platform : Platform) where
  open platform use {to_iso_string, parse_date, stringify, parse_json, to_base64, from_base64}

  unfoldable pub encode_cursor : CursorPayload → String
  encode_cursor c = to_base64 (stringify (to_iso_string c.timestamp) c.id)

  abbrev pub with_date : String → Option ℕ → Option CursorPayload
  with_date id none = none
  with_date id (some t) = some (record { timestamp = t; id = id })

  abbrev pub decode_json : Option JsonValue → Option CursorPayload
  decode_json none = none
  decode_json (some no_object) = none
  decode_json (some (object none id)) = none
  decode_json (some (object (some t) none)) = none
  decode_json (some (object (some t) (some id))) = with_date id (parse_date t)

  unfoldable pub decode_cursor : String → Option CursorPayload
  decode_cursor cursor = decode_json (parse_json (from_base64 cursor))

  abbrev pub cursor_codec : CursorCodec
  cursor_codec = record { encode_cursor = encode_cursor; decode_cursor = decode_cursor }

  module _ (law : IsDocumented platform) where
    -- A cursor whose time a `Date` can hold is read back.
    pub decode-encode :
        (c : CursorPayload) → c.timestamp ≤ last_time → decode_cursor (encode_cursor c) ≡ some c
    unfolding decode_cursor encode_cursor
    decode-encode c h =
        rw
          (
            law.base64 (to_iso_string c.timestamp) c.id,
            law.json (to_iso_string c.timestamp) c.id,
            law.date c.timestamp h,
          )
          refl

    encode-given : (c : CursorPayload) → encode_cursor c ≢ ""
    unfolding encode_cursor
    encode-given c = law.not_empty (to_iso_string c.timestamp) c.id

    -- The codec does what reading all pages of a registry needs, when a `Date` can hold the times of
    -- its entries.
    cursor_codec-ReadsBack :
        (locale_le : String → String → _) (xs : List ApiRegistryEntry)
        → All (λ (e : ApiRegistryEntry). time_or_zero e.created_at ≤ last_time) xs
        → ReadsBack locale_le cursor_codec xs
    cursor_codec-ReadsBack locale_le [] h = tt
    cursor_codec-ReadsBack locale_le (e ∷ es) h = (
      (decode-encode (cursor_of e) h.0, encode-given (cursor_of e)),
      cursor_codec-ReadsBack locale_le es h.1,
    )
