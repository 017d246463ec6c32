-- ===== src/ListQuery/Cursor/Tests.antt =====
-- A cursor for an order by one field.
use backend_core_kit.Prelude.{
  ℕ, ◌≡◌, refl, arith, true, Option, none, some, List, [], ◌∷◌, Text, text_eq, map, if◌then◌else◌,
}
use backend_core_kit.Db.{ok}
use backend_core_kit.ListQuery.CursorAfter.{SortSpec, asc, CursorAfterBuilders}
use backend_core_kit.ListQuery.Sort.{CursorFieldType, string_field}
use backend_core_kit.ListQuery.Scalars.{Scalar, text_scalar, Runtime, parse_scalar, parse_string}
use backend_core_kit.ListQuery.Cursor.{
  Codec, CursorPayloadV1, payload_json, encode_cursor_v1, parse_entries, missing_issues,
  decode_cursor_v1,
}
use backend_core_kit.ListQuery.Cursor.RoundTrip.{IsCanonical, decode_cursor_v1-encode_cursor_v1}

abbrev id_name : Text
id_name = 105 ∷ 100 ∷ []

abbrev allowed : Text → Option CursorFieldType
allowed name = if text_eq name id_name then some string_field else none

abbrev js : Runtime
js = record {
  to_number = λ t. 0;
  is_finite = λ n. true;
  lower_case = λ t. t;
  to_iso_string = λ t. some t;
  one = 1;
  integer_of = λ n. some n;
}

-- The cursor after the row `id = "A"`, in the order `id`.
abbrev payload : CursorPayloadV1
payload = record { sort = id_name; after = (id_name, text_scalar (65 ∷ [])) ∷ [] }

-- A codec that knows this payload only.
abbrev codec : Codec
codec = record {
  base64url_encode = λ t. t;
  base64url_decode = λ t. t;
  stringify = λ j. 65 ∷ [];
  parse = λ t. if text_eq t (65 ∷ []) then some (payload_json js payload) else none;
}

value-IsCanonical : IsCanonical js allowed (id_name, text_scalar (65 ∷ []))
unfolding parse_scalar parse_string
value-IsCanonical = (string_field, refl, refl)

decode_cursor_v1-encode_cursor_v1_example :
    decode_cursor_v1 js codec id_name (id_name ∷ []) allowed (encode_cursor_v1 js codec payload)
    ≡ ok payload
unfolding encode_cursor_v1
decode_cursor_v1-encode_cursor_v1_example =
    decode_cursor_v1-encode_cursor_v1 js codec payload (id_name ∷ []) allowed refl (ground arith)
      refl (value-IsCanonical, tt) refl

abbrev by_id : List (SortSpec Text)
by_id = record { field = id_name; direction = asc } ∷ []

-- Filters that only count their parts.
abbrev builders : CursorAfterBuilders Text Scalar ℕ
builders = record {
  equals = λ name value. 1;
  compare = λ name direction value. 1;
  and = λ filters. 2;
  or = λ filters. 3;
  empty = 0;
}

cursor_is_decoded :
    decode_cursor_v1 js codec id_name (map (λ (s : SortSpec Text). s.field) by_id) allowed (65 ∷ [])
    ≡ ok payload
unfolding decode_cursor_v1 parse_entries parse_scalar parse_string missing_issues
cursor_is_decoded = refl
