-- ===== src/ListQuery/Cursor.antt =====
-- libs/shared/list-query/cursor.ts: cursors of list requests, encoded and decoded.
pub mod Tests
pub mod Decoded
pub mod RoundTrip
use backend_core_kit.Prelude.{
  ℕ, ◌==◌, ◌≡◌, ltb, Bool, true, false, not, ◌||◌, Option, none, some, List, [], ◌∷◌, ◌++◌, length,
  Text, text_eq, trim, is_empty, is_some, if◌then◌else◌,
}
use backend_core_kit.Db.{Result, ok, err}
use backend_core_kit.ListQuery.Sort.{CursorFieldType}
use backend_core_kit.ListQuery.Scalars.{
  Json, number_value, bool_value, string_value, object_value, JsonFields, empty_object, field,
  Scalar, text_scalar, number_scalar, bool_scalar, Runtime, parse_scalar,
}

-- The runtime's codecs: base64url of UTF-8, whose decoding never throws, and JSON.
pub record Codec : Type 0 where
  pub base64url_encode : Text → Text
  pub base64url_decode : Text → Text
  pub stringify : Json → Text
  pub parse : Text → Option Json

-- What is written is read back. It holds of payloads without numbers that are not finite, and without
-- lone surrogates.
abbrev pub IsReadBack : Codec → Json → Type 0
IsReadBack codec j =
    codec.parse (codec.base64url_decode (codec.base64url_encode (codec.stringify j))) ≡ some j

-- A payload of version 1; `after` holds no field twice.
pub record CursorPayloadV1 : Type 0 where
  pub sort : Text
  pub after : List (Text × Scalar)

pub data CursorIssue : Type 0 where
  too_long invalid_json invalid_payload : CursorIssue
  unsupported_version sort_missing sort_mismatch after_missing : CursorIssue
  unsupported_fields : CursorIssue
  invalid_value missing_field : Text → CursorIssue

abbrev pub max_cursor_length : ℕ
max_cursor_length = 4096

abbrev pub scalar_json : Scalar → Json
scalar_json (text_scalar t) = string_value t
scalar_json (number_scalar n) = number_value n
scalar_json (bool_scalar b) = bool_value b

abbrev pub after_json : List (Text × Scalar) → JsonFields
after_json [] = empty_object
after_json ((name, value) ∷ after) = field name (scalar_json value) (after_json after)

-- The property names `v`, `sort` and `after`.
abbrev pub v_name : Text
v_name = 118 ∷ []

abbrev pub sort_name : Text
sort_name = 115 ∷ 111 ∷ 114 ∷ 116 ∷ []

abbrev pub after_name : Text
after_name = 97 ∷ 102 ∷ 116 ∷ 101 ∷ 114 ∷ []

abbrev pub payload_json : Runtime → CursorPayloadV1 → Json
payload_json js p = object_value (
    field v_name (number_value js.one) (
      field sort_name (string_value p.sort)
        (field after_name (object_value (after_json p.after)) empty_object)))

unfoldable pub encode_cursor_v1 : Runtime → Codec → CursorPayloadV1 → Text
encode_cursor_v1 js codec p = codec.base64url_encode (codec.stringify (payload_json js p))

-- A property of an object, or none for undefined.
abbrev pub property : Text → JsonFields → Option Json
property name empty_object = none
property name (field n value fields) = if text_eq n name then some value else property name fields

abbrev pub value_of : Text → List (Text × Scalar) → Option Scalar
value_of name [] = none
value_of name ((n, value) ∷ after) = if text_eq n name then some value else value_of name after

-- isPlainObject.
abbrev pub plain_object : Option Json → Option JsonFields
plain_object (some (object_value fields)) = some fields
plain_object _ = none

abbrev pub version_issues : Runtime → Option Json → List CursorIssue
version_issues js (some (number_value n)) = if n == js.one then [] else unsupported_version ∷ []
version_issues js _ = unsupported_version ∷ []

abbrev pub sort_issues : Text → Option Json → List CursorIssue
sort_issues expected (some (string_value t)) =
    if is_empty (trim t)
    then sort_missing ∷ []
    else if text_eq t expected
    then []
    else sort_mismatch ∷ []
sort_issues expected _ = sort_missing ∷ []

abbrev pub after_issues : Option JsonFields → List CursorIssue
after_issues none = after_missing ∷ []
after_issues (some fields) = []

abbrev pub fields_or_none : Option JsonFields → JsonFields
fields_or_none none = empty_object
fields_or_none (some fields) = fields

module _ (js : Runtime) (codec : Codec) (expected_sort : Text) (sort_fields : List Text)
    (allowed : Text → Option CursorFieldType) where
  abbrev pub parsed_value : Option CursorFieldType → Json → Option Scalar
  parsed_value none value = none
  parsed_value (some type) value = parse_scalar js type value

  -- One entry of `after` in front of what the others gave.
  abbrev pub add_entry :
      Text
      → Option CursorFieldType
      → Option Scalar
      → List CursorIssue × List (Text × Scalar)
      → List CursorIssue × List (Text × Scalar)
  add_entry name none value rest = (unsupported_fields ∷ rest.0, rest.1)
  add_entry name (some type) none rest = (invalid_value name ∷ rest.0, rest.1)
  add_entry name (some type) (some value) rest = (rest.0, (name, value) ∷ rest.1)

  -- The loop over the entries of `after`.
  unfoldable pub parse_entries : JsonFields → List CursorIssue × List (Text × Scalar)
  parse_entries empty_object = ([], [])
  parse_entries (field name value fields) =
      add_entry name (allowed name) (parsed_value (allowed name) value) (parse_entries fields)

  -- The loop over the sort fields.
  unfoldable pub missing_issues : List Text → List (Text × Scalar) → List CursorIssue
  missing_issues [] after = []
  missing_issues (name ∷ names) after =
      if is_some (value_of name after)
      then missing_issues names after
      else missing_field name ∷ missing_issues names after

  abbrev pub accept_after :
      List CursorIssue → List (Text × Scalar) → Result (List CursorIssue) CursorPayloadV1
  accept_after [] after = ok (record { sort = expected_sort; after = after })
  accept_after (i ∷ issues) after = err (i ∷ issues)

  abbrev pub check_entries :
      List CursorIssue × List (Text × Scalar) → Result (List CursorIssue) CursorPayloadV1
  check_entries entries = accept_after (entries.0 ++ missing_issues sort_fields entries.1) entries.1

  abbrev pub check_payload :
      List CursorIssue → JsonFields → Result (List CursorIssue) CursorPayloadV1
  check_payload [] fields = check_entries (parse_entries fields)
  check_payload (i ∷ issues) fields = err (i ∷ issues)

  abbrev pub read_payload : JsonFields → Result (List CursorIssue) CursorPayloadV1
  read_payload fields =
      let after = plain_object (property after_name fields) in
      check_payload
        (version_issues js (property v_name fields)
          ++ sort_issues expected_sort (property sort_name fields)
          ++ after_issues after)
        (fields_or_none after)

  abbrev pub read_parsed : Option Json → Result (List CursorIssue) CursorPayloadV1
  read_parsed none = err (invalid_json ∷ [])
  read_parsed (some (object_value fields)) = read_payload fields
  read_parsed (some _) = err (invalid_payload ∷ [])

  unfoldable pub decode_cursor_v1 : Text → Result (List CursorIssue) CursorPayloadV1
  decode_cursor_v1 cursor =
      if ltb max_cursor_length (length cursor)
      then err (too_long ∷ [])
      else read_parsed (codec.parse (codec.base64url_decode cursor))
