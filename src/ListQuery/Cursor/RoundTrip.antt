-- ===== src/ListQuery/Cursor/RoundTrip.antt =====
-- A cursor that was encoded decodes to its payload.
use backend_core_kit.Prelude.{
  ◌≡◌, ◌≤◌, refl, arith, true, false, Option, some, is_some, List, [], ◌∷◌, All, all, length, ltb,
  Text, text_eq_refl, trim, is_empty, ==_refl,
}
use backend_core_kit.Db.{ok}
use backend_core_kit.ListQuery.Sort.{CursorFieldType}
use backend_core_kit.ListQuery.Scalars.{Scalar, Runtime, parse_scalar}
use backend_core_kit.ListQuery.Cursor.{
  Codec, IsReadBack, CursorPayloadV1, max_cursor_length, scalar_json, after_json, payload_json,
  encode_cursor_v1, value_of, parse_entries, missing_issues, read_parsed, decode_cursor_v1,
}

-- A value that is what is parsed from it, under an allowed field: what a parsed cursor holds.
abbrev pub IsCanonical : Runtime → (Text → Option CursorFieldType) → Text × Scalar → Type 0
IsCanonical js allowed e =
    (type : CursorFieldType) × (allowed e.0 ≡ some type)
    × (parse_scalar js type (scalar_json e.1) ≡ some e.1)

module _ (js : Runtime) (codec : Codec) (p : CursorPayloadV1) (sort_fields : List Text)
    (allowed : Text → Option CursorFieldType) where
  entries-back :
      (after : List (Text × Scalar))
      → All (IsCanonical js allowed) after
      → parse_entries js codec p.sort sort_fields allowed (after_json after) ≡ ([], after)
  unfolding parse_entries
  entries-back [] canonical = refl
  entries-back ((name, value) ∷ after) ((type, is_allowed, parses), canonical) =
      rw (is_allowed, parses, entries-back after canonical) refl

  complete-missing :
      (names : List Text) (after : List (Text × Scalar))
      → all (λ name. is_some (value_of name after)) names ≡ true
      → missing_issues js codec p.sort sort_fields allowed names after ≡ []
  unfolding missing_issues
  complete-missing [] after h = refl
  complete-missing (name ∷ names) after h =
      let there : is_some (value_of name after) ≡ true = ground arith in
      rw there (complete-missing names after (ground arith))

  payload-back :
      is_empty (trim p.sort) ≡ false
      → All (IsCanonical js allowed) p.after
      → all (λ name. is_some (value_of name p.after)) sort_fields ≡ true
      → read_parsed js codec p.sort sort_fields allowed (some (payload_json js p)) ≡ ok p
  payload-back filled canonical complete =
      rw
        (
          ==_refl js.one,
          filled,
          text_eq_refl p.sort,
          entries-back p.after canonical,
          complete-missing sort_fields p.after complete,
        )
        refl

-- A cursor that base64url and JSON read back, of at most 4096 characters, for an order that is not
-- blank, whose values are each what is
-- parsed from it under an allowed field and cover the sort fields, decodes to the encoded payload.
pub decode_cursor_v1-encode_cursor_v1 :
    (js : Runtime) (codec : Codec) (p : CursorPayloadV1) (sort_fields : List Text)
    (allowed : Text → Option CursorFieldType)
    → IsReadBack codec (payload_json js p)
    → length (encode_cursor_v1 js codec p) ≤ max_cursor_length
    → is_empty (trim p.sort) ≡ false
    → All (IsCanonical js allowed) p.after
    → all (λ name. is_some (value_of name p.after)) sort_fields ≡ true
    → decode_cursor_v1 js codec p.sort sort_fields allowed (encode_cursor_v1 js codec p) ≡ ok p
unfolding decode_cursor_v1 encode_cursor_v1
decode_cursor_v1-encode_cursor_v1 js codec p sort_fields allowed read_back fits filled canonical
      complete =
    let short : ltb max_cursor_length (length (encode_cursor_v1 js codec p)) ≡ false =
      ground arith in
    rw (short, read_back) (payload-back js codec p sort_fields allowed filled canonical complete)
