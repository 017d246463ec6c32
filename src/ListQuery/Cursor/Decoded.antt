-- ===== src/ListQuery/Cursor/Decoded.antt =====
-- A cursor that is accepted belongs to the order, and the rows after it can be selected.
use backend_core_kit.Prelude.{
  ◌≡◌, ◌≤◌, refl, arith, true, Option, none, some, is_some, List, [], ◌∷◌, ◌++◌, all, length, ltb,
  Text, map, Bool-cases, inl, inr,
}
use backend_core_kit.Db.{ok}
use backend_core_kit.ListQuery.CursorAfter.{SortSpec, CursorAfterBuilders, build_cursor_after_where}
use backend_core_kit.ListQuery.CursorAfter.Total.{has_values, build_cursor_after_where-total}
use backend_core_kit.ListQuery.Sort.{CursorFieldType}
use backend_core_kit.ListQuery.Scalars.{
  Json, null_value, bool_value, number_value, string_value, array_value, object_value, JsonFields,
  empty_object, field, Scalar, Runtime,
}
use backend_core_kit.ListQuery.Cursor.{
  Codec, CursorPayloadV1, CursorIssue, max_cursor_length, value_of, parse_entries, missing_issues,
  accept_after, check_payload, read_parsed, decode_cursor_v1, parsed_value, add_entry,
}

-- A payload that is accepted.
pub record IsAccepted (expected : Text) (sort_fields : List Text)
    (allowed : Text → Option CursorFieldType) (p : CursorPayloadV1) : Type 0 where
  pub same_sort : p.sort ≡ expected
  pub complete : all (λ name. is_some (value_of name p.after)) sort_fields ≡ true
  pub only_allowed : all (λ e. is_some (allowed e.0)) p.after ≡ true

module _ (js : Runtime) (codec : Codec) (expected : Text) (sort_fields : List Text)
    (allowed : Text → Option CursorFieldType) where
  add_entry-allowed :
      (name : Text) (type : Option CursorFieldType) (value : Option Scalar)
      (rest : List CursorIssue × List (Text × Scalar))
      → allowed name ≡ type
      → all (λ e. is_some (allowed e.0)) rest.1 ≡ true
      → all
          (λ e. is_some (allowed e.0))
          (add_entry js codec expected sort_fields allowed name type value rest).1
        ≡ true
  add_entry-allowed name none value rest e h = h
  add_entry-allowed name (some type) none rest e h = h
  add_entry-allowed name (some type) (some value) rest e h = ground arith

  parse_entries-allowed :
      (fields : JsonFields)
      → all
          (λ e. is_some (allowed e.0))
          (parse_entries js codec expected sort_fields allowed fields).1
        ≡ true
  unfolding parse_entries
  parse_entries-allowed empty_object = refl
  parse_entries-allowed (field name value fields) =
      add_entry-allowed name (allowed name)
        (parsed_value js codec expected sort_fields allowed (allowed name) value)
        (parse_entries js codec expected sort_fields allowed fields) refl
        (parse_entries-allowed fields)

  missing_issues_complete :
      (names : List Text) (after : List (Text × Scalar))
      → missing_issues js codec expected sort_fields allowed names after ≡ []
      → all (λ name. is_some (value_of name after)) names ≡ true
  unfolding missing_issues
  missing_issues_complete [] after = λ h. refl
  missing_issues_complete (name ∷ names) after = elim (Bool-cases (is_some (value_of name after))) [
    | inl there ↦ rw there (missing_issues_complete names after)
    | inr missing ↦ rw missing (λ h. cc h)
  ]

  -- Only without an issue is there a payload.
  accept_after-ok :
      (xs ys : List CursorIssue) (after : List (Text × Scalar)) (p : CursorPayloadV1)
      → accept_after js codec expected sort_fields allowed (xs ++ ys) after ≡ ok p
      → (ys ≡ []) × (p ≡ record { sort = expected; after = after })
  accept_after-ok [] [] after p h = (refl, cc)
  accept_after-ok [] (y ∷ ys) after p h = cc h
  accept_after-ok (x ∷ xs) ys after p h = cc h

  check_payload-IsAccepted :
      (issues : List CursorIssue) (fields : JsonFields) (p : CursorPayloadV1)
      → check_payload js codec expected sort_fields allowed issues fields ≡ ok p
      → IsAccepted expected sort_fields allowed p
  check_payload-IsAccepted (i ∷ issues) fields p h = cc h
  check_payload-IsAccepted [] fields p h =
      let r = parse_entries js codec expected sort_fields allowed fields in
      let (none_missing, same) =
        accept_after-ok r.0 (missing_issues js codec expected sort_fields allowed sort_fields r.1)
          r.1 p h in
      rw same (record {
        same_sort = refl;
        complete = missing_issues_complete sort_fields r.1 none_missing;
        only_allowed = parse_entries-allowed fields;
      })

  read_parsed-IsAccepted :
      (parsed : Option Json) (p : CursorPayloadV1)
      → read_parsed js codec expected sort_fields allowed parsed ≡ ok p
      → IsAccepted expected sort_fields allowed p
  read_parsed-IsAccepted none p h = cc h
  read_parsed-IsAccepted (some (object_value fields)) p h = check_payload-IsAccepted _ _ p h
  read_parsed-IsAccepted (some null_value) p h = cc h
  read_parsed-IsAccepted (some (bool_value b)) p h = cc h
  read_parsed-IsAccepted (some (number_value n)) p h = cc h
  read_parsed-IsAccepted (some (string_value t)) p h = cc h
  read_parsed-IsAccepted (some (array_value items)) p h = cc h

  -- A cursor that is accepted is at most 4096 characters long, was made for the expected order, has a
  -- value for each sort field and only allowed fields.
  pub decode_cursor_v1-IsAccepted :
      (cursor : Text) (p : CursorPayloadV1)
      → decode_cursor_v1 js codec expected sort_fields allowed cursor ≡ ok p
      → (length cursor ≤ max_cursor_length) × IsAccepted expected sort_fields allowed p
  unfolding decode_cursor_v1
  decode_cursor_v1-IsAccepted cursor p = elim (Bool-cases (ltb max_cursor_length (length cursor))) [
    | inl long ↦ rw long (λ h. cc h)
    | inr fits ↦ rw fits (λ h.
        (ground arith, read_parsed-IsAccepted (codec.parse (codec.base64url_decode cursor)) p h))
  ]

names-values :
    (after : List (Text × Scalar)) (sort : List (SortSpec Text)) {Filter : Type 0}
    (b : CursorAfterBuilders Text Scalar Filter)
    → all (λ name. is_some (value_of name after)) (map (λ s. s.field) sort) ≡ true
    → has_values (λ name. value_of name after) b sort ≡ true
names-values after [] b h = refl
names-values after (s ∷ sort) b h = ground (arith, names-values after sort b)

-- The rows after an accepted cursor can be selected: with the fields of an order as the sort fields,
-- the filter after the cursor's values is built for that order, and never fails for a missing value.
pub decode_cursor_v1-build_cursor_after_where :
    (js : Runtime) (codec : Codec) (expected : Text) (sort : List (SortSpec Text))
    (allowed : Text → Option CursorFieldType) {Filter : Type 0}
    (b : CursorAfterBuilders Text Scalar Filter) (cursor : Text) (p : CursorPayloadV1)
    → decode_cursor_v1 js codec expected (map (λ s. s.field) sort) allowed cursor ≡ ok p
    → is_some (build_cursor_after_where (λ name. value_of name p.after) b sort) ≡ true
decode_cursor_v1-build_cursor_after_where js codec expected sort allowed b cursor p h =
    let (fits, accepted) =
      decode_cursor_v1-IsAccepted js codec expected (map (λ s. s.field) sort) allowed cursor p h in
    build_cursor_after_where-total (λ name. value_of name p.after) b sort
      (names-values p.after sort b accepted.complete)
