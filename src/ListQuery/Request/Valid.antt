-- ===== src/ListQuery/Request/Valid.antt =====
-- A list request that is accepted can be carried out.
use backend_core_kit.Prelude.{
  ℕ, ◌≡◌, ◌≤◌, refl, sym, ap, subst, ◌∙◌, arith, or_else, true, Option, none, some, is_some, List,
  [], ◌∷◌, ◌++◌, ltb, Text, Bool-cases, inl, inr,
}
use backend_core_kit.Db.{Result, ok, err}
use backend_core_kit.ListQuery.CursorAfter.{CursorAfterBuilders, build_cursor_after_where}
use backend_core_kit.ListQuery.Sort.{SortError, ParsedSort, parse_sort}
use backend_core_kit.ListQuery.Sort.Valid.{fresh, are_allowed, IsValid, parse_sort-IsValid}
use backend_core_kit.ListQuery.Scalars.{Json, Runtime, Scalar}
use backend_core_kit.ListQuery.Cursor.{Codec, CursorPayloadV1, CursorIssue, value_of}
use backend_core_kit.ListQuery.Cursor.Decoded.{decode_cursor_v1-build_cursor_after_where}
use backend_core_kit.ListQuery.Filter.{FilterFieldConfig, FilterExpr, FilterIssue, parse_filters}
use backend_core_kit.ListQuery.Filter.Allowed.{are_permitted, parse_filters-permitted}
use backend_core_kit.ListQuery.Request.{
  ListQueryInput, ListQueryOptions, RequestIssue, ListQueryError, ListQuery, raw_parameter,
  filled_text, parse_limit, limit_issues, search_issues, supported_filters, cursor_result, max_of,
  decode_given, answer, with_cursor, with_filters, with_sort, parse_list_query, filter_result,
  no_filters,
}

-- The filters are on fields of the allowlist, with its operators; without one there are none.
abbrev pub FiltersPermitted :
    Runtime → Option (Text → Option FilterFieldConfig) → List FilterExpr → Type 0
FiltersPermitted js none filters = filters ≡ []
FiltersPermitted js (some allowlist) filters = are_permitted js allowlist filters ≡ true

-- An accepted request: the limit is in its bounds, the order is valid and the filters are permitted.
pub record IsAnswered (js : Runtime) (options : ListQueryOptions) (r : ListQuery) : Type 0 where
  pub at_least : 1 ≤ r.limit
  pub at_most : r.limit ≤ max_of options
  pub order :
      IsValid options.sort_options (record { sort = r.sort; normalized = r.normalized_sort })
  pub permitted : FiltersPermitted js options.filters r.filters

filters-permitted :
    (js : Runtime) (allowlist : Option (Text → Option FilterFieldConfig)) (raw : Option Json)
    (filters : List FilterExpr)
    → supported_filters js allowlist raw ≡ ok filters
    → FiltersPermitted js allowlist filters
filters-permitted js (some allowlist) raw filters h =
    parse_filters-permitted js allowlist raw filters
      (filter_result-ok (parse_filters js allowlist raw) filters h)
  where
    filter_result-ok :
        (r : Result (List FilterIssue) (List FilterExpr)) (found : List FilterExpr)
        → filter_result r ≡ ok found
        → r ≡ ok found
    filter_result-ok (ok found') found e = cc e
    filter_result-ok (err issues) found e = cc e
filters-permitted js none raw filters h = none_supported raw filters h
  where
    none_supported :
        (raw' : Option Json) (found : List FilterExpr) → no_filters raw' ≡ ok found → found ≡ []
    none_supported raw' found e = ground arith

parse_limit-positive :
    (js : Runtime) (raw : Option Json) (default_limit n : ℕ)
    → parse_limit js raw default_limit ≡ some n
    → 1 ≤ n
unfolding parse_limit
parse_limit-positive js raw default_limit n h = ground arith

answer-eq : {a b : ListQuery} → ◌≡◌ {A = Result ListQueryError ListQuery} (ok a) (ok b) → a ≡ b
answer-eq {a} {b} e = cc e

module _ (js : Runtime) (codec : Codec) (options : ListQueryOptions) where
  answer-bounds :
      (input : ListQueryInput) (found : ParsedSort) (filters : List FilterExpr)
      (cursor : Option CursorPayloadV1) (limit : Option ℕ) (issues : List RequestIssue)
      (r : ListQuery)
      → answer js codec options input found filters cursor limit
          (limit_issues limit (max_of options) ++ issues)
        ≡ ok r
      → (limit ≡ some r.limit)
        × (r.limit ≤ max_of options)
        × (r.sort ≡ found.sort)
        × (r.normalized_sort ≡ found.normalized)
        × (r.filters ≡ filters)
        × (r.cursor ≡ cursor)
  answer-bounds input found filters cursor none issues r = λ h. cc h
  answer-bounds input found filters cursor (some n) (i ∷ issues) r = λ h. absurd (ground arith)
  answer-bounds input found filters cursor (some n) [] r =
      elim (Bool-cases (ltb (max_of options) n)) [
        | inl large ↦ rw large (λ h. cc h)
        | inr fits ↦ rw fits (λ h. (
          ap (λ (x : ListQuery). some x.limit) (answer-eq h),
          subst (λ (x : ListQuery). x.limit ≤ max_of options) (answer-eq h) (ground arith),
          ap (λ (x : ListQuery). x.sort) (sym (answer-eq h)),
          ap (λ (x : ListQuery). x.normalized_sort) (sym (answer-eq h)),
          ap (λ (x : ListQuery). x.filters) (sym (answer-eq h)),
          ap (λ (x : ListQuery). x.cursor) (sym (answer-eq h)),
        ))
      ]

  -- What a request that is answered has parsed.
  abbrev Parses : ListQueryInput → ListQuery → Type 0
  Parses input r =
      (found : ParsedSort) × (parse_sort options.sort_options (raw_parameter input.sort) ≡ ok found)
      × (supported_filters js options.filters input.filter ≡ ok r.filters)
      × (decode_given js codec options found (filled_text input.cursor) ≡ ok r.cursor)
      × (parse_limit js input.limit (or_else options.default_limit 25) ≡ some r.limit)
      × (r.limit ≤ max_of options)
      × (r.sort ≡ found.sort)
      × (r.normalized_sort ≡ found.normalized)

  parse_list_query-Parses :
      (input : ListQueryInput) (r : ListQuery)
      → parse_list_query js codec options input ≡ ok r
      → Parses input r
  unfolding parse_list_query
  parse_list_query-Parses input r h =
      sorted (parse_sort options.sort_options (raw_parameter input.sort)) refl h
    where
      decoded :
          (found : ParsedSort)
          → parse_sort options.sort_options (raw_parameter input.sort) ≡ ok found
          → (filters : List FilterExpr)
          → supported_filters js options.filters input.filter ≡ ok filters
          → (cursor : Result ListQueryError (Option CursorPayloadV1))
          → decode_given js codec options found (filled_text input.cursor) ≡ cursor
          → with_cursor js codec options input found filters cursor ≡ ok r
          → Parses input r
      decoded found e filters e' (err x) e'' k = absurd (ground arith)
      decoded found e filters e' (ok cursor) e'' k =
          let (limited, fits, same_sort, same_form, same_filters, same_cursor) =
            answer-bounds input found filters cursor
              (parse_limit js input.limit (or_else options.default_limit 25))
              (search_issues options.search (filled_text input.q)) r k in
          (
            found,
            e,
            e' ∙ ap (λ x. ok x) (sym same_filters),
            e'' ∙ ap (λ x. ok x) (sym same_cursor),
            limited,
            fits,
            same_sort,
            same_form,
          )

      filtered :
          (found : ParsedSort)
          → parse_sort options.sort_options (raw_parameter input.sort) ≡ ok found
          → (filters : Result ListQueryError (List FilterExpr))
          → supported_filters js options.filters input.filter ≡ filters
          → with_filters js codec options input found filters ≡ ok r
          → Parses input r
      filtered found e (err x) e' k = absurd (ground arith)
      filtered found e (ok filters) e' k =
          decoded found e filters e'
            (decode_given js codec options found (filled_text input.cursor)) refl k

      sorted :
          (order : Result SortError ParsedSort)
          → parse_sort options.sort_options (raw_parameter input.sort) ≡ order
          → with_sort js codec options input order ≡ ok r
          → Parses input r
      sorted (err x) e k = absurd (ground arith)
      sorted (ok found) e k =
          filtered found e (supported_filters js options.filters input.filter) refl k

-- If the default order has allowed fields, each once, then a list request that is accepted has a
-- limit of at least 1 and at most the configured maximum, an order that is valid, and filters only on
-- fields of the allowlist with operators that it has for them.
pub parse_list_query-IsAnswered :
    (js : Runtime) (codec : Codec) (options : ListQueryOptions) (input : ListQueryInput)
    (r : ListQuery)
    → fresh [] options.sort_options.default_sort ≡ true
    → are_allowed options.sort_options options.sort_options.default_sort ≡ true
    → parse_list_query js codec options input ≡ ok r
    → IsAnswered js options r
parse_list_query-IsAnswered js codec options input r d d' h =
    let (found, sorted, filtered, decoded, limited, fits, same_sort, same_form) =
      parse_list_query-Parses js codec options input r h in
    let valid =
      parse_sort-IsValid options.sort_options (raw_parameter input.sort) found d d' sorted in
    let same : found ≡ record { sort = r.sort; normalized = r.normalized_sort } =
      cc (same_sort, same_form) in
    record {
      at_least =
          parse_limit-positive js input.limit (or_else options.default_limit 25) r.limit limited;
      at_most = fits;
      order = subst (IsValid options.sort_options) same valid;
      permitted = filters-permitted js options.filters input.filter r.filters filtered;
    }

cursor_result-ok :
    (r : Result (List CursorIssue) CursorPayloadV1) (p : CursorPayloadV1)
    → cursor_result r ≡ ok (some p)
    → r ≡ ok p
cursor_result-ok (ok q) p e = cc e
cursor_result-ok (err issues) p e = cc e

-- When a list request is accepted with a cursor, the filter for the rows after the cursor is built
-- for the request's order: it never fails for a missing value.
pub parse_list_query-build_cursor_after_where :
    (js : Runtime) (codec : Codec) (options : ListQueryOptions) (input : ListQueryInput)
    (r : ListQuery) (p : CursorPayloadV1) (Filter : Type 0)
    (b : CursorAfterBuilders Text Scalar Filter)
    → parse_list_query js codec options input ≡ ok r
    → r.cursor ≡ some p
    → is_some (build_cursor_after_where (λ name. value_of name p.after) b r.sort) ≡ true
parse_list_query-build_cursor_after_where js codec options input r p Filter b h given =
    let (found, sorted, filtered, decoded, limited, fits, same_sort, same_form) =
      parse_list_query-Parses js codec options input r h in
    rw same_sort (resumed found (filled_text input.cursor) (decoded ∙ ap (λ x. ok x) given))
  where
    resumed :
        (found : ParsedSort) (raw : Option Text)
        → decode_given js codec options found raw ≡ ok (some p)
        → is_some (build_cursor_after_where (λ name. value_of name p.after) b found.sort) ≡ true
    resumed found none e = cc e
    resumed found (some cursor) e =
        let accepted = cursor_result-ok _ p e in
        decode_cursor_v1-build_cursor_after_where js codec found.normalized found.sort
          options.sort_options.allowed b cursor p accepted
