-- ===== src/ListQuery/Request.antt =====
-- libs/shared/list-query/list-query.ts: a list request, with its limit, order, filters, search and
-- cursor. A missing query parameter is none.
pub mod Tests
pub mod Valid
use backend_core_kit.Prelude.{
  ℕ, ◌==◌, ltb, or_else, Bool, true, false, not, Option, none, some, List, [], ◌∷◌, ◌++◌, map, Text,
  trim, is_empty, if◌then◌else◌,
}
use backend_core_kit.Db.{Result, ok, err}
use backend_core_kit.ListQuery.CursorAfter.{SortSpec}
use backend_core_kit.ListQuery.Sort.{
  ParseSortOptions, RawParameter, absent, other_value, text_value, SortError, ParsedSort,
  parse_sort,
}
use backend_core_kit.ListQuery.Scalars.{
  Json, null_value, number_value, string_value, array_value, object_value, JsonList, no_items,
  JsonFields, empty_object, Runtime,
}
use backend_core_kit.ListQuery.Cursor.{Codec, CursorPayloadV1, CursorIssue, decode_cursor_v1}
use backend_core_kit.ListQuery.Filter.{FilterFieldConfig, FilterExpr, FilterIssue, parse_filters}

pub record ListQueryInput : Type 0 where
  pub limit : Option Json
  pub cursor : Option Json
  pub sort : Option Json
  pub q : Option Json
  pub filter : Option Json

pub record ListQueryOptions : Type 0 where
  pub default_limit : Option ℕ
  pub max_limit : Option ℕ
  pub search : Bool
  pub sort_options : ParseSortOptions
  pub filters : Option (Text → Option FilterFieldConfig)

pub data RequestIssue : Type 0 where
  limit_not_positive search_not_supported : RequestIssue
  limit_too_large : ℕ → RequestIssue

pub data ListQueryError : Type 0 where
  sort_error : SortError → ListQueryError
  filter_error : List FilterIssue → ListQueryError
  filtering_not_supported : ListQueryError
  cursor_error : List CursorIssue → ListQueryError
  request_error : List RequestIssue → ListQueryError

pub record ListQuery : Type 0 where
  pub limit : ℕ
  pub sort : List (SortSpec Text)
  pub normalized_sort : Text
  pub cursor : Option CursorPayloadV1
  pub cursor_raw : Option Text
  pub filters : List FilterExpr
  pub q : Option Text

-- A query parameter as parseSort tells them apart.
abbrev pub raw_parameter : Option Json → RawParameter
raw_parameter none = absent
raw_parameter (some null_value) = absent
raw_parameter (some (string_value t)) = text_value t
raw_parameter (some _) = other_value

-- isNonEmptyString, with the text trimmed.
abbrev pub filled_text : Option Json → Option Text
filled_text (some (string_value t)) = if is_empty (trim t) then none else some (trim t)
filled_text _ = none

abbrev pub positive : ℕ → Option ℕ
positive n = if n == 0 then none else some n

abbrev pub natural : Option ℕ → Option ℕ
natural none = none
natural (some n) = positive n

abbrev pub max_of : ListQueryOptions → ℕ
max_of options = or_else options.max_limit 250

-- The limit, or none for a number that is no positive integer.
unfoldable pub parse_limit : Runtime → Option Json → ℕ → Option ℕ
parse_limit js (some (number_value n)) default_limit =
    if js.is_finite n then natural (js.integer_of n) else positive default_limit
parse_limit js (some (string_value t)) default_limit =
    if is_empty (trim t)
    then positive default_limit
    else if js.is_finite (js.to_number (trim t))
    then natural (js.integer_of (js.to_number (trim t)))
    else positive default_limit
parse_limit js _ default_limit = positive default_limit

abbrev pub limit_issues : Option ℕ → ℕ → List RequestIssue
limit_issues none max_limit = limit_not_positive ∷ []
limit_issues (some n) max_limit = if ltb max_limit n then limit_too_large max_limit ∷ [] else []

abbrev pub search_issues : Bool → Option Text → List RequestIssue
search_issues search none = []
search_issues search (some t) = if search then [] else search_not_supported ∷ []

-- Filters where none are supported: only an object without keys, or nothing.
abbrev pub no_filters : Option Json → Result ListQueryError (List FilterExpr)
no_filters none = ok []
no_filters (some null_value) = ok []
no_filters (some (object_value empty_object)) = ok []
no_filters (some (array_value no_items)) = ok []
no_filters (some _) = err filtering_not_supported

abbrev pub filter_result :
    Result (List FilterIssue) (List FilterExpr) → Result ListQueryError (List FilterExpr)
filter_result (ok filters) = ok filters
filter_result (err issues) = err (filter_error issues)

abbrev pub supported_filters :
    Runtime
    → Option (Text → Option FilterFieldConfig)
    → Option Json
    → Result ListQueryError (List FilterExpr)
supported_filters js none raw = no_filters raw
supported_filters js (some allowlist) raw = filter_result (parse_filters js allowlist raw)

abbrev pub cursor_result :
    Result (List CursorIssue) CursorPayloadV1 → Result ListQueryError (Option CursorPayloadV1)
cursor_result (ok p) = ok (some p)
cursor_result (err issues) = err (cursor_error issues)

module _ (js : Runtime) (codec : Codec) (options : ListQueryOptions) where
  abbrev pub decode_given :
      ParsedSort → Option Text → Result ListQueryError (Option CursorPayloadV1)
  decode_given order none = ok none
  decode_given order (some raw) = cursor_result (
      decode_cursor_v1 js codec order.normalized (map (λ s. s.field) order.sort)
        options.sort_options.allowed raw)

  abbrev pub answer :
      ListQueryInput
      → ParsedSort
      → List FilterExpr
      → Option CursorPayloadV1
      → Option ℕ
      → List RequestIssue
      → Result ListQueryError ListQuery
  answer input order filters cursor (some limit) [] = ok (record {
    limit = limit;
    sort = order.sort;
    normalized_sort = order.normalized;
    cursor = cursor;
    cursor_raw = filled_text input.cursor;
    filters = filters;
    q = filled_text input.q;
  })
  answer input order filters cursor limit issues = err (request_error issues)

  abbrev pub with_cursor :
      ListQueryInput
      → ParsedSort
      → List FilterExpr
      → Result ListQueryError (Option CursorPayloadV1)
      → Result ListQueryError ListQuery
  with_cursor input order filters (err e) = err e
  with_cursor input order filters (ok cursor) =
      let limit = parse_limit js input.limit (or_else options.default_limit 25) in
      answer input order filters cursor limit
        (limit_issues limit (max_of options) ++ search_issues options.search (filled_text input.q))

  abbrev pub with_filters :
      ListQueryInput
      → ParsedSort
      → Result ListQueryError (List FilterExpr)
      → Result ListQueryError ListQuery
  with_filters input order (err e) = err e
  with_filters input order (ok filters) =
      with_cursor input order filters (decode_given order (filled_text input.cursor))

  abbrev pub with_sort :
      ListQueryInput → Result SortError ParsedSort → Result ListQueryError ListQuery
  with_sort input (err e) = err (sort_error e)
  with_sort input (ok order) =
      with_filters input order (supported_filters js options.filters input.filter)

  unfoldable pub parse_list_query : ListQueryInput → Result ListQueryError ListQuery
  parse_list_query input =
      with_sort input (parse_sort options.sort_options (raw_parameter input.sort))
