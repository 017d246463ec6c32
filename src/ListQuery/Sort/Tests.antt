-- ===== src/ListQuery/Sort/Tests.antt =====
-- Sort orders of a list of users.
use backend_core_kit.Prelude.{
  ◌≡◌, refl, arith, Option, none, some, [], ◌∷◌, Text, text_eq, if◌then◌else◌,
}
use backend_core_kit.Db.{ok}
use backend_core_kit.ListQuery.CursorAfter.{SortSpec, asc, desc}
use backend_core_kit.ListQuery.Sort.{
  CursorFieldType, string_field, datetime_field, ParseSortOptions, text_value, ParsedSort,
  normalize_sort, parse_tokens, parse_sort,
}
use backend_core_kit.ListQuery.Sort.RoundTrip.{parse_sort-normalize_sort}

-- The names `id` and `at`.
abbrev id_name : Text
id_name = 105 ∷ 100 ∷ []

abbrev at_name : Text
at_name = 97 ∷ 116 ∷ []

abbrev allowed : Text → Option CursorFieldType
allowed name =
    if text_eq name id_name
    then some string_field
    else if text_eq name at_name
    then some datetime_field
    else none

abbrev by_id : SortSpec Text
by_id = record { field = id_name; direction = asc }

abbrev by_at : SortSpec Text
by_at = record { field = at_name; direction = desc }

abbrev options : ParseSortOptions
options = record {
  allowed = allowed;
  default_sort = by_id ∷ [];
  max_fields = none;
  tie_breaker = by_id;
}

-- ` -at,`
abbrev raw : Text
raw = 32 ∷ 45 ∷ 97 ∷ 116 ∷ 44 ∷ []

abbrev parsed : ParsedSort
parsed = record { sort = by_at ∷ by_id ∷ []; normalized = 45 ∷ 97 ∷ 116 ∷ 44 ∷ 105 ∷ 100 ∷ [] }

raw_is_parsed : parse_sort options (text_value raw) ≡ ok parsed
unfolding parse_sort parse_tokens normalize_sort
raw_is_parsed = refl

parse_sort-normalize_sort_example :
    parse_sort options (text_value (normalize_sort (by_at ∷ by_id ∷ [])))
    ≡ ok (record { sort = by_at ∷ by_id ∷ []; normalized = normalize_sort (by_at ∷ by_id ∷ []) })
parse_sort-normalize_sort_example =
    parse_sort-normalize_sort options by_at (by_id ∷ []) refl refl refl (ground arith) refl refl

same_form : normalize_sort (by_at ∷ by_id ∷ []) ≡ normalize_sort (by_at ∷ by_id ∷ [])
same_form = refl
