-- ===== src/ListQuery/Request/Tests.antt =====
-- A list request with a limit, an order, a filter and a cursor.
use backend_core_kit.Prelude.{
  ℕ, ◌≡◌, refl, true, false, Option, none, some, is_some, [], ◌∷◌, Text, text_eq, if◌then◌else◌,
}
use backend_core_kit.Db.{ok}
use backend_core_kit.ListQuery.CursorAfter.{
  SortSpec, asc, CursorAfterBuilders, build_cursor_after_where,
}
use backend_core_kit.ListQuery.Sort.{
  CursorFieldType, string_field, normalize_sort, parse_tokens, parse_sort,
}
use backend_core_kit.ListQuery.Scalars.{
  number_value, string_value, object_value, empty_object, field, Scalar, text_scalar, Runtime,
  parse_scalar, parse_string,
}
use backend_core_kit.ListQuery.Cursor.{
  Codec, CursorPayloadV1, payload_json, value_of, parse_entries, missing_issues, decode_cursor_v1,
}
use backend_core_kit.ListQuery.Filter.{
  FilterFieldConfig, enum_type, eq_operator, one_value, parse_filter_scalar, add_expr, parse_nested,
  parse_filters,
}
use backend_core_kit.ListQuery.Request.{
  ListQueryInput, ListQueryOptions, ListQuery, parse_limit, parse_list_query,
}
use backend_core_kit.ListQuery.Request.Valid.{
  IsAnswered, parse_list_query-IsAnswered, parse_list_query-build_cursor_after_where,
}

abbrev id_name : Text
id_name = 105 ∷ 100 ∷ []

abbrev allowed : Text → Option CursorFieldType
allowed name = if text_eq name id_name then some string_field else none

abbrev by_id : SortSpec Text
by_id = record { field = id_name; direction = asc }

-- The filter `st`, an enumeration of `A`.
abbrev status_config : FilterFieldConfig
status_config = record { type = enum_type; ops = eq_operator ∷ []; enum_values = (65 ∷ []) ∷ [] }

abbrev allowlist : Text → Option FilterFieldConfig
allowlist name = if text_eq name (115 ∷ 116 ∷ []) then some status_config else none

abbrev options : ListQueryOptions
options = record {
  default_limit = none;
  max_limit = none;
  search = false;
  sort_options = record {
    allowed = allowed;
    default_sort = by_id ∷ [];
    max_fields = none;
    tie_breaker = by_id;
  };
  filters = some allowlist;
}

abbrev js : Runtime
js = record {
  to_number = λ t. 0;
  is_finite = λ n. true;
  lower_case = λ t. t;
  to_iso_string = λ t. some t;
  one = 1;
  integer_of = λ n. some n;
}

abbrev payload : CursorPayloadV1
payload = record { sort = id_name; after = (id_name, text_scalar (65 ∷ [])) ∷ [] }

-- A codec that knows this payload only.
abbrev codec : Codec
codec = record {
  base64url_encode = λ t. t;
  base64url_decode = λ t. t;
  stringify = λ j. 65 ∷ [];
  parse = λ t. if text_eq t (65 ∷ []) then some (payload_json js payload) else none;
}

abbrev input : ListQueryInput
input = record {
  limit = some (number_value 10);
  cursor = some (string_value (65 ∷ []));
  sort = none;
  q = none;
  filter = some (object_value (field (115 ∷ 116 ∷ []) (string_value (65 ∷ [])) empty_object));
}

abbrev answered : ListQuery
answered = record {
  limit = 10;
  sort = by_id ∷ [];
  normalized_sort = id_name;
  cursor = some payload;
  cursor_raw = some (65 ∷ []);
  filters =
      record {
        field_name = 115 ∷ 116 ∷ [];
        op = eq_operator;
        value = one_value (text_scalar (65 ∷ []));
      }
      ∷ [];
  q = none;
}

request_is_answered : parse_list_query js codec options input ≡ ok answered
unfolding parse_list_query parse_sort parse_tokens normalize_sort parse_filters parse_nested
    add_expr parse_filter_scalar parse_string parse_scalar decode_cursor_v1 parse_entries
    missing_issues parse_limit
request_is_answered = refl

parse_list_query-IsAnswered_example : IsAnswered js options answered
parse_list_query-IsAnswered_example =
    parse_list_query-IsAnswered js codec options input answered refl refl request_is_answered

-- Filters that only count their parts.
abbrev builders : CursorAfterBuilders Text Scalar ℕ
builders = record {
  equals = λ name value. 1;
  compare = λ name direction value. 1;
  and = λ filters. 2;
  or = λ filters. 3;
  empty = 0;
}

parse_list_query-build_cursor_after_where_example :
    is_some (build_cursor_after_where (λ name. value_of name payload.after) builders answered.sort)
    ≡ true
parse_list_query-build_cursor_after_where_example =
    parse_list_query-build_cursor_after_where js codec options input answered payload ℕ builders
      request_is_answered refl
