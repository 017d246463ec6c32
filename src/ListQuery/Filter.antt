-- ===== src/ListQuery/Filter.antt =====
-- libs/shared/list-query/filter.ts: the filters of a list request, with parseFilterScalar of
-- scalars.ts.
pub mod Allowed
use backend_core_kit.Prelude.{
  ℕ, ◌==◌, Bool, true, false, not, ◌&&◌, ◌||◌, Option, none, some, List, [], ◌∷◌, ◌++◌, map, filter,
  any, length, Text, text_eq, trim, split, is_empty, is_some, if◌then◌else◌,
}
use backend_core_kit.Db.{Result, ok, err}
use backend_core_kit.ListQuery.Sort.{CursorFieldType, comma}
use backend_core_kit.ListQuery.Scalars.{
  Json, null_value, string_value, object_value, JsonFields, empty_object, field, Scalar, Runtime,
  parse_scalar, text_scalar, parse_string,
}

pub data FilterOperator : Type 0 where
  eq_operator in_operator gte_operator lte_operator : FilterOperator

abbrev pub operator_eq : FilterOperator → FilterOperator → Bool
operator_eq eq_operator eq_operator = true
operator_eq in_operator in_operator = true
operator_eq gte_operator gte_operator = true
operator_eq lte_operator lte_operator = true
operator_eq _ _ = false

pub data FilterFieldType : Type 0 where
  enum_type : FilterFieldType
  scalar_type : CursorFieldType → FilterFieldType

-- Enum values that are not given are an empty list.
pub record FilterFieldConfig : Type 0 where
  pub type : FilterFieldType
  pub ops : List FilterOperator
  pub enum_values : List Text

pub data FilterValue : Type 0 where
  one_value : Scalar → FilterValue
  list_value : List Scalar → FilterValue

pub record FilterExpr : Type 0 where
  pub field_name : Text
  pub op : FilterOperator
  pub value : FilterValue

pub data FilterIssue : Type 0 where
  filter_not_an_object : FilterIssue
  unsupported_filter_field unsupported_operator : Text → FilterIssue
  invalid_filter_value expected_list invalid_list_value : Text → FilterIssue

-- The issues, and the filters.
abbrev pub Parsed : Type 0
Parsed = List FilterIssue × List FilterExpr

abbrev pub is_operator_allowed : FilterFieldConfig → FilterOperator → Bool
is_operator_allowed config op = any (operator_eq op) config.ops

abbrev pub parse_in_list : Json → List Text
parse_in_list (string_value raw) = filter (λ p. not (is_empty p)) (map trim (split comma raw))
parse_in_list _ = []

-- `eq`, `in`, `gte` and `lte`
abbrev pub operator_of : Text → Option FilterOperator
operator_of t =
    if text_eq t (101 ∷ 113 ∷ [])
    then some eq_operator
    else if text_eq t (105 ∷ 110 ∷ [])
    then some in_operator
    else if text_eq t (103 ∷ 116 ∷ 101 ∷ [])
    then some gte_operator
    else if text_eq t (108 ∷ 116 ∷ 101 ∷ [])
    then some lte_operator
    else none

abbrev enum_value : List Text → Option Scalar → Option Scalar
enum_value values (some (text_scalar t)) =
    if any (text_eq t) values then some (text_scalar t) else none
enum_value values _ = none

unfoldable pub parse_filter_scalar : Runtime → FilterFieldConfig → Json → Option Scalar
parse_filter_scalar js config value = elim config.type [
  | enum_type ↦ enum_value config.enum_values (parse_string js value)
  | scalar_type t ↦ parse_scalar js t value
]

abbrev pub is_nothing : {A : Type 0} → List A → Bool
is_nothing [] = true
is_nothing (x ∷ xs) = false

abbrev pub keep_parsed : Option Scalar → List Scalar → List Scalar
keep_parsed none values = values
keep_parsed (some v) values = v ∷ values

-- The items of a list that can be parsed.
unfoldable pub parse_items : Runtime → FilterFieldConfig → List Text → List Scalar
parse_items js config [] = []
parse_items js config (t ∷ items) =
    keep_parsed (parse_filter_scalar js config (string_value t)) (parse_items js config items)

-- `filter[`
abbrev filter_prefix : Text
filter_prefix = 102 ∷ 105 ∷ 108 ∷ 116 ∷ 101 ∷ 114 ∷ 91 ∷ []

-- What follows a prefix.
abbrev after_prefix : Text → Text → Option Text
after_prefix [] t = some t
after_prefix (p ∷ prefix) [] = none
after_prefix (p ∷ prefix) (c ∷ t) = if p == c then after_prefix prefix t else none

abbrev prepend : ℕ → Option (Text × Text) → Option (Text × Text)
prepend c none = none
prepend c (some (name, rest)) = some (c ∷ name, rest)

-- ([^\]]*)\] and the rest
abbrev up_to_bracket : Text → Option (Text × Text)
up_to_bracket [] = none
up_to_bracket (c ∷ t) = if c == 93 then some ([], t) else prepend c (up_to_bracket t)

pub data FilterKey : Type 0 where
  other_key : FilterKey
  named_key : Text → FilterKey
  operator_key : Text → Text → FilterKey

abbrev key_with_operator : Text → Option (Text × Text) → FilterKey
key_with_operator name (some (c ∷ op, [])) = operator_key name (c ∷ op)
key_with_operator name _ = other_key

abbrev key_with_name : Option (Text × Text) → FilterKey
key_with_name (some (c ∷ name, [])) = named_key (c ∷ name)
key_with_name (some (c ∷ name, d ∷ rest)) =
    if d == 91 then key_with_operator (c ∷ name) (up_to_bracket rest) else other_key
key_with_name _ = other_key

abbrev name_after_prefix : Option Text → FilterKey
name_after_prefix none = other_key
name_after_prefix (some t) = key_with_name (up_to_bracket t)

-- eqRe and opRe
abbrev pub key_of : Text → FilterKey
key_of key = name_after_prefix (after_prefix filter_prefix key)

abbrev pub is_bracketed : JsonFields → Bool
is_bracketed empty_object = false
is_bracketed (field key value fields) =
    is_some (after_prefix filter_prefix key) || is_bracketed fields

module _ (js : Runtime) (allowlist : Text → Option FilterFieldConfig) where
  abbrev pub add_list : Text → FilterFieldConfig → List Text → Parsed → Parsed
  add_list name config items rest =
      let values = parse_items js config items in
      if is_nothing items
      then (expected_list name ∷ rest.0, rest.1)
      else if not (length values == length items)
      then (invalid_list_value name ∷ rest.0, rest.1)
      else (
        rest.0,
        record { field_name = name; op = in_operator; value = list_value values } ∷ rest.1,
      )

  abbrev pub add_one : Text → FilterOperator → Option Scalar → Parsed → Parsed
  add_one name op none rest = (invalid_filter_value name ∷ rest.0, rest.1)
  add_one name op (some v) rest =
      (rest.0, record { field_name = name; op = op; value = one_value v } ∷ rest.1)

  abbrev pub add_by_operator : Text → FilterOperator → Json → FilterFieldConfig → Parsed → Parsed
  add_by_operator name in_operator value config rest =
      add_list name config (parse_in_list value) rest
  add_by_operator name eq_operator value config rest =
      add_one name eq_operator (parse_filter_scalar js config value) rest
  add_by_operator name gte_operator value config rest =
      add_one name gte_operator (parse_filter_scalar js config value) rest
  add_by_operator name lte_operator value config rest =
      add_one name lte_operator (parse_filter_scalar js config value) rest

  -- One filter in front of what the entries after it gave.
  unfoldable pub add_expr : Text → FilterOperator → Json → FilterFieldConfig → Parsed → Parsed
  add_expr name op value config rest =
      if not (is_operator_allowed config op)
      then (unsupported_operator name ∷ rest.0, rest.1)
      else add_by_operator name op value config rest

  abbrev pub add_operator :
      Text → Option FilterOperator → Json → FilterFieldConfig → Parsed → Parsed
  add_operator name none value config rest = (unsupported_operator name ∷ rest.0, rest.1)
  add_operator name (some op) value config rest = add_expr name op value config rest

  -- { createdAt: { gte: …, lte: … } }
  unfoldable pub add_operators : Text → FilterFieldConfig → JsonFields → Parsed → Parsed
  add_operators name config empty_object rest = rest
  add_operators name config (field op value fields) rest =
      add_operator name (operator_of op) value config (add_operators name config fields rest)

  abbrev pub add_field : Text → Option FilterFieldConfig → Json → Parsed → Parsed
  add_field name none value rest = (unsupported_filter_field name ∷ rest.0, rest.1)
  add_field name (some config) (object_value fields) rest = add_operators name config fields rest
  add_field name (some config) value rest = add_expr name eq_operator value config rest

  unfoldable pub parse_nested : JsonFields → Parsed
  parse_nested empty_object = ([], [])
  parse_nested (field name value fields) =
      add_field name (allowlist name) value (parse_nested fields)

  -- { 'filter[createdAt][gte]': … }: a key with a name, a key with a name and an operator, or neither.
  abbrev pub add_named : Text → Option FilterFieldConfig → Json → Parsed → Parsed
  add_named name none value rest = (unsupported_filter_field name ∷ rest.0, rest.1)
  add_named name (some config) value rest = add_expr name eq_operator value config rest

  abbrev pub add_with_operator : Text → Text → Option FilterFieldConfig → Json → Parsed → Parsed
  add_with_operator name op none value rest = (unsupported_filter_field name ∷ rest.0, rest.1)
  add_with_operator name op (some config) value rest =
      add_operator name (operator_of op) value config rest

  abbrev pub add_bracketed : FilterKey → Json → Parsed → Parsed
  add_bracketed other_key value rest = rest
  add_bracketed (named_key name) value rest = add_named name (allowlist name) value rest
  add_bracketed (operator_key name op) value rest =
      add_with_operator name op (allowlist name) value rest

  unfoldable pub parse_bracketed : JsonFields → Parsed
  parse_bracketed empty_object = ([], [])
  parse_bracketed (field key value fields) =
      add_bracketed (key_of key) value (parse_bracketed fields)

  abbrev pub accept_filters : Parsed → Result (List FilterIssue) (List FilterExpr)
  accept_filters ([], filters) = ok filters
  accept_filters (i ∷ issues, filters) = err (i ∷ issues)

  -- `none` is undefined.
  unfoldable pub parse_filters : Option Json → Result (List FilterIssue) (List FilterExpr)
  parse_filters none = ok []
  parse_filters (some null_value) = ok []
  parse_filters (some (object_value fields)) =
      accept_filters (if is_bracketed fields then parse_bracketed fields else parse_nested fields)
  parse_filters (some _) = err (filter_not_an_object ∷ [])
