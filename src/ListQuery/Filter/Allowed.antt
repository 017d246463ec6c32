-- ===== src/ListQuery/Filter/Allowed.antt =====
-- Filters that are accepted are on fields of the allowlist, with operators that it has for them.
use backend_core_kit.Prelude.{
  ◌≡◌, refl, arith, Bool, true, false, Option, none, some, List, [], ◌∷◌, all, Text, Bool-cases,
  inl, inr,
}
use backend_core_kit.Db.{ok}
use backend_core_kit.ListQuery.Scalars.{
  Json, null_value, bool_value, number_value, string_value, array_value, object_value, JsonFields,
  empty_object, field, Scalar, Runtime,
}
use backend_core_kit.ListQuery.Filter.{
  FilterOperator, eq_operator, in_operator, gte_operator, lte_operator, FilterFieldConfig,
  FilterExpr, FilterKey, other_key, named_key, operator_key, Parsed, is_operator_allowed,
  operator_of, is_bracketed, key_of, parse_in_list, add_list, add_one, add_by_operator, add_expr,
  add_operator, add_operators, add_field, parse_nested, add_named, add_with_operator, add_bracketed,
  parse_bracketed, accept_filters, parse_filters, parse_filter_scalar,
}

abbrev operator_in : Option FilterFieldConfig → FilterOperator → Bool
operator_in none op = false
operator_in (some config) op = is_operator_allowed config op

abbrev pub is_permitted : (Text → Option FilterFieldConfig) → FilterExpr → Bool
is_permitted allowlist e = operator_in (allowlist e.field_name) e.op

module _ (js : Runtime) (allowlist : Text → Option FilterFieldConfig) where
  abbrev pub are_permitted : List FilterExpr → Bool
  are_permitted filters = all (is_permitted allowlist) filters

  add_list-permitted :
      (name : Text) (config : FilterFieldConfig) (items : List Text) (rest : Parsed)
      → is_operator_allowed config in_operator ≡ true
      → allowlist name ≡ some config
      → are_permitted rest.1 ≡ true
      → are_permitted (add_list js allowlist name config items rest).1 ≡ true
  add_list-permitted name config items rest a e h = ground arith

  add_one-permitted :
      (name : Text) (config : FilterFieldConfig) (op : FilterOperator) (value : Option Scalar)
      (rest : Parsed)
      → is_operator_allowed config op ≡ true
      → allowlist name ≡ some config
      → are_permitted rest.1 ≡ true
      → are_permitted (add_one js allowlist name op value rest).1 ≡ true
  add_one-permitted name config op none rest a e h = h
  add_one-permitted name config op (some v) rest a e h = ground arith

  add_by_operator-permitted :
      (name : Text) (op : FilterOperator) (value : Json) (config : FilterFieldConfig)
      (rest : Parsed)
      → is_operator_allowed config op ≡ true
      → allowlist name ≡ some config
      → are_permitted rest.1 ≡ true
      → are_permitted (add_by_operator js allowlist name op value config rest).1 ≡ true
  add_by_operator-permitted name in_operator value config rest a e h =
      add_list-permitted name config (parse_in_list value) rest a e h
  add_by_operator-permitted name eq_operator value config rest a e h =
      add_one-permitted name config eq_operator (parse_filter_scalar js config value) rest a e h
  add_by_operator-permitted name gte_operator value config rest a e h =
      add_one-permitted name config gte_operator (parse_filter_scalar js config value) rest a e h
  add_by_operator-permitted name lte_operator value config rest a e h =
      add_one-permitted name config lte_operator (parse_filter_scalar js config value) rest a e h

  add_expr-permitted :
      (name : Text) (op : FilterOperator) (value : Json) (config : FilterFieldConfig)
      (rest : Parsed)
      → allowlist name ≡ some config
      → are_permitted rest.1 ≡ true
      → are_permitted (add_expr js allowlist name op value config rest).1 ≡ true
  unfolding add_expr
  add_expr-permitted name op value config rest e h =
      elim (Bool-cases (is_operator_allowed config op)) [
        | inr refused ↦ rw refused h
        | inl fine ↦ rw fine (add_by_operator-permitted name op value config rest fine e h)
      ]

  add_operator-permitted :
      (name : Text) (op : Option FilterOperator) (value : Json) (config : FilterFieldConfig)
      (rest : Parsed)
      → allowlist name ≡ some config
      → are_permitted rest.1 ≡ true
      → are_permitted (add_operator js allowlist name op value config rest).1 ≡ true
  add_operator-permitted name none value config rest e h = h
  add_operator-permitted name (some op) value config rest e h =
      add_expr-permitted name op value config rest e h

  add_operators-permitted :
      (name : Text) (config : FilterFieldConfig) (fields : JsonFields) (rest : Parsed)
      → allowlist name ≡ some config
      → are_permitted rest.1 ≡ true
      → are_permitted (add_operators js allowlist name config fields rest).1 ≡ true
  unfolding add_operators
  add_operators-permitted name config empty_object rest e h = h
  add_operators-permitted name config (field op value fields) rest e h =
      add_operator-permitted name (operator_of op) value config
        (add_operators js allowlist name config fields rest) e
        (add_operators-permitted name config fields rest e h)

  add_field-permitted :
      (name : Text) (config : Option FilterFieldConfig) (value : Json) (rest : Parsed)
      → allowlist name ≡ config
      → are_permitted rest.1 ≡ true
      → are_permitted (add_field js allowlist name config value rest).1 ≡ true
  add_field-permitted name none value rest e h = h
  add_field-permitted name (some config) (object_value fields) rest e h =
      add_operators-permitted name config fields rest e h
  add_field-permitted name (some config) null_value rest e h =
      add_expr-permitted name eq_operator null_value config rest e h
  add_field-permitted name (some config) (bool_value b) rest e h =
      add_expr-permitted name eq_operator (bool_value b) config rest e h
  add_field-permitted name (some config) (number_value n) rest e h =
      add_expr-permitted name eq_operator (number_value n) config rest e h
  add_field-permitted name (some config) (string_value t) rest e h =
      add_expr-permitted name eq_operator (string_value t) config rest e h
  add_field-permitted name (some config) (array_value items) rest e h =
      add_expr-permitted name eq_operator (array_value items) config rest e h

  parse_nested-permitted :
      (fields : JsonFields) → are_permitted (parse_nested js allowlist fields).1 ≡ true
  unfolding parse_nested
  parse_nested-permitted empty_object = refl
  parse_nested-permitted (field name value fields) =
      add_field-permitted name (allowlist name) value (parse_nested js allowlist fields) refl
        (parse_nested-permitted fields)

  add_named-permitted :
      (name : Text) (config : Option FilterFieldConfig) (value : Json) (rest : Parsed)
      → allowlist name ≡ config
      → are_permitted rest.1 ≡ true
      → are_permitted (add_named js allowlist name config value rest).1 ≡ true
  add_named-permitted name none value rest e h = h
  add_named-permitted name (some config) value rest e h =
      add_expr-permitted name eq_operator value config rest e h

  add_with_operator-permitted :
      (name op : Text) (config : Option FilterFieldConfig) (value : Json) (rest : Parsed)
      → allowlist name ≡ config
      → are_permitted rest.1 ≡ true
      → are_permitted (add_with_operator js allowlist name op config value rest).1 ≡ true
  add_with_operator-permitted name op none value rest e h = h
  add_with_operator-permitted name op (some config) value rest e h =
      add_operator-permitted name (operator_of op) value config rest e h

  add_bracketed-permitted :
      (key : FilterKey) (value : Json) (rest : Parsed)
      → are_permitted rest.1 ≡ true
      → are_permitted (add_bracketed js allowlist key value rest).1 ≡ true
  add_bracketed-permitted other_key value rest h = h
  add_bracketed-permitted (named_key name) value rest h =
      add_named-permitted name (allowlist name) value rest refl h
  add_bracketed-permitted (operator_key name op) value rest h =
      add_with_operator-permitted name op (allowlist name) value rest refl h

  parse_bracketed-permitted :
      (fields : JsonFields) → are_permitted (parse_bracketed js allowlist fields).1 ≡ true
  unfolding parse_bracketed
  parse_bracketed-permitted empty_object = refl
  parse_bracketed-permitted (field key value fields) =
      add_bracketed-permitted (key_of key) value (parse_bracketed js allowlist fields)
        (parse_bracketed-permitted fields)

  accept_filters-permitted :
      (parsed : Parsed) (filters : List FilterExpr)
      → are_permitted parsed.1 ≡ true
      → accept_filters js allowlist parsed ≡ ok filters
      → are_permitted filters ≡ true
  accept_filters-permitted ([], found) filters h e = ground arith
  accept_filters-permitted (i ∷ issues, found) filters h e = cc e

  -- Filters that are accepted are all on fields of the allowlist, with operators that are allowed for
  -- the field.
  pub parse_filters-permitted :
      (raw : Option Json) (filters : List FilterExpr)
      → parse_filters js allowlist raw ≡ ok filters
      → are_permitted filters ≡ true
  unfolding parse_filters
  parse_filters-permitted none filters = λ h. ground arith
  parse_filters-permitted (some null_value) filters = λ h. ground arith
  parse_filters-permitted (some (bool_value b)) filters = λ h. cc h
  parse_filters-permitted (some (number_value n)) filters = λ h. cc h
  parse_filters-permitted (some (string_value t)) filters = λ h. cc h
  parse_filters-permitted (some (array_value items)) filters = λ h. cc h
  parse_filters-permitted (some (object_value fields)) filters =
      elim (Bool-cases (is_bracketed fields)) [
        | inl bracketed ↦ rw bracketed (
            accept_filters-permitted (parse_bracketed js allowlist fields) filters
              (parse_bracketed-permitted fields))
        | inr nested ↦ rw nested (
            accept_filters-permitted (parse_nested js allowlist fields) filters
              (parse_nested-permitted fields))
      ]
