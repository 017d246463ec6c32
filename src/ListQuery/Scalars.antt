-- ===== src/ListQuery/Scalars.antt =====
-- libs/shared/list-query/scalars.ts: the values of cursors and filters. The regular expressions are
-- written out as tests on characters; what JavaScript's Number and Date do is a parameter.
use backend_core_kit.Prelude.{
  ℕ, zero, suc, ◌==◌, leb, Bool, true, false, not, ◌&&◌, ◌||◌, Option, none, some, List, [], ◌∷◌,
  ◌++◌, Text, text_eq, trim, is_empty, if◌then◌else◌,
}
use backend_core_kit.ListQuery.Sort.{
  CursorFieldType, string_field, uuid_field, datetime_field, number_field, boolean_field,
}

-- A value as JSON.parse returns it. A number is an opaque code of a double.
mutual
  pub data Json : Type 0 where
    null_value : Json
    bool_value : Bool → Json
    number_value : ℕ → Json
    string_value : Text → Json
    array_value : JsonList → Json
    object_value : JsonFields → Json

  pub data JsonList : Type 0 where
    no_items : JsonList
    item : Json → JsonList → JsonList

  pub data JsonFields : Type 0 where
    empty_object : JsonFields
    field : Text → Json → JsonFields → JsonFields

pub data Scalar : Type 0 where
  text_scalar : Text → Scalar
  number_scalar : ℕ → Scalar
  bool_scalar : Bool → Scalar

-- JavaScript: Number(text), Number.isFinite, toLowerCase, and `new Date(text)` as toISOString gives it
-- back, or none for an invalid date; `one` is the number 1, and `integer_of` the value of a number
-- that is an integer and not negative.
pub record Runtime : Type 0 where
  pub to_number : Text → ℕ
  pub is_finite : ℕ → Bool
  pub lower_case : Text → Text
  pub to_iso_string : Text → Option Text
  pub one : ℕ
  pub integer_of : ℕ → Option ℕ

abbrev pub is_digit : ℕ → Bool
is_digit c = leb 48 c && leb c 57

abbrev pub is_hex_digit : ℕ → Bool
is_hex_digit c = is_digit c || (leb 65 c && leb c 70) || (leb 97 c && leb c 102)

-- What is left of a text after characters that pass the tests.
abbrev pub after_all : List (ℕ → Bool) → Text → Option Text
after_all [] t = some t
after_all (p ∷ ps) [] = none
after_all (p ∷ ps) (c ∷ t) = if p c then after_all ps t else none

abbrev pub repeated : ℕ → (ℕ → Bool) → List (ℕ → Bool)
repeated zero p = []
repeated (suc n) p = p ∷ repeated n p

abbrev pub is_char : ℕ → ℕ → Bool
is_char d c = c == d

abbrev pub uuid_tests : List (ℕ → Bool)
uuid_tests =
    repeated 8 is_hex_digit
    ++ is_char 45 ∷ repeated 4 is_hex_digit
    ++ is_char 45 ∷ (λ c. leb 49 c && leb c 53) ∷ repeated 3 is_hex_digit
    ++ is_char 45
      ∷ (λ c. c == 56 || c == 57 || c == 97 || c == 98 || c == 65 || c == 66)
      ∷ repeated 3 is_hex_digit
    ++ is_char 45 ∷ repeated 12 is_hex_digit

abbrev pub is_end : Option Text → Bool
is_end none = false
is_end (some t) = is_empty t

-- UUID_RE
abbrev pub is_uuid : Text → Bool
is_uuid t = is_end (after_all uuid_tests t)

abbrev pub drop_digits : Text → Text
drop_digits [] = []
drop_digits (c ∷ t) = if is_digit c then drop_digits t else c ∷ t

-- (?:Z|[+-]\d{2}:\d{2})$
abbrev pub is_zone : Text → Bool
is_zone [] = false
is_zone (c ∷ t) =
    if c == 90
    then is_empty t
    else (c == 43 || c == 45)
      && is_end (after_all (repeated 2 is_digit ++ is_char 58 ∷ repeated 2 is_digit) t)

-- (?:\.\d+)? and the zone
abbrev pub is_fraction_and_zone : Text → Bool
is_fraction_and_zone [] = false
is_fraction_and_zone (c ∷ []) = is_zone (c ∷ [])
is_fraction_and_zone (c ∷ d ∷ t) =
    if c == 46 then is_digit d && is_zone (drop_digits t) else is_zone (c ∷ d ∷ t)

abbrev pub date_time_tests : List (ℕ → Bool)
date_time_tests =
    repeated 4 is_digit
    ++ is_char 45 ∷ repeated 2 is_digit
    ++ is_char 45 ∷ repeated 2 is_digit
    ++ is_char 84 ∷ repeated 2 is_digit
    ++ is_char 58 ∷ repeated 2 is_digit
    ++ is_char 58 ∷ repeated 2 is_digit

abbrev pub zone_follows : Option Text → Bool
zone_follows none = false
zone_follows (some t) = is_fraction_and_zone t

-- ISO_DATE_TIME_RE
abbrev pub is_iso_date_time : Text → Bool
is_iso_date_time t = zone_follows (after_all date_time_tests t)

-- `true`, `1`, `false` and `0`
abbrev pub boolean_of : Text → Option Scalar
boolean_of t =
    if text_eq t (116 ∷ 114 ∷ 117 ∷ 101 ∷ []) || text_eq t (49 ∷ [])
    then some (bool_scalar true)
    else if text_eq t (102 ∷ 97 ∷ 108 ∷ 115 ∷ 101 ∷ []) || text_eq t (48 ∷ [])
    then some (bool_scalar false)
    else none

module _ (js : Runtime) where
  unfoldable pub parse_boolean : Json → Option Scalar
  parse_boolean (bool_value b) = some (bool_scalar b)
  parse_boolean (string_value t) = boolean_of (js.lower_case (trim t))
  parse_boolean _ = none

  abbrev finite_number : ℕ → Option Scalar
  finite_number n = if js.is_finite n then some (number_scalar n) else none

  unfoldable pub parse_number : Json → Option Scalar
  parse_number (number_value n) = finite_number n
  parse_number (string_value t) =
      if is_empty (trim t) then none else finite_number (js.to_number (trim t))
  parse_number _ = none

  abbrev iso_date : Option Text → Option Scalar
  iso_date none = none
  iso_date (some t) = some (text_scalar t)

  unfoldable pub parse_date_iso : Json → Option Scalar
  parse_date_iso (string_value t) =
      if is_empty (trim t)
      then none
      else if not (is_iso_date_time (trim t))
      then none
      else iso_date (js.to_iso_string (trim t))
  parse_date_iso _ = none

  unfoldable pub parse_uuid : Json → Option Scalar
  parse_uuid (string_value t) =
      if is_empty (trim t)
      then none
      else if is_uuid (trim t)
      then some (text_scalar (trim t))
      else none
  parse_uuid _ = none

  unfoldable pub parse_string : Json → Option Scalar
  parse_string (string_value t) = if is_empty (trim t) then none else some (text_scalar (trim t))
  parse_string _ = none

  unfoldable pub parse_scalar : CursorFieldType → Json → Option Scalar
  parse_scalar string_field value = parse_string value
  parse_scalar uuid_field value = parse_uuid value
  parse_scalar datetime_field value = parse_date_iso value
  parse_scalar number_field value = parse_number value
  parse_scalar boolean_field value = parse_boolean value
