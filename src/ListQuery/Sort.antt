-- ===== src/ListQuery/Sort.antt =====
-- libs/shared/list-query/sort.ts: the sort order of a list request, and its normal form.
pub mod Tests
pub mod Valid
pub mod RoundTrip
use backend_core_kit.Prelude.{
  ℕ, ◌==◌, ltb, or_else, Bool, true, false, not, ◌&&◌, Option, none, some, List, [], ◌∷◌, ◌++◌, map,
  filter, any, length, Text, text_eq, trim, split, join, is_empty, is_some, if◌then◌else◌,
}
use backend_core_kit.Db.{Result, ok, err}
use backend_core_kit.ListQuery.CursorAfter.{SortDirection, asc, desc, SortSpec}

pub data CursorFieldType : Type 0 where
  string_field uuid_field datetime_field number_field boolean_field : CursorFieldType

-- `allowed` gives the type of a field that the allowlist has.
pub record ParseSortOptions : Type 0 where
  pub allowed : Text → Option CursorFieldType
  pub default_sort : List (SortSpec Text)
  pub max_fields : Option ℕ
  pub tie_breaker : SortSpec Text

-- The raw value of a query parameter: undefined or null, a string, or anything else.
pub data RawParameter : Type 0 where
  absent other_value : RawParameter
  text_value : Text → RawParameter

pub data SortIssue : Type 0 where
  not_a_string : SortIssue
  unsupported_field duplicate_field : Text → SortIssue
  too_many_fields : ℕ → SortIssue

pub data SortError : Type 0 where
  tie_breaker_not_allowed empty_default_sort : SortError
  invalid_sort : List SortIssue → SortError

pub record ParsedSort : Type 0 where
  pub sort : List (SortSpec Text)
  pub normalized : Text

-- The code units of `,` and `-`.
abbrev pub comma : ℕ
comma = 44

abbrev pub dash : ℕ
dash = 45

abbrev pub sort_token : SortSpec Text → Text
sort_token s = elim s.direction [ asc ↦ s.field | desc ↦ dash ∷ s.field ]

unfoldable pub normalize_sort : List (SortSpec Text) → Text
normalize_sort sort = join comma (map sort_token sort)

abbrev pub has_field : List (SortSpec Text) → Text → Bool
has_field sort field = any (λ s. text_eq s.field field) sort

abbrev pub tokens_of : Text → List Text
tokens_of raw = filter (λ t. not (is_empty t)) (map trim (split comma raw))

abbrev pub raw_tokens : RawParameter → List Text
raw_tokens absent = []
raw_tokens other_value = []
raw_tokens (text_value raw) = if is_empty raw then [] else tokens_of raw

abbrev pub raw_issues : RawParameter → List SortIssue
raw_issues other_value = not_a_string ∷ []
raw_issues _ = []

-- A token's field and direction.
abbrev pub parse_token : Text → SortSpec Text
parse_token [] = record { field = []; direction = asc }
parse_token (c ∷ t) =
    if c == dash
    then record { field = trim t; direction = desc }
    else record { field = trim (c ∷ t); direction = asc }

module _ (options : ParseSortOptions) where
  -- The loop over the tokens: the issues that it finds and the fields that it takes, where `seen`
  -- holds the fields taken before.
  unfoldable pub parse_tokens : List Text → List Text → List SortIssue × List (SortSpec Text)
  parse_tokens seen [] = ([], [])
  parse_tokens seen (t ∷ tokens) =
      let s = parse_token t in
      let skipped = parse_tokens seen tokens in
      let taken = parse_tokens (s.field ∷ seen) tokens in
      if not (is_some (options.allowed s.field))
      then (unsupported_field s.field ∷ skipped.0, skipped.1)
      else if any (λ f. text_eq f s.field) seen
      then (duplicate_field s.field ∷ skipped.0, skipped.1)
      else (taken.0, s ∷ taken.1)

  abbrev pub field_limit : ℕ
  field_limit = or_else options.max_fields 3

  abbrev pub limit_issues : List (SortSpec Text) → List SortIssue
  limit_issues user_sort =
      if ltb field_limit (length user_sort) then too_many_fields field_limit ∷ [] else []

  abbrev pub with_tie_breaker : List (SortSpec Text) → List (SortSpec Text)
  with_tie_breaker base =
      if has_field base options.tie_breaker.field then base else base ++ options.tie_breaker ∷ []

  abbrev pub finish : List (SortSpec Text) → Result SortError ParsedSort
  finish [] = err empty_default_sort
  finish (s ∷ base) =
      let sort = with_tie_breaker (s ∷ base) in
      ok (record { sort = sort; normalized = normalize_sort sort })

  abbrev pub base_sort : List (SortSpec Text) → List (SortSpec Text)
  base_sort [] = options.default_sort
  base_sort (s ∷ sort) = s ∷ sort

  abbrev pub check_issues : List SortIssue → List (SortSpec Text) → Result SortError ParsedSort
  check_issues [] user_sort = finish (base_sort user_sort)
  check_issues (i ∷ issues) user_sort = err (invalid_sort (i ∷ issues))

  unfoldable pub parse_sort : RawParameter → Result SortError ParsedSort
  parse_sort raw =
      if not (is_some (options.allowed options.tie_breaker.field))
      then err tie_breaker_not_allowed
      else (let r = parse_tokens [] (raw_tokens raw) in
          check_issues (raw_issues raw ++ r.0 ++ limit_issues r.1) r.1)
