-- ===== src/ListQuery/Sort/Valid.antt =====
-- A sort order that is accepted can be sorted and paged by.
use backend_core_kit.Prelude.{
  subst, ℕ, ◌+◌, ◌≡◌, ◌≤◌, ◌<◌, max, refl, arith, Bool, true, false, not, ◌&&◌, List, [], ◌∷◌, ◌++◌,
  any, all, length, Text, text_eq, ltb, text_eq_refl, is_some, Bool-cases, inl, inr,
}
use backend_core_kit.Db.{Result, ok}
use backend_core_kit.ListQuery.CursorAfter.{SortSpec}
use backend_core_kit.ListQuery.Sort.{
  ParseSortOptions, RawParameter, ParsedSort, SortIssue, SortError, normalize_sort, has_field,
  parse_token, parse_tokens, raw_tokens, raw_issues, field_limit, limit_issues, with_tie_breaker,
  finish, base_sort, check_issues, parse_sort,
}

-- No field comes twice, nor is it one of those seen before.
abbrev pub fresh : List Text → List (SortSpec Text) → Bool
fresh seen [] = true
fresh seen (s ∷ sort) = not (any (λ f. text_eq f s.field) seen) && fresh (s.field ∷ seen) sort

abbrev pub are_allowed : ParseSortOptions → List (SortSpec Text) → Bool
are_allowed options sort = all (λ s. is_some (options.allowed s.field)) sort

-- What is kept of a field at the end of an order that does not have it.
fresh-append :
    (seen : List Text) (sort : List (SortSpec Text)) (last : SortSpec Text)
    → fresh seen sort ≡ true
    → any (λ f. text_eq f last.field) seen ≡ false
    → has_field sort last.field ≡ false
    → fresh seen (sort ++ last ∷ []) ≡ true
fresh-append seen [] last h a b = ground arith
fresh-append seen (s ∷ sort) last h a b = ground (arith, fresh-append (s.field ∷ seen) sort last)

all_append_one {ℓ} :
    {A : Type ℓ} (p : A → Bool) (xs : List A) (y : A)
    → all p xs ≡ true
    → p y ≡ true
    → all p (xs ++ y ∷ []) ≡ true
all_append_one p [] y h k = ground arith
all_append_one p (x ∷ xs) y h k = ground (arith, all_append_one p xs y)

has_field-append :
    (sort : List (SortSpec Text)) (last : SortSpec Text)
    → has_field (sort ++ last ∷ []) last.field ≡ true
has_field-append [] last = ground (arith, text_eq_refl last.field)
has_field-append (s ∷ sort) last = ground (arith, has_field-append sort last)

length-append_one {ℓ} : {A : Type ℓ} (xs : List A) (y : A) → length (xs ++ y ∷ []) ≡ length xs + 1
length-append_one [] y = refl
length-append_one (x ∷ xs) y = ground (arith, length-append_one xs y)

module _ (options : ParseSortOptions) where
  parse_tokens-fresh :
      (seen tokens : List Text) → fresh seen (parse_tokens options seen tokens).1 ≡ true
  unfolding parse_tokens
  parse_tokens-fresh seen [] = refl
  parse_tokens-fresh seen (t ∷ tokens) = ground (
    arith,
    parse_tokens-fresh seen tokens,
    parse_tokens-fresh ((parse_token t).field ∷ seen) tokens,
  )

  parse_tokens-allowed :
      (seen tokens : List Text) → are_allowed options (parse_tokens options seen tokens).1 ≡ true
  unfolding parse_tokens
  parse_tokens-allowed seen [] = refl
  parse_tokens-allowed seen (t ∷ tokens) = ground (
    arith,
    parse_tokens-allowed seen tokens,
    parse_tokens-allowed ((parse_token t).field ∷ seen) tokens,
  )

-- A parsed order: it is not empty, has the tie-breaker, has no field twice and only allowed ones,
-- has at most the bound of fields and one, and comes with its normal form.
pub record IsValid (options : ParseSortOptions) (r : ParsedSort) : Type 0 where
  pub not_empty : 0 < length r.sort
  pub has_tie_breaker : has_field r.sort options.tie_breaker.field ≡ true
  pub distinct : fresh [] r.sort ≡ true
  pub allowed : are_allowed options r.sort ≡ true
  pub bounded : length r.sort ≤ max (field_limit options) (length options.default_sort) + 1
  pub normal : r.normalized ≡ normalize_sort r.sort

module _ (options : ParseSortOptions)
    (tie_allowed : is_some (options.allowed options.tie_breaker.field) ≡ true) where
  abbrev bound : ℕ
  bound = max (field_limit options) (length options.default_sort)

  tied-IsValid :
      (base : List (SortSpec Text))
      → 0 < length base
      → fresh [] base ≡ true
      → are_allowed options base ≡ true
      → length base ≤ bound
      → let sort = with_tie_breaker options base in
        IsValid options (record { sort = sort; normalized = normalize_sort sort })
  tied-IsValid base some_field distinct allowed fits =
      let tie = options.tie_breaker in
      elim (Bool-cases (has_field base tie.field)) [
        | inl there ↦ rw there (record {
          not_empty = some_field;
          has_tie_breaker = there;
          distinct = distinct;
          allowed = allowed;
          bounded = omega (arith, fits);
          normal = refl;
        })
        | inr missing ↦ rw missing (record {
          not_empty = omega (arith, length-append_one base tie);
          has_tie_breaker = has_field-append base tie;
          distinct = fresh-append [] base tie distinct refl missing;
          allowed =
              all_append_one (λ s. is_some (options.allowed s.field)) base tie allowed tie_allowed;
          bounded = omega (arith, fits, length-append_one base tie);
          normal = refl;
        })
      ]

  answer-eq : {a b : ParsedSort} → ◌≡◌ {A = Result SortError ParsedSort} (ok a) (ok b) → a ≡ b
  answer-eq {a} {b} e = cc e

  finish-IsValid :
      (base : List (SortSpec Text)) (r : ParsedSort)
      → fresh [] base ≡ true
      → are_allowed options base ≡ true
      → length base ≤ bound
      → finish options base ≡ ok r
      → IsValid options r
  finish-IsValid [] r distinct allowed fits h = cc h
  finish-IsValid (s ∷ base) r distinct allowed fits h =
      let valid = tied-IsValid (s ∷ base) (omega arith) distinct allowed fits in
      subst (IsValid options) (answer-eq h) valid

  -- An issue at the end is enough to refuse the order.
  issue-refuses :
      (xs ys : List SortIssue) (i : SortIssue) (user_sort : List (SortSpec Text)) (r : ParsedSort)
      → check_issues options (xs ++ ys ++ i ∷ []) user_sort ≡ ok r
      → ⊥
  issue-refuses [] [] i user_sort r h = cc h
  issue-refuses [] (y ∷ ys) i user_sort r h = cc h
  issue-refuses (x ∷ xs) ys i user_sort r h = cc h

  no_issue-finish :
      (issues : List SortIssue) (user_sort : List (SortSpec Text)) (r : ParsedSort)
      → check_issues options issues user_sort ≡ ok r
      → finish options (base_sort options user_sort) ≡ ok r
  no_issue-finish [] user_sort r h = h
  no_issue-finish (i ∷ issues) user_sort r h = cc h

  base-IsValid :
      (user_sort : List (SortSpec Text)) (r : ParsedSort)
      → fresh [] options.default_sort ≡ true
      → are_allowed options options.default_sort ≡ true
      → fresh [] user_sort ≡ true
      → are_allowed options user_sort ≡ true
      → ltb (field_limit options) (length user_sort) ≡ false
      → finish options (base_sort options user_sort) ≡ ok r
      → IsValid options r
  base-IsValid [] r d d' f a fits h = finish-IsValid options.default_sort r d d' (omega arith) h
  base-IsValid (s ∷ user_sort) r d d' f a fits h =
      finish-IsValid (s ∷ user_sort) r f a (ground arith) h

  checked-IsValid :
      (raw : RawParameter) (found : List SortIssue × List (SortSpec Text)) (r : ParsedSort)
      → fresh [] options.default_sort ≡ true
      → are_allowed options options.default_sort ≡ true
      → fresh [] found.1 ≡ true
      → are_allowed options found.1 ≡ true
      → check_issues options (raw_issues raw ++ found.0 ++ limit_issues options found.1) found.1
        ≡ ok r
      → IsValid options r
  checked-IsValid raw found r d d' f a =
      elim (Bool-cases (ltb (field_limit options) (length found.1))) [
        | inl many ↦ rw many (λ h. absurd (issue-refuses (raw_issues raw) found.0 _ found.1 r h))
        | inr fits ↦ rw fits (λ h.
            base-IsValid found.1 r d d' f a fits
              (no_issue-finish (raw_issues raw ++ found.0 ++ []) found.1 r h))
      ]

-- If the default order has allowed fields, each once, then an order that is accepted is not empty,
-- has the tie-breaker, has only allowed fields and none twice, has at most one field more than the
-- larger of the configured bound and the default order's length, and comes with its normal form.
pub parse_sort-IsValid :
    (options : ParseSortOptions) (raw : RawParameter) (r : ParsedSort)
    → fresh [] options.default_sort ≡ true
    → are_allowed options options.default_sort ≡ true
    → parse_sort options raw ≡ ok r
    → IsValid options r
unfolding parse_sort
parse_sort-IsValid options raw r d d' =
    elim (Bool-cases (is_some (options.allowed options.tie_breaker.field))) [
      | inr refused ↦ rw refused (λ h. cc h)
      | inl tie_allowed ↦ rw tie_allowed (
          checked-IsValid options tie_allowed raw (parse_tokens options [] (raw_tokens raw)) r d d'
            (parse_tokens-fresh options [] (raw_tokens raw))
            (parse_tokens-allowed options [] (raw_tokens raw)))
    ]
