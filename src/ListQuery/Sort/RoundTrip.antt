-- ===== src/ListQuery/Sort/RoundTrip.antt =====
-- The normal form of a sort order parses back to it, so that it stands for that order alone.
use backend_core_kit.Prelude.{
  ◌==◌, ◌≡◌, ◌≤◌, refl, sym, ◌∙◌, ap, arith, Bool, true, false, not, ◌&&◌, List, [], ◌∷◌, map,
  filter, any, all, length, ltb, Text, trim, join, is_empty, is_space, is_some, split-join,
  trim_plain, Bool-cases, inl, inr,
}
use backend_core_kit.Db.{ok}
use backend_core_kit.ListQuery.CursorAfter.{SortDirection, asc, desc, SortSpec}
use backend_core_kit.ListQuery.Sort.{
  ParseSortOptions, text_value, comma, dash, sort_token, normalize_sort, has_field, parse_token,
  parse_tokens, raw_tokens, field_limit, parse_sort,
}
use backend_core_kit.ListQuery.Sort.Valid.{fresh, are_allowed}

-- A field's name: not empty, without white space and commas, and not starting with a dash.
abbrev pub starts_plain : Text → Bool
starts_plain [] = false
starts_plain (c ∷ t) = not (c == dash)

abbrev pub is_plain : Text → Bool
is_plain t = starts_plain t && not (any is_space t) && not (any (λ c. c == comma) t)

abbrev pub are_plain : List (SortSpec Text) → Bool
are_plain sort = all (λ s. is_plain s.field) sort

-- The token of a plain field holds no comma, survives trimming, and parses to the field.
token-without_comma :
    (d : SortDirection) (f : Text)
    → is_plain f ≡ true
    → any (λ c. c == comma) (sort_token (record { field = f; direction = d })) ≡ false
token-without_comma asc f h = ground arith
token-without_comma desc f h = ground arith

token-trim :
    (d : SortDirection) (f : Text)
    → is_plain f ≡ true
    → let t = sort_token (record { field = f; direction = d }) in
      (trim t ≡ t) × (is_empty t ≡ false)
token-trim asc [] h = cc h
token-trim asc (c ∷ f) h = (trim_plain (c ∷ f) (ground arith), refl)
token-trim desc f h = (trim_plain (dash ∷ f) (ground arith), refl)

token-parse :
    (d : SortDirection) (f : Text)
    → is_plain f ≡ true
    → let s : SortSpec Text = record { field = f; direction = d } in parse_token (sort_token s) ≡ s
token-parse asc [] h = cc h
token-parse asc (c ∷ f) h = elim (Bool-cases (c == dash)) [
  | inl dashed ↦ absurd (ground arith)
  | inr plain ↦ rw (plain, trim_plain (c ∷ f) (ground arith)) refl
]
token-parse desc f h = rw (trim_plain f (ground arith)) refl

tokens-without_comma :
    (sort : List (SortSpec Text))
    → are_plain sort ≡ true
    → all (λ t. not (any (λ c. c == comma) t)) (map sort_token sort) ≡ true
tokens-without_comma [] h = refl
tokens-without_comma (s ∷ sort) h =
    ground (arith, token-without_comma s.direction s.field, tokens-without_comma sort)

tokens-kept :
    (sort : List (SortSpec Text))
    → are_plain sort ≡ true
    → filter (λ t. not (is_empty t)) (map trim (map sort_token sort)) ≡ map sort_token sort
tokens-kept [] h = refl
tokens-kept (s ∷ sort) h =
    let (trimmed, filled) = token-trim s.direction s.field (ground arith) in
    rw (trimmed, filled) (ap (λ ts. sort_token s ∷ ts) (tokens-kept sort (ground arith)))

module _ (options : ParseSortOptions) where
  tokens-parse :
      (seen : List Text) (sort : List (SortSpec Text))
      → are_plain sort ≡ true
      → are_allowed options sort ≡ true
      → fresh seen sort ≡ true
      → parse_tokens options seen (map sort_token sort) ≡ ([], sort)
  unfolding parse_tokens
  tokens-parse seen [] p a f = refl
  tokens-parse seen (s ∷ sort) p a f =
      let same = token-parse s.direction s.field (ground arith) in
      let rest = tokens-parse (s.field ∷ seen) sort (ground arith) (ground arith) (ground arith) in
      rw same (ground (arith, rest))

join-filled :
    (t : Text) (texts : List Text) → is_empty t ≡ false → is_empty (join comma (t ∷ texts)) ≡ false
join-filled t [] h = h
join-filled [] (u ∷ texts) h = cc h
join-filled (c ∷ t) (u ∷ texts) h = refl

normalize_sort-tokens :
    (s : SortSpec Text) (sort : List (SortSpec Text))
    → are_plain (s ∷ sort) ≡ true
    → raw_tokens (text_value (normalize_sort (s ∷ sort))) ≡ map sort_token (s ∷ sort)
unfolding normalize_sort
normalize_sort-tokens s sort p =
    let (trimmed, filled) = token-trim s.direction s.field (ground arith) in
    let parts =
      split-join comma (sort_token s) (map sort_token sort) (tokens-without_comma (s ∷ sort) p) in
    rw (join-filled (sort_token s) (map sort_token sort) filled)
      (ap (λ ts. filter (λ t. not (is_empty t)) (map trim ts)) parts ∙ tokens-kept (s ∷ sort) p)

tokens-back :
    (sort : List (SortSpec Text))
    → are_plain sort ≡ true
    → map parse_token (map sort_token sort) ≡ sort
tokens-back [] p = refl
tokens-back (s ∷ sort) p =
    rw (token-parse s.direction s.field (ground arith))
      (ap (λ rest. s ∷ rest) (tokens-back sort (ground arith)))

-- Two orders of plain fields with the same normal form are the same order.
pub normalize_sort-injective :
    (s s' : SortSpec Text) (sort sort' : List (SortSpec Text))
    → are_plain (s ∷ sort) ≡ true
    → are_plain (s' ∷ sort') ≡ true
    → normalize_sort (s ∷ sort) ≡ normalize_sort (s' ∷ sort')
    → s ∷ sort ≡ s' ∷ sort'
normalize_sort-injective s s' sort sort' p p' same =
    sym (tokens-back (s ∷ sort) p)
    ∙ ap (map parse_token) (
        sym (normalize_sort-tokens s sort p)
        ∙ ap (λ t. raw_tokens (text_value t)) same
        ∙ normalize_sort-tokens s' sort' p')
    ∙ tokens-back (s' ∷ sort') p'

-- An order of plain and allowed fields, none twice and no more than the bound, that has the
-- tie-breaker is what its normal form parses to.
pub parse_sort-normalize_sort :
    (options : ParseSortOptions) (s : SortSpec Text) (sort : List (SortSpec Text))
    → are_plain (s ∷ sort) ≡ true
    → are_allowed options (s ∷ sort) ≡ true
    → fresh [] (s ∷ sort) ≡ true
    → length (s ∷ sort) ≤ field_limit options
    → has_field (s ∷ sort) options.tie_breaker.field ≡ true
    → is_some (options.allowed options.tie_breaker.field) ≡ true
    → parse_sort options (text_value (normalize_sort (s ∷ sort)))
      ≡ ok (record { sort = s ∷ sort; normalized = normalize_sort (s ∷ sort) })
unfolding parse_sort
parse_sort-normalize_sort options s sort p a f fits tie tie_allowed =
    let short : ltb (field_limit options) (length (s ∷ sort)) ≡ false = ground arith in
    rw
      (
        tie_allowed,
        normalize_sort-tokens s sort p,
        tokens-parse options [] (s ∷ sort) p a f,
        short,
        tie,
      )
      refl
