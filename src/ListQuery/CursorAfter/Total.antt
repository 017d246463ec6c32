-- ===== src/ListQuery/CursorAfter/Total.antt =====
-- The filter after a cursor is built whenever the cursor has a value for each sort field.
use backend_core_kit.Prelude.{
  ◌≡◌, refl, arith, Bool, true, Option, is_some, List, [], ◌∷◌, ◌++◌, all, Option-cases, inl, inr,
}
use backend_core_kit.ListQuery.CursorAfter.{
  SortSpec, CursorAfterBuilders, equal_clauses, clause_at, clauses_from, build_cursor_after_where,
}

module _ {Field Scalar Filter : Type 0} (after : Field → Option Scalar)
    (b : CursorAfterBuilders Field Scalar Filter) where
  abbrev pub has_values : List (SortSpec Field) → Bool
  has_values sort = all (λ s. is_some (after s.field)) sort

  equal_clauses-total :
      (sort : List (SortSpec Field))
      → has_values sort ≡ true
      → is_some (equal_clauses after b sort) ≡ true
  unfolding equal_clauses
  equal_clauses-total [] h = refl
  equal_clauses-total (s ∷ sort) h = elim (Option-cases (after s.field)) [
    | inl missing ↦ absurd (ground arith)
    | inr (v, found) ↦ rw found (elim (Option-cases (equal_clauses after b sort)) [
      | inl failed ↦ absurd (ground (arith, equal_clauses-total sort (ground arith)))
      | inr (rest, built) ↦ rw built refl
    ])
  ]

  has_values-append :
      (before : List (SortSpec Field)) (s : SortSpec Field)
      → has_values before ≡ true
      → is_some (after s.field) ≡ true
      → has_values (before ++ s ∷ []) ≡ true
  has_values-append [] s h k = ground arith
  has_values-append (r ∷ before) s h k = ground (arith, has_values-append before s)

  clause_at-total :
      (before : List (SortSpec Field)) (s : SortSpec Field)
      → has_values before ≡ true
      → is_some (after s.field) ≡ true
      → is_some (clause_at after b before s) ≡ true
  unfolding clause_at
  clause_at-total before s h k = elim (Option-cases (equal_clauses after b before)) [
    | inl failed ↦ absurd (ground (arith, equal_clauses-total before h))
    | inr (equalities, built) ↦ rw built (elim (Option-cases (after s.field)) [
      | inl missing ↦ absurd (ground arith)
      | inr (v, found) ↦ rw found refl
    ])
  ]

  clauses_from-total :
      (before sort : List (SortSpec Field))
      → has_values before ≡ true
      → has_values sort ≡ true
      → is_some (clauses_from after b before sort) ≡ true
  unfolding clauses_from
  clauses_from-total before [] h k = refl
  clauses_from-total before (s ∷ sort) h k =
      let more =
        clauses_from-total (before ++ s ∷ []) sort (has_values-append before s h (ground arith))
          (ground arith) in
      elim (Option-cases (clause_at after b before s)) [
        | inl failed ↦ absurd (ground (arith, clause_at-total before s h (ground arith)))
        | inr (clause, built) ↦
            rw built (elim (Option-cases (clauses_from after b (before ++ s ∷ []) sort)) [
              | inl failed ↦ absurd (ground arith)
              | inr (rest, built') ↦ rw built' refl
            ])
      ]

  pub build_cursor_after_where-total :
      (sort : List (SortSpec Field))
      → has_values sort ≡ true
      → is_some (build_cursor_after_where after b sort) ≡ true
  unfolding build_cursor_after_where
  build_cursor_after_where-total [] h = refl
  build_cursor_after_where-total (s ∷ sort) h =
      elim (Option-cases (clauses_from after b [] (s ∷ sort))) [
        | inl failed ↦ absurd (ground (arith, clauses_from-total [] (s ∷ sort) refl h))
        | inr (clauses, built) ↦ rw built refl
      ]
