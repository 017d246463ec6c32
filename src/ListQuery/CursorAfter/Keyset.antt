-- ===== src/ListQuery/CursorAfter/Keyset.antt =====
-- The filter, read as a test on rows, is the order of the sort: keyset pagination.
use backend_core_kit.Prelude.{
  ℕ, ◌==◌, ltb, ◌≡◌, refl, arith, Bool, true, false, ◌&&◌, ◌||◌, Option, some, List, [], ◌∷◌, ◌++◌,
  all, any,
}
use backend_core_kit.ListQuery.CursorAfter.{
  SortDirection, asc, desc, SortSpec, CursorAfterBuilders, equal_clauses, clause_at, clauses_from,
  build_cursor_after_where,
}

-- What a database makes of the filters: tests on rows whose fields are numbers.
module _ {Field Row : Type 0} (column : Field → Row → ℕ) where
  abbrev pub before_in : SortDirection → ℕ → ℕ → Bool
  before_in asc value x = ltb value x
  before_in desc value x = ltb x value

  abbrev pub row_tests : CursorAfterBuilders Field ℕ (Row → Bool)
  row_tests = record {
    equals = λ field value row. column field row == value;
    compare = λ field direction value row. before_in direction value (column field row);
    and = λ tests row. all (λ t. t row) tests;
    or = λ tests row. any (λ t. t row) tests;
    empty = λ row. true;
  }

  -- The row comes after the cursor's values in the lexicographic order of the sort.
  pub comes_after : List (SortSpec Field) → (Field → ℕ) → Row → Bool
  comes_after [] values row = false
  comes_after (s ∷ sort) values row =
      before_in s.direction (values s.field) (column s.field row)
      || (column s.field row == values s.field && comes_after sort values row)

  module _ (values : Field → ℕ) where
    abbrev present : Field → Option ℕ
    present field = some (values field)

    -- The row agrees with the cursor on these fields.
    agrees : List (SortSpec Field) → Row → Bool
    agrees [] row = true
    agrees (s ∷ sort) row = column s.field row == values s.field && agrees sort row

    agrees-append :
        (before : List (SortSpec Field)) (s : SortSpec Field) (row : Row)
        → agrees (before ++ s ∷ []) row
          ≡ (agrees before row && column s.field row == values s.field)
    unfolding agrees
    agrees-append [] s row = ground arith
    agrees-append (r ∷ before) s row = ground (arith, agrees-append before s row)

    clause_test : (before : List (SortSpec Field)) → List (Row → Bool)
    clause_test [] = []
    clause_test (s ∷ before) = (λ row. column s.field row == values s.field) ∷ clause_test before

    equal_clauses-some :
        (before : List (SortSpec Field))
        → equal_clauses present row_tests before ≡ some (clause_test before)
    unfolding equal_clauses clause_test
    equal_clauses-some [] = refl
    equal_clauses-some (s ∷ before) = rw (equal_clauses-some before)

    all-clause_test :
        (before : List (SortSpec Field)) (last : Row → Bool) (row : Row)
        → all (λ (t : Row → Bool). t row) (clause_test before ++ last ∷ [])
          ≡ (agrees before row && last row)
    unfolding clause_test agrees
    all-clause_test [] last row = ground arith
    all-clause_test (s ∷ before) last row = ground (arith, all-clause_test before last row)

    -- The tests of the rounds that are left.
    rounds : List (SortSpec Field) → List (SortSpec Field) → List (Row → Bool)
    rounds before [] = []
    rounds before (s ∷ sort) =
        (λ row.
          all (λ (t : Row → Bool). t row)
            (clause_test before
              ++ (λ row. before_in s.direction (values s.field) (column s.field row)) ∷ []))
        ∷ rounds (before ++ s ∷ []) sort

    clauses_from-some :
        (before sort : List (SortSpec Field))
        → clauses_from present row_tests before sort ≡ some (rounds before sort)
    unfolding clauses_from clause_at rounds
    clauses_from-some before [] = refl
    clauses_from-some before (s ∷ sort) =
        rw (equal_clauses-some before, clauses_from-some (before ++ s ∷ []) sort)

    any-rounds :
        (before sort : List (SortSpec Field)) (row : Row)
        → any (λ (t : Row → Bool). t row) (rounds before sort)
          ≡ (agrees before row && comes_after sort values row)
    unfolding rounds comes_after
    any-rounds before [] row = ground arith
    any-rounds before (s ∷ sort) row = ground (
      arith,
      any-rounds (before ++ s ∷ []) sort row,
      agrees-append before s row,
      all-clause_test before (λ row. before_in s.direction (values s.field) (column s.field row))
          row,
    )

    -- For a sort of at least one field and a cursor with all values, the filter is built, and it
    -- selects exactly the rows that come after the cursor in the order of the sort.
    pub build_cursor_after_where-comes_after :
        (s : SortSpec Field) (sort : List (SortSpec Field))
        → (filter : Row → Bool) × (build_cursor_after_where
              (λ field. some (values field))
              row_tests
              (s ∷ sort)
            ≡ some filter)
          × ((row : Row) → filter row ≡ comes_after (s ∷ sort) values row)
    unfolding build_cursor_after_where agrees
    build_cursor_after_where-comes_after s sort = (
      (λ row. any (λ (t : Row → Bool). t row) (rounds [] (s ∷ sort))),
      rw (clauses_from-some [] (s ∷ sort)),
      λ row. any-rounds [] (s ∷ sort) row,
    )
