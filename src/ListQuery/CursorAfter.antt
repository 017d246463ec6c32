-- ===== src/ListQuery/CursorAfter.antt =====
-- libs/shared/list-query/cursor-after.ts: the filter that selects the rows after a cursor.
pub mod Tests
pub mod Keyset
pub mod Total
use backend_core_kit.Prelude.{ℕ, Option, none, some, List, [], ◌∷◌, ◌++◌}

pub data SortDirection : Type 0 where
  asc desc : SortDirection

pub record SortSpec (Field : Type 0) : Type 0 where
  pub field : Field
  pub direction : SortDirection

-- The builders of one database's filters.
pub record CursorAfterBuilders (Field Scalar Filter : Type 0) : Type 0 where
  pub equals : Field → Scalar → Filter
  pub compare : Field → SortDirection → Scalar → Filter
  pub and : List Filter → Filter
  pub or : List Filter → Filter
  pub empty : Filter

module _ {Field Scalar Filter : Type 0} (after : Field → Option Scalar)
    (b : CursorAfterBuilders Field Scalar Filter) where
  infixl 5 ◌>>=◌
  abbrev ◌>>=◌ {ℓ κ} : {A : Type ℓ} {B : Type κ} → Option A → (A → Option B) → Option B
  none >>= k = none
  some a >>= k = k a

  -- The inner loop: equality with the cursor on the fields before the current one.
  pub equal_clauses : List (SortSpec Field) → Option (List Filter)
  equal_clauses [] = some []
  equal_clauses (s ∷ sort) = do
    value ← after s.field
    rest ← equal_clauses sort
    some (b.equals s.field value ∷ rest)

  -- One round of the outer loop: `before` holds the fields that were passed.
  pub clause_at : List (SortSpec Field) → SortSpec Field → Option Filter
  clause_at before s = do
    equalities ← equal_clauses before
    value ← after s.field
    some (b.and (equalities ++ b.compare s.field s.direction value ∷ []))

  pub clauses_from : List (SortSpec Field) → List (SortSpec Field) → Option (List Filter)
  clauses_from before [] = some []
  clauses_from before (s ∷ sort) = do
    clause ← clause_at before s
    rest ← clauses_from (before ++ s ∷ []) sort
    some (clause ∷ rest)

  -- `none` is the error of a cursor with no value for a sort field.
  unfoldable pub build_cursor_after_where : List (SortSpec Field) → Option Filter
  unfolding clauses_from
  build_cursor_after_where [] = some b.empty
  build_cursor_after_where (s ∷ sort) = do clauses ← clauses_from [] (s ∷ sort); some (b.or clauses)
