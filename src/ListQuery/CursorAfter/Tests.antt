-- ===== src/ListQuery/CursorAfter/Tests.antt =====
-- A page of rows sorted by a date, latest first, and then by the id.
use backend_core_kit.Prelude.{ℕ, ◌≡◌, Bool, true, false, some, [], ◌∷◌, if◌then◌else◌}
use backend_core_kit.ListQuery.CursorAfter.{asc, desc, SortSpec, build_cursor_after_where}
use backend_core_kit.ListQuery.CursorAfter.Keyset.{
  row_tests, comes_after, build_cursor_after_where-comes_after,
}

-- A field is `created_at` (true) or `id` (false), a row is a pair of both.
abbrev column : Bool → ℕ × ℕ → ℕ
column is_created_at row = if is_created_at then row.0 else row.1

abbrev cursor : Bool → ℕ
cursor is_created_at = if is_created_at then 10 else 4

abbrev latest : SortSpec Bool
latest = record { field = true; direction = desc }

abbrev by_id : SortSpec Bool
by_id = record { field = false; direction = asc }

build_cursor_after_where-comes_after_example :
    (filter : ℕ × ℕ → Bool) × (build_cursor_after_where
        (λ field. some (cursor field))
        (row_tests column)
        (latest ∷ by_id ∷ [])
      ≡ some filter)
    × ((row : ℕ × ℕ) → filter row ≡ comes_after column (latest ∷ by_id ∷ []) cursor row)
build_cursor_after_where-comes_after_example =
    build_cursor_after_where-comes_after column cursor latest (by_id ∷ [])
