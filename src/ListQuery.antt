-- ===== src/ListQuery.antt =====
-- libs/shared/list-query.
pub mod CursorAfter
pub mod Sort
pub mod Scalars
pub mod Cursor
pub mod Filter
pub mod Request
