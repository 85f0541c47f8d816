-- ===== src/Query.antt =====
-- internal/server/query/service.go: the search of entries, and the cursors of its pages.
pub mod Cursor
pub mod Filters
pub mod Service
pub mod Slots
