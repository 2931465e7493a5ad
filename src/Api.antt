-- ===== src/Api.antt =====
-- The API server (`api/src`): the store of remittances with its pages, and the cursors of lists.
pub mod Remittances
pub mod Cursor
mod Tests
