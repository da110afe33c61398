-- ===== src/Search.antt =====
-- Parameters of a search request (src/main.rs): the page, the sort order, the cursor, the counting of
-- hits, collapsing, and the controls that the gateway does not execute.
pub mod Window
pub mod Sort
pub mod Totals
pub mod Collapse
pub mod Controls
pub mod Order
mod Tests
