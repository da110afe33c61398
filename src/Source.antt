-- ===== src/Source.antt =====
-- Source documents (src/main.rs): field patterns, `_source` filters and their projections, and
-- partial updates.
pub mod Glob
pub mod Filter
pub mod Merge
mod Tests
