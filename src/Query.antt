-- ===== src/Query.antt =====
-- Elasticsearch queries (src/main.rs): the fields of a source document, bool queries, validation,
-- evaluation in the gateway and translation to Qdrant filters.
pub mod Fields
pub mod Bool
pub mod Match
pub mod PostFilter
pub mod Filter
mod Tests
