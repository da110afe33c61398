-- ===== src/TextQuery.antt =====
-- Approximate text queries that the gateway evaluates itself.
pub mod Distance
pub mod Words
pub mod Match
