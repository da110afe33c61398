-- ===== src/Documents.antt =====
-- Documents on their way into Qdrant (src/main.rs).
pub mod Text
mod Tests
