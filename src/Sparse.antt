-- ===== src/Sparse.antt =====
-- Sparse vectors (src/sparse.rs).
pub mod Name
pub mod Mapping
pub mod Vector
mod Tests
