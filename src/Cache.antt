-- ===== src/Cache.antt =====
-- The shared read cache (src/read_cache.rs): the Lua scripts that run inside Redis, the client that
-- calls them, and what holds of every interleaving of such calls.
pub mod Bytes
pub mod Epoch
pub mod Store
pub mod Scripts
pub mod Config
pub mod History
mod Tests
