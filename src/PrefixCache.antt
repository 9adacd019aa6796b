-- ===== src/PrefixCache.antt =====
-- The prompt-prefix slot of the server: src/nunspark/prefix_cache.py, class PrefixCache, on a KV store
-- given by its operations.
pub mod Slot
pub mod Common
pub mod Requests
pub mod Commits
pub mod Tests
