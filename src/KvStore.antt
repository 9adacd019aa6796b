-- ===== src/KvStore.antt =====
-- The store of the layers' KV caches, src/nunspark/kv_store.py, with the cache kinds of
-- src/nunspark/archspec.py.
pub mod Caches
pub mod Layers
pub mod Payload
pub mod Roundtrip
pub mod Store
pub mod Content
pub mod Kept
pub mod Gets
pub mod Truncates
pub mod Prefetches
pub mod Sample
pub mod Tests
