-- ===== src/PieceCache.antt =====
-- The byte-budget cache of weight pieces of src/nunspark/piece_cache.py, class PieceCache: pieces and
-- ordered tables, the locked operations, eviction, and the threads that share the cache.
pub mod Pieces
pub mod Table
pub mod State
pub mod Evict
pub mod Ops
pub mod Accounting
pub mod Preserve
pub mod Locked
pub mod Presence
pub mod Absent
pub mod Stageable
pub mod Quiet
pub mod Threads
pub mod Owners
pub mod Consistency
pub mod Reservations
pub mod Prefetches
pub mod Loads
pub mod Releases
pub mod Interleavings
pub mod Kept
pub mod Reads
pub mod Dedupe
pub mod Retries
pub mod Tests
