-- ===== src/Generate.antt =====
-- The generation paths of src/nunspark/generate.py over an engine: `Engine` is what they call, `Run`
-- and `Emit` what the speculative paths share, then one module for each path.
pub mod Engine
pub mod Greedy
pub mod Emit
pub mod Stream
pub mod Config
pub mod Ngram
pub mod Rollback
pub mod Hidden
pub mod Draft
pub mod Eagle
pub mod Gemma
pub mod Adaptive
pub mod Batch
pub mod Stats
pub mod Verify
pub mod Tests
pub mod Recalling
pub mod SweepTests
pub mod AlignedTests
pub mod AdaptiveTests
pub mod BatchTests
