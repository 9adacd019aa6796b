-- ===== src/Tree.antt =====
-- The fixed trees of speculative decoding: src/nunspark/tree_shape.py, and the greedy case of
-- `sample_accepted_path` of src/nunspark/tree_spec.py.
pub mod Shape
pub mod Numbering
pub mod Walk
pub mod Tests
