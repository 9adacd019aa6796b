-- ===== src/PrefixCache/Common.antt =====
-- The common prefix of two token lists (src/nunspark/prefix_cache.py).
use nunspark.Base.{
  ℕ, ◌≤◌, ◌≡◌, refl, inl, inr, List, [], ◌∷◌, take, length, ◌==◌, arith, Bool-cases,
}
use nunspark.PrefixCache.Slot.{common_prefix_len}

pub common_prefix_len-take :
    (a b : List ℕ) → take (common_prefix_len a b) a ≡ take (common_prefix_len a b) b
unfolding common_prefix_len
common_prefix_len-take [] b = refl
common_prefix_len-take (x ∷ a) [] = refl
common_prefix_len-take (x ∷ a) (y ∷ b) = elim (Bool-cases (x == y)) [
  | inl same ↦ rw same (ground (arith, common_prefix_len-take a b))
  | inr other ↦ rw other refl
]

pub common_prefix_len-left : (a b : List ℕ) → common_prefix_len a b ≤ length a
unfolding common_prefix_len
common_prefix_len-left [] b = omega arith
common_prefix_len-left (x ∷ a) [] = omega arith
common_prefix_len-left (x ∷ a) (y ∷ b) = ground (arith, common_prefix_len-left a b)
