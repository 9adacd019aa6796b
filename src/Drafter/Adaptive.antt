-- ===== src/Drafter/Adaptive.antt =====
-- The adaptive length policy of `observe` and `propose`: bounds of `k_cur`, and of a proposal.
use nunspark.Base.{
  ℕ, ◌+◌, ◌*◌, ◌≤◌, ◌<◌, ◌≡◌, ◌≢◌, ◌↔◌, ◌⊎◌, inl, inr, Bool, true, false, some, List, arith, length,
}
use nunspark.Drafter.{NGramDrafter, init, propose, observe, next_k, set_k}
use nunspark.Drafter.Lookup.{Found-length, lookup_draft-Found}

-- The arguments that the constructor accepts, with the floor under the cap.
pub record IsConfigured (d : NGramDrafter) : Type 0 where
  pub floor_pos : 1 ≤ d.min_draft_tokens
  pub floor_le_cap : d.min_draft_tokens ≤ d.num_draft_tokens
  pub cycle_pos : 1 ≤ d.reprobe_every

pub record IsValid (d : NGramDrafter) : Type 0 where
  pub configured : IsConfigured d
  -- Disabled, or between the floor and the cap.
  pub k_range : (d.k_cur ≡ 0) ⊎ ((d.min_draft_tokens ≤ d.k_cur) × (d.k_cur ≤ d.num_draft_tokens))
  pub seen : (d.k_min_seen ≤ d.k_cur) × (d.k_cur ≤ d.k_max_seen)
  pub max_seen : d.k_max_seen ≤ d.num_draft_tokens
  pub fixed : d.adaptive ≡ false → d.k_cur ≡ d.num_draft_tokens

pub init-IsValid :
    (max_ngram cap : ℕ) (adaptive : Bool) (floor cycle : ℕ) {d : NGramDrafter}
    → floor ≤ cap
    → init max_ngram cap adaptive floor cycle ≡ some d
    → IsValid d
unfolding init
init-IsValid max_ngram cap adaptive floor cycle h e = ground arith

pub propose-IsValid :
    (d : NGramDrafter) (context : List ℕ) → IsValid d → IsValid (propose d context).0
unfolding propose
propose-IsValid d context v = ground arith

next_k-range :
    (d : NGramDrafter) (base proposed accepted : ℕ)
    → IsConfigured d
    → d.min_draft_tokens ≤ base
    → base ≤ d.num_draft_tokens
    → (next_k d base proposed accepted ≡ 0)
      ⊎ ((d.min_draft_tokens ≤ next_k d base proposed accepted)
          × (next_k d base proposed accepted ≤ d.num_draft_tokens))
unfolding next_k
next_k-range d base proposed accepted c lo hi = ground arith

set_k-IsValid :
    (d : NGramDrafter) (k : ℕ)
    → IsConfigured d
    → d.adaptive ≡ true
    → d.k_min_seen ≤ d.k_max_seen
    → d.k_max_seen ≤ d.num_draft_tokens
    → (k ≡ 0) ⊎ ((d.min_draft_tokens ≤ k) × (k ≤ d.num_draft_tokens))
    → IsValid (set_k d k)
unfolding set_k
set_k-IsValid d k c a m h r = ground arith

-- In a probe the round acts at the floor, and otherwise at `k_cur`, which may be 0.
observe-range :
    (d : NGramDrafter) (base proposed accepted : ℕ)
    → IsConfigured d
    → (base ≡ 0) ⊎ ((d.min_draft_tokens ≤ base) × (base ≤ d.num_draft_tokens))
    → (next_k d base proposed accepted ≡ 0)
      ⊎ ((d.min_draft_tokens ≤ next_k d base proposed accepted)
          × (next_k d base proposed accepted ≤ d.num_draft_tokens))
unfolding next_k
observe-range d base proposed accepted c (inl z) = ground arith
observe-range d base proposed accepted c (inr (lo, hi)) =
    next_k-range d base proposed accepted c lo hi

-- `observe` keeps the bounds.
pub observe-IsValid :
    (d : NGramDrafter) (proposed accepted : ℕ) → IsValid d → IsValid (observe d proposed accepted)
unfolding observe
observe-IsValid d proposed accepted v = ground (
  arith,
  observe-range d d.min_draft_tokens proposed accepted v.configured,
  observe-range d d.k_cur proposed accepted v.configured v.k_range,
  set_k-IsValid d (next_k d d.min_draft_tokens proposed accepted) v.configured,
  set_k-IsValid d (next_k d d.k_cur proposed accepted) v.configured,
)

-- A proposal of a valid drafter has at most `num_draft_tokens` tokens.
pub propose-length :
    (d : NGramDrafter) (context : List ℕ)
    → IsValid d
    → length (propose d context).1 ≤ d.num_draft_tokens
unfolding propose
propose-length d context v = ground (
  arith,
  Found-length (lookup_draft-Found d context d.min_draft_tokens v.configured.floor_pos),
  λ (p : 0 < d.k_cur). Found-length (lookup_draft-Found d context d.k_cur p),
  λ (p : 0 < d.num_draft_tokens). Found-length (lookup_draft-Found d context d.num_draft_tokens p),
)

-- Once a probe has proposed something, `observe` leaves the drafter disabled exactly when the round
-- was poor: under a quarter accepted, and not two or more with at most one refused.
pub observe-probe :
    (d : NGramDrafter) (proposed accepted : ℕ)
    → IsValid d
    → d.adaptive ≡ true
    → d.probing ≡ true
    → proposed ≢ 0
    → ((observe d proposed accepted).k_cur ≡ 0)
      ↔ ((accepted * 4 < proposed) × ((accepted + 1 < proposed) ⊎ (accepted < 2)))
unfolding observe set_k next_k
observe-probe d proposed accepted v a p n = (λ e. ground arith, λ h. ground arith)
