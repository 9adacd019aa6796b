-- ===== src/Generate/Adaptive/Bounds.antt =====
-- The adjustment of K in `adaptive_speculative_generate`.
use nunspark.Base.{
  ℕ, ◌+◌, ◌≤◌, ◌≡◌, refl, ap, ◌∙◌, Bool, true, false, ◌&&◌, length, if◌then◌else◌, ◌==◌, leb, arith,
  length-append, Bool-cases, inl, inr,
}
use nunspark.Generate.Adaptive.{Floats, Pace, track, new_k, settle_k, adjust, recent_acceptance}

module _ (f : Floats) (lo hi interval : ℕ) where
  new_k-bounds :
      (x : f.Float) (k : ℕ)
      → lo ≤ k
      → k ≤ hi
      → (lo ≤ new_k f lo hi interval x k) × (new_k f lo hi interval x k ≤ hi)
  unfolding new_k
  new_k-bounds x k l h = ground arith

  -- What the counters say of K: `reported` is `current_draft_tokens`, and there is a rate for each
  -- of the `passes`.
  pub record IsPaced (passes : ℕ) (p : Pace f) : Type 0 where
    pub least : lo ≤ p.k
    pub most : p.k ≤ hi
    pub reported : p.stats.current_draft_tokens ≡ p.k
    pub history : length p.stats.acceptance_history ≡ passes
    pub waited : p.passes_since_adjustment ≤ passes

  track-IsPaced :
      (passes m : ℕ) (p : Pace f) → IsPaced passes p → IsPaced (passes + 1) (track f m p)
  unfolding track
  track-IsPaced passes m p i = record {
    least = i.least;
    most = i.most;
    reported = i.reported;
    history = length-append p.stats.acceptance_history _ ∙ ap (λ (n : ℕ). n + 1) i.history;
    waited = omega (arith, i.waited);
  }

  settle_k-IsPaced :
      (passes k : ℕ) (p : Pace f)
      → lo ≤ k
      → k ≤ hi
      → IsPaced passes p
      → IsPaced passes (settle_k f lo hi interval k p)
  unfolding settle_k
  settle_k-IsPaced passes k p l h i = elim (Bool-cases (k == p.k)) [
    | inl same ↦ record {
      least = l;
      most = h;
      reported = rw same (ground (arith, i.reported, same));
      history = rw same i.history;
      waited = omega arith;
    }
    | inr other ↦ record {
      least = l;
      most = h;
      reported = rw other refl;
      history = rw other i.history;
      waited = omega arith;
    }
  ]

  adjust-IsPaced :
      (passes : ℕ) (p : Pace f) → IsPaced passes p → IsPaced passes (adjust f lo hi interval p)
  unfolding adjust
  adjust-IsPaced passes p i =
      let recent = recent_acceptance f p.stats.acceptance_history in
      let due =
        leb interval p.passes_since_adjustment && leb 3 (length p.stats.acceptance_history) in
      let (l, h) = new_k-bounds recent p.k i.least i.most in
      either due (settle_k-IsPaced passes (new_k f lo hi interval recent p.k) p l h i)
    where
      either : (due : Bool) {t : Pace f} → IsPaced passes t → IsPaced passes (if due then t else p)
      either true j = j
      either false j = i

  -- Each pass leaves K between its bounds, reports it, and keeps one rate for each pass.
  pub next_pace-IsPaced :
      (passes m : ℕ) (p : Pace f)
      → IsPaced passes p
      → IsPaced (passes + 1) (adjust f lo hi interval (track f m p))
  next_pace-IsPaced passes m p i =
      adjust-IsPaced (passes + 1) (track f m p) (track-IsPaced passes m p i)

-- Between equal bounds K stays what it is.
pub next_pace-k :
    (f : Floats) (k interval m : ℕ) (p : Pace f)
    → p.k ≡ k
    → (adjust f k k interval (track f m p)).k ≡ k
unfolding adjust settle_k track
next_pace-k f k interval m p h =
    let recent = recent_acceptance f (track f m p).stats.acceptance_history in
    let (least, most) = new_k-bounds f k k interval recent p.k (omega arith) (omega arith) in
    ground arith
