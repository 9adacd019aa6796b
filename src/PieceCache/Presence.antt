-- ===== src/PieceCache/Presence.antt =====
-- Which operations of src/nunspark/piece_cache.py can bring a piece into a table: the others leave an
-- absent piece absent.
use nunspark.Base.{
  ℕ, ◌-◌, ◌≡◌, refl, sym, ap, ◌∙◌, inl, inr, false, ◌||◌, List, [], ◌∷◌, ◌++◌, reverse, none, some,
  arith, Bool-cases, Option-cases, list_eq, list_eq→eq,
}
use mathlib.Core.List.{reverse-cons}
use nunspark.PieceCache.Pieces.{Pid, Weights, piece_bytes}
use nunspark.PieceCache.Table.{lookup, has, remove, assign, move_to_end}
use nunspark.PieceCache.Evict.{evict_scan}

module _ {V : Type 0} where
  pub lookup-has : (q : Pid) (t : List (Pid × V)) → lookup q t ≡ none → has q t ≡ false
  unfolding lookup has
  lookup-has q [] h = refl
  lookup-has q ((p, v) ∷ t) h = ground (arith, lookup-has q t)

  pub has-append : (q : Pid) (s t : List (Pid × V)) → has q (s ++ t) ≡ (has q s || has q t)
  unfolding has
  has-append q [] t = refl
  has-append q ((p, v) ∷ s) t = ground (arith, has-append q s t)

  pub has-reverse : (q : Pid) (t : List (Pid × V)) → has q (reverse t) ≡ has q t
  unfolding has
  has-reverse q [] = refl
  has-reverse q ((p, v) ∷ t) =
      ap (has q) (reverse-cons (p, v) t)
      ∙ has-append q (reverse t) ((p, v) ∷ [])
      ∙ ground (arith, has-reverse q t)

  pub has-remove : (q p : Pid) (t : List (Pid × V)) → has q t ≡ false → has q (remove p t) ≡ false
  unfolding has remove
  has-remove q p [] h = h
  has-remove q p ((k, v) ∷ t) h = ground (arith, has-remove q p t)

  pub has-assign :
      (q p : Pid) (v : V) (t : List (Pid × V))
      → list_eq p q ≡ false
      → has q t ≡ false
      → has q (assign p v t) ≡ false
  unfolding has assign
  has-assign q p v [] n h = ground arith
  has-assign q p v ((k, w) ∷ t) n h = ground (arith, has-assign q p v t)

  pub has-present :
      (q p : Pid) {v : V} (t : List (Pid × V))
      → lookup p t ≡ some v
      → has q t ≡ false
      → list_eq p q ≡ false
  unfolding has lookup
  has-present q p [] l h = cc
  has-present q p {v = v} ((k, w) ∷ t) l h = elim (Bool-cases (list_eq k p)) [
    | inl same ↦ rw (sym (list_eq→eq k p same)) ground arith
    | inr other ↦ has-present q p {v = v} t (ground arith) (ground arith)
  ]

  pub has-move_to_end :
      (q p : Pid) (t : List (Pid × V)) → has q t ≡ false → has q (move_to_end p t) ≡ false
  unfolding move_to_end has
  has-move_to_end q p t h = elim (Option-cases (lookup p t)) [
    | inl absent ↦ rw (absent, move_to_end) h
    | inr (v, here) ↦
        rw (here, move_to_end)
          (has-append q (remove p t) ((p, v) ∷ [])
            ∙ ground (arith, has-remove q p t h, has-present q p t here h))
  ]

pub has-evict_scan :
    (q : Pid) (pinned : List Pid) (protect : Pid) (cap used : ℕ) (t : List (Pid × Weights))
    → has q t ≡ false
    → has q (evict_scan pinned protect cap used t).entries ≡ false
unfolding has evict_scan
has-evict_scan q pinned protect cap used [] h = h
has-evict_scan q pinned protect cap used ((p, w) ∷ t) h = ground (
  arith,
  has-evict_scan q pinned protect cap used t,
  has-evict_scan q pinned protect cap (used - piece_bytes w) t,
)
