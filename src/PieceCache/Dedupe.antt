-- ===== src/PieceCache/Dedupe.antt =====
-- What `prefetch` of src/nunspark/piece_cache.py passes over.
use nunspark.Base.{
  ◌≡◌, refl, sym, ap, ◌∙◌, inl, inr, Bool, true, false, ◌||◌, List, [], ◌∷◌, arith, list_eq,
  list_eq→eq, list_eq_self, Bool-cases,
}
use nunspark.PieceCache.Pieces.{Pid}
use nunspark.PieceCache.Table.{member, has}
use nunspark.PieceCache.State.{Cache}
use nunspark.PieceCache.Ops.{region, reserve, issue, prefetch_one, prefetch}

-- The test of `prefetch` for a piece that it passes over.
abbrev pub is_held : Cache → Pid → Bool
is_held s p = has p (region s p) || member p s.inflight || has p s.staging

issue-held :
    (speculative warm : Bool) (s : Cache) (p q : Pid)
    → is_held (issue speculative warm p (reserve s p)) q ≡ (is_held s q || list_eq p q)
unfolding issue reserve region member
issue-held true warm s p q = ground arith
issue-held false true s p q = ground arith
issue-held false false s p q = ground arith

same-held : (s : Cache) (p q : Pid) → list_eq p q ≡ true → is_held s p ≡ true → is_held s q ≡ true
same-held s p q same held = sym (ap (is_held s) (list_eq→eq p q same)) ∙ held

prefetch_one-held :
    (speculative : Bool) (s : Cache) (p q : Pid)
    → (is_held s q || list_eq p q) ≡ true
    → is_held (prefetch_one speculative s p) q ≡ true
unfolding prefetch_one
prefetch_one-held speculative s p q h = elim (Bool-cases (is_held s p)) [
  | inl held ↦ elim (Bool-cases (list_eq p q)) [
    | inl same ↦ rw held (same-held s p q same held)
    | inr other ↦ rw held (ground arith)
  ]
  | inr fresh ↦ rw fresh (issue-held speculative s.warm_pool s p q ∙ h)
]

-- Every piece of the list is one that a `prefetch` passes over.
abbrev pub AllHeld : Cache → List Pid → Type 0
AllHeld s [] = Unit {0}
AllHeld s (p ∷ pids) = (is_held s p ≡ true) × AllHeld s pids

prefetch_one-AllHeld :
    (speculative : Bool) (s : Cache) (p : Pid) (pids : List Pid)
    → AllHeld s pids
    → AllHeld (prefetch_one speculative s p) pids
prefetch_one-AllHeld speculative s p [] a = tt
prefetch_one-AllHeld speculative s p (q ∷ pids) (h, a) = (
  prefetch_one-held speculative s p q (ground arith),
  prefetch_one-AllHeld speculative s p pids a,
)

prefetch-held :
    (speculative : Bool) (s : Cache) (pids : List Pid) (q : Pid)
    → is_held s q ≡ true
    → is_held (prefetch speculative s pids) q ≡ true
unfolding prefetch
prefetch-held speculative s [] q h = h
prefetch-held speculative s (p ∷ pids) q h =
    prefetch-held speculative (prefetch_one speculative s p) pids q
      (prefetch_one-held speculative s p q (ground arith))

prefetch-AllHeld :
    (speculative : Bool) (s : Cache) (pids : List Pid) → AllHeld (prefetch speculative s pids) pids
unfolding prefetch
prefetch-AllHeld speculative s [] = tt
prefetch-AllHeld speculative s (p ∷ pids) = (
  prefetch-held speculative (prefetch_one speculative s p) pids p
      (prefetch_one-held speculative s p p (ground (arith, list_eq_self p))),
  prefetch-AllHeld speculative (prefetch_one speculative s p) pids,
)

AllHeld-prefetch :
    (speculative : Bool) (s : Cache) (pids : List Pid)
    → AllHeld s pids
    → prefetch speculative s pids ≡ s
unfolding prefetch prefetch_one
AllHeld-prefetch speculative s [] a = refl
AllHeld-prefetch speculative s (p ∷ pids) (h, a) =
    ap (λ c. prefetch speculative c pids) (rw h refl) ∙ AllHeld-prefetch speculative s pids a

-- A second prefetch of the same pieces, of either tier, issues nothing.
pub prefetch-again :
    (first second : Bool) (s : Cache) (pids : List Pid)
    → prefetch second (prefetch first s pids) pids ≡ prefetch first s pids
prefetch-again first second s pids =
    AllHeld-prefetch second (prefetch first s pids) pids (prefetch-AllHeld first s pids)
