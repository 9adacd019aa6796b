-- ===== src/PieceCache/Table.antt =====
-- The ordered dictionaries of src/nunspark/piece_cache.py: a list of entries, the oldest first.
use nunspark.Base.{
  refl, ℕ, ◌+◌, ◌≡◌, Bool, false, ◌||◌, List, [], ◌∷◌, ◌++◌, Option, none, some, list_eq,
  if◌then◌else◌, arith, Option-cases, inl, inr, ◌∙◌,
}
use nunspark.PieceCache.Pieces.{Pid}

-- `pid in pids`, for a set or a list of ids.
unfoldable pub member : Pid → List Pid → Bool
member pid [] = false
member pid (p ∷ ps) = list_eq p pid || member pid ps

-- `pids.discard(pid)`, for a set.
unfoldable pub discard : Pid → List Pid → List Pid
discard pid [] = []
discard pid (p ∷ ps) = let rest = discard pid ps in if list_eq p pid then rest else p ∷ rest

module _ {V : Type 0} where
  unfoldable pub lookup : Pid → List (Pid × V) → Option V
  lookup pid [] = none
  lookup pid ((p, v) ∷ t) = if list_eq p pid then some v else lookup pid t

  -- `pid in table`.
  unfoldable pub has : Pid → List (Pid × V) → Bool
  has pid [] = false
  has pid ((p, v) ∷ t) = list_eq p pid || has pid t

  -- `table.pop(pid)`, the table alone.
  unfoldable pub remove : Pid → List (Pid × V) → List (Pid × V)
  remove pid [] = []
  remove pid ((p, v) ∷ t) = if list_eq p pid then t else (p, v) ∷ remove pid t

  -- `table[pid] = v`: an entry that is there keeps its place.
  unfoldable pub assign : Pid → V → List (Pid × V) → List (Pid × V)
  assign pid v [] = (pid, v) ∷ []
  assign pid v ((p, w) ∷ t) = if list_eq p pid then (p, v) ∷ t else (p, w) ∷ assign pid v t

  -- `table.move_to_end(pid)`.
  unfoldable pub move_to_end : Pid → List (Pid × V) → List (Pid × V)
  move_to_end pid t = elim (lookup pid t) [ none ↦ t | some v ↦ remove pid t ++ (pid, v) ∷ [] ]

  pub keys : List (Pid × V) → List Pid
  keys [] = []
  keys ((p, v) ∷ t) = p ∷ keys t

  -- A measure of the entries, summed.
  unfoldable pub total : (V → ℕ) → List (Pid × V) → ℕ
  total size [] = 0
  total size ((p, v) ∷ t) = size v + total size t

  pub total-one : (size : V → ℕ) (pid : Pid) (v : V) → total size ((pid, v) ∷ []) ≡ size v
  unfolding total
  total-one size pid v = omega arith

  pub total-append :
      (size : V → ℕ) (s t : List (Pid × V)) → total size (s ++ t) ≡ total size s + total size t
  unfolding total
  total-append size [] t = omega arith
  total-append size ((p, v) ∷ s) t = omega (arith, total-append size s t)

  pub total-remove :
      (size : V → ℕ) (pid : Pid) (t : List (Pid × V)) {v : V}
      → lookup pid t ≡ some v
      → total size (remove pid t) + size v ≡ total size t
  unfolding total remove lookup
  total-remove size pid [] h = cc
  total-remove size pid ((p, w) ∷ t) {v = v} h = ground (arith, total-remove size pid t {v = v})

  pub total-assign :
      (size : V → ℕ) (pid : Pid) (v : V) (t : List (Pid × V))
      → has pid t ≡ false
      → total size (assign pid v t) ≡ total size t + size v
  unfolding total assign has
  total-assign size pid v [] h = omega arith
  total-assign size pid v ((p, w) ∷ t) h = ground (arith, total-assign size pid v t)

  pub total-move_to_end :
      (size : V → ℕ) (pid : Pid) (t : List (Pid × V))
      → total size (move_to_end pid t) ≡ total size t
  unfolding move_to_end
  total-move_to_end size pid t = elim (Option-cases (lookup pid t)) [
    | inl absent ↦ rw (absent, move_to_end) refl
    | inr (v, here) ↦
        rw (here, move_to_end)
          (total-append size (remove pid t) ((pid, v) ∷ [])
            ∙ omega (arith, total-remove size pid t here, total-one size pid v))
  ]
