-- ===== src/Tree/Tests.antt =====
-- Trees of src/nunspark/tree_shape.py, and a walk of src/nunspark/tree_spec.py.
use nunspark.Base.{
  ℕ, zero, suc, ◌+◌, ◌≡◌, refl, true, List, [], ◌∷◌, ◌++◌, none, some, length, contains, arith,
}
use nunspark.Generate.Greedy.{greedy}
use nunspark.Tree.Shape.{
  TreeShape, append_child, add_child, add_children, add_level, add_levels, root, any_below_one,
  build, kids_of,
}
use nunspark.Tree.Walk.{Accepted, walk, match_child, accept, stop_at, walk-greedy}

build_runs :
    build (2 ∷ 2 ∷ [])
    ≡ some (record {
      branching = 2 ∷ 2 ∷ [];
      parent = none ∷ some 0 ∷ some 0 ∷ some 1 ∷ some 1 ∷ some 2 ∷ some 2 ∷ [];
      depth = 0 ∷ 1 ∷ 1 ∷ 2 ∷ 2 ∷ 2 ∷ 2 ∷ [];
      children = (1 ∷ 2 ∷ []) ∷ (3 ∷ 4 ∷ []) ∷ (5 ∷ 6 ∷ []) ∷ [] ∷ [] ∷ [] ∷ [] ∷ [];
      num_nodes = 7;
      leaves = 3 ∷ 4 ∷ 5 ∷ 6 ∷ [];
    })
unfolding build any_below_one add_levels add_level add_children add_child append_child root
build_runs = refl

abbrev pair : TreeShape
pair = record {
  branching = 2 ∷ [];
  parent = none ∷ some 0 ∷ some 0 ∷ [];
  depth = 0 ∷ 1 ∷ 1 ∷ [];
  children = (1 ∷ 2 ∷ []) ∷ [] ∷ [] ∷ [];
  num_nodes = 3;
  leaves = 1 ∷ 2 ∷ [];
}

pair-built : build (2 ∷ []) ≡ some pair
unfolding build any_below_one add_levels add_level add_children add_child append_child root
pair-built = refl

-- The second child has the token that the target chooses after 9.
abbrev token : ℕ → ℕ
token zero = 9
token (suc zero) = 0
token (suc (suc n)) = 1

abbrev contexts : ℕ → List ℕ
contexts zero = 9 ∷ []
contexts (suc n) = 9 ∷ token (suc n) ∷ []

abbrev count : List ℕ → ℕ
count context = length context

abbrev target : ℕ → ℕ
target n = count (contexts n)

extends :
    (n c : ℕ)
    → contains c (kids_of pair.children n) ≡ true
    → contexts c ≡ contexts n ++ token c ∷ []
unfolding contains kids_of
extends zero zero m = absurd (ground arith)
extends zero (suc c) m = refl
extends (suc zero) c m = absurd (ground arith)
extends (suc (suc zero)) c m = absurd (ground arith)
extends (suc (suc (suc n))) c m = absurd (ground arith)

walk_runs :
    walk pair.children token target 3 0 ≡ some (record { tokens = 1 ∷ []; bonus = 2; final = 2 })
unfolding walk match_child accept stop_at kids_of
walk_runs = refl

walk-greedy_example :
    (a : Accepted) × (walk pair.children token target pair.num_nodes 0 ≡ some a)
    × (a.tokens ++ a.bonus ∷ [] ≡ greedy count (length a.tokens + 1) (contexts 0))
walk-greedy_example =
    walk-greedy (2 ∷ []) {t = pair} token target count contexts pair-built (λ n. refl) extends
