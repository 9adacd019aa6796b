-- ===== src/Tree/Shape.antt =====
-- The constructor of TreeShape (src/nunspark/tree_shape.py): the nodes of a tree, numbered breadth
-- first. A dictionary whose keys are the numbers from 0 on is the list of its values.
use nunspark.Base.{
  ℕ, zero, suc, ◌+◌, Bool, false, ◌||◌, List, [], ◌∷◌, ◌++◌, Option, none, some, ltb, if◌then◌else◌,
}

pub record TreeShape : Type 0 where
  pub branching : List ℕ
  pub parent : List (Option ℕ)
  pub depth : List ℕ
  pub children : List (List ℕ)
  pub num_nodes : ℕ
  pub leaves : List ℕ

-- `self.children[p].append(nid)`.
unfoldable pub append_child : ℕ → ℕ → List (List ℕ) → List (List ℕ)
append_child p nid [] = []
append_child zero nid (kids ∷ rest) = (kids ++ nid ∷ []) ∷ rest
append_child (suc p) nid (kids ∷ rest) = kids ∷ append_child p nid rest

-- A new node below `p`; `leaves` collects the new frontier.
unfoldable pub add_child : ℕ → ℕ → TreeShape → TreeShape
add_child d p t = record t {
  parent = t.parent ++ some p ∷ [];
  depth = t.depth ++ d ∷ [];
  children = append_child p t.num_nodes t.children ++ [] ∷ [];
  num_nodes = t.num_nodes + 1;
  leaves = t.leaves ++ t.num_nodes ∷ [];
}

-- `for _ in range(c)`.
unfoldable pub add_children : ℕ → ℕ → ℕ → TreeShape → TreeShape
add_children zero d p t = t
add_children (suc c) d p t = add_children c d p (add_child d p t)

-- `for p in frontier`.
unfoldable pub add_level : List ℕ → ℕ → ℕ → TreeShape → TreeShape
add_level [] c d t = t
add_level (p ∷ frontier) c d t = add_level frontier c d (add_children c d p t)

-- `for k, c in enumerate(branching)`, from the depth `d` of the new nodes on.
unfoldable pub add_levels : List ℕ → ℕ → TreeShape → TreeShape
add_levels [] d t = t
add_levels (c ∷ cs) d t = add_levels cs (d + 1) (add_level t.leaves c d (record t { leaves = [] }))

unfoldable pub root : List ℕ → TreeShape
root branching = record {
  branching = branching;
  parent = none ∷ [];
  depth = 0 ∷ [];
  children = [] ∷ [];
  num_nodes = 1;
  leaves = 0 ∷ [];
}

unfoldable pub any_below_one : List ℕ → Bool
any_below_one [] = false
any_below_one (c ∷ cs) = ltb c 1 || any_below_one cs

-- The constructor; `none` is its ValueError.
unfoldable pub build : List ℕ → Option TreeShape
build [] = none
build (c ∷ cs) =
    if any_below_one (c ∷ cs) then none else some (add_levels (c ∷ cs) 1 (root (c ∷ cs)))

-- `shape.children.get(node)`, an absent node as one that has no children.
unfoldable pub kids_of : List (List ℕ) → ℕ → List ℕ
kids_of [] n = []
kids_of (kids ∷ rest) zero = kids
kids_of (kids ∷ rest) (suc n) = kids_of rest n
