-- ===== src/Tree/Numbering.antt =====
-- The numbers of the nodes of a TreeShape (src/nunspark/tree_shape.py).
use nunspark.Base.{
  ℕ, zero, suc, ◌+◌, ◌≤◌, ◌<◌, ◌≡◌, refl, sym, subst, ◌∙◌, inl, inr, List, [], ◌∷◌, ◌++◌, some,
  arith, length, length-append, Bool-cases,
}
use mathlib.Core.Option.{some-injective}
use nunspark.Tree.Shape.{
  TreeShape, append_child, add_child, add_children, add_level, add_levels, root, any_below_one,
  build, kids_of,
}

-- Every number of the list is above `low` and below `high`.
abbrev pub AllWithin : ℕ → ℕ → List ℕ → Type 0
AllWithin low high [] = Unit {0}
AllWithin low high (n ∷ ns) = (low ≤ n) × (n < high) × AllWithin low high ns

-- The children lists of the nodes from `i` on, each with numbers after its node and below `high`.
abbrev pub AllLater : ℕ → ℕ → List (List ℕ) → Type 0
AllLater i high [] = Unit {0}
AllLater i high (kids ∷ rest) = AllWithin (suc i) high kids × AllLater (suc i) high rest

pub record IsNumbered (t : TreeShape) : Type 0 where
  pub count : length t.children ≡ t.num_nodes
  pub later : AllLater 0 t.num_nodes t.children
  pub frontier : AllWithin 0 t.num_nodes t.leaves
  pub rooted : 1 ≤ t.num_nodes

wider-AllWithin : (low a b : ℕ) (ns : List ℕ) → a ≤ b → AllWithin low a ns → AllWithin low b ns
wider-AllWithin low a b [] h w = tt
wider-AllWithin low a b (n ∷ ns) h (l, u, w) = (l, omega arith, wider-AllWithin low a b ns h w)

append-AllWithin :
    (low high : ℕ) (ns : List ℕ) (n : ℕ)
    → AllWithin low high ns
    → low ≤ n
    → n < high
    → AllWithin low high (ns ++ n ∷ [])
append-AllWithin low high [] n w l u = (l, u, tt)
append-AllWithin low high (m ∷ ns) n (a, b, w) l u = (a, b, append-AllWithin low high ns n w l u)

wider-AllLater : (i a b : ℕ) (ks : List (List ℕ)) → a ≤ b → AllLater i a ks → AllLater i b ks
wider-AllLater i a b [] h w = tt
wider-AllLater i a b (k ∷ ks) h (v, w) =
    (wider-AllWithin (suc i) a b k h v, wider-AllLater (suc i) a b ks h w)

append_child-AllLater :
    (i p nid : ℕ) (ks : List (List ℕ))
    → i + p < nid
    → AllLater i nid ks
    → AllLater i (nid + 1) (append_child p nid ks)
unfolding append_child
append_child-AllLater i p nid [] h w = tt
append_child-AllLater i zero nid (k ∷ ks) h (v, w) = (
  append-AllWithin (suc i) (nid + 1) k nid (wider-AllWithin (suc i) nid (nid + 1) k (omega arith) v)
      (omega arith) (omega arith),
  wider-AllLater (suc i) nid (nid + 1) ks (omega arith) w,
)
append_child-AllLater i (suc p) nid (k ∷ ks) h (v, w) = (
  wider-AllWithin (suc i) nid (nid + 1) k (omega arith) v,
  append_child-AllLater (suc i) p nid ks (omega arith) w,
)

snoc-AllLater :
    (i high : ℕ) (ks : List (List ℕ)) → AllLater i high ks → AllLater i high (ks ++ [] ∷ [])
snoc-AllLater i high [] w = (tt, tt)
snoc-AllLater i high (k ∷ ks) (v, w) = (v, snoc-AllLater (suc i) high ks w)

length-append_child :
    (p nid : ℕ) (ks : List (List ℕ)) → length (append_child p nid ks ++ [] ∷ []) ≡ length ks + 1
unfolding append_child
length-append_child p nid [] = refl
length-append_child zero nid (k ∷ ks) = omega (arith, length-append ks ([] ∷ []))
length-append_child (suc p) nid (k ∷ ks) = omega (arith, length-append_child p nid ks)

add_child-IsNumbered :
    (d p : ℕ) (t : TreeShape) → p < t.num_nodes → IsNumbered t → IsNumbered (add_child d p t)
unfolding add_child
add_child-IsNumbered d p t h i = record {
  count = length-append_child p t.num_nodes t.children ∙ omega (arith, i.count);
  later =
      snoc-AllLater 0 (t.num_nodes + 1) (append_child p t.num_nodes t.children)
        (append_child-AllLater 0 p t.num_nodes t.children (omega arith) i.later);
  frontier =
      append-AllWithin 0 (t.num_nodes + 1) t.leaves t.num_nodes
        (wider-AllWithin 0 t.num_nodes (t.num_nodes + 1) t.leaves (omega arith) i.frontier)
        (omega arith) (omega arith);
  rooted = omega arith;
}

add_children-IsNumbered :
    (c d p : ℕ) (t : TreeShape)
    → p < t.num_nodes
    → IsNumbered t
    → IsNumbered (add_children c d p t) × (t.num_nodes ≤ (add_children c d p t).num_nodes)
unfolding add_children add_child
add_children-IsNumbered zero d p t h i = (i, omega arith)
add_children-IsNumbered (suc c) d p t h i =
    let (j, more) =
      add_children-IsNumbered c d p (add_child d p t) (omega arith)
        (add_child-IsNumbered d p t h i) in
    (j, omega (arith, more))

add_level-IsNumbered :
    (frontier : List ℕ) (c d : ℕ) (t : TreeShape)
    → AllWithin 0 t.num_nodes frontier
    → IsNumbered t
    → IsNumbered (add_level frontier c d t)
unfolding add_level
add_level-IsNumbered [] c d t w i = i
add_level-IsNumbered (p ∷ frontier) c d t (l, u, w) i =
    let (j, more) = add_children-IsNumbered c d p t u i in
    add_level-IsNumbered frontier c d (add_children c d p t)
      (wider-AllWithin 0 t.num_nodes (add_children c d p t).num_nodes frontier more w) j

add_levels-IsNumbered :
    (cs : List ℕ) (d : ℕ) (t : TreeShape) → IsNumbered t → IsNumbered (add_levels cs d t)
unfolding add_levels
add_levels-IsNumbered [] d t i = i
add_levels-IsNumbered (c ∷ cs) d t i =
    add_levels-IsNumbered cs (d + 1) (add_level t.leaves c d (record t { leaves = [] })) (
      add_level-IsNumbered t.leaves c d (record t { leaves = [] }) i.frontier
        (record { count = i.count; later = i.later; frontier = tt; rooted = i.rooted }))

-- In a tree that the constructor returns there is a children list for each node, and each child has
-- a number above its parent's and below the number of nodes.
pub build-IsNumbered :
    (branching : List ℕ) {t : TreeShape} → build branching ≡ some t → IsNumbered t
unfolding build root
build-IsNumbered [] h = absurd (ground arith)
build-IsNumbered (c ∷ cs) {t = t} h = elim (Bool-cases (any_below_one (c ∷ cs))) [
  | inl bad ↦ absurd (ground arith)
  | inr good ↦
      let made : build (c ∷ cs) ≡ some (add_levels (c ∷ cs) 1 (root (c ∷ cs))) = rw good refl in
      subst IsNumbered (some-injective (add_levels (c ∷ cs) 1 (root (c ∷ cs))) t (sym made ∙ h)) (
        add_levels-IsNumbered (c ∷ cs) 1 (root (c ∷ cs)) (record {
          count = refl;
          later = (tt, tt);
          frontier = (omega arith, omega arith, tt);
          rooted = omega arith;
        }))
]

pub kids_of-AllWithin :
    (i high n : ℕ) (ks : List (List ℕ))
    → AllLater i high ks
    → AllWithin (suc (i + n)) high (kids_of ks n)
unfolding kids_of
kids_of-AllWithin i high n [] w = tt
kids_of-AllWithin i high zero (k ∷ ks) (v, w) = subst (λ m. AllWithin m high k) (omega arith) v
kids_of-AllWithin i high (suc n) (k ∷ ks) (v, w) =
    subst (λ m. AllWithin m high (kids_of ks n)) (omega arith)
      (kids_of-AllWithin (suc i) high n ks w)
