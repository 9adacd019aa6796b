-- ===== src/KvStore/Layers.antt =====
-- The ordered dictionary of the resident layers in src/nunspark/kv_store.py: a list of entries, the
-- least recently used first.
use nunspark.Base.{
  ℕ, ◌+◌, ◌≡◌, refl, List, [], ◌∷◌, ◌++◌, Option, none, some, false, ◌==◌, if◌then◌else◌, arith,
  contains, Bool-cases, inl, inr, ◌∙◌,
}

-- `layers.discard(layer)`, for a set.
unfoldable pub discard : ℕ → List ℕ → List ℕ
discard layer [] = []
discard layer (l ∷ ls) = let rest = discard layer ls in if l == layer then rest else l ∷ rest

module _ {V : Type 0} where
  unfoldable pub lookup : ℕ → List (ℕ × V) → Option V
  lookup layer [] = none
  lookup layer ((l, v) ∷ t) = let rest = lookup layer t in if l == layer then some v else rest

  -- `table.pop(layer)`, the table alone.
  unfoldable pub remove : ℕ → List (ℕ × V) → List (ℕ × V)
  remove layer [] = []
  remove layer ((l, v) ∷ t) =
      let rest = remove layer t in if l == layer then rest else (l, v) ∷ rest

  -- `table[layer] = v`: an entry that is there keeps its place.
  unfoldable pub assign : ℕ → V → List (ℕ × V) → List (ℕ × V)
  assign layer v [] = (layer, v) ∷ []
  assign layer v ((l, w) ∷ t) =
      let rest = assign layer v t in if l == layer then (l, v) ∷ t else (l, w) ∷ rest

  -- `table.move_to_end(layer)`, for the value that is there.
  unfoldable pub move_to_end : ℕ → V → List (ℕ × V) → List (ℕ × V)
  move_to_end layer v t = remove layer t ++ (layer, v) ∷ []

  unfoldable pub each : (V → V) → List (ℕ × V) → List (ℕ × V)
  each f [] = []
  each f ((l, v) ∷ t) = (l, f v) ∷ each f t

  abbrev pub layers : List (ℕ × V) → List ℕ
  layers [] = []
  layers ((l, v) ∷ t) = l ∷ layers t

  unfoldable pub total : (V → ℕ) → List (ℕ × V) → ℕ
  total size [] = 0
  total size ((l, v) ∷ t) = size v + total size t

  pub lookup-remove :
      (x layer : ℕ) (t : List (ℕ × V))
      → lookup x (remove layer t) ≡ (if x == layer then none else lookup x t)
  unfolding lookup remove
  lookup-remove x layer [] = ground arith
  lookup-remove x layer ((l, v) ∷ t) = ground (arith, lookup-remove x layer t)

  pub lookup-assign :
      (x layer : ℕ) (v : V) (t : List (ℕ × V))
      → lookup x (assign layer v t) ≡ (if x == layer then some v else lookup x t)
  unfolding lookup assign
  lookup-assign x layer v [] = ground arith
  lookup-assign x layer v ((l, w) ∷ t) = ground (arith, lookup-assign x layer v t)

  lookup-append_one :
      (x layer : ℕ) (v : V) (t : List (ℕ × V))
      → lookup layer t ≡ none
      → lookup x (t ++ (layer, v) ∷ []) ≡ (if x == layer then some v else lookup x t)
  unfolding lookup
  lookup-append_one x layer v [] h = ground arith
  lookup-append_one x layer v ((l, w) ∷ t) h = ground (arith, lookup-append_one x layer v t)

  pub lookup-move_to_end :
      (x layer : ℕ) (v : V) (t : List (ℕ × V))
      → lookup layer t ≡ some v
      → lookup x (move_to_end layer v t) ≡ lookup x t
  unfolding move_to_end
  lookup-move_to_end x layer v t h =
      let gone = lookup-remove layer layer t in
      let here = lookup-append_one x layer v (remove layer t) in
      ground (arith, gone, here, lookup-remove x layer t)

  pub lookup-each :
      (f : V → V) (x : ℕ) (t : List (ℕ × V)) {v : V}
      → lookup x t ≡ some v
      → lookup x (each f t) ≡ some (f v)
  unfolding lookup each
  lookup-each f x [] h = ground arith
  lookup-each f x ((l, w) ∷ t) {v} h = ground (arith, lookup-each f x t {v = v})

  pub none-lookup-each :
      (f : V → V) (x : ℕ) (t : List (ℕ × V)) → lookup x t ≡ none → lookup x (each f t) ≡ none
  unfolding lookup each
  none-lookup-each f x [] h = refl
  none-lookup-each f x ((l, w) ∷ t) h = ground (arith, none-lookup-each f x t)

pub contains-discard :
    (x layer : ℕ) (ls : List ℕ)
    → contains x (discard layer ls) ≡ (if x == layer then false else contains x ls)
unfolding contains discard
contains-discard x layer [] = ground arith
contains-discard x layer (l ∷ ls) = ground (arith, contains-discard x layer ls)

-- A set: no layer stands in it twice.
abbrev pub IsDistinct : List ℕ → Type 0
IsDistinct [] = Unit {0}
IsDistinct (l ∷ ls) = (contains l ls ≡ false) × IsDistinct ls

pub discard-IsDistinct : (layer : ℕ) (ls : List ℕ) → IsDistinct ls → IsDistinct (discard layer ls)
unfolding discard
discard-IsDistinct layer [] d = tt
discard-IsDistinct layer (l ∷ ls) (fresh, d) = elim (Bool-cases (l == layer)) [
  | inl same ↦ rw same (discard-IsDistinct layer ls d)
  | inr other ↦
      rw other ((contains-discard l layer ls ∙ rw other fresh), discard-IsDistinct layer ls d)
]
