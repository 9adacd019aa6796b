-- ===== src/Tree/Walk.antt =====
-- `sample_accepted_path` of src/nunspark/tree_spec.py at temperature 0. `token` are the proposed
-- tokens of the nodes, `target` the argmax of the target's logits at each node.
use nunspark.Base.{
  ℕ, zero, suc, ◌+◌, ◌≤◌, ◌<◌, ◌≡◌, refl, sym, ap, ◌∙◌, inl, inr, true, List, [], ◌∷◌, ◌++◌, Option,
  none, some, arith, contains, ◌==◌, length, if◌then◌else◌, Bool-cases, Option-cases,
}
use nunspark.Generate.Greedy.{greedy}
use nunspark.Tree.Shape.{TreeShape, build, kids_of}
use nunspark.Tree.Numbering.{AllWithin, AllLater, build-IsNumbered, kids_of-AllWithin}

suc-one : (n : ℕ) → suc (n + 1) ≡ suc n + 1
suc-one n = omega arith

-- What the walk returns.
pub record Accepted : Type 0 where
  pub tokens : List ℕ
  pub bonus : ℕ
  pub final : ℕ

module _ (children : List (List ℕ)) (token target : ℕ → ℕ) where
  -- `next((c for c in kids if token[c] == tgt), None)`.
  unfoldable pub match_child : ℕ → List ℕ → Option ℕ
  match_child tgt [] = none
  match_child tgt (c ∷ kids) =
      let rest = match_child tgt kids in if token c == tgt then some c else rest

  unfoldable pub stop_at : ℕ → Accepted
  stop_at node = record { tokens = []; bonus = target node; final = node }

  unfoldable pub accept : ℕ → Option Accepted → Option Accepted
  accept child none = none
  accept child (some a) = some (record a { tokens = token child ∷ a.tokens })

  -- The loop from a node, with fuel; `none` is out of fuel. A node without children and one of whose
  -- children none matches both end it with the target's token.
  unfoldable pub walk : ℕ → ℕ → Option Accepted
  walk zero node = none
  walk (suc fuel) node = elim (match_child (target node) (kids_of children node)) [
    | none ↦ some (stop_at node)
    | some child ↦ accept child (walk fuel child)
  ]

  match_child-found :
      (tgt low high : ℕ) (kids : List ℕ) {c : ℕ}
      → AllWithin low high kids
      → match_child tgt kids ≡ some c
      → (low ≤ c) × (c < high) × (token c ≡ tgt) × (contains c kids ≡ true)
  unfolding match_child contains
  match_child-found tgt low high [] w h = absurd (ground arith)
  match_child-found tgt low high (k ∷ kids) {c = c} (l, u, w) h =
      elim (Bool-cases (token k == tgt)) [
        | inl same ↦
            let e : k ≡ c = ground arith in
            let t : token k ≡ tgt = ground arith in
            (ground arith, ground arith, ap token (sym e) ∙ t, ground arith)
        | inr other ↦
            let (a, b, t, m) = match_child-found tgt low high kids {c = c} w (ground arith) in
            (a, b, t, ground arith)
      ]

  module _ (next : List ℕ → ℕ) (contexts : ℕ → List ℕ)
      (reads : (n : ℕ) → target n ≡ next (contexts n))
      (extends : (n c : ℕ)
        → contains c (kids_of children n) ≡ true
        → contexts c ≡ contexts n ++ token c ∷ []) where
    -- The walk ends, with what greedy decoding gives after the context of the node.
    IsGreedy : ℕ → Option Accepted → Type 0
    IsGreedy node r =
        (a : Accepted) × (r ≡ some a)
        × (a.tokens ++ a.bonus ∷ [] ≡ greedy next (length a.tokens + 1) (contexts node))

    stop-IsGreedy : (node : ℕ) → IsGreedy node (some (stop_at node))
    unfolding IsGreedy stop_at greedy
    stop-IsGreedy node = (stop_at node, refl, ap (λ b. b ∷ []) (reads node) ∙ refl)

    accept-IsGreedy :
        (node child : ℕ) (r : Option Accepted)
        → token child ≡ target node
        → contains child (kids_of children node) ≡ true
        → IsGreedy child r
        → IsGreedy node (accept child r)
    unfolding IsGreedy accept greedy
    accept-IsGreedy node child r t m (a, e, g) = (
      record a { tokens = token child ∷ a.tokens },
      ap (accept child) e,
      ap (λ l. token child ∷ l) g
          ∙ ap (λ c. token child ∷ greedy next (length a.tokens + 1) c) (extends node child m)
          ∙ ap (λ b. b ∷ greedy next (length a.tokens + 1) (contexts node ++ b ∷ []))
              (t ∙ reads node)
          ∙ ap (λ k. greedy next k (contexts node)) (suc-one (length a.tokens)),
    )

    walk-IsGreedy :
        (fuel node high : ℕ)
        → AllLater 0 high children
        → node < high
        → high ≤ node + fuel
        → IsGreedy node (walk fuel node)
    unfolding walk
    walk-IsGreedy zero node high w u f = absurd (omega arith)
    walk-IsGreedy (suc fuel) node high w u f =
        let tgt = target node in
        let kids = kids_of children node in
        elim (Option-cases (match_child tgt kids)) [
          | inl ended ↦ rw (ended, walk) (stop-IsGreedy node)
          | inr (child, here) ↦
              let (low, below, t, m) =
                match_child-found tgt (suc (0 + node)) high kids
                  (kids_of-AllWithin 0 high node children w) here in
              rw (here, walk)
                (accept-IsGreedy node child (walk fuel child) t m
                  (walk-IsGreedy fuel child high w below (omega (arith, low, f))))
        ]

-- On any tree that the constructor returns, when the target's argmax at a node is the greedy choice
-- after the node's context and a child's context is its parent's with the child's token: the walk
-- from the root ends within as many rounds as there are nodes, and what it accepts, with its bonus
-- token, is the greedy continuation of the root's context.
pub walk-greedy :
    (branching : List ℕ) {t : TreeShape} (token target : ℕ → ℕ) (next : List ℕ → ℕ)
    (contexts : ℕ → List ℕ)
    → build branching ≡ some t
    → ((n : ℕ) → target n ≡ next (contexts n))
    → ((n c : ℕ)
        → contains c (kids_of t.children n) ≡ true
        → contexts c ≡ contexts n ++ token c ∷ [])
    → (a : Accepted) × (walk t.children token target t.num_nodes 0 ≡ some a)
      × (a.tokens ++ a.bonus ∷ [] ≡ greedy next (length a.tokens + 1) (contexts 0))
unfolding IsGreedy
walk-greedy branching {t = t} token target next contexts built reads extends =
    let i = build-IsNumbered branching built in
    walk-IsGreedy t.children token target next contexts reads extends t.num_nodes 0 t.num_nodes
      i.later i.rooted (omega arith)
