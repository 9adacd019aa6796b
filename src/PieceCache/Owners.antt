-- ===== src/PieceCache/Owners.antt =====
-- Who holds the reservation of a piece of src/nunspark/piece_cache.py: occurrences in the lists of
-- tasks and of threads.
use nunspark.Base.{
  ℕ, ◌+◌, ◌≡◌, refl, sym, ap, ◌∙◌, inl, inr, Bool, true, false, List, [], ◌∷◌, Option, none, some,
  arith, if◌then◌else◌, list_eq, list_eq→eq, Bool-cases, Option-cases,
}
use nunspark.PieceCache.Pieces.{Pid}
use nunspark.PieceCache.Table.{member, discard}
use nunspark.PieceCache.State.{Task}
use nunspark.PieceCache.Threads.{drop_first, pop_least, take_task, before}

unfoldable pub bit : Bool → ℕ
bit b = if b then 1 else 0

unfoldable pub occurrences : Pid → List Pid → ℕ
occurrences q [] = 0
occurrences q (p ∷ ps) = bit (list_eq p q) + occurrences q ps

unfoldable pub task_occurrences : Pid → List Task → ℕ
task_occurrences q [] = 0
task_occurrences q (t ∷ ts) = bit (list_eq t.pid q) + task_occurrences q ts

pub drop_first-occurrences :
    (q p : Pid) (ps : List Pid)
    → member p ps ≡ true
    → bit (list_eq p q) + occurrences q (drop_first p ps) ≡ occurrences q ps
unfolding occurrences drop_first member
drop_first-occurrences q p [] h = ground arith
drop_first-occurrences q p (k ∷ ps) h = elim (Bool-cases (list_eq k p)) [
  | inl same ↦ rw (same, sym (list_eq→eq k p same)) refl
  | inr other ↦ rw other (omega (arith, drop_first-occurrences q p ps (ground arith)))
]

-- The occurrences in a task and in the others.
unfoldable pub drawn : Pid → Option (Task × List Task) → ℕ
drawn q none = 0
drawn q (some (t, rest)) = bit (list_eq t.pid q) + task_occurrences q rest

pub pop_least-drawn : (q : Pid) (ts : List Task) → drawn q (pop_least ts) ≡ task_occurrences q ts
unfolding pop_least task_occurrences drawn
pop_least-drawn q [] = refl
pop_least-drawn q (u ∷ ts) =
    let tail = pop_least-drawn q ts in
    elim (Option-cases (pop_least ts)) [
      | inl empty ↦ rw empty (omega (arith, sym (ap (drawn q) empty) ∙ tail))
      | inr ((v, others), here) ↦
          let found = sym (ap (drawn q) here) ∙ tail in
          rw here (elim (Bool-cases (before v u)) [
            | inl first ↦ rw first (omega (arith, found))
            | inr later ↦ rw later (omega (arith, found))
          ])
    ]

pub take_task-drawn :
    (q p : Pid) (ts : List Task) {r : Task × List Task}
    → take_task p ts ≡ some r
    → drawn q (take_task p ts) ≡ task_occurrences q ts
unfolding take_task task_occurrences drawn
take_task-drawn q p [] h = absurd (ground arith)
take_task-drawn q p (u ∷ ts) h = elim (Bool-cases (list_eq u.pid p)) [
  | inl same ↦ rw same refl
  | inr other ↦ elim (Option-cases (take_task p ts)) [
    | inl gone ↦ absurd (ground arith)
    | inr ((v, us), here) ↦
        rw (other, here) (omega (arith, sym (ap (drawn q) here) ∙ take_task-drawn q p ts here))
  ]
]

list_eq-apart : (k p q : Pid) → list_eq k p ≡ false → list_eq k q ≡ true → list_eq p q ≡ false
list_eq-apart k p q other found = elim (Bool-cases (list_eq p q)) [
  | inl e ↦ absurd (grind (arith, ap (list_eq k) (list_eq→eq p q e), other, found))
  | inr e ↦ e
]

pub member-discard :
    (q p : Pid) (ps : List Pid)
    → bit (member q (discard p ps)) ≡ (if list_eq p q then 0 else bit (member q ps))
unfolding member discard bit
member-discard q p [] = ground arith
member-discard q p (k ∷ ps) = elim (Bool-cases (list_eq k p)) [
  | inl same ↦ rw (same, list_eq→eq k p same) (ground (arith, member-discard q p ps))
  | inr other ↦ elim (Bool-cases (list_eq k q)) [
    | inl found ↦ rw (other, found, list_eq-apart k p q other found) refl
    | inr absent ↦ rw other (ground (arith, member-discard q p ps))
  ]
]
