-- ===== src/Drafter/Probes.antt =====
-- Histories of calls of the drafter: the policy's invariants in every reachable state.
use nunspark.Base.{ℕ, ◌+◌, ◌/◌, ◌%◌, ◌≤◌, ◌≡◌, Bool, some, List, [], ◌∷◌, arith}
use nunspark.Drafter.{NGramDrafter, init, propose, observe, set_k}
use nunspark.Drafter.Adaptive.{IsValid, propose-IsValid, observe-IsValid, init-IsValid}

pub data Call : Type 0 where
  proposes : List ℕ → Call
  observes : ℕ → ℕ → Call

unfoldable pub step : NGramDrafter → Call → NGramDrafter
step d (proposes context) = (propose d context).0
step d (observes proposed accepted) = observe d proposed accepted

unfoldable pub run : NGramDrafter → List Call → NGramDrafter
run d [] = d
run d (c ∷ cs) = run (step d c) cs

-- The disabled calls of `propose` are the probes and the rounds that were skipped, and every
-- `reprobe_every`-th of them is a probe.
pub record IsCounted (d : NGramDrafter) : Type 0 where
  pub split : d.probes + d.disabled_rounds ≡ d.disabled_calls
  pub cycle : d.probes ≡ d.disabled_calls / d.reprobe_every
  pub cycle_pos : 1 ≤ d.reprobe_every

div-boundary : (n r : ℕ) → 1 ≤ r → (n + 1) % r ≡ 0 → (n + 1) / r ≡ n / r + 1
div-boundary n r h e = grind arith

div-between : (n r : ℕ) → 1 ≤ r → 1 ≤ (n + 1) % r → (n + 1) / r ≡ n / r
div-between n r h e = grind arith

propose-IsCounted :
    (d : NGramDrafter) (context : List ℕ) → IsCounted d → IsCounted (propose d context).0
unfolding propose
propose-IsCounted d context c = ground (
  arith,
  div-boundary d.disabled_calls d.reprobe_every c.cycle_pos,
  div-between d.disabled_calls d.reprobe_every c.cycle_pos,
)

observe-IsCounted :
    (d : NGramDrafter) (proposed accepted : ℕ)
    → IsCounted d
    → IsCounted (observe d proposed accepted)
unfolding observe set_k
observe-IsCounted d proposed accepted c = ground arith

run-IsCounted : (d : NGramDrafter) (cs : List Call) → IsCounted d → IsCounted (run d cs)
unfolding run step
run-IsCounted d [] c = c
run-IsCounted d (proposes context ∷ cs) c =
    run-IsCounted (propose d context).0 cs (propose-IsCounted d context c)
run-IsCounted d (observes p a ∷ cs) c = run-IsCounted (observe d p a) cs (observe-IsCounted d p a c)

run-IsValid : (d : NGramDrafter) (cs : List Call) → IsValid d → IsValid (run d cs)
unfolding run step
run-IsValid d [] v = v
run-IsValid d (proposes context ∷ cs) v =
    run-IsValid (propose d context).0 cs (propose-IsValid d context v)
run-IsValid d (observes p a ∷ cs) v = run-IsValid (observe d p a) cs (observe-IsValid d p a v)

init-IsCounted :
    (max_ngram cap : ℕ) (adaptive : Bool) (floor cycle : ℕ) {d : NGramDrafter}
    → init max_ngram cap adaptive floor cycle ≡ some d
    → IsCounted d
unfolding init
init-IsCounted max_ngram cap adaptive floor cycle e = ground arith

-- After any calls of a new drafter whose floor is at most its cap, `k_cur` is 0 or between the floor
-- and the cap, and stays at the cap if the drafter is not adaptive.
pub run-init-IsValid :
    (max_ngram cap : ℕ) (adaptive : Bool) (floor cycle : ℕ) {d : NGramDrafter} (cs : List Call)
    → floor ≤ cap
    → init max_ngram cap adaptive floor cycle ≡ some d
    → IsValid (run d cs)
run-init-IsValid max_ngram cap adaptive floor cycle {d} cs h e =
    run-IsValid d cs (init-IsValid max_ngram cap adaptive floor cycle h e)

-- After any calls of a new drafter, the disabled calls of `propose` are its probes and its skipped
-- rounds, and the probes are one for each full cycle of `reprobe_every` disabled calls.
pub run-init-IsCounted :
    (max_ngram cap : ℕ) (adaptive : Bool) (floor cycle : ℕ) {d : NGramDrafter} (cs : List Call)
    → init max_ngram cap adaptive floor cycle ≡ some d
    → IsCounted (run d cs)
run-init-IsCounted max_ngram cap adaptive floor cycle {d} cs e =
    run-IsCounted d cs (init-IsCounted max_ngram cap adaptive floor cycle e)
