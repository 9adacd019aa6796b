-- ===== src/Drafter/Tests.antt =====
-- The drafter's theorems at concrete inputs.
use nunspark.Base.{
  ℕ, ◌+◌, ◌-◌, ◌*◌, ◌≤◌, ◌<◌, min, ◌≡◌, refl, ◌↔◌, ◌⊎◌, true, false, some, List, [], ◌∷◌, arith,
  length, list_eq,
}
use nunspark.Drafter.{
  NGramDrafter, init, propose, observe, lookup_draft, scan_ngrams, scan_starts, or_else,
}
use nunspark.Drafter.Lookup.{Found, lookup_draft-Found}
use nunspark.Drafter.Adaptive.{IsValid, observe-probe, propose-length}
use nunspark.Drafter.Probes.{
  Call, proposes, observes, run, IsCounted, run-init-IsValid, run-init-IsCounted,
}

abbrev fresh : NGramDrafter
fresh = record {
  max_ngram = 3;
  num_draft_tokens = 8;
  adaptive = true;
  min_draft_tokens = 2;
  reprobe_every = 3;
  k_cur = 8;
  k_min_seen = 8;
  k_max_seen = 8;
  disabled_rounds = 0;
  probes = 0;
  disabled_calls = 0;
  probing = false;
}

-- The state of a re-probe: disabled, and its third disabled call is under way.
abbrev probing_state : NGramDrafter
probing_state = record fresh {
  k_cur = 0;
  k_min_seen = 0;
  probes = 1;
  disabled_rounds = 2;
  disabled_calls = 3;
  probing = true;
}

abbrev context : List ℕ
context = 5 ∷ 6 ∷ 7 ∷ 8 ∷ 5 ∷ 6 ∷ []

abbrev calls : List Call
calls = observes 8 0 ∷ observes 4 0 ∷ observes 2 0 ∷ proposes context ∷ proposes context ∷ []

init-fresh : init 3 8 true 2 3 ≡ some fresh
unfolding init
init-fresh = refl

fresh-IsValid : IsValid fresh
fresh-IsValid = ground arith

probing_state-IsValid : IsValid probing_state
probing_state-IsValid = ground arith

lookup_runs : lookup_draft fresh context 2 ≡ 7 ∷ 8 ∷ []
unfolding lookup_draft scan_ngrams scan_starts or_else list_eq
lookup_runs = refl

lookup_draft-Found_example :
    Found context (min 3 (length context - 1)) 2 (lookup_draft fresh context 2)
lookup_draft-Found_example = lookup_draft-Found fresh context 2 (omega arith)

propose-length_example : length (propose fresh context).1 ≤ 8
propose-length_example = propose-length fresh context fresh-IsValid

-- One accepted of two proposed ends the disabled state.
observe-probe_example :
    ((observe probing_state 2 1).k_cur ≡ 0) ↔ ((1 * 4 < 2) × ((1 + 1 < 2) ⊎ (1 < 2)))
observe-probe_example =
    observe-probe probing_state 2 1 probing_state-IsValid refl refl (omega arith)

run-init-IsValid_example : IsValid (run fresh calls)
run-init-IsValid_example = run-init-IsValid 3 8 true 2 3 calls (omega arith) init-fresh

run-init-IsCounted_example : IsCounted (run fresh calls)
run-init-IsCounted_example = run-init-IsCounted 3 8 true 2 3 calls init-fresh
