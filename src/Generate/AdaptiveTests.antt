-- ===== src/Generate/AdaptiveTests.antt =====
-- The adaptive path on a small engine, and its theorems at its inputs.
use nunspark.Base.{
  ℕ, ◌+◌, ◌≤◌, max, ◌≡◌, refl, List, [], ◌∷◌, ◌++◌, Option, none, some, false, length, arith, ◌⊎◌,
  ◌↔◌,
}
use nunspark.Generate.Engine.{IsUnrotated, check_kv_quant_support, prefill, prefill_windows}
use nunspark.Generate.Greedy.{greedy, until_eos}
use nunspark.Generate.Emit.{Run, go, emit, emit_accepted, emit_bonus, drive}
use nunspark.Generate.Ngram.{accept_prefix}
use nunspark.Generate.Draft.{draft_loop, accept_loop, is_plausible}
use nunspark.Generate.Adaptive.{
  Floats, Pace, AdaptiveSession, track, adjust, adaptive_round, adaptive_speculative_generate,
}
use nunspark.Generate.Adaptive
use nunspark.Generate.Adaptive.Bounds.{IsPaced, next_pace-IsPaced}
use nunspark.Generate.Adaptive.Shift.{adaptive_round-shift}
use nunspark.Generate.Adaptive.Lossless.{adaptive-lossless, IsCounted}
use nunspark.Generate.Recalling.{
  count_next, recalling, recalling-Contract, following, following-Contract, hundredths, prompt,
  first_run,
}

program : Unit {0}
unfolding check_kv_quant_support prefill prefill_windows greedy until_eos emit emit_accepted
    emit_bonus drive accept_prefix draft_loop accept_loop is_plausible adaptive_round
    adaptive_speculative_generate Adaptive.settle_rolled track adjust Adaptive.settle_k
    Adaptive.new_k Adaptive.recent_acceptance Adaptive.sum_of
program = tt

out_of : Option Run → List ℕ
out_of none = []
out_of (some r) = r.out

-- With K from 2 to 6 and an adjustment after each third pass, the fourth round starts from a store
-- that lost four tokens, and the path no longer yields the greedy tokens, which go on with 0 and 1.
adaptive_strays :
    out_of (
      adaptive_speculative_generate recalling following hundredths 2 6 3 12 none 2 prompt false
        ([], []))
    ≡ 2 ∷ 0 ∷ 1 ∷ 2 ∷ 0 ∷ 1 ∷ 2 ∷ 0 ∷ 1 ∷ 2 ∷ 2 ∷ 0 ∷ []
unfolding program out_of
adaptive_strays = refl

adaptive-lossless_example :
    (r : Run) × (adaptive_speculative_generate recalling following hundredths 2 2 3 12 none 2 prompt
        false
        ([], [])
      ≡ some r)
    × (r.out ≡ until_eos none (greedy count_next (max 1 12) prompt))
    × IsCounted r
unfolding check_kv_quant_support IsUnrotated
adaptive-lossless_example =
    adaptive-lossless recalling-Contract following-Contract hundredths 2 3 prompt 12 none false
      ([], []) (omega arith) (omega arith) refl refl (omega arith)

-- Two rounds that accepted all of their two drafts.
abbrev two_rounds : Pace hundredths
two_rounds = record {
  k = 2;
  passes_since_adjustment = 2;
  stats = record {
    acceptance_history = 100 ∷ 100 ∷ [];
    adjustment_count = 0;
    current_draft_tokens = 2;
  };
}

abbrev raised : Pace hundredths
raised = record {
  k = 6;
  passes_since_adjustment = 0;
  stats = record {
    acceptance_history = 100 ∷ 100 ∷ 100 ∷ [];
    adjustment_count = 1;
    current_draft_tokens = 6;
  };
}

next_pace-IsPaced_example :
    IsPaced hundredths 2 6 3 3 (adjust hundredths 2 6 3 (track hundredths 2 two_rounds))
next_pace-IsPaced_example = next_pace-IsPaced hundredths 2 6 3 2 2 two_rounds (record {
  least = omega arith;
  most = omega arith;
  reported = refl;
  history = refl;
  waited = omega arith;
})

abbrev before_raise : AdaptiveSession recalling following hundredths
before_raise = record {
  kv = (prompt, []);
  draft_cache = prompt;
  pace = two_rounds;
  b = 2;
  run = first_run;
}

abbrev after_raise : AdaptiveSession recalling following hundredths
after_raise = record {
  kv = (0 ∷ 1 ∷ 2 ∷ 0 ∷ [], 2 ∷ 0 ∷ 1 ∷ []);
  draft_cache = 0 ∷ 1 ∷ 2 ∷ 0 ∷ [];
  pace = raised;
  b = 2;
  run = record {
    out = 2 ∷ 0 ∷ 1 ∷ 2 ∷ [];
    emitted = 4;
    stats = record {
      target_passes = 1;
      tokens_emitted = 4;
      draft_tokens_proposed = 2;
      accepted_offpath = 0;
      accepted_total = 0;
      near_tie_rows = 0;
    };
  };
}

raise_ran :
    adaptive_round recalling following hundredths 2 6 3 12 none before_raise ≡ some (go after_raise)
unfolding program
raise_ran = refl

adaptive_round-shift_example :
    (m : ℕ) × (m ≤ 2)
    × (4 ≡ 1 + m + 1)
    × ((4 + 1 ≡ length (prompt ++ 2 ∷ 0 ∷ 1 ∷ 2 ∷ []))
        ↔ ((after_raise.pace.k ≡ before_raise.pace.k) ⊎ ((m ≡ 2) × (6 ≤ 2))))
adaptive_round-shift_example =
    adaptive_round-shift recalling-Contract following-Contract hundredths prompt 2 6 3 12 none
      before_raise after_raise (omega arith) refl raise_ran
