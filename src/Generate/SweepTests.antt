-- ===== src/Generate/SweepTests.antt =====
-- The EAGLE and MTP paths on a small engine, and their theorems at its inputs.
use nunspark.Base.{ℕ, max, ◌≡◌, refl, List, [], ◌∷◌, ◌++◌, Option, none, some, false, arith}
use nunspark.Generate.Engine.{IsUnrotated, check_kv_quant_support, prefill, prefill_windows}
use nunspark.Generate.Greedy.{greedy, until_eos}
use nunspark.Generate.Emit.{Run, go, emit, emit_accepted, emit_bonus, drive}
use nunspark.Generate.Stats.{IsTallied}
use nunspark.Generate.Ngram.{accept_prefix}
use nunspark.Generate.Draft.{draft_loop, accept_loop, is_plausible}
use nunspark.Generate.Eagle
use nunspark.Generate.Eagle.{EagleModel, eagle_speculative_generate}
use nunspark.Generate.Eagle.Lossless.{eagle-lossless}
use nunspark.Generate.Gemma
use nunspark.Generate.Gemma.{Attended, AssistantModel, MtpSession, gemma4_mtp_speculative_generate}
use nunspark.Generate.Gemma.Round.{Before}
use nunspark.Generate.Gemma.Lossless.{mtp-lossless, mtp_round-Before}
use nunspark.Generate.Gemma.Tally.{mtp-IsTallied}
use nunspark.Generate.Recalling.{
  count_next, recalling, recalling-Contract, recalling-RowContract, hiddens, hiddens-Contract,
  attended, attended-Contract, counting_on, by_position, prompt, first_run,
}

program : Unit {0}
unfolding check_kv_quant_support prefill prefill_windows greedy until_eos emit emit_accepted
    emit_bonus drive accept_prefix draft_loop accept_loop is_plausible eagle_speculative_generate
    Eagle.eagle_round Eagle.draft_speculative Eagle.predict gemma4_mtp_speculative_generate
    Gemma.mtp_round Gemma.draft_speculative Gemma.assist Gemma.draft_step
program = tt

out_of : Option Run → List ℕ
out_of none = []
out_of (some r) = r.out

eagle_runs :
    out_of (eagle_speculative_generate recalling hiddens counting_on 2 prompt 7 none false ([], []))
    ≡ 2 ∷ 0 ∷ 1 ∷ 2 ∷ 0 ∷ 1 ∷ 2 ∷ []
unfolding program out_of
eagle_runs = refl

mtp_runs :
    out_of (
      gemma4_mtp_speculative_generate recalling hiddens attended by_position 2 1 prompt 7 none false
        ([], []))
    ≡ 2 ∷ 0 ∷ 1 ∷ 2 ∷ 0 ∷ 1 ∷ 2 ∷ []
unfolding program out_of
mtp_runs = refl

eagle-lossless_example :
    (r : Run) × (eagle_speculative_generate recalling hiddens counting_on 2 prompt 7 none false
        ([], [])
      ≡ some r)
    × (r.out ≡ until_eos none (greedy count_next (max 1 7) prompt))
    × IsTallied r
unfolding check_kv_quant_support IsUnrotated
eagle-lossless_example =
    eagle-lossless recalling-Contract hiddens-Contract counting_on 2 prompt 7 none false ([], [])
      (omega arith) (omega arith) refl refl (omega arith)

mtp-lossless_example :
    (r : Run) × (gemma4_mtp_speculative_generate recalling hiddens attended by_position 2 1 prompt 7
        none false
        ([], [])
      ≡ some r)
    × (r.out ≡ until_eos none (greedy count_next (max 1 7) prompt))
unfolding check_kv_quant_support IsUnrotated
mtp-lossless_example =
    mtp-lossless recalling-Contract hiddens-Contract attended-Contract by_position 2 1 prompt 7 none
      false ([], []) (omega arith) (omega arith) refl refl (omega arith) (omega arith)

mtp-IsTallied_example :
    (r : Run) × (gemma4_mtp_speculative_generate recalling hiddens attended by_position 2 2 prompt
        30 none false
        ([], [])
      ≡ some r)
    × IsTallied r
unfolding check_kv_quant_support
mtp-IsTallied_example =
    mtp-IsTallied recalling-RowContract hiddens-Contract attended by_position 2 2 prompt 30 none
      false ([], []) (omega arith) (omega arith) refl

abbrev mtp_start : MtpSession recalling hiddens attended by_position
mtp_start = record {
  kv = (prompt, prompt);
  last_hidden = some 1;
  kv_states = prompt;
  prefix_len = 5;
  b = 2;
  run = first_run;
}

abbrev mtp_second : MtpSession recalling hiddens attended by_position
mtp_second = record {
  kv = (prompt ++ 2 ∷ 0 ∷ [], 2 ∷ 0 ∷ 0 ∷ []);
  last_hidden = some 0;
  kv_states = prompt ++ 2 ∷ 0 ∷ [];
  prefix_len = 7;
  b = 1;
  run = record {
    out = 2 ∷ 0 ∷ 1 ∷ [];
    emitted = 3;
    stats = record {
      target_passes = 1;
      tokens_emitted = 3;
      draft_tokens_proposed = 2;
      accepted_offpath = 0;
      accepted_total = 1;
      near_tie_rows = 0;
    };
  };
}

mtp_start-Before :
    Before recalling-Contract hiddens-Contract attended-Contract by_position 2 1 prompt 7 none
      mtp_start
unfolding greedy until_eos
mtp_start-Before = record {
  aligned = refl;
  output = λ _. refl;
  tallied = record {
    yielded = refl;
    emitted = refl;
    accepted = omega arith;
    offpath = omega arith;
    paid = omega arith;
  };
  side = record { hidden = 1; has_hidden = refl; attends = refl; position = refl };
}

mtp_ran :
    Gemma.mtp_round recalling hiddens attended by_position 2 1 7 none mtp_start
    ≡ some (go mtp_second)
unfolding program
mtp_ran = refl

mtp_round-Before_example :
    Before recalling-Contract hiddens-Contract attended-Contract by_position 2 1 prompt 7 none
      mtp_second
unfolding IsUnrotated
mtp_round-Before_example =
    mtp_round-Before recalling-Contract hiddens-Contract attended-Contract by_position 2 1 prompt 7
      none mtp_start mtp_second (omega arith) mtp_start-Before (omega arith) mtp_ran
