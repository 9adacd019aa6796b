-- ===== src/Generate/AlignedTests.antt =====
-- A round of the draft-model path on a small engine, and the theorem about its draft cache.
use nunspark.Base.{ℕ, ◌≤◌, ◌≡◌, refl, List, [], ◌∷◌, ◌++◌, some, none, length, arith}
use nunspark.Generate.Emit.{go, emit, emit_accepted, emit_bonus}
use nunspark.Generate.Ngram.{near_tie_rows}
use nunspark.Generate.Draft.{
  DraftSession, draft_round, verify_drafts, draft_loop, settle_cache, accept_loop, is_plausible,
}
use nunspark.Generate.Draft.Aligned.{draft_round-aligned}
use nunspark.Generate.Recalling.{
  recalling, recalling-Contract, following, following-Contract, prompt, first_run,
}

abbrev first : DraftSession recalling following
first = record { kv = (prompt, prompt); draft_cache = prompt; b = 2; run = first_run }

-- Both drafts are accepted.
abbrev second : DraftSession recalling following
second = record {
  kv = (prompt ++ 2 ∷ 0 ∷ 1 ∷ [], prompt);
  draft_cache = prompt ++ 2 ∷ 0 ∷ 1 ∷ [];
  b = 2;
  run = record {
    out = 2 ∷ 0 ∷ 1 ∷ 2 ∷ [];
    emitted = 4;
    stats = record {
      target_passes = 1;
      tokens_emitted = 4;
      draft_tokens_proposed = 2;
      accepted_offpath = 0;
      accepted_total = 2;
      near_tie_rows = 0;
    };
  };
}

draft_ran : draft_round recalling following 2 1 7 none first ≡ some (go second)
unfolding draft_round verify_drafts draft_loop settle_cache accept_loop is_plausible near_tie_rows
    emit emit_accepted emit_bonus
draft_ran = refl

draft_round-aligned_example :
    (ts : List ℕ) × (length ts ≤ 2)
    × (second.run.out ≡ first.run.out ++ ts ++ 2 ∷ [])
    × (second.kv.0 ≡ first.kv.0 ++ 2 ∷ ts)
    × (second.draft_cache ≡ second.kv.0)
draft_round-aligned_example =
    draft_round-aligned recalling-Contract following-Contract 2 1 7 none first second (omega arith)
      refl draft_ran
