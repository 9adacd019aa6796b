-- ===== src/Generate/BatchTests.antt =====
-- `batched_generate`, `stream_generate` and `get_optimal_config` on small inputs: after n tokens the
-- model's choice is n modulo 3.
use nunspark.Base.{
  ℕ, ◌<◌, true, ◌≡◌, refl, List, [], ◌∷◌, Option, none, some, false, length, drop, replicate, map,
  arith,
}
use nunspark.Generate.Greedy.{greedy, until_eos}
use nunspark.Generate.Config.{get_optimal_config, no_speculation, speculation, Reason}
use nunspark.Generate.Tests.{count_next}
use nunspark.Generate.Batch.{BatchEngine, batched_generate, reject_rotating}
use nunspark.Generate.Batch
use nunspark.Generate.Batch.Lanes.{BatchContract, Chosen, no_rows, row, beside, IsSureFrom}
use nunspark.Generate.Batch.Lossless.{AllSure, batched_generate-goal}

abbrev choose : List ℕ → List (List ℕ) → List ℕ
choose [] hs = []
choose (p ∷ ps) [] = []
choose (p ∷ ps) (h ∷ hs) = count_next (drop p h) ∷ choose ps hs

abbrev masked : Option (List ℕ) → List (List ℕ) → List ℕ
masked none hs = choose (replicate (length hs) 0) hs
masked (some ps) hs = choose ps hs

abbrev rowwise : BatchEngine
rowwise = record {
  Kv = List (List ℕ);
  Row = ℕ;
  forward = λ ws pads kv. (masked pads (beside kv ws), beside kv ws);
  cache_kinds = none;
  supports_quantized_kv = false;
}

choose-Chosen :
    (ps : List ℕ) (hs : List (List ℕ))
    → length ps ≡ length hs
    → Chosen count_next (λ ts. length ts < 8) ps hs (map (λ t. t) (choose ps hs))
choose-Chosen [] [] len = no_rows
choose-Chosen [] (h ∷ hs) len = absurd (omega arith)
choose-Chosen (p ∷ ps) [] len = absurd (omega arith)
choose-Chosen (p ∷ ps) (h ∷ hs) len = row (λ lt steady. refl) (choose-Chosen ps hs (omega arith))

zeros-Chosen :
    (hs : List (List ℕ))
    → Chosen count_next
        (λ ts. Unit {0})
        (replicate (length hs) 0)
        hs
        (map (λ t. t) (choose (replicate (length hs) 0) hs))
zeros-Chosen [] = no_rows
zeros-Chosen (h ∷ hs) = row (λ lt sure. refl) (zeros-Chosen hs)

abbrev rowwise-Contract : BatchContract rowwise (λ t. t)
rowwise-Contract = record {
  holds = λ kv. kv;
  next = count_next;
  IsSteady = λ ts. length ts < 8;
  forward_holds = λ ws pads kv. refl;
  forward_padded = λ ws pads kv len. choose-Chosen pads (beside kv ws) len;
  forward_plain = λ ws kv. zeros-Chosen (beside kv ws);
}

-- No context of the two prompts grows to 8 tokens.
steady_prompts :
    true ≡ true
    → AllSure count_next (λ ts. length ts < 8) (some 2) 4 ((0 ∷ 1 ∷ 2 ∷ []) ∷ (7 ∷ []) ∷ [])
unfolding AllSure IsSureFrom
steady_prompts padded = (
  (omega arith, λ _. (omega arith, λ _. (omega arith, λ _. (omega arith, λ _. tt)))),
  ((omega arith, λ _. (omega arith, λ _. (omega arith, λ _. (omega arith, λ _. tt)))), tt),
)

-- Two prompts of three tokens and one, with 2 as the end-of-sequence token.
batched_generate-goal_example :
    batched_generate rowwise (λ t. t) ((0 ∷ 1 ∷ 2 ∷ []) ∷ (7 ∷ []) ∷ []) 4 false 9 (some 2) 2 []
    ≡ some
        (map (λ p. until_eos (some 2) (greedy count_next 4 p)) ((0 ∷ 1 ∷ 2 ∷ []) ∷ (7 ∷ []) ∷ []))
unfolding reject_rotating AllSure IsSureFrom
batched_generate-goal_example =
    batched_generate-goal rowwise-Contract (0 ∷ 1 ∷ 2 ∷ []) ((7 ∷ []) ∷ []) 4 9 (some 2) 2 [] refl
      (omega arith, (omega arith, tt)) (omega arith) refl steady_prompts

batch_runs :
    batched_generate rowwise (λ t. t) ((0 ∷ 1 ∷ 2 ∷ []) ∷ (7 ∷ []) ∷ []) 4 false 9 (some 2) 2 []
    ≡ some ((0 ∷ 1 ∷ 2 ∷ []) ∷ (1 ∷ 2 ∷ []) ∷ [])
unfolding reject_rotating batched_generate Batch.prefill_batched Batch.prefill_columns
    Batch.decode_batch Batch.advance Batch.feed
batch_runs = refl

-- At the edges of the four ranges.
config_none : get_optimal_config 10 19 ≡ no_speculation Reason.short_generation_overhead_dominates
unfolding get_optimal_config
config_none = refl

config_short : get_optimal_config 49 50 ≡ speculation 40 512 Reason.optimal_speculation_range
unfolding get_optimal_config
config_short = refl

config_long_prompt :
    get_optimal_config 50 50 ≡ speculation 24 512 Reason.degraded_acceptance_conservative_draft
unfolding get_optimal_config
config_long_prompt = refl

config_long : get_optimal_config 10 101 ≡ speculation 16 512 Reason.long_generation_minimal_draft
unfolding get_optimal_config
config_long = refl
