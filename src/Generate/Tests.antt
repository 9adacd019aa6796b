-- ===== src/Generate/Tests.antt =====
-- A small engine on which the generation paths run, and the theorems at its inputs: after n tokens
-- the model's choice is n modulo 3.
use nunspark.Base.{
  list_eq, true, ℕ, suc, ◌-◌, ◌%◌, max, ◌≡◌, refl, ap, List, [], ◌∷◌, ◌++◌, Option, none, some,
  false, map, length, take, length-take, arith,
}
use nunspark.Drafter.{NGramDrafter}
use nunspark.Drafter
use nunspark.Generate.Engine.{
  Engine, Contract, nexts, Request, check_kv_quant_support, prefill, prefill_windows,
}
use nunspark.Generate.Greedy.{
  generate, decode, greedy, until_eos, generate-greedy, prefill-Prefilled, Prefilled,
}
use nunspark.Generate.Emit.{Run, emit, emit_accepted, emit_bonus, drive}
use nunspark.Generate.Stats.{IsTallied}
use nunspark.Generate.Verify.{IsServed}
use nunspark.Generate.Ngram.{
  prompt_lookup, ngram_speculative_generate, ngram_round, turn, greedy_step, verify_step,
  accept_prefix, near_tie_rows,
}
use nunspark.Generate.Ngram.Lossless.{ngram-lossless}
use nunspark.Generate.Draft.{
  DraftModel, speculative_generate, draft_round, verify_drafts, draft_loop, settle_cache,
  accept_loop, is_plausible,
}
use nunspark.Generate.Draft.Cache.{CallContract, DraftContract}
use nunspark.Generate.Draft.Lossless.{speculative-lossless, speculative-IsTallied}

abbrev pub count_next : List ℕ → ℕ
count_next context = length context % 3

abbrev pub counting : Engine
counting = record {
  Kv = List ℕ;
  Row = ℕ;
  Recs = List ℕ;
  forward = λ ts kv. (nexts count_next kv ts, kv ++ ts);
  verify_forward = λ ts kv. (nexts count_next kv ts, ts);
  commit_verified = λ kv recs n. kv ++ take n recs;
  truncate = λ n kv. take (length kv - n) kv;
  argmax = λ row. row;
  near_tie = λ row. false;
  vocab = 3;
  top_k = λ row k. row ∷ [];
  supports_quantized_kv = false;
  window = none;
}

pub map_same : (xs : List ℕ) → map (λ x. x) xs ≡ xs
map_same [] = refl
map_same (x ∷ xs) = ap (◌∷◌ x) (map_same xs)

abbrev pub counting-Contract : Contract counting
counting-Contract = record {
  holds = λ kv. kv;
  next = count_next;
  forward_rows = λ ts kv. map_same (nexts count_next kv ts);
  forward_holds = λ ts kv. refl;
  verify_rows = λ ts kv. map_same (nexts count_next kv ts);
  commit_holds = λ ts kv n h. refl;
  truncate_length = λ n kv. omega (arith, length-take (length kv - n) kv);
  truncate_holds = λ n kv whole. refl;
}

-- A draft model that is right two times in three.
abbrev guess_next : List ℕ → ℕ
guess_next context = length context % 2

length-nexts :
    (next : List ℕ → ℕ) (context ts : List ℕ) → length (nexts next context ts) ≡ length ts
length-nexts next context [] = refl
length-nexts next context (t ∷ ts) = ap suc (length-nexts next (context ++ t ∷ []) ts)

abbrev guessing : DraftModel
guessing = record {
  Cache = List ℕ;
  Row = ℕ;
  make_prompt_cache = [];
  call = λ ts cache. (nexts guess_next cache ts, cache ++ ts);
  argmax = λ row. row;
  trim = λ n cache. take (length cache - n) cache;
}

abbrev guessing-CallContract : CallContract guessing
guessing-CallContract = record { call_length = λ ts cache. length-nexts guess_next cache ts }

abbrev guessing-Contract : DraftContract guessing
guessing-Contract = record {
  tokens = λ cache. cache;
  fresh_tokens = refl;
  call_tokens = λ ts cache. refl;
  call_rows = λ ts cache. length-nexts guess_next cache ts;
  trim_tokens = λ n cache. refl;
}

abbrev pub request : Request
request = record {
  prompt = 0 ∷ 1 ∷ 2 ∷ 0 ∷ 1 ∷ [];
  max_tokens = 7;
  eos_id = none;
  processed_tokens = 2;
  prefill_chunk = 2;
  kv_quant = false;
}

-- The same prompt on a store that holds nothing.
abbrev cold : Request
cold = record request { processed_tokens = 0 }

abbrev drafter : NGramDrafter
drafter = record {
  max_ngram = 3;
  num_draft_tokens = 4;
  adaptive = true;
  min_draft_tokens = 2;
  reprobe_every = 5;
  k_cur = 4;
  k_min_seen = 4;
  k_max_seen = 4;
  disabled_rounds = 0;
  probes = 0;
  disabled_calls = 0;
  probing = false;
}

pub request-IsServed : IsServed counting-Contract request (0 ∷ 1 ∷ [])
unfolding check_kv_quant_support
request-IsServed = record {
  supported = refl;
  suffix = omega arith;
  windows = omega arith;
  held = refl;
}

prefill-Prefilled_example :
    Prefilled counting-Contract request.prompt (prefill counting request.prompt [] 2)
prefill-Prefilled_example =
    prefill-Prefilled counting-Contract request.prompt [] 2 (omega arith) (omega arith)

generate-greedy_example :
    generate counting counting.argmax cold [] ≡ some (greedy count_next 7 request.prompt)
unfolding check_kv_quant_support
generate-greedy_example =
    generate-greedy counting-Contract cold [] refl (omega arith) (omega arith) refl

ngram-lossless_example :
    (r : Run) × (ngram_speculative_generate counting prompt_lookup drafter request (0 ∷ 1 ∷ [])
      ≡ some r)
    × (r.out ≡ until_eos none (greedy count_next (max 1 7) request.prompt))
    × IsTallied r
ngram-lossless_example =
    ngram-lossless counting-Contract prompt_lookup drafter request (0 ∷ 1 ∷ []) request-IsServed

speculative-lossless_example :
    (r : Run) × (speculative_generate counting guessing 3 1 request (0 ∷ 1 ∷ []) ≡ some r)
    × (r.out ≡ until_eos none (greedy count_next (max 1 7) request.prompt))
speculative-lossless_example =
    speculative-lossless counting-Contract guessing-CallContract 3 1 request (0 ∷ 1 ∷ [])
      (omega arith) (omega arith) request-IsServed

speculative-IsTallied_example :
    (r : Run) × (speculative_generate counting guessing 3 3 request (0 ∷ 1 ∷ []) ≡ some r)
    × IsTallied r
speculative-IsTallied_example =
    speculative-IsTallied counting-Contract guessing-CallContract 3 3 request (0 ∷ 1 ∷ [])
      (omega arith) request-IsServed

program : Unit {0}
unfolding list_eq Drafter.propose Drafter.observe Drafter.next_k Drafter.set_k Drafter.lookup_draft
    Drafter.scan_ngrams Drafter.scan_starts Drafter.or_else check_kv_quant_support prefill
    prefill_windows generate decode greedy until_eos emit emit_accepted emit_bonus drive
    ngram_speculative_generate ngram_round turn greedy_step verify_step accept_prefix near_tie_rows
    speculative_generate draft_round verify_drafts draft_loop settle_cache accept_loop is_plausible
program = tt

out_of : Option Run → List ℕ
out_of none = []
out_of (some r) = r.out

passes_of : Option Run → ℕ
passes_of none = 0
passes_of (some r) = r.stats.target_passes

-- Seven tokens in two passes: the prompt lookup drafts four tokens and all are accepted.
ngram_runs :
    (out_of (ngram_speculative_generate counting prompt_lookup drafter request (0 ∷ 1 ∷ []))
      ≡ 2 ∷ 0 ∷ 1 ∷ 2 ∷ 0 ∷ 1 ∷ 2 ∷ [])
    × (passes_of (ngram_speculative_generate counting prompt_lookup drafter request (0 ∷ 1 ∷ []))
        ≡ 2)
unfolding program out_of passes_of
ngram_runs = (refl, refl)

draft_runs :
    out_of (speculative_generate counting guessing 3 1 request (0 ∷ 1 ∷ []))
    ≡ 2 ∷ 0 ∷ 1 ∷ 2 ∷ 0 ∷ 1 ∷ 2 ∷ []
unfolding program out_of
draft_runs = refl
