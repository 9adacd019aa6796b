-- ===== src/Generate/Ngram.antt =====
-- `ngram_speculative_generate` of src/nunspark/generate.py, for any drafter with `propose` and
-- `observe`. The list `context` of the source is the prompt and all that was yielded.
pub mod Round
pub mod Lossless
use nunspark.Base.{
  ℕ, zero, suc, ◌+◌, ◌≡◌, List, [], ◌∷◌, ◌++◌, Option, none, some, Bool, true, false, map, length,
  take, drop, get_elem?, is_some_of, if◌then◌else◌, ◌==◌,
}
use nunspark.Drafter.{NGramDrafter}
use nunspark.Drafter
use nunspark.Generate.Engine.{Engine, Request, last, ◌>>=◌, ◌>>◌, prefill, check_kv_quant_support}
use nunspark.Generate.Emit.{
  SpecStats, Run, Flow, halt, go, resume, start, emit, emit_accepted, emit_bonus, drive,
}

-- What the path calls of its drafter; a method returns the new drafter.
pub record DraftSource : Type 1 where
  pub State : Type 0
  pub propose : State → List ℕ → State × List ℕ
  pub observe : State → ℕ → ℕ → State

-- The drafter of src/nunspark/ngram_drafter.py.
abbrev pub prompt_lookup : DraftSource
prompt_lookup = record {
  State = NGramDrafter;
  propose = Drafter.propose;
  observe = Drafter.observe;
}

-- The longest prefix of the draft that equals the target's argmax; `none` is an index out of range.
unfoldable pub accept_prefix : List ℕ → List ℕ → Option ℕ
accept_prefix [] targ = some 0
accept_prefix (x ∷ xs) [] = none
accept_prefix (x ∷ xs) (y ∷ ys) =
    let rest = accept_prefix xs ys >>= λ m. some (suc m) in if x == y then rest else some 0

-- The tally of a single greedy step.
abbrev pub count_step : Run → Run
count_step r = record r { stats = record r.stats { target_passes = r.stats.target_passes + 1 } }

-- The tally of a verify pass that proposed `k` tokens and accepted `m`.
abbrev pub count_verify : ℕ → ℕ → ℕ → Run → Run
count_verify k m ties r = record r {
  stats = record r.stats {
    draft_tokens_proposed = r.stats.draft_tokens_proposed + k;
    target_passes = r.stats.target_passes + 1;
    near_tie_rows = r.stats.near_tie_rows + ties;
    accepted_total = r.stats.accepted_total + m;
  };
}

module _ (e : Engine) where
  -- `_near_tie_rows`.
  unfoldable pub near_tie_rows : List e.Row → ℕ
  near_tie_rows [] = 0
  near_tie_rows (row ∷ rows) = (if e.near_tie row then 1 else 0) + near_tie_rows rows

module _ (e : Engine) (d : DraftSource) where
  -- The variables of the loop.
  pub record Session : Type 0 where
    pub drafter : d.State
    pub kv : e.Kv
    pub b : ℕ
    pub run : Run

  open e use {Kv, Row, forward, verify_forward, commit_verified, argmax}

  module _ (max_tokens : ℕ) (eos : Option ℕ) where
    -- `if not q`: no n-gram match.
    unfoldable pub greedy_step : Session → d.State → Option (Flow Session)
    greedy_step s drafter = do
      row ← last (forward (s.b ∷ []) s.kv).0
      let nxt = argmax row
      let r = emit nxt (count_step s.run)
      some (
          if is_some_of nxt eos
          then halt r
          else go
              (record { drafter = drafter; kv = (forward (s.b ∷ []) s.kv).1; b = nxt; run = r }))

    unfoldable pub verify_step : Session → d.State → List ℕ → Option (Flow Session)
    verify_step s drafter q = do
      let rows = (verify_forward (s.b ∷ q) s.kv).0
      let targ = map argmax rows
      m ← accept_prefix q targ
      bonus ← get_elem? targ m
      some (
          resume
            (λ r. record {
              drafter = d.observe drafter (length q) m;
              kv = commit_verified s.kv (verify_forward (s.b ∷ q) s.kv).1 (m + 1);
              b = bonus;
              run = r;
            })
            (emit_bonus max_tokens eos bonus (
              emit_accepted max_tokens eos (take m q)
                (count_verify (length q) m (near_tie_rows e rows) s.run))))

    unfoldable pub turn : Session → d.State × List ℕ → Option (Flow Session)
    turn s (drafter, []) = greedy_step s drafter
    turn s (drafter, t ∷ ts) = verify_step s drafter (t ∷ ts)

    unfoldable pub ngram_round : List ℕ → Session → Option (Flow Session)
    ngram_round prompt s = turn s (d.propose s.drafter (prompt ++ s.run.out))

  -- The whole path on a store `kv`. Each round yields a token, so `max_tokens` rounds are enough.
  unfoldable pub ngram_speculative_generate : d.State → Request → Kv → Option Run
  ngram_speculative_generate drafter q kv = do
    check_kv_quant_support e q.kv_quant
    (row, kv') ← prefill e (drop q.processed_tokens q.prompt) kv q.prefill_chunk
    let b = argmax row
    let r = emit b start
    if is_some_of b q.eos_id
        then some r
        else drive (λ s. s.run) (ngram_round q.max_tokens q.eos_id q.prompt) q.max_tokens
            (q.max_tokens + 1) (record { drafter = drafter; kv = kv'; b = b; run = r })
