-- ===== src/Generate/Adaptive.antt =====
-- `adaptive_speculative_generate` and `AdaptiveSpecStats` of src/nunspark/generate.py: the number K of
-- draft tokens follows the acceptance rates of the last rounds.
pub mod Bounds
pub mod Round
pub mod Shift
pub mod Lossless
use nunspark.Base.{
  ℕ, zero, suc, ◌+◌, ◌-◌, ◌≡◌, List, [], ◌∷◌, ◌++◌, Option, none, some, Bool, ◌&&◌, map, length,
  take, drop, get_elem?, is_some_of, if◌then◌else◌, ◌==◌, leb, ltb, min, max,
}
use nunspark.Generate.Engine.{Engine, last, ◌>>=◌, ◌>>◌, prefill, check_kv_quant_support}
use nunspark.Generate.Emit.{
  SpecStats, Run, Flow, halt, go, resume, start, emit, emit_accepted, emit_bonus, drive,
}
use nunspark.Generate.Ngram.{accept_prefix}
use nunspark.Generate.Draft.{DraftModel, draft_loop}
use nunspark.Generate.Eagle.{default_prefill_chunk}

-- The arithmetic of Python's floats that the rates use. `four_fifths` and `three_fifths` are the
-- literals 0.8 and 0.6, and `above x y` is `x > y`.
pub record Floats : Type 1 where
  pub Float : Type 0
  pub nought : Float
  pub ratio : ℕ → ℕ → Float
  pub plus : Float → Float → Float
  pub over : Float → ℕ → Float
  pub above : Float → Float → Bool
  pub four_fifths : Float
  pub three_fifths : Float

module _ (f : Floats) where
  open f use {Float}

  -- The fields that `AdaptiveSpecStats` adds to `SpecStats`.
  pub record AdaptiveSpecStats : Type 0 where
    pub acceptance_history : List Float
    pub adjustment_count : ℕ
    pub current_draft_tokens : ℕ

  unfoldable pub sum_of : Float → List Float → Float
  sum_of total [] = total
  sum_of total (x ∷ xs) = sum_of (f.plus total x) xs

  unfoldable pub recent_acceptance : List Float → Float
  recent_acceptance [] = f.nought
  recent_acceptance (x ∷ xs) =
      f.over (sum_of f.nought (drop (length (x ∷ xs) - 10) (x ∷ xs))) (min (length (x ∷ xs)) 10)

  -- The variables of the adjustment: `k` is K.
  pub record Pace : Type 0 where
    pub k : ℕ
    pub passes_since_adjustment : ℕ
    pub stats : AdaptiveSpecStats

  -- Step 4, after a pass that accepted `m` of K drafts.
  unfoldable pub track : ℕ → Pace → Pace
  track m p = record {
    k = p.k;
    passes_since_adjustment = p.passes_since_adjustment + 1;
    stats = record {
      acceptance_history =
          p.stats.acceptance_history ++ (if p.k == 0 then f.nought else f.ratio m p.k) ∷ [];
      adjustment_count = p.stats.adjustment_count;
      current_draft_tokens = p.stats.current_draft_tokens;
    };
  }

  module _ (min_draft_tokens max_draft_tokens adjustment_interval : ℕ) where
    unfoldable pub new_k : Float → ℕ → ℕ
    new_k recent k =
        if f.above recent f.four_fifths
        then min max_draft_tokens (k + 4)
        else if f.above recent f.three_fifths
        then k
        else max min_draft_tokens (k - 8)

    unfoldable pub settle_k : ℕ → Pace → Pace
    settle_k k p = record {
      k = k;
      passes_since_adjustment = 0;
      stats = if k == p.k then p.stats else record {
        acceptance_history = p.stats.acceptance_history;
        adjustment_count = p.stats.adjustment_count + 1;
        current_draft_tokens = k;
      };
    }

    -- Step 5.
    unfoldable pub adjust : Pace → Pace
    adjust p =
        if leb adjustment_interval p.passes_since_adjustment
          && leb 3 (length p.stats.acceptance_history)
        then settle_k (new_k (recent_acceptance p.stats.acceptance_history) p.k) p
        else p

-- Step 6 for the draft cache, with the K after step 5; `q[K - 1]` is the last draft where K is 0.
unfoldable pub settle_rolled : (dm : DraftModel) → ℕ → ℕ → List ℕ → dm.Cache → Option dm.Cache
settle_rolled dm k m q cache =
    if ltb m k
    then some (dm.trim (k - 1 - m) cache)
    else (if k == 0 then last q else get_elem? q (k - 1)) >>= λ t. some (dm.call (t ∷ []) cache).1

-- The tally of a pass that proposed `k` tokens. The path counts no accepted ones.
abbrev pub count_proposed : ℕ → Run → Run
count_proposed k r = record r {
  stats = record r.stats {
    draft_tokens_proposed = r.stats.draft_tokens_proposed + k;
    target_passes = r.stats.target_passes + 1;
  };
}

module _ (e : Engine) (dm : DraftModel) (f : Floats) where
  open e use {Kv, Row, forward, truncate, argmax}

  -- The variables of the loop.
  pub record AdaptiveSession : Type 0 where
    pub kv : Kv
    pub draft_cache : dm.Cache
    pub pace : Pace f
    pub b : ℕ
    pub run : Run

  module _ (min_draft_tokens max_draft_tokens adjustment_interval : ℕ) (max_tokens : ℕ)
      (eos : Option ℕ) where
    abbrev pub next_pace : ℕ → Pace f → Pace f
    next_pace m p = adjust f min_draft_tokens max_draft_tokens adjustment_interval (track f m p)

    unfoldable pub adaptive_round : AdaptiveSession → Option (Flow AdaptiveSession)
    adaptive_round s = do
      (q, cache) ← draft_loop dm s.pace.k s.b s.draft_cache []
      let swept = forward (s.b ∷ q) s.kv
      let targ = map argmax swept.0
      m ← accept_prefix q targ
      bonus ← get_elem? targ m
      let pace' = next_pace m s.pace
      cache' ← settle_rolled dm pace'.k m q cache
      some (
          resume
            (λ r. record {
              kv = truncate (pace'.k - m) swept.1;
              draft_cache = cache';
              pace = pace';
              b = bonus;
              run = r;
            })
            (emit_bonus max_tokens eos bonus
              (emit_accepted max_tokens eos (take m q) (count_proposed s.pace.k s.run))))

    -- The whole path; each round yields a token.
    unfoldable pub adaptive_speculative_generate : ℕ → List ℕ → Bool → Kv → Option Run
    adaptive_speculative_generate initial_draft_tokens prompt kv_quant kv = do
      check_kv_quant_support e kv_quant
      (row, kv') ← prefill e prompt kv default_prefill_chunk
      let cache = (dm.call prompt dm.make_prompt_cache).1
      let b = argmax row
      let r = emit b start
      if is_some_of b eos
          then some r
          else drive (λ s. s.run) adaptive_round max_tokens (max_tokens + 1)
              (record {
                kv = kv';
                draft_cache = cache;
                pace = record {
                  k = initial_draft_tokens;
                  passes_since_adjustment = 0;
                  stats = record {
                    acceptance_history = [];
                    adjustment_count = 0;
                    current_draft_tokens = initial_draft_tokens;
                  };
                };
                b = b;
                run = r;
              })
