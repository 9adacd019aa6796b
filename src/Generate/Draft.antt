-- ===== src/Generate/Draft.antt =====
-- `speculative_generate` of src/nunspark/generate.py: a resident draft model proposes K tokens a round.
pub mod Cache
pub mod Accept
pub mod Round
pub mod Lossless
pub mod Aligned
use nunspark.Base.{
  ℕ, zero, suc, ◌+◌, ◌-◌, ◌≡◌, List, [], ◌∷◌, ◌++◌, Option, none, some, Bool, true, false, map,
  length, take, drop, get_elem?, is_some_of, if◌then◌else◌, ◌==◌, leb, ltb, contains, not,
}
use nunspark.Generate.Engine.{Engine, Request, last, ◌>>=◌, ◌>>◌, prefill, check_kv_quant_support}
use nunspark.Generate.Emit.{
  SpecStats, Run, Flow, halt, go, resume, start, emit, emit_accepted, emit_bonus, drive,
}
use nunspark.Generate.Ngram.{near_tie_rows}

-- A draft model of mlx_lm with its prompt cache: it is called on tokens, and its cache is trimmed.
pub record DraftModel : Type 1 where
  pub Cache : Type 0
  pub Row : Type 0
  pub make_prompt_cache : Cache
  pub call : List ℕ → Cache → List Row × Cache
  pub argmax : Row → ℕ
  pub trim : ℕ → Cache → Cache

module _ (dm : DraftModel) where
  -- `for _ in range(K)`: the draft so far is `q`, and `di` is fed next.
  unfoldable pub draft_loop : ℕ → ℕ → dm.Cache → List ℕ → Option (List ℕ × dm.Cache)
  draft_loop zero di cache q = some (q, cache)
  draft_loop (suc n) di cache q = last (dm.call (di ∷ []) cache).0 >>= λ row.
      draft_loop n (dm.argmax row) (dm.call (di ∷ []) cache).1 (q ++ dm.argmax row ∷ [])

  -- The draft cache after a round that accepted `m` of the drafts `q`.
  unfoldable pub settle_cache : ℕ → ℕ → List ℕ → dm.Cache → Option dm.Cache
  settle_cache k m q cache =
      if ltb m k
      then some (dm.trim (k - 1 - m) cache)
      else get_elem? q (k - 1) >>= λ t. some (dm.call (t ∷ []) cache).1

-- The tally of a verify pass that proposed `k` tokens and accepted `m`, `off` of them off the path.
abbrev pub count_pass : ℕ → ℕ → ℕ → ℕ → Run → Run
count_pass k m off ties r = record r {
  stats = record r.stats {
    draft_tokens_proposed = r.stats.draft_tokens_proposed + k;
    target_passes = r.stats.target_passes + 1;
    near_tie_rows = r.stats.near_tie_rows + ties;
    accepted_offpath = r.stats.accepted_offpath + off;
    accepted_total = r.stats.accepted_total + m;
  };
}

module _ (e : Engine) where
  open e use {Kv, Row, verify_forward, commit_verified, argmax, vocab, top_k}

  -- The accept test of one draft token.
  unfoldable pub is_plausible : ℕ → ℕ → Row → Bool
  is_plausible accept_top_k x row =
      if leb accept_top_k 1
      then x == argmax row
      else if leb vocab accept_top_k
      then true
      else contains x (top_k row accept_top_k)

  -- How many draft tokens are accepted, and how many of those are not the argmax.
  unfoldable pub accept_loop : ℕ → List ℕ → List Row → Option (ℕ × ℕ)
  accept_loop accept_top_k [] rows = some (0, 0)
  accept_loop accept_top_k (x ∷ xs) [] = none
  accept_loop accept_top_k (x ∷ xs) (row ∷ rows) =
      let rest = accept_loop accept_top_k xs rows >>= λ c.
      some (suc c.0, (if x == argmax row then 0 else 1) + c.1) in
      if is_plausible accept_top_k x row then rest else some (0, 0)

  module _ (dm : DraftModel) where
    -- The variables of the loop.
    pub record DraftSession : Type 0 where
      pub kv : Kv
      pub draft_cache : dm.Cache
      pub b : ℕ
      pub run : Run

    module _ (k accept_top_k max_tokens : ℕ) (eos : Option ℕ) where
      -- Steps 2 to 5 of a round, from the drafts `q`.
      unfoldable pub verify_drafts : DraftSession → List ℕ → dm.Cache → Option (Flow DraftSession)
      verify_drafts s q cache = do
        let rows = (verify_forward (s.b ∷ q) s.kv).0
        (m, off) ← accept_loop accept_top_k q rows
        bonus ← get_elem? (map argmax rows) m
        cache' ← settle_cache dm k m q cache
        some (
            resume
              (λ r. record {
                kv = commit_verified s.kv (verify_forward (s.b ∷ q) s.kv).1 (m + 1);
                draft_cache = cache';
                b = bonus;
                run = r;
              })
              (emit_bonus max_tokens eos bonus (
                emit_accepted max_tokens eos (take m q)
                  (count_pass k m off (near_tie_rows e rows) s.run))))

      unfoldable pub draft_round : DraftSession → Option (Flow DraftSession)
      draft_round s = do (q, cache) ← draft_loop dm k s.b s.draft_cache []; verify_drafts s q cache

    -- The whole path, with K = `k`; each round yields a token.
    unfoldable pub speculative_generate : ℕ → ℕ → Request → Kv → Option Run
    speculative_generate k accept_top_k q kv = do
      check_kv_quant_support e q.kv_quant
      (row, kv') ← prefill e (drop q.processed_tokens q.prompt) kv q.prefill_chunk
      let cache = (dm.call q.prompt dm.make_prompt_cache).1
      let b = argmax row
      let r = emit b start
      if is_some_of b q.eos_id
          then some r
          else drive (λ s. s.run) (draft_round k accept_top_k q.max_tokens q.eos_id) q.max_tokens
              (q.max_tokens + 1) (record { kv = kv'; draft_cache = cache; b = b; run = r })
