-- ===== src/Generate/Adaptive/Lossless.antt =====
-- `adaptive_speculative_generate` while K is not adjusted: it returns and what it yields.
use nunspark.Base.{
  ℕ, suc, ◌+◌, ◌-◌, ◌≤◌, max, ◌≡◌, refl, sym, ap, ◌∙◌, List, [], ◌∷◌, ◌++◌, Option, some, Bool,
  length, take, arith, append_assoc, length-take,
}
use nunspark.Generate.Engine.{Engine, Contract, IsUnrotated, check_kv_quant_support}
use nunspark.Generate.Greedy.{greedy, until_eos, prefill-Prefilled}
use nunspark.Generate.Emit.{Run, start, emit, emit_accepted, emit_bonus, Ends}
use nunspark.Generate.Stats.{Extends, run_of_flow, round-Extends}
use nunspark.Generate.Draft.{DraftModel}
use nunspark.Generate.Draft.Cache.{DraftContract, settle_cache-settles}
use nunspark.Generate.Eagle.{default_prefill_chunk}
use nunspark.Generate.Rollback.{
  Inv, Good, truncate-forward, round-IsUnrotated, round-Ends, path-Good,
}
use nunspark.Generate.Adaptive.{
  Floats, AdaptiveSession, settle_rolled, count_proposed, adaptive_round,
  adaptive_speculative_generate,
}
use nunspark.Generate.Adaptive.Bounds.{next_pace-k}
use nunspark.Generate.Adaptive.Round.{
  Swept, sweep, settle_rolled-settle_cache, paced, bonus, adaptive_round-resume,
}

-- What the tally says of the tokens of a run: the path counts no accepted drafts.
pub record IsCounted (r : Run) : Type 0 where
  pub yielded : length r.out ≡ r.emitted
  pub emitted : r.stats.tokens_emitted ≡ r.emitted
  pub paid : r.emitted ≤ 1 + r.stats.target_passes + r.stats.draft_tokens_proposed
  pub uncounted : r.stats.accepted_total ≡ 0

count_proposed-IsCounted :
    (r r' : Run) (k m : ℕ)
    → IsCounted r
    → m ≤ k
    → Extends (m + 1) (count_proposed k r) r'
    → IsCounted r'
count_proposed-IsCounted r r' k m t le x = omega arith

start-IsCounted : (t : ℕ) → IsCounted (emit t start)
unfolding emit
start-IsCounted t = ground arith

module _ {e : Engine} (c : Contract e) {dm : DraftModel} (dc : DraftContract dm) (f : Floats)
    (k interval : ℕ) (prompt : List ℕ) (max_tokens : ℕ) (eos : Option ℕ) where
  open e use {Kv, Row, forward, argmax}
  open c use {holds, next}
  open dc use {tokens, fresh_tokens, call_tokens}

  -- K is what it was at the start, and the draft cache holds what the store holds.
  abbrev Aligned : AdaptiveSession e dm f → Type 0
  Aligned s = (s.pace.k ≡ k) × (tokens s.draft_cache ≡ holds s.kv)

  abbrev Before : AdaptiveSession e dm f → Type 0
  Before =
      Inv c (λ (s : AdaptiveSession e dm f). s.kv) (λ s. s.b) (λ s. s.run) Aligned (Unit {0})
        IsCounted prompt max_tokens eos

  abbrev Done : Run → Type 0
  Done =
      Good c (λ (s : AdaptiveSession e dm f). s.kv) (λ s. s.b) (λ s. s.run) Aligned (Unit {0})
        IsCounted prompt max_tokens eos

  adaptive_round-Ends :
      (s : AdaptiveSession e dm f)
      → 1 ≤ k
      → Before s
      → IsUnrotated e.window (length (holds s.kv) + suc k)
      → Ends (λ t. t.run) Before Done s (adaptive_round e dm f k k interval max_tokens eos s)
  adaptive_round-Ends s pos i fits =
      rw (adaptive_round-resume c dc f prompt k k interval max_tokens eos s x cache' settled) (
        round-Ends c (λ (t : AdaptiveSession e dm f). t.kv) (λ t. t.b) (λ t. t.run) Aligned
          (Unit {0}) IsCounted prompt max_tokens eos s run ts best _ i (refl, refl)
          (λ _. x.verified.follows) refl tally
          (λ r. (kept ∙ whole, refl, refl, (same_k, fed ∙ sym kept))))
    where
      x : Swept c dc f prompt s
      x = sweep c dc f prompt s i.aligned

      m : ℕ
      m = x.verified.count

      ts : List ℕ
      ts = take m x.q

      best : ℕ
      best = bonus c dc f prompt k k interval max_tokens eos s x

      run : Run
      run = count_proposed s.pace.k s.run

      k' : ℕ
      k' = (paced c dc f prompt k k interval max_tokens eos s x).k

      same_k : k' ≡ k
      same_k = next_pace-k f k interval m s.pace i.side.0

      le : m ≤ k
      le = omega (arith, x.verified.within, x.len, i.side.0)

      settles :
          (cache' : dm.Cache) × (settle_rolled dm k' m x.q x.cache ≡ some cache')
          × (tokens cache' ≡ holds s.kv ++ s.b ∷ ts)
      settles = rw same_k (
          rw (settle_rolled-settle_cache dm k m x.q x.cache pos) (
            settle_cache-settles dc k m s.b (holds s.kv) x.q x.cache pos (x.len ∙ i.side.0) le
              (x.fed ∙ rw (i.side.0, i.side.1) refl)))

      cache' : dm.Cache
      cache' = settles.0

      settled : settle_rolled dm k' m x.q x.cache ≡ some cache'
      settled = settles.1

      fed : tokens cache' ≡ holds s.kv ++ s.b ∷ ts
      fed = settles.2

      kept : holds (e.truncate (k' - m) (forward (s.b ∷ x.q) s.kv).1) ≡ holds s.kv ++ s.b ∷ ts
      kept =
          rw same_k
            (truncate-forward c s.kv s.b x.q k m (x.len ∙ i.side.0) (omega (arith, le)) fits)

      whole : holds s.kv ++ s.b ∷ ts ≡ prompt ++ s.run.out ++ ts
      whole = sym (append_assoc (holds s.kv) (s.b ∷ []) ts) ∙ ap (λ xs. xs ++ ts) i.aligned

      tally :
          IsCounted
            (run_of_flow (emit_bonus max_tokens eos best (emit_accepted max_tokens eos ts run)))
      tally =
          count_proposed-IsCounted s.run _ s.pace.k (length ts) i.tallied
            (omega (arith, length-take m x.q, x.len)) (round-Extends max_tokens eos best ts run)

  -- With any draft model of a plain cache, where the bounds of K are both its initial value, at
  -- least 1, on a store that holds nothing and for a supported request with a prompt, on an engine
  -- without sliding windows or where the prompt, `max_tokens` and K together stay below the smallest
  -- window: the path returns, and what it yields is the greedy continuation of the prompt,
  -- `max_tokens` tokens and at least one, cut after the first end-of-sequence token; it counts those
  -- tokens, and no accepted draft.
  pub adaptive-lossless :
      (kv_quant : Bool) (kv : Kv)
      → 1 ≤ k
      → 1 ≤ length prompt
      → check_kv_quant_support e kv_quant ≡ some tt
      → holds kv ≡ []
      → IsUnrotated e.window (length prompt + max_tokens + k)
      → (r : Run) × (adaptive_speculative_generate e dm f k k interval max_tokens eos k prompt
            kv_quant kv
          ≡ some r)
        × (r.out ≡ until_eos eos (greedy next (max 1 max_tokens) prompt))
        × IsCounted r
  unfolding adaptive_speculative_generate
  adaptive-lossless kv_quant kv pos len ok empty fits =
      let (row, kv', filled, best, held) =
        prefill-Prefilled c prompt kv default_prefill_chunk len (omega arith) in
      let whole : holds kv ++ prompt ≡ prompt = ap (λ xs. xs ++ prompt) empty in
      let (r, found, good) =
        path-Good c (λ (t : AdaptiveSession e dm f). t.kv) (λ t. t.b) (λ t. t.run) Aligned
          (Unit {0}) IsCounted prompt max_tokens eos
          (adaptive_round e dm f k k interval max_tokens eos)
          (record {
            kv = kv';
            draft_cache = (dm.call prompt dm.make_prompt_cache).1;
            pace = record {
              k = k;
              passes_since_adjustment = 0;
              stats = record {
                acceptance_history = [];
                adjustment_count = 0;
                current_draft_tokens = k;
              };
            };
            b = argmax row;
            run = emit (argmax row) start;
          })
          (argmax row)
          (λ t i room. adaptive_round-Ends t pos i (
            round-IsUnrotated c t.kv t.b k prompt max_tokens t.run i.aligned i.tallied.yielded room
              fits))
          (best ∙ ap next whole) (held ∙ whole) refl refl (start-IsCounted (argmax row))
          (
            refl,
            call_tokens prompt dm.make_prompt_cache
                ∙ ap (λ xs. xs ++ prompt) fresh_tokens
                ∙ sym (held ∙ whole),
          ) in
      (r, rw (ok, filled) found, good.0 tt, good.1)
