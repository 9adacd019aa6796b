-- ===== src/Generate/Adaptive/Round.antt =====
-- What one round of `adaptive_speculative_generate` computes.
use nunspark.Base.{
  ℕ, zero, suc, ◌-◌, ◌≤◌, ◌≡◌, refl, List, [], ◌∷◌, ◌++◌, Option, some, map, length, take, arith,
  ltb, ◌==◌, Bool-cases, inl, inr, ltb-false→le, false,
}
use nunspark.Generate.Engine.{Engine, Contract}
use nunspark.Generate.Emit.{Run, Flow, resume, emit_accepted, emit_bonus}
use nunspark.Generate.Verify.{Verified, accept_prefix-Verified}
use nunspark.Generate.Draft.{DraftModel, draft_loop, settle_cache}
use nunspark.Generate.Draft.Cache.{DraftContract, draft_loop-drafts}
use nunspark.Generate.Hidden.{last_of_some}
use nunspark.Generate.Gemma.Round.{get_elem?-some}
use nunspark.Generate.Adaptive.{
  Floats, Pace, AdaptiveSession, settle_rolled, count_proposed, adaptive_round, next_pace,
}

-- With a K that was not changed, the draft cache is settled as in `speculative_generate`.
pub settle_rolled-settle_cache :
    (dm : DraftModel) (k m : ℕ) (q : List ℕ) (cache : dm.Cache)
    → 1 ≤ k
    → settle_rolled dm k m q cache ≡ settle_cache dm k m q cache
unfolding settle_rolled settle_cache
settle_rolled-settle_cache dm zero m q cache pos = absurd (omega arith)
settle_rolled-settle_cache dm (suc k) m q cache pos =
    let positive : (suc k == 0) ≡ false = ground arith in rw positive refl

-- Whatever K becomes, the draft cache is settled in some way.
pub settle_rolled-some :
    (dm : DraftModel) (k m : ℕ) (q : List ℕ) (cache : dm.Cache)
    → 1 ≤ length q
    → m ≤ length q
    → (cache' : dm.Cache) × (settle_rolled dm k m q cache ≡ some cache')
unfolding settle_rolled
settle_rolled-some dm zero m q cache pos le =
    let (t, found) = last_of_some q pos in
    let never : ltb m 0 ≡ false = ground arith in
    ((dm.call (t ∷ []) cache).1, rw (never, found) refl)
settle_rolled-some dm (suc k) m q cache pos le =
    let positive : (suc k == 0) ≡ false = ground arith in
    elim (Bool-cases (ltb m (suc k))) [
      | inl less ↦ (dm.trim (suc k - 1 - m) cache, rw less refl)
      | inr all ↦
          let (t, found) =
            get_elem?-some q (suc k - 1) (omega (arith, ltb-false→le m (suc k) all)) in
          ((dm.call (t ∷ []) cache).1, rw (all, positive, found) refl)
    ]

module _ {e : Engine} (c : Contract e) {dm : DraftModel} (dc : DraftContract dm) (f : Floats)
    (prompt : List ℕ) where
  open e use {Kv, forward, truncate, argmax}
  open c use {holds, next, forward_rows}
  open dc use {tokens}

  -- The drafts of a round, and what the target makes of them.
  pub record Swept (s : AdaptiveSession e dm f) : Type 0 where
    pub q : List ℕ
    pub cache : dm.Cache
    pub drafted : draft_loop dm s.pace.k s.b s.draft_cache [] ≡ some (q, cache)
    pub len : length q ≡ s.pace.k
    pub fed : tokens cache ≡ tokens s.draft_cache ++ take s.pace.k (s.b ∷ q)
    pub verified : Verified next (prompt ++ s.run.out) q (map argmax (forward (s.b ∷ q) s.kv).0)

  pub sweep : (s : AdaptiveSession e dm f) → holds s.kv ++ s.b ∷ [] ≡ prompt ++ s.run.out → Swept s
  sweep s aligned =
      let (q, cache, drafted, len, fed) = draft_loop-drafts dc s.pace.k s.b s.draft_cache [] in
      record {
        q = q;
        cache = cache;
        drafted = drafted;
        len = len;
        fed = fed;
        verified =
            rw (forward_rows (s.b ∷ q) s.kv, aligned)
              (accept_prefix-Verified next (prompt ++ s.run.out) q);
      }

  module _ (lo hi interval max_tokens : ℕ) (eos : Option ℕ) (s : AdaptiveSession e dm f)
      (x : Swept s) where
    -- How many drafts are accepted, and the pace after that.
    abbrev pub accepted : ℕ
    accepted = x.verified.count

    abbrev pub paced : Pace f
    paced = next_pace e dm f lo hi interval max_tokens eos accepted s.pace

    abbrev pub bonus : ℕ
    bonus = next (prompt ++ s.run.out ++ take accepted x.q)

    abbrev pub emitted : Flow Run
    emitted =
        emit_bonus max_tokens eos bonus
          (emit_accepted max_tokens eos (take accepted x.q) (count_proposed s.pace.k s.run))

    abbrev pub resumed : dm.Cache → Run → AdaptiveSession e dm f
    resumed cache' r = record {
      kv = truncate (paced.k - accepted) (forward (s.b ∷ x.q) s.kv).1;
      draft_cache = cache';
      pace = paced;
      b = bonus;
      run = r;
    }

    pub adaptive_round-resume :
        (cache' : dm.Cache)
        → settle_rolled dm paced.k accepted x.q x.cache ≡ some cache'
        → adaptive_round e dm f lo hi interval max_tokens eos s
          ≡ some (resume (resumed cache') emitted)
    unfolding adaptive_round
    adaptive_round-resume cache' settled =
        rw (x.drafted, x.verified.accepts, x.verified.bonus, settled) refl
