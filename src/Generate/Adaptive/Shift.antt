-- ===== src/Generate/Adaptive/Shift.antt =====
-- The target's store after a round of `adaptive_speculative_generate`: the rollback uses the K that step
-- 5 has just changed.
use nunspark.Base.{
  ℕ, ◌+◌, ◌-◌, ◌≤◌, ◌≡◌, sym, ap, ◌∙◌, List, [], ◌∷◌, ◌++◌, Option, some, length, take, arith,
  length-take, length-append, leb, leb→le, leb-false→lt, Bool-cases, ◌⊎◌, inl, inr, ◌↔◌,
}
use nunspark.Generate.Engine.{Engine, Contract}
use nunspark.Generate.Emit.{
  Run, resume-go, go, emit, emit_accepted, emit_accepted-go, emit_bonus-go,
}
use nunspark.Generate.Draft.{DraftModel}
use nunspark.Generate.Draft.Cache.{DraftContract}
use nunspark.Generate.Adaptive.{Floats, AdaptiveSession, count_proposed, adaptive_round}
use nunspark.Generate.Adaptive.Round.{
  Swept, sweep, settle_rolled-some, accepted, paced, bonus, emitted, resumed, adaptive_round-resume,
}

aligned_iff_kept :
    (held held' before after k k' m : ℕ)
    → m ≤ k
    → held + 1 ≡ before
    → held' ≡ held + 1 + k - (k' - m)
    → after ≡ before + m + 1
    → (held' + 1 ≡ after) ↔ ((k' ≡ k) ⊎ ((m ≡ k) × (k' ≤ k)))
aligned_iff_kept held held' before after k k' m le b h a = (
  λ same. elim (Bool-cases (leb m k')) [
    | inl up ↦ inl (omega (arith, leb→le m k' up))
    | inr down ↦ inr (omega (arith, leb-false→lt m k' down), omega (arith, leb-false→lt m k' down))
  ],
  λ kept. elim kept [ inl same ↦ omega arith | inr (all, less) ↦ omega arith ],
)

module _ {e : Engine} (c : Contract e) {dm : DraftModel} (dc : DraftContract dm) (f : Floats)
    (prompt : List ℕ) (lo hi interval max_tokens : ℕ) (eos : Option ℕ) where
  open e use {Kv, forward, truncate}
  open c use {holds, forward_holds, truncate_length}

  length-emitted :
      (s : AdaptiveSession e dm f) (x : Swept c dc f prompt s) {r : Run}
      → emitted c dc f prompt lo hi interval max_tokens eos s x ≡ go r
      → length r.out
        ≡ length s.run.out + accepted c dc f prompt lo hi interval max_tokens eos s x + 1
  unfolding emit
  length-emitted s x h =
      let ts = take x.verified.count x.q in
      let run = count_proposed s.pace.k s.run in
      let (r0, took, last_one) =
        emit_bonus-go max_tokens eos _ (emit_accepted max_tokens eos ts run) h in
      let before = emit_accepted-go max_tokens eos ts run took in
      omega (
        arith,
        ap (λ (t : Run). length t.out) last_one,
        ap length before.0,
        length-append s.run.out ts,
        length-append r0.out (bonus c dc f prompt lo hi interval max_tokens eos s x ∷ []),
        length-take x.verified.count x.q,
        x.verified.within,
      )

  length-resumed :
      (s : AdaptiveSession e dm f) (x : Swept c dc f prompt s) (n : ℕ)
      → length (holds (truncate n (forward (s.b ∷ x.q) s.kv).1))
        ≡ length (holds s.kv) + 1 + s.pace.k - n
  length-resumed s x n =
      let whole = (forward (s.b ∷ x.q) s.kv).1 in
      omega (
        arith,
        truncate_length n whole,
        ap length (forward_holds (s.b ∷ x.q) s.kv),
        length-append (holds s.kv) (s.b ∷ x.q),
        x.len,
      )

  -- From a state whose store holds all but the last token, a round that accepted `m` of K drafts and
  -- goes on leaves such a store again, as far as its length tells, exactly if K was not changed, or was
  -- lowered after all K drafts were accepted.
  pub adaptive_round-shift :
      (s s' : AdaptiveSession e dm f)
      → 1 ≤ s.pace.k
      → holds s.kv ++ s.b ∷ [] ≡ prompt ++ s.run.out
      → adaptive_round e dm f lo hi interval max_tokens eos s ≡ some (go s')
      → (m : ℕ) × (m ≤ s.pace.k)
        × (length s'.run.out ≡ length s.run.out + m + 1)
        × ((length (holds s'.kv) + 1 ≡ length (prompt ++ s'.run.out))
            ↔ ((s'.pace.k ≡ s.pace.k) ⊎ ((m ≡ s.pace.k) × (s'.pace.k ≤ s.pace.k))))
  adaptive_round-shift s s' pos aligned ran =
      let x = sweep c dc f prompt s aligned in
      let m = x.verified.count in
      let k' = (paced c dc f prompt lo hi interval max_tokens eos s x).k in
      let (cache', settled) =
        settle_rolled-some dm k' m x.q x.cache (omega (arith, x.len))
          (omega (arith, x.verified.within)) in
      let (r, went, to) =
        resume-go (resumed c dc f prompt lo hi interval max_tokens eos s x cache') _ (
          sym (adaptive_round-resume c dc f prompt lo hi interval max_tokens eos s x cache' settled)
          ∙ ran) in
      let grown = length-emitted s x went in
      let le : m ≤ s.pace.k = omega (arith, x.verified.within, x.len) in
      rw to (
        m,
        le,
        grown,
        aligned_iff_kept (length (holds s.kv)) _ (length (prompt ++ s.run.out)) _ s.pace.k k' m le
            (omega (arith, ap length aligned, length-append (holds s.kv) (s.b ∷ [])))
            (length-resumed s x (k' - m))
            (omega (arith, length-append prompt s.run.out, length-append prompt r.out, grown)),
      )
