-- ===== src/Generate/Draft/Aligned.antt =====
-- The draft cache of `speculative_generate` beside the target's store.
use nunspark.Base.{
  ℕ, suc, ◌+◌, ◌≤◌, ◌≡◌, sym, ap, ◌∙◌, List, [], ◌∷◌, ◌++◌, Option, some, length, take, arith,
  length-take,
}
use nunspark.Generate.Engine.{Engine, Contract}
use nunspark.Generate.Emit.{
  Run, go, resume-go, emit, emit_accepted, emit_bonus, emit_accepted-go, emit_bonus-go,
}
use nunspark.Generate.Draft.{DraftModel, DraftSession, verify_drafts, draft_round}
use nunspark.Generate.Draft.Cache.{DraftContract, draft_loop-drafts, settle_cache-settles}
use nunspark.Generate.Draft.Accept.{accept_loop-Accepted}

-- A run that goes on after the accepted tokens and the bonus has yielded them all.
out-emitted :
    (max_tokens : ℕ) (eos : Option ℕ) (bonus : ℕ) (ts : List ℕ) (run : Run) {r : Run}
    → emit_bonus max_tokens eos bonus (emit_accepted max_tokens eos ts run) ≡ go r
    → r.out ≡ run.out ++ ts ++ bonus ∷ []
unfolding emit
out-emitted max_tokens eos bonus ts run h =
    let (r0, took, last_one) =
      emit_bonus-go max_tokens eos bonus (emit_accepted max_tokens eos ts run) h in
    ap (λ (x : Run). x.out) last_one
    ∙ ap (λ xs. xs ++ bonus ∷ []) (emit_accepted-go max_tokens eos ts run took).0

module _ {e : Engine} (c : Contract e) {dm : DraftModel} (dc : DraftContract dm) where
  open e use {verify_forward, commit_verified}
  open c use {holds, next, verify_rows, commit_holds}
  open dc use {tokens}

  -- On a draft model with a plain cache and with at least one draft a round, any `accept_top_k`: a
  -- round that starts with the same tokens in the draft cache and in the target's store, and goes on,
  -- yields at most K drafts and a new last token, and leaves in both the old last token and those
  -- drafts besides what they held.
  pub draft_round-aligned :
      (k accept_top_k max_tokens : ℕ) (eos : Option ℕ) (s s' : DraftSession e dm)
      → 1 ≤ k
      → tokens s.draft_cache ≡ holds s.kv
      → draft_round e dm k accept_top_k max_tokens eos s ≡ some (go s')
      → (ts : List ℕ) × (length ts ≤ k)
        × (s'.run.out ≡ s.run.out ++ ts ++ s'.b ∷ [])
        × (holds s'.kv ≡ holds s.kv ++ s.b ∷ ts)
        × (tokens s'.draft_cache ≡ holds s'.kv)
  unfolding draft_round verify_drafts
  draft_round-aligned k accept_top_k max_tokens eos s s' pos same ran =
      let (q, cache, drafted, len, fed) = draft_loop-drafts dc k s.b s.draft_cache [] in
      let v =
        accept_loop-Accepted e next accept_top_k (holds s.kv ++ s.b ∷ []) q _
          (verify_rows (s.b ∷ q) s.kv) in
      let le : v.count ≤ k = omega (arith, v.within, len) in
      let (cache', settled, kept) =
        settle_cache-settles dc k v.count s.b (holds s.kv) q cache pos len le
          (fed ∙ ap (λ xs. xs ++ take k (s.b ∷ q)) same) in
      let (r, went, to) = resume-go _ _ (rw (drafted, v.accepts, v.bonus, settled) at ran) in
      let one_more : v.count + 1 ≡ suc v.count = omega arith in
      let held : holds (commit_verified s.kv (verify_forward (s.b ∷ q) s.kv).1 (v.count + 1))
          ≡ holds s.kv ++ s.b ∷ take v.count q =
        commit_holds (s.b ∷ q) s.kv (v.count + 1) (omega (arith, v.within))
        ∙ ap (λ (n : ℕ). holds s.kv ++ take n (s.b ∷ q)) one_more in
      rw to (
        take v.count q,
        omega (arith, length-take v.count q, le),
        out-emitted max_tokens eos _ (take v.count q) _ went,
        held,
        kept ∙ sym held,
      )
