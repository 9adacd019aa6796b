-- ===== src/Generate/Draft/Round.antt =====
-- One round of `speculative_generate` and the invariant of its loop.
use nunspark.Base.{
  ℕ, suc, ◌+◌, ◌≤◌, ◌<◌, max, ◌≡◌, refl, sym, ap, subst, ◌∙◌, List, [], ◌∷◌, ◌++◌, Option, some,
  length, take, arith, append_assoc, inl, inr, length-take,
}
use nunspark.Generate.Engine.{Engine, Contract, nexts}
use nunspark.Generate.Greedy.{greedy, until_eos}
use nunspark.Generate.Emit.{
  Run, Flow, halt, go, resume, emit, emit_accepted, emit_bonus, finish, emit_accepted-finish,
  emit_bonus-finish, emit_accepted-go, emit_bonus-go, Ends,
}
use nunspark.Generate.Stats.{IsTallied, Extends, run_of_flow, round-Extends, pass-IsTallied}
use nunspark.Generate.Ngram.{near_tie_rows}
use nunspark.Generate.Draft.{DraftModel, DraftSession, count_pass, verify_drafts, draft_round}
use nunspark.Generate.Draft.Cache.{CallContract, draft_loop-length, settle_cache-some}
use nunspark.Generate.Draft.Accept.{Accepted, accept_loop-Accepted}

module _ {e : Engine} (c : Contract e) {dm : DraftModel} (dc : CallContract dm) (prompt : List ℕ)
    (k accept_top_k max_tokens : ℕ) (eos : Option ℕ) where
  open e use {Kv, Row, forward, verify_forward, commit_verified, argmax}
  open c use {holds, next, verify_rows, commit_holds}

  abbrev pub goal : List ℕ
  goal = until_eos eos (greedy next (max 1 max_tokens) prompt)

  -- Before each round the store holds all tokens but the last, `b`.
  pub record Inv (s : DraftSession e dm) : Type 0 where
    pub aligned : holds s.kv ++ s.b ∷ [] ≡ prompt ++ s.run.out
    pub output : accept_top_k ≤ 1 → finish next prompt max_tokens eos (go s.run) ≡ goal
    pub tallied : IsTallied s.run

  abbrev pub Good : Run → Type 0
  Good r = (accept_top_k ≤ 1 → r.out ≡ goal) × IsTallied r

  emission-Ends :
      (s : DraftSession e dm) (run : Run) (ts : List ℕ) (bonus : ℕ) (kv : Kv) (cache : dm.Cache)
      (flow : Flow Run)
      → flow ≡ emit_bonus max_tokens eos bonus (emit_accepted max_tokens eos ts run)
      → (run.out ≡ s.run.out) × (run.emitted ≡ s.run.emitted)
      → (accept_top_k ≤ 1 → finish next prompt max_tokens eos flow ≡ goal)
      → IsTallied (run_of_flow flow)
      → holds kv ≡ prompt ++ s.run.out ++ ts
      → Ends
          (λ t. t.run)
          Inv
          Good
          s
          (some (resume (λ r. record { kv = kv; draft_cache = cache; b = bonus; run = r }) flow))
  unfolding run_of_flow emit
  emission-Ends s run ts bonus kv cache (halt r) e same out tally held = inl (r, refl, (out, tally))
  emission-Ends s run ts bonus kv cache (go r) e same out tally held = inr (
    record { kv = kv; draft_cache = cache; b = bonus; run = r },
    refl,
    record { aligned = whole; output = out; tallied = tally },
    more,
  )
    where
      last_one : (r0 : Run) × (emit_accepted max_tokens eos ts run ≡ go r0) × (r ≡ emit bonus r0)
      last_one = emit_bonus-go max_tokens eos bonus (emit_accepted max_tokens eos ts run) (sym e)

      before : (last_one.0.out ≡ run.out ++ ts) × (last_one.0.emitted ≡ run.emitted + length ts)
      before = emit_accepted-go max_tokens eos ts run last_one.1

      whole : holds kv ++ bonus ∷ [] ≡ prompt ++ r.out
      whole = rw (held, last_one.2, before.0, same.0) (simp append_assoc)

      more : s.run.emitted < r.emitted
      more = omega (arith, ap (λ (t : Run). t.emitted) last_one.2, before.1, same.1)

  committed :
      (s : DraftSession e dm) (q : List ℕ) (m : ℕ)
      → m ≤ length q
      → holds (commit_verified s.kv (verify_forward (s.b ∷ q) s.kv).1 (m + 1))
        ≡ holds s.kv ++ s.b ∷ take m q
  committed s q m h =
      let one_more : m + 1 ≡ suc m = omega arith in
      commit_holds (s.b ∷ q) s.kv (m + 1) (omega arith)
      ∙ ap (λ (n : ℕ). holds s.kv ++ take n (s.b ∷ q)) one_more

  fed_prompt :
      (s : DraftSession e dm) (ts : List ℕ)
      → Inv s
      → holds s.kv ++ s.b ∷ ts ≡ prompt ++ s.run.out ++ ts
  fed_prompt s ts i = sym (append_assoc (holds s.kv) (s.b ∷ []) ts) ∙ ap (λ xs. xs ++ ts) i.aligned

  -- Steps 2 to 5, for K drafts.
  verify_drafts-Ends :
      (s : DraftSession e dm) (q : List ℕ) (cache : dm.Cache)
      → Inv s
      → 1 ≤ k
      → length q ≡ k
      → Accepted e next accept_top_k (prompt ++ s.run.out) q (verify_forward (s.b ∷ q) s.kv).0
      → Ends (λ t. t.run) Inv Good s (verify_drafts e dm k accept_top_k max_tokens eos s q cache)
  unfolding verify_drafts
  verify_drafts-Ends s q cache i pos len v =
      let (cache', settled) = settle_cache-some dm k v.count q cache pos len in
      rw (v.accepts, v.bonus, settled)
        (emission-Ends s run ts bonus _ cache' _ refl (refl, refl) out tally
          (committed s q v.count v.within ∙ fed_prompt s ts i))
    where
      ts : List ℕ
      ts = take v.count q

      bonus : ℕ
      bonus = next (prompt ++ s.run.out ++ ts)

      run : Run
      run = count_pass k v.count v.off (near_tie_rows e (verify_forward (s.b ∷ q) s.kv).0) s.run

      flow : Flow Run
      flow = emit_bonus max_tokens eos bonus (emit_accepted max_tokens eos ts run)

      bonus_after :
          (r : Run) → emit_accepted max_tokens eos ts run ≡ go r → bonus ≡ next (prompt ++ r.out)
      bonus_after r e = ap next (
          append_assoc prompt s.run.out ts
          ∙ ap (λ xs. prompt ++ xs) (sym (emit_accepted-go max_tokens eos ts run e).0))

      out : accept_top_k ≤ 1 → finish next prompt max_tokens eos flow ≡ goal
      out h =
          emit_bonus-finish next prompt max_tokens eos bonus (emit_accepted max_tokens eos ts run)
            bonus_after
          ∙ emit_accepted-finish next prompt max_tokens eos ts run (v.follows h)
          ∙ i.output h

      count_ts : length ts ≡ v.count
      count_ts = omega (arith, length-take v.count q, v.within)

      tally : IsTallied (run_of_flow flow)
      tally =
          pass-IsTallied s.run run (run_of_flow flow) k v.count v.off i.tallied (refl, refl, refl)
            refl refl refl refl (omega (arith, v.within)) v.off_le
            (subst (λ n. Extends (n + 1) run (run_of_flow flow)) count_ts
              (round-Extends max_tokens eos bonus ts run))

  pub draft_round-Ends :
      (s : DraftSession e dm)
      → 1 ≤ k
      → Inv s
      → Ends (λ t. t.run) Inv Good s (draft_round e dm k accept_top_k max_tokens eos s)
  unfolding draft_round
  draft_round-Ends s pos i =
      let (q, cache, drafted, len) = draft_loop-length dc k s.b s.draft_cache [] in
      rw drafted (
        verify_drafts-Ends s q cache i pos len (
          accept_loop-Accepted e next accept_top_k (prompt ++ s.run.out) q _
            (verify_rows (s.b ∷ q) s.kv ∙ ap (λ xs. next xs ∷ nexts next xs q) i.aligned)))
