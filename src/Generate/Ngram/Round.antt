-- ===== src/Generate/Ngram/Round.antt =====
-- One round of `ngram_speculative_generate`, and the invariant of its loop.
use nunspark.Base.{
  ℕ, suc, ◌+◌, ◌≤◌, ◌<◌, max, ◌≡◌, refl, sym, ap, subst, ◌∙◌, List, [], ◌∷◌, ◌++◌, Option, some,
  map, length, take, is_some_of, if◌then◌else◌, arith, append_assoc, Bool-cases, inl, inr,
  length-take,
}
use nunspark.Generate.Engine.{Engine, Contract, last}
use nunspark.Generate.Greedy.{greedy, until_eos, forward-last}
use nunspark.Generate.Emit.{
  Run, Flow, halt, go, resume, emit, emit_accepted, emit_bonus, finish, finish-emit,
  emit_accepted-finish, emit_bonus-finish, emit_accepted-go, emit_bonus-go, Ends,
}
use nunspark.Generate.Verify.{Verified, accept_prefix-Verified, emit-lt}
use nunspark.Generate.Stats.{
  IsTallied, Extends, run_of_flow, round-Extends, emit-Extends, pass-IsTallied,
}
use nunspark.Generate.Ngram.{
  DraftSource, Session, count_step, count_verify, near_tie_rows, greedy_step, verify_step, turn,
  ngram_round,
}

module _ {e : Engine} (c : Contract e) (d : DraftSource) (prompt : List ℕ) (max_tokens : ℕ)
    (eos : Option ℕ) where
  open e use {Kv, Row, forward, verify_forward, commit_verified, argmax}
  open c use {holds, next, forward_rows, forward_holds, verify_rows, commit_holds}

  abbrev pub goal : List ℕ
  goal = until_eos eos (greedy next (max 1 max_tokens) prompt)

  -- Before each round the store holds all but the last token, which is `b`.
  pub record Inv (s : Session e d) : Type 0 where
    pub aligned : holds s.kv ++ s.b ∷ [] ≡ prompt ++ s.run.out
    pub output : finish next prompt max_tokens eos (go s.run) ≡ goal
    pub tallied : IsTallied s.run

  abbrev pub Good : Run → Type 0
  Good r = (r.out ≡ goal) × IsTallied r

  greedy_step-Ends :
      (s : Session e d) (drafter : d.State)
      → Inv s
      → s.run.emitted < max_tokens
      → Ends (λ t. t.run) Inv Good s (greedy_step e d max_tokens eos s drafter)
  unfolding greedy_step emit
  greedy_step-Ends s drafter i h = elim (Bool-cases (is_some_of nxt eos)) [
    | inl stop ↦ inl (emit nxt counted, rw (found, stop) refl, (rw stop at whole ∙ i.output, tally))
    | inr more ↦ inr (
      record {
        drafter = drafter;
        kv = (forward (s.b ∷ []) s.kv).1;
        b = nxt;
        run = emit nxt counted;
      },
      rw (found, more) refl,
      record { aligned = fed; output = rw more at whole ∙ i.output; tallied = tally },
      emit-lt nxt counted,
    )
  ]
    where
      row : Row
      row = (forward-last c s.b [] s.kv).0

      found : last (forward (s.b ∷ []) s.kv).0 ≡ some row
      found = (forward-last c s.b [] s.kv).1

      nxt : ℕ
      nxt = argmax row

      best : nxt ≡ next (prompt ++ s.run.out)
      best = (forward-last c s.b [] s.kv).2 ∙ ap next i.aligned

      counted : Run
      counted = count_step s.run

      whole :
          finish next prompt max_tokens eos
            (if is_some_of nxt eos then halt (emit nxt counted) else go (emit nxt counted))
          ≡ finish next prompt max_tokens eos (go s.run)
      whole = finish-emit next prompt max_tokens eos counted nxt h best

      tally : IsTallied (emit nxt counted)
      tally =
          pass-IsTallied s.run counted (emit nxt counted) 0 0 0 i.tallied (refl, refl, refl) refl
            (omega arith) (omega arith) (omega arith) (omega arith) (omega arith)
            (emit-Extends nxt counted)

      fed : holds (forward (s.b ∷ []) s.kv).1 ++ nxt ∷ [] ≡ prompt ++ (emit nxt counted).out
      fed = rw (forward_holds, i.aligned) (append_assoc prompt s.run.out (nxt ∷ []))

  -- The last steps of a verify round, once it is known what was accepted.
  emission-Ends :
      (s : Session e d) (run : Run) (ts : List ℕ) (bonus : ℕ) (drafter : d.State) (kv : Kv)
      (flow : Flow Run)
      → flow ≡ emit_bonus max_tokens eos bonus (emit_accepted max_tokens eos ts run)
      → (run.out ≡ s.run.out) × (run.emitted ≡ s.run.emitted)
      → finish next prompt max_tokens eos flow ≡ goal
      → IsTallied (run_of_flow flow)
      → holds kv ≡ prompt ++ s.run.out ++ ts
      → Ends
          (λ t. t.run)
          Inv
          Good
          s
          (some (resume (λ r. record { drafter = drafter; kv = kv; b = bonus; run = r }) flow))
  unfolding run_of_flow emit
  emission-Ends s run ts bonus drafter kv (halt r) e same out tally held =
      inl (r, refl, (out, tally))
  emission-Ends s run ts bonus drafter kv (go r) e same out tally held = inr (
    record { drafter = drafter; kv = kv; b = bonus; run = r },
    refl,
    record { aligned = fed; output = out; tallied = tally },
    more,
  )
    where
      last_one : (r0 : Run) × (emit_accepted max_tokens eos ts run ≡ go r0) × (r ≡ emit bonus r0)
      last_one = emit_bonus-go max_tokens eos bonus (emit_accepted max_tokens eos ts run) (sym e)

      before : (last_one.0.out ≡ run.out ++ ts) × (last_one.0.emitted ≡ run.emitted + length ts)
      before = emit_accepted-go max_tokens eos ts run last_one.1

      fed : holds kv ++ bonus ∷ [] ≡ prompt ++ r.out
      fed = rw (held, last_one.2, before.0, same.0) (simp append_assoc)

      more : s.run.emitted < r.emitted
      more = omega (arith, ap (λ (t : Run). t.emitted) last_one.2, before.1, same.1)

  verified :
      (s : Session e d) (q : List ℕ)
      → Inv s
      → Verified next (prompt ++ s.run.out) q (map argmax (verify_forward (s.b ∷ q) s.kv).0)
  verified s q i =
      rw (verify_rows (s.b ∷ q) s.kv, i.aligned)
        (accept_prefix-Verified next (prompt ++ s.run.out) q)

  -- The store after the commit of what was accepted.
  committed :
      (s : Session e d) (q : List ℕ) (m : ℕ)
      → Inv s
      → m ≤ length q
      → holds (commit_verified s.kv (verify_forward (s.b ∷ q) s.kv).1 (m + 1))
        ≡ prompt ++ s.run.out ++ take m q
  committed s q m i h =
      let one_more : m + 1 ≡ suc m = omega arith in
      commit_holds (s.b ∷ q) s.kv (m + 1) (omega arith)
      ∙ ap (λ (k : ℕ). holds s.kv ++ take k (s.b ∷ q)) one_more
      ∙ sym (append_assoc (holds s.kv) (s.b ∷ []) (take m q))
      ∙ ap (λ xs. xs ++ take m q) i.aligned

  Verified-Ends :
      (s : Session e d) (drafter : d.State) (q : List ℕ)
      → Inv s
      → Verified next (prompt ++ s.run.out) q (map argmax (verify_forward (s.b ∷ q) s.kv).0)
      → Ends (λ t. t.run) Inv Good s (verify_step e d max_tokens eos s drafter q)
  unfolding verify_step
  Verified-Ends s drafter q i v =
      rw (v.accepts, v.bonus)
        (emission-Ends s run ts bonus _ _ _ refl (refl, refl) out tally
          (committed s q v.count i v.within))
    where
      ts : List ℕ
      ts = take v.count q

      bonus : ℕ
      bonus = next (prompt ++ s.run.out ++ ts)

      run : Run
      run =
          count_verify (length q) v.count (near_tie_rows e (verify_forward (s.b ∷ q) s.kv).0) s.run

      flow : Flow Run
      flow = emit_bonus max_tokens eos bonus (emit_accepted max_tokens eos ts run)

      bonus_after :
          (r : Run) → emit_accepted max_tokens eos ts run ≡ go r → bonus ≡ next (prompt ++ r.out)
      bonus_after r e = ap next (
          append_assoc prompt s.run.out ts
          ∙ ap (λ xs. prompt ++ xs) (sym (emit_accepted-go max_tokens eos ts run e).0))

      out : finish next prompt max_tokens eos flow ≡ goal
      out =
          emit_bonus-finish next prompt max_tokens eos bonus (emit_accepted max_tokens eos ts run)
            bonus_after
          ∙ emit_accepted-finish next prompt max_tokens eos ts run v.follows
          ∙ i.output

      count_ts : length ts ≡ v.count
      count_ts = omega (arith, length-take v.count q, v.within)

      tally : IsTallied (run_of_flow flow)
      tally =
          pass-IsTallied s.run run (run_of_flow flow) (length q) v.count 0 i.tallied
            (refl, refl, refl) refl refl refl (omega arith) v.within (omega arith)
            (subst (λ n. Extends (n + 1) run (run_of_flow flow)) count_ts
              (round-Extends max_tokens eos bonus ts run))

  pub ngram_round-Ends :
      (s : Session e d)
      → Inv s
      → s.run.emitted < max_tokens
      → Ends (λ t. t.run) Inv Good s (ngram_round e d max_tokens eos prompt s)
  unfolding ngram_round turn
  ngram_round-Ends s i h = turn-Ends (d.propose s.drafter (prompt ++ s.run.out))
    where
      turn-Ends :
          (p : d.State × List ℕ) → Ends (λ t. t.run) Inv Good s (turn e d max_tokens eos s p)
      turn-Ends (drafter, []) = greedy_step-Ends s drafter i h
      turn-Ends (drafter, t ∷ ts) = Verified-Ends s drafter (t ∷ ts) i (verified s (t ∷ ts) i)
