-- ===== src/Generate/Rollback.antt =====
-- What the paths of src/nunspark/generate.py share that verify with `engine.forward` and then roll
-- the store back with `kv.truncate(K - m)`: `eagle_speculative_generate`,
-- `gemma4_mtp_speculative_generate` and `adaptive_speculative_generate`. A path has its own state;
-- here it is any type with a store, a last token and a run.
use nunspark.Base.{
  ℕ, suc, ◌+◌, ◌-◌, ◌≤◌, ◌<◌, max, ◌≡◌, refl, sym, ap, subst, ◌∙◌, List, [], ◌∷◌, ◌++◌, Option,
  some, length, take, is_some_of, if◌then◌else◌, arith, append_assoc, append-nil, Bool-cases, inl,
  inr, take-append, length-append,
}
use nunspark.Generate.Engine.{Engine, Contract, IsUnrotated, IsUnrotated-fewer}
use nunspark.Generate.Greedy.{greedy, until_eos}
use nunspark.Generate.Emit.{
  Run, Flow, halt, go, resume, start, emit, emit_accepted, emit_bonus, finish, Follows,
  rest_of-full, emit_accepted-finish, emit_bonus-finish, emit_accepted-go, emit_bonus-go, Ends,
  drive, drive-Good,
}
use nunspark.Generate.Stats.{run_of_flow}
use nunspark.Generate.Verify.{first-finish}

module _ {e : Engine} (c : Contract e) where
  open c use {holds, forward_holds, truncate_holds}

  -- After a pass over `b` and the drafts `q`, dropping all but the first `m` drafts, while no cache is
  -- rotated.
  pub truncate-forward :
      (kv : e.Kv) (b : ℕ) (q : List ℕ) (k m : ℕ)
      → length q ≡ k
      → m ≤ k
      → IsUnrotated e.window (length (holds kv) + suc k)
      → holds (e.truncate (k - m) (e.forward (b ∷ q) kv).1) ≡ holds kv ++ b ∷ take m q
  truncate-forward kv b q k m len le fits =
      let kept : length (holds kv ++ b ∷ q) - (k - m) ≡ length (holds kv) + suc m =
        omega (arith, length-append (holds kv) (b ∷ q)) in
      let grown : length (holds (e.forward (b ∷ q) kv).1) ≡ length (holds kv) + suc k =
        omega
          (arith, ap length (forward_holds (b ∷ q) kv), length-append (holds kv) (b ∷ q), len) in
      truncate_holds (k - m) (e.forward (b ∷ q) kv).1
        (subst (λ (n : ℕ). IsUnrotated e.window n) (sym grown) fits)
      ∙ rw (forward_holds, kept) (take-append (holds kv) (b ∷ q) (suc m))

  -- A round that is allowed one more token passes over no rotated cache, if the prompt, `max_tokens`
  -- and the drafts of a round fit the window together.
  pub round-IsUnrotated :
      (kv : e.Kv) (b k : ℕ) (prompt : List ℕ) (max_tokens : ℕ) (r : Run)
      → holds kv ++ b ∷ [] ≡ prompt ++ r.out
      → length r.out ≡ r.emitted
      → r.emitted < max_tokens
      → IsUnrotated e.window (length prompt + max_tokens + k)
      → IsUnrotated e.window (length (holds kv) + suc k)
  round-IsUnrotated kv b k prompt max_tokens r aligned yielded room =
      IsUnrotated-fewer e.window (length (holds kv) + suc k) (length prompt + max_tokens + k) (
        omega
          (arith, ap length aligned, length-append (holds kv) (b ∷ []), length-append prompt r.out))

  -- `Side` is what a path keeps besides the shared part, `Exact` the condition under which it
  -- yields greedy tokens, and `Tally` what its counters say.
  module _ {S : Type 0} (kv_of : S → e.Kv) (b_of : S → ℕ) (run_of : S → Run) (Side : S → Type 0)
      (Exact : Type 0) (Tally : Run → Type 0) (prompt : List ℕ) (max_tokens : ℕ)
      (eos : Option ℕ) where
    open c use {next}

    abbrev pub goal : List ℕ
    goal = until_eos eos (greedy next (max 1 max_tokens) prompt)

    -- Before each round the store holds all but the last token.
    pub record Inv (s : S) : Type 0 where
      pub aligned : holds (kv_of s) ++ b_of s ∷ [] ≡ prompt ++ (run_of s).out
      pub output : Exact → finish next prompt max_tokens eos (go (run_of s)) ≡ goal
      pub tallied : Tally (run_of s)
      pub side : Side s

    abbrev pub Good : Run → Type 0
    Good r = (Exact → r.out ≡ goal) × Tally r

    -- The next state that a round must build from the accepted tokens `ts` and the bonus.
    abbrev pub Continues : S → List ℕ → ℕ → (Run → S) → Type 0
    Continues s ts bonus mk =
        (r : Run)
        → (holds (kv_of (mk r)) ≡ prompt ++ (run_of s).out ++ ts)
          × (b_of (mk r) ≡ bonus)
          × (run_of (mk r) ≡ r)
          × Side (mk r)

    flow-Ends :
        (s : S) (run : Run) (ts : List ℕ) (bonus : ℕ) (mk : Run → S) (flow : Flow Run)
        → flow ≡ emit_bonus max_tokens eos bonus (emit_accepted max_tokens eos ts run)
        → (run.out ≡ (run_of s).out) × (run.emitted ≡ (run_of s).emitted)
        → (Exact → finish next prompt max_tokens eos flow ≡ goal)
        → Tally (run_of_flow flow)
        → Continues s ts bonus mk
        → Ends run_of Inv Good s (some (resume mk flow))
    unfolding run_of_flow emit
    flow-Ends s run ts bonus mk (halt r) e same out tally cont = inl (r, refl, (out, tally))
    flow-Ends s run ts bonus mk (go r) e same out tally cont = inr (
      mk r,
      refl,
      record {
        aligned = whole;
        output = λ x. rw is_run (out x);
        tallied = subst Tally (sym is_run) tally;
        side = (cont r).3;
      },
      more,
    )
      where
        is_run : run_of (mk r) ≡ r
        is_run = (cont r).2

        last_one : (r0 : Run) × (emit_accepted max_tokens eos ts run ≡ go r0) × (r ≡ emit bonus r0)
        last_one = emit_bonus-go max_tokens eos bonus (emit_accepted max_tokens eos ts run) (sym e)

        before : (last_one.0.out ≡ run.out ++ ts) × (last_one.0.emitted ≡ run.emitted + length ts)
        before = emit_accepted-go max_tokens eos ts run last_one.1

        whole : holds (kv_of (mk r)) ++ b_of (mk r) ∷ [] ≡ prompt ++ (run_of (mk r)).out
        whole =
            rw ((cont r).0, (cont r).1, is_run, last_one.2, before.0, same.0) (simp append_assoc)

        more : (run_of s).emitted < (run_of (mk r)).emitted
        more = omega (
          arith,
          ap (λ (t : Run). t.emitted) last_one.2,
          before.1,
          same.1,
          ap (λ (t : Run). t.emitted) is_run,
        )

    -- The end of a round that accepted `ts`.
    pub round-Ends :
        (s : S) (run : Run) (ts : List ℕ) (bonus : ℕ) (mk : Run → S)
        → Inv s
        → (run.out ≡ (run_of s).out) × (run.emitted ≡ (run_of s).emitted)
        → (Exact → Follows next (prompt ++ (run_of s).out) ts)
        → bonus ≡ next (prompt ++ (run_of s).out ++ ts)
        → Tally
            (run_of_flow (emit_bonus max_tokens eos bonus (emit_accepted max_tokens eos ts run)))
        → Continues s ts bonus mk
        → Ends run_of Inv Good s (
            some
              (resume mk (emit_bonus max_tokens eos bonus (emit_accepted max_tokens eos ts run))))
    round-Ends s run ts bonus mk i same follows best tally cont =
        flow-Ends s run ts bonus mk _ refl same out tally cont
      where
        bonus_after :
            (r : Run) → emit_accepted max_tokens eos ts run ≡ go r → bonus ≡ next (prompt ++ r.out)
        bonus_after r e =
            best
            ∙ ap next (
                ap (λ xs. prompt ++ xs ++ ts) (sym same.0)
                ∙ append_assoc prompt run.out ts
                ∙ ap (λ xs. prompt ++ xs) (sym (emit_accepted-go max_tokens eos ts run e).0))

        same_finish :
            finish next prompt max_tokens eos (go run)
            ≡ finish next prompt max_tokens eos (go (run_of s))
        same_finish = rw (same.0, same.1) refl

        out :
            Exact
            → finish next prompt max_tokens eos
                (emit_bonus max_tokens eos bonus (emit_accepted max_tokens eos ts run))
              ≡ goal
        out x =
            emit_bonus-finish next prompt max_tokens eos bonus (emit_accepted max_tokens eos ts run)
              bonus_after
            ∙ emit_accepted-finish next prompt max_tokens eos ts run
                (subst (λ xs. Follows next (prompt ++ xs) ts) (sym same.0) (follows x))
            ∙ same_finish
            ∙ i.output x

    full-Good : (s : S) → Inv s → max_tokens ≤ (run_of s).emitted → Good (run_of s)
    full-Good s i h = (
      λ x.
          sym (append-nil (run_of s).out)
          ∙ ap (λ xs. (run_of s).out ++ xs)
              (sym (rest_of-full next prompt max_tokens eos (run_of s) h))
          ∙ i.output x,
      i.tallied,
    )

    -- A path whose rounds end well returns a good run, from its first token on.
    pub path-Good :
        (round : S → Option (Flow S)) (s : S) (b : ℕ)
        → ((t : S) → Inv t → (run_of t).emitted < max_tokens → Ends run_of Inv Good t (round t))
        → b ≡ next prompt
        → holds (kv_of s) ≡ prompt
        → b_of s ≡ b
        → run_of s ≡ emit b start
        → Tally (emit b start)
        → Side s
        → (r : Run) × ((if is_some_of b eos
              then some (emit b start)
              else drive run_of round max_tokens (max_tokens + 1) s)
            ≡ some r)
          × Good r
    unfolding emit
    path-Good round s b step best held b_is run_is tally side =
        elim (Bool-cases (is_some_of b eos)) [
          | inl stop ↦ (
            emit b start,
            rw stop,
            (λ _. rw stop at (first-finish next prompt max_tokens eos b best), tally),
          )
          | inr more ↦
              let (r, found, good) =
                drive-Good run_of round max_tokens Inv Good step full-Good (max_tokens + 1) s
                  (omega arith)
                  (record {
                    aligned = rw (held, b_is, run_is);
                    output = λ _.
                        rw run_is (rw more at (first-finish next prompt max_tokens eos b best));
                    tallied = subst Tally (sym run_is) tally;
                    side = side;
                  }) in
              (r, rw more found, good)
        ]
