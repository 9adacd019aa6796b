-- ===== src/Generate/Gemma/Tally.antt =====
-- What the tally of `gemma4_mtp_speculative_generate` says, on any engine that gives a row of logits and
-- a hidden state for each token of a pass: also where a sliding window has rotated.
use nunspark.Base.{
  ℕ, suc, ◌+◌, ◌≤◌, ◌≡◌, refl, sym, ap, subst, List, [], ◌∷◌, Option, some, Bool, map, length, take,
  get_elem?, is_some_of, arith, length-take, Bool-cases, inl, inr, ◌==◌, if◌then◌else◌,
}
use nunspark.Generate.Engine.{Engine, RowContract, last, check_kv_quant_support}
use nunspark.Generate.Emit.{
  Run, Flow, halt, go, resume, start, emit, emit_accepted, emit_bonus, emit_accepted-go,
  emit_bonus-go, Ends, drive-Good,
}
use nunspark.Generate.Stats.{
  IsTallied, Extends, run_of_flow, round-Extends, pass-IsTallied, start-IsTallied,
}
use nunspark.Generate.Draft.{is_plausible, accept_loop}
use nunspark.Generate.Hidden.{Hiddens, HiddenContract, last_of_some}
use nunspark.Generate.Gemma.{
  Attended, AssistantModel, MtpSession, draft_speculative, count_sweep, mtp_round,
  gemma4_mtp_speculative_generate,
}
use nunspark.Generate.Gemma.Round.{draft_speculative-length, get_elem?-some}

-- What the accept test answers on one row more than there are drafts.
record Counted (e : Engine) (accept_top_k : ℕ) (q : List ℕ) (rows : List e.Row) : Type 0 where
  count : ℕ
  off : ℕ
  accepts : accept_loop e accept_top_k q rows ≡ some (count, off)
  within : count ≤ length q
  off_le : off ≤ count

accept_loop-Counted :
    (e : Engine) (accept_top_k : ℕ) (q : List ℕ) (rows : List e.Row)
    → length rows ≡ suc (length q)
    → Counted e accept_top_k q rows
unfolding accept_loop
accept_loop-Counted e accept_top_k [] rows len = record {
  count = 0;
  off = 0;
  accepts = refl;
  within = omega arith;
  off_le = omega arith;
}
accept_loop-Counted e accept_top_k (x ∷ q) [] len = absurd (omega arith)
accept_loop-Counted e accept_top_k (x ∷ q) (row ∷ rows) len =
    let rest = accept_loop-Counted e accept_top_k q rows (omega arith) in
    elim (Bool-cases (is_plausible e accept_top_k x row)) [
      | inl ok ↦ record {
        count = suc rest.count;
        off = (if x == e.argmax row then 0 else 1) + rest.off;
        accepts = rw (ok, rest.accepts);
        within = omega (arith, rest.within);
        off_le = ground (arith, rest.off_le);
      }
      | inr stop ↦ record {
        count = 0;
        off = 0;
        accepts = rw stop;
        within = omega arith;
        off_le = omega arith;
      }
    ]

length-map_rows : {A : Type 0} (f : A → ℕ) (xs : List A) → length (map f xs) ≡ length xs
length-map_rows f [] = refl
length-map_rows f (x ∷ xs) = ap suc (length-map_rows f xs)

module _ {e : Engine} (rc : RowContract e) {h : Hiddens e} (hc : HiddenContract h) (a : Attended e)
    (am : AssistantModel h.Hidden a.States a.Embed) where
  open e use {Kv, Row, forward, argmax}
  open h use {Hidden, last_hidden_state}

  -- Before each round the tally is true and the drafter has a hidden state.
  record IsReady (s : MtpSession e h a am) : Type 0 where
    tallied : IsTallied s.run
    hidden : Hidden
    has_hidden : s.last_hidden ≡ some hidden

  module _ (k accept_top_k max_tokens : ℕ) (eos : Option ℕ) where
    -- The end of a round whose emissions keep the tally.
    flow-Ends :
        (s : MtpSession e h a am) (run : Run) (ts : List ℕ) (bonus : ℕ)
        (mk : Run → MtpSession e h a am) (flow : Flow Run)
        → flow ≡ emit_bonus max_tokens eos bonus (emit_accepted max_tokens eos ts run)
        → run.emitted ≡ s.run.emitted
        → IsTallied (run_of_flow flow)
        → ((r : Run) → ((mk r).run ≡ r) × ((x : Hidden) × ((mk r).last_hidden ≡ some x)))
        → Ends (λ t. t.run) IsReady IsTallied s (some (resume mk flow))
    unfolding run_of_flow emit
    flow-Ends s run ts bonus mk (halt r) eq same tally cont = inl (r, refl, tally)
    flow-Ends s run ts bonus mk (go r) eq same tally cont =
        let (r0, before, after) =
          emit_bonus-go max_tokens eos bonus (emit_accepted max_tokens eos ts run) (sym eq) in
        let grown = emit_accepted-go max_tokens eos ts run before in
        let (is_run, (hidden, seen)) = cont r in
        inr (
          mk r,
          refl,
          record {
            tallied = subst IsTallied (sym is_run) tally;
            hidden = hidden;
            has_hidden = seen;
          },
          omega (
            arith,
            ap (λ (t : Run). t.emitted) after,
            grown.1,
            same,
            ap (λ (t : Run). t.emitted) is_run,
          ),
        )

    drafted-Ends :
        (s : MtpSession e h a am) (d : List ℕ × List am.Logits × Hidden)
        → (i : IsReady s)
        → draft_speculative am
            (a.embed_tokens s.b)
            i.hidden
            s.kv_states
            s.prefix_len
            k
            (some a.embed_tokens)
          ≡ some d
        → length d.0 ≡ k
        → Counted e accept_top_k d.0 (forward (s.b ∷ d.0) s.kv).0
        → Ends (λ t. t.run) IsReady IsTallied s (mtp_round e h a am k accept_top_k max_tokens eos s)
    unfolding mtp_round
    drafted-Ends s d i drafted len v =
        rw (i.has_hidden, drafted, v.accepts, bonus_at.1)
          (flow-Ends s run ts bonus_at.0 _ flow refl refl tally (λ r. (refl, state_at)))
      where
        swept : Kv
        swept = (forward (s.b ∷ d.0) s.kv).1

        ts : List ℕ
        ts = take v.count d.0

        run : Run
        run = count_sweep k v.count v.off s.run

        bonus_at : (x : ℕ) × (get_elem? (map argmax (forward (s.b ∷ d.0) s.kv).0) v.count ≡ some x)
        bonus_at = get_elem?-some _ v.count (
            omega (
              arith,
              length-map_rows argmax (forward (s.b ∷ d.0) s.kv).0,
              rc.forward_length (s.b ∷ d.0) s.kv,
              v.within,
            ))

        state_at : (x : Hidden) × (get_elem? (last_hidden_state swept) v.count ≡ some x)
        state_at =
            get_elem?-some (last_hidden_state swept) v.count
              (omega (arith, hc.hidden_rows (s.b ∷ d.0) s.kv, v.within))

        flow : Flow Run
        flow = emit_bonus max_tokens eos bonus_at.0 (emit_accepted max_tokens eos ts run)

        count_ts : length ts ≡ v.count
        count_ts = omega (arith, length-take v.count d.0, v.within)

        tally : IsTallied (run_of_flow flow)
        tally =
            pass-IsTallied s.run run (run_of_flow flow) k v.count v.off i.tallied (refl, refl, refl)
              refl refl refl refl (omega (arith, v.within)) v.off_le
              (subst (λ n. Extends (n + 1) run (run_of_flow flow)) count_ts
                (round-Extends max_tokens eos bonus_at.0 ts run))

    mtp_round-Ready :
        (s : MtpSession e h a am)
        → 1 ≤ k
        → IsReady s
        → Ends (λ t. t.run) IsReady IsTallied s (mtp_round e h a am k accept_top_k max_tokens eos s)
    mtp_round-Ready s pos i =
        let (d, drafted, len) =
          draft_speculative-length am (a.embed_tokens s.b) i.hidden s.kv_states s.prefix_len k
            (some a.embed_tokens) pos in
        drafted-Ends s d i drafted len
          (accept_loop-Counted e accept_top_k d.0 _ (rc.forward_length (s.b ∷ d.0) s.kv))

  -- With any assistant, any `accept_top_k` and at least one draft a round, for a supported request with
  -- a prompt and on any store, also past a sliding window: the path returns, and its tally counts what
  -- it yielded: no more tokens than one, the target passes and the accepted drafts together, and no
  -- more accepted drafts than proposed ones.
  pub mtp-IsTallied :
      (k accept_top_k : ℕ) (prompt : List ℕ) (max_tokens : ℕ) (eos : Option ℕ) (kv_quant : Bool)
      (kv : Kv)
      → 1 ≤ k
      → 1 ≤ length prompt
      → check_kv_quant_support e kv_quant ≡ some tt
      → (r : Run) × (gemma4_mtp_speculative_generate e h a am k accept_top_k prompt max_tokens eos
            kv_quant kv
          ≡ some r)
        × IsTallied r
  unfolding gemma4_mtp_speculative_generate
  mtp-IsTallied k accept_top_k prompt max_tokens eos kv_quant kv pos len ok =
      elim (Bool-cases (is_some_of b eos)) [
        | inl stop ↦ (emit b start, rw (ok, row_at.1, stop), start-IsTallied b)
        | inr more ↦
            let (r, found, good) =
              drive-Good (λ s. s.run) (mtp_round e h a am k accept_top_k max_tokens eos) max_tokens
                IsReady IsTallied (λ s i _. mtp_round-Ready k accept_top_k max_tokens eos s pos i)
                (λ s i _. i.tallied) (max_tokens + 1)
                (record {
                  kv = (forward prompt kv).1;
                  last_hidden = last (last_hidden_state (forward prompt kv).1);
                  kv_states = a.target_kv_states (forward prompt kv).1;
                  prefix_len = length prompt;
                  b = b;
                  run = emit b start;
                })
                (omega arith)
                (record {
                  tallied = start-IsTallied b;
                  hidden = state_at.0;
                  has_hidden = state_at.1;
                }) in
            (r, rw (ok, row_at.1, more) found, good)
      ]
    where
      row_at : (row : Row) × (last (forward prompt kv).0 ≡ some row)
      row_at = last_of_some (forward prompt kv).0 (omega (arith, rc.forward_length prompt kv, len))

      b : ℕ
      b = argmax row_at.0

      state_at : (x : Hidden) × (last (last_hidden_state (forward prompt kv).1) ≡ some x)
      state_at =
          last_of_some (last_hidden_state (forward prompt kv).1)
            (omega (arith, hc.hidden_rows prompt kv, len))
