-- ===== src/Generate/Eagle/Lossless.antt =====
-- `eagle_speculative_generate`: a round, what the path yields and what its tally says.
use nunspark.Base.{
  ℕ, zero, suc, ◌+◌, ◌-◌, ◌≤◌, max, ◌≡◌, refl, sym, ap, subst, ◌∙◌, List, [], ◌∷◌, ◌++◌, Option,
  some, Bool, map, length, take, drop, arith, length-take, length-drop, true, append_assoc,
}
use nunspark.Generate.Engine.{Engine, Contract, IsUnrotated, last, check_kv_quant_support}
use nunspark.Generate.Greedy.{greedy, until_eos, prefill-Prefilled}
use nunspark.Generate.Emit.{Run, Flow, start, emit, emit_accepted, emit_bonus, Ends}
use nunspark.Generate.Stats.{
  IsTallied, Extends, run_of_flow, round-Extends, pass-IsTallied, start-IsTallied,
}
use nunspark.Generate.Verify.{Verified, accept_prefix-Verified}
use nunspark.Generate.Hidden.{Hiddens, HiddenContract, last_of_some, prefill-last_hidden}
use nunspark.Generate.Rollback.{
  Inv, Good, truncate-forward, round-IsUnrotated, round-Ends, path-Good,
}
use nunspark.Generate.Eagle.{
  EagleModel, EagleSession, predict, draft_speculative, count_eagle, eagle_round,
  eagle_speculative_generate, default_prefill_chunk,
}

-- A drafter is asked for one token at least, and drafts as many as it is asked for.
pub draft_speculative-length :
    {Hidden : Type 0} (em : EagleModel Hidden) (cold : Bool) (k : ℕ) (hidden : Hidden) (token : ℕ)
    → 1 ≤ k
    → (q : List ℕ) × (logits : Option (List em.Logits)) × (draft_speculative em cold k hidden token
        ≡ some (q, logits))
      × (length q ≡ k)
unfolding draft_speculative predict
draft_speculative-length em cold zero hidden token pos = absurd (omega arith)
draft_speculative-length em cold (suc k) hidden token pos =
    (_, _, refl, ap suc (length-predict k _ _))
  where
    length-predict :
        (n : ℕ) (hidden : _) (token : ℕ) → length (predict em cold n hidden token).0 ≡ n
    length-predict zero hidden token = refl
    length-predict (suc n) hidden token = ap suc (length-predict n _ _)

module _ {e : Engine} (c : Contract e) {h : Hiddens e} (hc : HiddenContract h)
    (em : EagleModel h.Hidden) where
  open e use {Kv, Row, forward, argmax}
  open h use {Hidden, last_hidden_state}
  open c use {holds, next, forward_rows}

  -- The drafter has a state to start from.
  abbrev HasHidden : EagleSession e h em → Type 0
  HasHidden s = 1 ≤ length s.last_hidden

  module _ (k : ℕ) (prompt : List ℕ) (max_tokens : ℕ) (eos : Option ℕ) where
    abbrev Before : EagleSession e h em → Type 0
    Before =
        Inv c (λ (s : EagleSession e h em). s.kv) (λ s. s.b) (λ s. s.run) HasHidden (Unit {0})
          IsTallied prompt max_tokens eos

    abbrev Done : Run → Type 0
    Done =
        Good c (λ (s : EagleSession e h em). s.kv) (λ s. s.b) (λ s. s.run) HasHidden (Unit {0})
          IsTallied prompt max_tokens eos

    Verified-Ends :
        (s : EagleSession e h em) (hidden : Hidden) (q : List ℕ) (logits : Option (List em.Logits))
        → Before s
        → IsUnrotated e.window (length (holds s.kv) + suc k)
        → last s.last_hidden ≡ some hidden
        → draft_speculative em true k hidden s.b ≡ some (q, logits)
        → length q ≡ k
        → Verified next (prompt ++ s.run.out) q (map argmax (forward (s.b ∷ q) s.kv).0)
        → Ends (λ t. t.run) Before Done s (eagle_round e h em k max_tokens eos s)
    unfolding eagle_round
    Verified-Ends s hidden q logits i fits found drafted len v =
        rw (found, drafted, v.accepts, v.bonus)
          (round-Ends c (λ (t : EagleSession e h em). t.kv) (λ t. t.b) (λ t. t.run) HasHidden
            (Unit {0}) IsTallied prompt max_tokens eos s run ts bonus _ i (refl, refl)
            (λ _. v.follows) refl tally (λ r. (kept, refl, refl, seen)))
      where
        ts : List ℕ
        ts = take v.count q

        bonus : ℕ
        bonus = next (prompt ++ s.run.out ++ ts)

        run : Run
        run = count_eagle k v.count s.run

        flow : Flow Run
        flow = emit_bonus max_tokens eos bonus (emit_accepted max_tokens eos ts run)

        kept :
            holds (e.truncate (k - v.count) (forward (s.b ∷ q) s.kv).1) ≡ prompt ++ s.run.out ++ ts
        kept =
            truncate-forward c s.kv s.b q k v.count len (omega (arith, v.within)) fits
            ∙ sym (append_assoc (holds s.kv) (s.b ∷ []) ts)
            ∙ ap (λ xs. xs ++ ts) i.aligned

        seen : 1 ≤ length (take 1 (drop v.count (last_hidden_state (forward (s.b ∷ q) s.kv).1)))
        seen =
            let states = last_hidden_state (forward (s.b ∷ q) s.kv).1 in
            omega (
              arith,
              length-take 1 (drop v.count states),
              length-drop v.count states,
              hc.hidden_rows (s.b ∷ q) s.kv,
              v.within,
            )

        count_ts : length ts ≡ v.count
        count_ts = omega (arith, length-take v.count q, v.within)

        tally : IsTallied (run_of_flow flow)
        tally =
            pass-IsTallied s.run run (run_of_flow flow) k v.count 0 i.tallied (refl, refl, refl)
              refl refl refl (omega arith) (omega (arith, v.within)) (omega arith)
              (subst (λ n. Extends (n + 1) run (run_of_flow flow)) count_ts
                (round-Extends max_tokens eos bonus ts run))

    eagle_round-Ends :
        (s : EagleSession e h em)
        → 1 ≤ k
        → Before s
        → IsUnrotated e.window (length (holds s.kv) + suc k)
        → Ends (λ t. t.run) Before Done s (eagle_round e h em k max_tokens eos s)
    eagle_round-Ends s pos i fits =
        let (hidden, found) = last_of_some s.last_hidden i.side in
        let (q, logits, drafted, len) = draft_speculative-length em true k hidden s.b pos in
        Verified-Ends s hidden q logits i fits found drafted len (
          rw (forward_rows (s.b ∷ q) s.kv, i.aligned)
            (accept_prefix-Verified next (prompt ++ s.run.out) q))

  -- With any feature-level drafter and at least one draft a round, on a store that holds nothing and
  -- for a supported request with a prompt, on an engine without sliding windows or where the prompt,
  -- `max_tokens` and the drafts of a round together stay below the smallest window: the path returns,
  -- and what it yields is the greedy continuation of the prompt, `max_tokens` tokens and at least one,
  -- cut after the first end-of-sequence token; and its tally counts what it yielded.
  pub eagle-lossless :
      (k : ℕ) (prompt : List ℕ) (max_tokens : ℕ) (eos : Option ℕ) (kv_quant : Bool) (kv : Kv)
      → 1 ≤ k
      → 1 ≤ length prompt
      → check_kv_quant_support e kv_quant ≡ some tt
      → holds kv ≡ []
      → IsUnrotated e.window (length prompt + max_tokens + k)
      → (r : Run) × (eagle_speculative_generate e h em k prompt max_tokens eos kv_quant kv ≡ some r)
        × (r.out ≡ until_eos eos (greedy next (max 1 max_tokens) prompt))
        × IsTallied r
  unfolding eagle_speculative_generate
  eagle-lossless k prompt max_tokens eos kv_quant kv pos len ok empty fits =
      let (row, kv', filled, best, held) =
        prefill-Prefilled c prompt kv default_prefill_chunk len (omega arith) in
      let whole : holds kv ++ prompt ≡ prompt = ap (λ xs. xs ++ prompt) empty in
      let (r, found, good) =
        path-Good c (λ (t : EagleSession e h em). t.kv) (λ t. t.b) (λ t. t.run) HasHidden (Unit {0})
          IsTallied prompt max_tokens eos (eagle_round e h em k max_tokens eos)
          (record {
            kv = kv';
            last_hidden = last_hidden_state kv';
            b = argmax row;
            run = emit (argmax row) start;
          })
          (argmax row)
          (λ t i room. eagle_round-Ends k prompt max_tokens eos t pos i (
            round-IsUnrotated c t.kv t.b k prompt max_tokens t.run i.aligned i.tallied.yielded room
              fits))
          (best ∙ ap next whole) (held ∙ whole) refl refl (start-IsTallied (argmax row))
          (prefill-last_hidden hc prompt kv default_prefill_chunk len (omega arith) filled) in
      (r, rw (ok, filled) found, good.0 tt, good.1)
