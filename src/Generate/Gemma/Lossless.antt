-- ===== src/Generate/Gemma/Lossless.antt =====
-- `gemma4_mtp_speculative_generate`: what it yields and what it gives its drafter.
use nunspark.Base.{
  ℕ, suc, ◌+◌, ◌≤◌, max, ◌≡◌, refl, sym, ap, ◌∙◌, List, [], ◌∷◌, ◌++◌, Option, some, Bool, length,
  arith, inl, inr,
}
use nunspark.Generate.Engine.{
  Engine, Contract, IsUnrotated, IsUnrotated-fewer, last, check_kv_quant_support,
}
use nunspark.Generate.Greedy.{greedy, until_eos, forward-last}
use nunspark.Generate.Emit.{Run, halt, go, start, emit}
use nunspark.Generate.Stats.{IsTallied, start-IsTallied}
use nunspark.Generate.Hidden.{Hiddens, HiddenContract, last_of_some}
use nunspark.Generate.Rollback.{path-Good, round-IsUnrotated}
use nunspark.Generate.Gemma.{
  Attended, AssistantModel, MtpSession, mtp_round, gemma4_mtp_speculative_generate,
}
use nunspark.Generate.Gemma.Round.{AttendedContract, IsPlaced, Before, Done, mtp_round-Ends}

module _ {e : Engine} (c : Contract e) {h : Hiddens e} (hc : HiddenContract h) {a : Attended e}
    (ac : AttendedContract c a) (am : AssistantModel h.Hidden a.States a.Embed) where
  open e use {Kv, Row, forward, argmax}
  open h use {Hidden, last_hidden_state}
  open c use {holds, next, forward_holds}
  open ac use {states_cover}

  module _ (k accept_top_k : ℕ) (prompt : List ℕ) (max_tokens : ℕ) (eos : Option ℕ)
      (kv_quant : Bool) (kv : Kv) where
    generates :
        1 ≤ k
        → 1 ≤ length prompt
        → check_kv_quant_support e kv_quant ≡ some tt
        → holds kv ≡ []
        → IsUnrotated e.window (length prompt + max_tokens + k)
        → (r : Run) × (gemma4_mtp_speculative_generate e h a am k accept_top_k prompt max_tokens eos
              kv_quant kv
            ≡ some r)
          × Done c hc ac am k accept_top_k prompt max_tokens eos r
    unfolding gemma4_mtp_speculative_generate
    generates pos len ok empty fits = started prompt len refl
      where
        started :
            (ids : List ℕ)
            → 1 ≤ length ids
            → prompt ≡ ids
            → (r : Run) × (gemma4_mtp_speculative_generate e h a am k accept_top_k prompt max_tokens
                  eos kv_quant kv
                ≡ some r)
              × Done c hc ac am k accept_top_k prompt max_tokens eos r
        started [] none_left same = absurd (omega arith)
        started (t ∷ ts) some_left same =
            let (row, found, best) = forward-last c t ts kv in
            let found' : last (forward prompt kv).0 ≡ some row = rw same found in
            let kv' = (forward prompt kv).1 in
            let whole : holds kv' ≡ prompt =
              forward_holds prompt kv ∙ ap (λ xs. xs ++ prompt) empty in
            let (hidden, seen) =
              last_of_some (last_hidden_state kv') (omega (arith, hc.hidden_rows prompt kv, len)) in
            let (r, ends, good) =
              path-Good c (λ (s : MtpSession e h a am). s.kv) (λ s. s.b) (λ s. s.run)
                (IsPlaced c hc ac am) (accept_top_k ≤ 1) IsTallied prompt max_tokens eos
                (mtp_round e h a am k accept_top_k max_tokens eos)
                (record {
                  kv = kv';
                  last_hidden = last (last_hidden_state kv');
                  kv_states = a.target_kv_states kv';
                  prefix_len = length prompt;
                  b = argmax row;
                  run = emit (argmax row) start;
                })
                (argmax row)
                (λ s i room.
                  mtp_round-Ends c hc ac am k accept_top_k prompt max_tokens eos s pos i (
                    round-IsUnrotated c s.kv s.b k prompt max_tokens s.run i.aligned
                      i.tallied.yielded room fits))
                (best ∙ ap (λ xs. next (xs ++ t ∷ ts)) empty ∙ ap next (sym same)) whole refl refl
                (start-IsTallied (argmax row))
                (record {
                  hidden = hidden;
                  has_hidden = seen;
                  attends =
                      states_cover prompt kv (
                        IsUnrotated-fewer e.window _ (length prompt + max_tokens + k)
                          (omega (arith, ap length (sym (forward_holds prompt kv) ∙ whole))) fits)
                      ∙ sym (forward_holds prompt kv);
                  position = sym (ap length whole);
                }) in
            (r, rw (ok, found') ends, good)

    -- With any assistant, at least one draft a round and an `accept_top_k` of at most 1, on a store
    -- that holds nothing and for a supported request with a prompt, on an engine without sliding
    -- windows or where the prompt, `max_tokens` and the drafts of a round together stay below the
    -- smallest window: the path returns the greedy continuation of the prompt, `max_tokens` tokens and
    -- at least one, cut after the first end-of-sequence token.
    pub mtp-lossless :
        1 ≤ k
        → 1 ≤ length prompt
        → check_kv_quant_support e kv_quant ≡ some tt
        → holds kv ≡ []
        → IsUnrotated e.window (length prompt + max_tokens + k)
        → accept_top_k ≤ 1
        → (r : Run) × (gemma4_mtp_speculative_generate e h a am k accept_top_k prompt max_tokens eos
              kv_quant kv
            ≡ some r)
          × (r.out ≡ until_eos eos (greedy next (max 1 max_tokens) prompt))
    mtp-lossless pos len ok empty fits one =
        let (r, found, good) = generates pos len ok empty fits in (r, found, good.0 one)

  -- The invariant of the loop is kept by each round that goes on and whose pass, over what the store
  -- holds, the last token and the drafts, stays below the smallest window, if there is one: the store holds the prompt and all
  -- that was yielded but the last token, the drafter is given the attention states of just that, at
  -- the position after it, and a hidden state.
  pub mtp_round-Before :
      (k accept_top_k : ℕ) (prompt : List ℕ) (max_tokens : ℕ) (eos : Option ℕ)
      (s s' : MtpSession e h a am)
      → 1 ≤ k
      → Before c hc ac am k accept_top_k prompt max_tokens eos s
      → IsUnrotated e.window (length (holds s.kv) + suc k)
      → mtp_round e h a am k accept_top_k max_tokens eos s ≡ some (go s')
      → Before c hc ac am k accept_top_k prompt max_tokens eos s'
  mtp_round-Before k accept_top_k prompt max_tokens eos s s' pos i fits ran =
      elim (mtp_round-Ends c hc ac am k accept_top_k prompt max_tokens eos s pos i fits) [
        | inl (r, e, g) ↦ absurd (stopped r (sym e ∙ ran))
        | inr (t, e, j, more) ↦ rw (went_on t (sym ran ∙ e)) j
      ]
    where
      stopped : (r : Run) → (some (halt r) ≡ some (go s')) → ⊥
      stopped r e = cc

      went_on : (t : MtpSession e h a am) → (some (go s') ≡ some (go t)) → s' ≡ t
      went_on t e = cc
