-- ===== src/Generate/Batch/Decodes.antt =====
-- The decode loop of `batched_generate`.
use nunspark.Base.{
  ℕ, zero, suc, ◌≡◌, refl, sym, ap, subst, ◌∙◌, List, [], ◌∷◌, Option, none, some, true, length,
  replicate, map, arith, append-nil, Bool-cases, inl, inr, ◌⊎◌,
}
use nunspark.Generate.Greedy.{greedy, until_eos}
use nunspark.Generate.Batch.{
  BatchEngine, BatchRow, advance, advance_row, feed, outputs, all_finished, decode_batch,
}
use nunspark.Generate.Batch.Lanes.{
  BatchContract, Chosen, no_rows, row, beside, goal, Lanes, no_lanes, lane, step-IsLane,
}

-- The pad counts that a pass masks: those given, or none of them.
abbrev pub Masks : Option (List ℕ) → List ℕ → Type 0
Masks pads ps = (pads ≡ some ps) ⊎ ((pads ≡ none) × (ps ≡ replicate (length ps) 0))

module _ {e : BatchEngine} {argmax : e.Row → ℕ} (c : BatchContract e argmax) where
  open c use {holds, next}

  -- Which choices of a pass are sure, with and without padding.
  abbrev pub IsSure : Option (List ℕ) → List ℕ → Type 0
  IsSure none ts = Unit {0}
  IsSure (some ps) ts = c.IsSteady ts

  pub forward-Chosen :
      (ws : List (List ℕ)) (pads : Option (List ℕ)) (ps : List ℕ) (kv : e.Kv)
      → Masks pads ps
      → length ps ≡ length (beside (holds kv) ws)
      → Chosen next
          (IsSure pads)
          ps
          (holds (e.forward ws pads kv).1)
          (map argmax (e.forward ws pads kv).0)
  forward-Chosen ws pads ps kv (inl given) len =
      rw (given, c.forward_holds) (c.forward_padded ws ps kv len)
  forward-Chosen ws pads ps kv (inr (absent, zeros)) len =
      let counted : ps ≡ replicate (length (beside (holds kv) ws)) 0 =
        zeros ∙ ap (λ (n : ℕ). replicate n 0) len in
      rw (absent, c.forward_holds)
        (subst
          (λ qs.
            Chosen next (λ ts. Unit {0}) qs (beside (holds kv) ws)
              (map argmax (e.forward ws none kv).0))
          (sym counted) (c.forward_plain ws kv))

  module _ (pads : Option (List ℕ)) (eos : Option ℕ) (max_tokens pad_id : ℕ) where
    abbrev AllLanes : ℕ → List ℕ → List (List ℕ) → List BatchRow → List (List ℕ) → Type 0
    AllLanes = Lanes next (IsSure pads) eos max_tokens

    length-Lanes :
        (n : ℕ) {ps : List ℕ} {hs : List (List ℕ)} {rs : List BatchRow} {prompts : List (List ℕ)}
        → AllLanes n ps hs rs prompts
        → length ps ≡ length hs
    length-Lanes n no_lanes = refl
    length-Lanes n (lane i rest) = ap suc (length-Lanes n rest)

    advance-Lanes :
        (n : ℕ) {ps toks : List ℕ} {hs : List (List ℕ)} {rs : List BatchRow}
        {prompts : List (List ℕ)}
        → AllLanes (suc n) ps hs rs prompts
        → Chosen next (IsSure pads) ps hs toks
        → (rs' : List BatchRow) × (advance eos toks rs ≡ some rs')
          × AllLanes n ps (beside hs (feed pad_id toks rs')) rs' prompts
    unfolding advance feed
    advance-Lanes n no_lanes no_rows = ([], refl, no_lanes)
    advance-Lanes n (lane {p} {h = h} {r = r} {prompt = prompt} i rest) (row {t = t} choice more) =
        let (rs', went, lanes) = advance-Lanes n rest more in
        (
          advance_row eos t r ∷ rs',
          rw went refl,
          lane (step-IsLane next (IsSure pads) eos max_tokens n p t pad_id h r prompt i choice)
              lanes,
        )

    outputs-done :
        (n : ℕ) {ps : List ℕ} {hs : List (List ℕ)} {rs : List BatchRow} {prompts : List (List ℕ)}
        → AllLanes n ps hs rs prompts
        → all_finished rs ≡ true
        → outputs rs ≡ map (goal next (IsSure pads) eos max_tokens) prompts
    outputs-done n no_lanes fin = refl
    outputs-done n (lane {r = r} {rs = rs} i rest) fin =
        let here : r.finished ≡ true = ground arith in
        let later : all_finished rs ≡ true = ground arith in
        rw (i.done here, outputs-done n rest later) refl

    outputs-last :
        {ps : List ℕ} {hs : List (List ℕ)} {rs : List BatchRow} {prompts : List (List ℕ)}
        → AllLanes 0 ps hs rs prompts
        → outputs rs ≡ map (goal next (IsSure pads) eos max_tokens) prompts
    unfolding greedy until_eos
    outputs-last no_lanes = refl
    outputs-last (lane {r = r} {rs = rs} {prompt = prompt} i rest) =
        let here : r.output ≡ goal next (IsSure pads) eos max_tokens prompt =
          elim (Bool-cases r.finished) [
            | inl fin ↦ i.done fin
            | inr live ↦ sym (append-nil r.output) ∙ i.ahead live
          ] in
        rw (here, outputs-last rest) refl

    -- From rows that hold their prompts and outputs, with the logits of their last tokens, the loop
    -- returns the greedy continuation of each prompt.
    pub decode_batch-goal :
        (ps : List ℕ) (n : ℕ) (rows : List e.Row) (kv : e.Kv) (rs : List BatchRow)
        (prompts : List (List ℕ))
        → Masks pads ps
        → AllLanes n ps (holds kv) rs prompts
        → Chosen next (IsSure pads) ps (holds kv) (map argmax rows)
        → decode_batch e argmax eos pad_id pads n (some rows) kv rs
          ≡ some (map (goal next (IsSure pads) eos max_tokens) prompts)
    unfolding decode_batch
    decode_batch-goal ps zero rows kv rs prompts masks lanes chosen = ap some (outputs-last lanes)
    decode_batch-goal ps (suc n) rows kv rs prompts masks lanes chosen =
        let (rs', went, lanes') = advance-Lanes n lanes chosen in
        let ws = feed pad_id (map argmax rows) rs' in
        elim (Bool-cases (all_finished rs')) [
          | inl fin ↦ rw (went, fin) (ap some (outputs-done n lanes' fin))
          | inr going ↦
              rw (went, going)
                (decode_batch-goal ps n (e.forward ws pads kv).0 (e.forward ws pads kv).1 rs'
                  prompts masks (rw c.forward_holds lanes')
                  (forward-Chosen ws pads ps kv masks (length-Lanes n lanes')))
        ]
