-- ===== src/Server/Stops.antt =====
-- How a chat generation of src/nunspark/server.py ends: at a stop sequence, at an end-of-sequence token
-- or with its last token.
use nunspark.Base.{
  ℕ, ◌-◌, ◌≤◌, ◌≡◌, refl, sym, ap, ◌∙◌, List, [], ◌∷◌, ◌++◌, some, true, length, take, drop,
  get_elem?, ltb, arith, Bool-cases, inl, inr, append_assoc, length-append,
}
use nunspark.Server.{
  Stop, stop_id_sequences, Text, Tokenizer, length_reached, stopped, ends_in, stopping_criteria,
  sequence_overlap, add, flush, recover, finish_text, chat_loop, new_chat,
}
use nunspark.Server.Overlap.{
  stop_id_sequences-nonempty, suffix_overlaps, split, no_overlap_of, match_stop-found,
}
use nunspark.Server.Visible.{
  TokenizerLaws, text_of, State, Inv, send-text, new_chat-Inv, add-Inv, flush-Inv, flush-tokens,
  take_first, drop_sent, Outcome, whole, before_stop, at_eos,
}

module _ {tk : Tokenizer} (laws : TokenizerLaws tk) (stops : List (List ℕ)) (eos : List ℕ) where
  open laws use {seen, seen_add, seen_finalize, decoded, stable}

  finish_text-whole :
      (c : State laws stops eos)
      → Inv laws stops eos c
      → ((finish_text tk stops eos c).tokens ≡ c.tokens)
        × Outcome laws stops eos (finish_text tk stops eos c) length_reached
  unfolding finish_text
  finish_text-whole c i =
      let done : (State laws stops eos) = record c {
        detokenizer = tk.finalize c.detokenizer;
        pending = c.pending ++ tk.last_segment (tk.finalize c.detokenizer);
      } in
      let (text, len, toks, det) = send-text laws stops eos done.pending done in
      (
        toks,
        whole (
            text
            ∙ sym (append_assoc (text_of c.events) c.pending _)
            ∙ ap (λ xs. xs ++ tk.last_segment (tk.finalize c.detokenizer))
                (i.held ∙ ap seen (sym i.reader))
            ∙ sym (seen_finalize c.detokenizer)
            ∙ ap (λ d. seen (tk.finalize d)) i.reader
            ∙ decoded c.tokens
            ∙ ap tk.decode (sym toks)),
      )

  -- A stop sequence starts after all that was sent.
  sent_before :
      (c : State laws stops eos) (j : ℕ) (seq pre : List ℕ)
      → Inv laws stops eos c
      → get_elem? stops j ≡ some seq
      → c.tokens ≡ pre ++ seq
      → (rest : Text) × (tk.decode pre ≡ text_of c.events ++ rest)
  sent_before c j seq pre i found e = elim (split pre seq i.p i.q (sym e ∙ i.parts)) [
    | inl (r, e') ↦
        let (rest, more) = stable i.p r in (rest, rw e' (more ∙ ap (λ xs. xs ++ rest) (sym i.sent)))
    | inr (x, xs, rest, e', e'') ↦ absurd (over x xs rest e' e'')
  ]
    where
      over : (x : ℕ) (xs rest : List ℕ) → i.p ≡ pre ++ x ∷ xs → seq ≡ x ∷ xs ++ rest → ⊥
      over x xs rest e' e'' = elim i.clear [
        | inl none_sent ↦ omega (arith, ap length (sym e' ∙ none_sent), length-append pre (x ∷ xs))
        | inr clear ↦
            let overlap : sequence_overlap i.p seq ≡ true =
              rw (e', e'') (suffix_overlaps pre x xs rest) in
            let apart = no_overlap_of i.p stops j clear found in ground arith
      ]

  recover-text :
      (c : State laws stops eos) (seq pre : List ℕ) (rest : Text)
      → Inv laws stops eos c
      → 1 ≤ length seq
      → c.tokens ≡ pre ++ seq
      → tk.decode pre ≡ text_of c.events ++ rest
      → (text_of (recover tk stops eos (length seq) c).events ≡ tk.decode pre)
        × ((recover tk stops eos (length seq) c).tokens ≡ c.tokens)
  unfolding recover
  recover-text c seq pre rest i pos e more =
      let positive : ltb 0 (length seq) ≡ true = ground arith in
      let kept : take (length c.tokens - length seq) c.tokens ≡ pre = rw e (
        ap (λ (n : ℕ). take n (pre ++ seq)) (omega (arith, length-append pre seq))
        ∙ take_first pre seq) in
      let left : drop c.emitted_len (tk.decode (take (length c.tokens - length seq) c.tokens))
          ≡ rest =
        rw (kept, more, i.emitted) (drop_sent (text_of c.events) rest) in
      let (text, len, toks, det) = send-text laws stops eos rest c in
      rw (positive, left) (text ∙ sym more, toks)

  recover_none : (c : State laws stops eos) → recover tk stops eos 0 c ≡ c
  unfolding recover
  recover_none c = refl

  stop-Outcome :
      (c : State laws stops eos)
      → ((j : ℕ) (seq : List ℕ) → get_elem? stops j ≡ some seq → 1 ≤ length seq)
      → Inv laws stops eos c
      → (stopping_criteria c.tokens stops eos).stop_met ≡ true
      → Outcome laws stops eos
          (recover tk stops eos (stopping_criteria c.tokens stops eos).trim_length c)
          stopped
        × ((recover tk stops eos (stopping_criteria c.tokens stops eos).trim_length c).tokens
            ≡ c.tokens)
  unfolding stopping_criteria
  stop-Outcome c nonempty i met = elim (Bool-cases (ends_in eos c.tokens)) [
    | inl ended ↦
        let (rest, more) = stable i.p i.q in
        rw (ended, recover_none c)
          (
            at_eos rest ended (ap tk.decode i.parts ∙ more ∙ ap (λ xs. xs ++ rest) (sym i.sent)),
            refl,
          )
    | inr going ↦
        let (j, seq, pre, found, e, trim) = match_stop-found c.tokens stops (rw going at met) in
        let (rest, more) = sent_before c j seq pre i found e in
        let (text, toks) = recover-text c seq pre rest i (nonempty j seq found) e more in
        rw (going, trim) (before_stop j seq pre found (toks ∙ e) text, toks)
  ]

  chat_loop_ends :
      (gen : List ℕ) (c : State laws stops eos)
      → ((j : ℕ) (seq : List ℕ) → get_elem? stops j ≡ some seq → 1 ≤ length seq)
      → Inv laws stops eos c
      → Outcome laws stops eos (chat_loop tk stops eos gen c).0 (chat_loop tk stops eos gen c).1
        × ((later : List ℕ) × (c.tokens ++ gen ≡ (chat_loop tk stops eos gen c).0.tokens ++ later)
            × ((chat_loop tk stops eos gen c).1 ≡ length_reached → later ≡ []))
  unfolding chat_loop add
  chat_loop_ends [] c nonempty i =
      let (toks, out) = finish_text-whole c i in
      (out, ([], ap (λ xs. xs ++ []) (sym toks), λ _. refl))
  chat_loop_ends (t ∷ gen) c nonempty i =
      let c' = add tk stops eos t c in
      let i' = add-Inv laws stops eos t c i in
      let condition = stopping_criteria c'.tokens stops eos in
      let fed : c.tokens ++ t ∷ gen ≡ c'.tokens ++ gen = sym (append_assoc c.tokens (t ∷ []) gen) in
      elim (Bool-cases condition.stop_met) [
        | inl met ↦
            let (out, toks) = stop-Outcome c' nonempty i' met in
            rw met (out, (gen, fed ∙ ap (λ xs. xs ++ gen) (sym toks), λ e. absurd (differ e)))
        | inr going ↦
            let (out, (later, e, none_left)) =
              chat_loop_ends gen (flush tk stops eos c') nonempty
                (flush-Inv laws stops eos c' i') in
            rw going (
              out,
              (
                later,
                fed ∙ ap (λ xs. xs ++ gen) (sym (flush-tokens laws stops eos c')) ∙ e,
                none_left,
              ),
            )
      ]
    where
      differ : (stopped ≡ length_reached) → ⊥
      differ e = cc

-- For the tokens that a generation path yields and the stop sequences of a request, the loop ends in
-- one of these ways: it took all tokens, and what was sent is their decoding; or the tokens it took
-- end in a stop sequence, and what was sent is exactly the decoding of those before it; or they end in
-- an end-of-sequence token, and what was sent is a prefix of their decoding.
pub chat_loop-Outcome :
    {tk : Tokenizer} (laws : TokenizerLaws tk) (stop : Stop) (eos gen : List ℕ)
    → let stops = stop_id_sequences tk stop in
      let r = chat_loop tk stops eos gen (new_chat tk stops eos) in
      Outcome laws stops eos r.0 r.1
      × ((later : List ℕ) × (gen ≡ r.0.tokens ++ later) × (r.1 ≡ length_reached → later ≡ []))
chat_loop-Outcome {tk} laws stop eos gen =
    let stops = stop_id_sequences tk stop in
    chat_loop_ends laws stops eos gen (new_chat tk stops eos)
      (λ j seq found. stop_id_sequences-nonempty tk stop j seq found) (new_chat-Inv laws stops eos)
