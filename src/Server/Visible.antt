-- ===== src/Server/Visible.antt =====
-- The text that `stream_chat_completion` of src/nunspark/server.py sends, against the tokens.
use nunspark.Base.{
  ℕ, ◌+◌, ◌≡◌, refl, sym, ap, ◌∙◌, List, [], ◌∷◌, ◌++◌, some, true, false, length, take, drop,
  get_elem?, arith, Bool-cases, inl, inr, ◌⊎◌, append_assoc, append-nil, length-append,
}
use nunspark.Server.{
  Text, Tokenizer, ChatEvent, Chat, FinishReason, length_reached, stopped, ends_in, any_overlap,
  add, send, flush, new_chat,
}

-- The detokenizer after some tokens.
abbrev pub read_on : (tk : Tokenizer) → tk.Detokenizer → List ℕ → tk.Detokenizer
read_on tk d [] = d
read_on tk d (t ∷ ts) = read_on tk (tk.add_token t d) ts

abbrev pub read : (tk : Tokenizer) → List ℕ → tk.Detokenizer
read tk ts = read_on tk tk.reset ts

-- The documented behaviour of a streaming detokenizer: its segments make up the text seen so far,
-- which is a prefix of the decoding of any longer token sequence, and all of it once finalized.
pub record TokenizerLaws (tk : Tokenizer) : Type 0 where
  pub seen : tk.Detokenizer → Text
  pub seen_reset : seen tk.reset ≡ []
  pub seen_add :
      (t : ℕ) (d : tk.Detokenizer)
      → seen (tk.add_token t d) ≡ seen d ++ tk.last_segment (tk.add_token t d)
  pub seen_finalize :
      (d : tk.Detokenizer) → seen (tk.finalize d) ≡ seen d ++ tk.last_segment (tk.finalize d)
  pub decoded : (ts : List ℕ) → seen (tk.finalize (read tk ts)) ≡ tk.decode ts
  pub stable : (ts us : List ℕ) → (rest : Text) × (tk.decode (ts ++ us) ≡ seen (read tk ts) ++ rest)

read_on-append :
    (tk : Tokenizer) (d : tk.Detokenizer) (ts : List ℕ) (t : ℕ)
    → read_on tk d (ts ++ t ∷ []) ≡ tk.add_token t (read_on tk d ts)
read_on-append tk d [] t = refl
read_on-append tk d (u ∷ ts) t = read_on-append tk (tk.add_token u d) ts t

-- The text of some events.
abbrev pub text_of : List ChatEvent → Text
text_of [] = []
text_of (e ∷ es) = e.segment ++ text_of es

text_of-append : (es fs : List ChatEvent) → text_of (es ++ fs) ≡ text_of es ++ text_of fs
text_of-append [] fs = refl
text_of-append (e ∷ es) fs =
    ap (λ xs. e.segment ++ xs) (text_of-append es fs)
    ∙ sym (append_assoc e.segment (text_of es) (text_of fs))

pub drop_sent : (sent rest : Text) → drop (length sent) (sent ++ rest) ≡ rest
drop_sent [] rest = refl
drop_sent (x ∷ sent) rest = drop_sent sent rest

pub take_first : (pre rest : List ℕ) → take (length pre) (pre ++ rest) ≡ pre
take_first [] rest = refl
take_first (x ∷ pre) rest = ap (◌∷◌ x) (take_first pre rest)

module _ {tk : Tokenizer} (laws : TokenizerLaws tk) (stops : List (List ℕ)) (eos : List ℕ) where
  open laws use {seen, seen_add, seen_finalize, decoded, stable}

  abbrev pub State : Type 0
  State = Chat tk stops eos

  -- What was sent is the text of `p`, which no stop sequence overlaps; the rest of what was seen is
  -- pending.
  pub record Inv (c : State) : Type 0 where
    pub p : List ℕ
    pub q : List ℕ
    pub parts : c.tokens ≡ p ++ q
    pub reader : c.detokenizer ≡ read tk c.tokens
    pub sent : text_of c.events ≡ seen (read tk p)
    pub emitted : c.emitted_len ≡ length (text_of c.events)
    pub held : text_of c.events ++ c.pending ≡ seen (read tk c.tokens)
    pub clear : (p ≡ []) ⊎ (any_overlap p stops ≡ false)

  -- Sending a text appends it.
  pub send-text :
      (xs : Text) (c : State)
      → (text_of (send tk stops eos xs c).events ≡ text_of c.events ++ xs)
        × ((send tk stops eos xs c).emitted_len ≡ c.emitted_len + length xs)
        × ((send tk stops eos xs c).tokens ≡ c.tokens)
        × ((send tk stops eos xs c).detokenizer ≡ c.detokenizer)
  unfolding send
  send-text [] c = (sym (append-nil (text_of c.events)), omega arith, refl, refl)
  send-text (x ∷ xs) c = (
    text_of-append c.events _ ∙ ap (λ ys. text_of c.events ++ ys) (append-nil (x ∷ xs)),
    refl,
    refl,
    refl,
  )

  pub new_chat-Inv : Inv (new_chat tk stops eos)
  new_chat-Inv = record {
    p = [];
    q = [];
    parts = refl;
    reader = refl;
    sent = sym laws.seen_reset;
    emitted = refl;
    held = sym laws.seen_reset;
    clear = inl refl;
  }

  pub add-Inv : (t : ℕ) (c : State) → Inv c → Inv (add tk stops eos t c)
  unfolding add
  add-Inv t c i =
      let next : tk.add_token t c.detokenizer ≡ read tk (c.tokens ++ t ∷ []) =
        ap (tk.add_token t) i.reader ∙ sym (read_on-append tk tk.reset c.tokens t) in
      record {
        p = i.p;
        q = i.q ++ t ∷ [];
        parts = ap (λ xs. xs ++ t ∷ []) i.parts ∙ append_assoc i.p i.q (t ∷ []);
        reader = next;
        sent = i.sent;
        emitted = i.emitted;
        held =
            sym (append_assoc (text_of c.events) c.pending _)
            ∙ ap (λ xs. xs ++ tk.last_segment (tk.add_token t c.detokenizer))
                (i.held ∙ ap seen (sym i.reader))
            ∙ sym (seen_add t c.detokenizer)
            ∙ ap seen next;
        clear = i.clear;
      }

  pub flush-Inv : (c : State) → Inv c → Inv (flush tk stops eos c)
  unfolding flush
  flush-Inv c i = elim (Bool-cases (any_overlap c.tokens stops)) [
    | inl over ↦ rw over i
    | inr clear ↦
        let (text, len, toks, det) = send-text c.pending c in
        rw clear (record {
          p = c.tokens;
          q = [];
          parts = toks ∙ sym (append-nil c.tokens);
          reader = det ∙ i.reader ∙ ap (read tk) (sym toks);
          sent = text ∙ i.held;
          emitted =
              len
              ∙ omega (arith, i.emitted, length-append (text_of c.events) c.pending)
              ∙ ap length (sym text);
          held =
              append-nil (text_of (send tk stops eos c.pending c).events)
              ∙ text
              ∙ i.held
              ∙ ap (λ xs. seen (read tk xs)) (sym toks);
          clear = inr clear;
        })
  ]

  pub flush-tokens : (c : State) → (flush tk stops eos c).tokens ≡ c.tokens
  unfolding flush
  flush-tokens c = elim (Bool-cases (any_overlap c.tokens stops)) [
    | inl over ↦ rw over refl
    | inr clear ↦ let (text, len, toks, det) = send-text c.pending c in rw clear toks
  ]

  -- How a generation may end, with what was sent.
  pub data Outcome (c : State) : FinishReason → Type 0 where
    -- The generation path had no more tokens.
    whole : text_of c.events ≡ tk.decode c.tokens → Outcome c length_reached
    -- The tokens end in a stop sequence.
    before_stop :
        (i : ℕ) (seq pre : List ℕ)
        → get_elem? stops i ≡ some seq
        → c.tokens ≡ pre ++ seq
        → text_of c.events ≡ tk.decode pre
        → Outcome c stopped
    -- The last token ends the sequence.
    at_eos :
        (rest : Text)
        → ends_in eos c.tokens ≡ true
        → tk.decode c.tokens ≡ text_of c.events ++ rest
        → Outcome c stopped
