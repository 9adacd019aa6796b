-- ===== src/Server/Tests.antt =====
-- A tokenizer that keeps the last token's text back, and the theorems at its inputs.
use nunspark.Base.{
  ℕ, ◌≡◌, refl, sym, ap, ◌∙◌, List, [], ◌∷◌, ◌++◌, append_assoc, append-nil, list_eq, contains,
}
use nunspark.Server.{
  Text, Tokenizer, Stop, one_stop, stop_id_sequences, length_reached, chat_loop, new_chat,
  stream_chat_completion,
}
use nunspark.Server
use nunspark.Server.Visible.{TokenizerLaws, read, read_on, text_of, Outcome}
use nunspark.Server.Stops.{chat_loop-Outcome}

-- Each token is one code point; the text of a token comes out with the next one.
pub record Late : Type 0 where
  pub out : Text
  pub held : Text
  pub segment : Text

abbrev late : Tokenizer
late = record {
  encode = λ s. s;
  decode = λ ts. ts;
  Detokenizer = Late;
  reset = record { out = []; held = []; segment = [] };
  add_token = λ t d. record { out = d.out ++ d.held; held = t ∷ []; segment = d.held };
  finalize = λ d. record { out = d.out ++ d.held; held = []; segment = d.held };
  last_segment = λ d. d.segment;
}

read_all :
    (d : Late) (ts : List ℕ)
    → (read_on late d ts).out ++ (read_on late d ts).held ≡ d.out ++ d.held ++ ts
read_all d [] = sym (append-nil (d.out ++ d.held))
read_all d (t ∷ ts) = read_all (late.add_token t d) ts ∙ append_assoc (d.out ++ d.held) (t ∷ []) ts

abbrev late-Laws : TokenizerLaws late
late-Laws = record {
  seen = λ d. d.out;
  seen_reset = refl;
  seen_add = λ t d. refl;
  seen_finalize = λ d. refl;
  decoded = λ ts. read_all late.reset ts;
  stable = λ ts us. (
    (read late ts).held ++ us,
    ap (λ xs. xs ++ us) (sym (read_all late.reset ts))
        ∙ append_assoc (read late ts).out (read late ts).held us,
  );
}

-- The stop text 7 8, met after 1, a false start 7 and 2.
abbrev gen : List ℕ
gen = 1 ∷ 7 ∷ 2 ∷ 3 ∷ 7 ∷ 8 ∷ 9 ∷ []

abbrev stop : Stop
stop = one_stop (7 ∷ 8 ∷ [])

chat_loop-Outcome_example :
    let stops = stop_id_sequences late stop in
    let r = chat_loop late stops (0 ∷ []) gen (new_chat late stops (0 ∷ [])) in
    Outcome late-Laws stops (0 ∷ []) r.0 r.1
    × ((later : List ℕ) × (gen ≡ r.0.tokens ++ later) × (r.1 ≡ length_reached → later ≡ []))
chat_loop-Outcome_example = chat_loop-Outcome late-Laws stop (0 ∷ []) gen

program : Unit {0}
unfolding stream_chat_completion chat_loop stop_id_sequences Server.stopping_criteria
    Server.match_stop Server.any_overlap Server.sequence_overlap Server.overlap_upto Server.add
    Server.send Server.flush Server.recover Server.finish_text list_eq contains
program = tt

-- What was sent ends where the stop text starts.
chat_runs :
    text_of (stream_chat_completion late (stop_id_sequences late stop) (0 ∷ []) gen)
    ≡ 1 ∷ 7 ∷ 2 ∷ 3 ∷ []
unfolding program
chat_runs = refl

-- At an end-of-sequence token the text 2, which comes out with that token, is not sent.
eos_drops :
    text_of (stream_chat_completion late (stop_id_sequences late stop) (0 ∷ []) (1 ∷ 2 ∷ 0 ∷ []))
    ≡ 1 ∷ []
unfolding program
eos_drops = refl
