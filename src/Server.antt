-- ===== src/Server.antt =====
-- A chat generation of src/nunspark/server.py: the stop field, the stop test on the generated tokens and
-- the text that is held back while a stop sequence may still complete.
pub mod Overlap
pub mod Visible
pub mod Stops
pub mod Tests
use nunspark.Base.{
  ℕ, zero, suc, ◌+◌, ◌-◌, List, [], ◌∷◌, ◌++◌, Option, none, some, Bool, true, false, ◌&&◌, ◌||◌,
  length, take, drop, leb, ltb, min, list_eq, contains, if◌then◌else◌,
}

-- A text is the list of its code points.
abbrev pub Text : Type 0
Text = List ℕ

-- The tokenizer with its streaming detokenizer, whose methods return the new detokenizer.
pub record Tokenizer : Type 1 where
  pub encode : Text → List ℕ
  pub decode : List ℕ → Text
  pub Detokenizer : Type 0
  pub reset : Detokenizer
  pub add_token : ℕ → Detokenizer → Detokenizer
  pub finalize : Detokenizer → Detokenizer
  pub last_segment : Detokenizer → Text

-- The `stop` field of a request: absent, a text, or texts.
pub data Stop : Type 0 where
  no_stop : Stop
  one_stop : Text → Stop
  many_stops : List Text → Stop

abbrev pub cons_unless_empty : List ℕ → List (List ℕ) → List (List ℕ)
cons_unless_empty [] rest = rest
cons_unless_empty (t ∷ ts) rest = (t ∷ ts) ∷ rest

abbrev pub encode_each : (Text → List ℕ) → List Text → List (List ℕ)
encode_each encode [] = []
encode_each encode (s ∷ ss) = cons_unless_empty (encode s) (encode_each encode ss)

unfoldable pub stop_id_sequences : Tokenizer → Stop → List (List ℕ)
stop_id_sequences tk no_stop = []
stop_id_sequences tk (one_stop s) = encode_each tk.encode (s ∷ [])
stop_id_sequences tk (many_stops ss) = encode_each tk.encode ss

-- `xs[-n:]`, which is the whole list for n = 0.
abbrev pub last_slice : ℕ → List ℕ → List ℕ
last_slice zero xs = xs
last_slice (suc n) xs = drop (length xs - suc n) xs

pub record StopCondition : Type 0 where
  pub stop_met : Bool
  pub trim_length : ℕ

abbrev pub ends_in : List ℕ → List ℕ → Bool
ends_in eos [] = false
ends_in eos (t ∷ []) = contains t eos
ends_in eos (t ∷ u ∷ ts) = ends_in eos (u ∷ ts)

unfoldable pub match_stop : List ℕ → List (List ℕ) → StopCondition
match_stop tokens [] = record { stop_met = false; trim_length = 0 }
match_stop tokens (seq ∷ seqs) =
    let rest = match_stop tokens seqs in
    if leb (length seq) (length tokens) && list_eq (last_slice (length seq) tokens) seq
    then record { stop_met = true; trim_length = length seq }
    else rest

unfoldable pub stopping_criteria : List ℕ → List (List ℕ) → List ℕ → StopCondition
stopping_criteria tokens stop_sequences eos_token_ids =
    if ends_in eos_token_ids tokens
    then record { stop_met = true; trim_length = 0 }
    else match_stop tokens stop_sequences

-- Whether one of the last 1 to `n` tokens starts a prefix of the sequence.
unfoldable pub overlap_upto : List ℕ → List ℕ → ℕ → Bool
overlap_upto tokens sequence zero = false
overlap_upto tokens sequence (suc n) =
    overlap_upto tokens sequence n || list_eq (last_slice (suc n) tokens) (take (suc n) sequence)

unfoldable pub sequence_overlap : List ℕ → List ℕ → Bool
sequence_overlap tokens sequence =
    overlap_upto tokens sequence (min (length tokens) (length sequence))

unfoldable pub any_overlap : List ℕ → List (List ℕ) → Bool
any_overlap tokens [] = false
any_overlap tokens (seq ∷ seqs) = sequence_overlap tokens seq || any_overlap tokens seqs

pub data FinishReason : Type 0 where
  length_reached : FinishReason
  stopped : FinishReason

pub record ChatEvent : Type 0 where
  pub segment : Text
  pub finish_reason : Option FinishReason
  pub completion_tokens : ℕ

module _ (tk : Tokenizer) (stop_sequences : List (List ℕ)) (eos_ids : List ℕ) where
  -- The variables of the loop, with the events that were yielded.
  pub record Chat : Type 0 where
    pub tokens : List ℕ
    pub detokenizer : tk.Detokenizer
    pub pending : Text
    pub emitted_len : ℕ
    pub events : List ChatEvent

  unfoldable pub add : ℕ → Chat → Chat
  add t c = record c {
    tokens = c.tokens ++ t ∷ [];
    detokenizer = tk.add_token t c.detokenizer;
    pending = c.pending ++ tk.last_segment (tk.add_token t c.detokenizer);
  }

  -- `yield ChatEvent(segment, None, len(tokens))`, where the segment is not empty.
  unfoldable pub send : Text → Chat → Chat
  send [] c = c
  send (x ∷ xs) c = record c {
    events =
        c.events
        ++ record { segment = x ∷ xs; finish_reason = none; completion_tokens = length c.tokens }
          ∷ [];
    emitted_len = c.emitted_len + length (x ∷ xs);
  }

  -- Pending text is held back while the tokens overlap a stop sequence.
  unfoldable pub flush : Chat → Chat
  flush c =
      if any_overlap c.tokens stop_sequences then c else record (send c.pending c) { pending = [] }

  -- The text before a stop sequence of `trim_length` tokens that was not sent yet.
  unfoldable pub recover : ℕ → Chat → Chat
  recover trim_length c =
      if ltb 0 trim_length
      then send (drop c.emitted_len (tk.decode (take (length c.tokens - trim_length) c.tokens))) c
      else c

  unfoldable pub finish_text : Chat → Chat
  finish_text c =
      let d = tk.finalize c.detokenizer in
      let done : Chat = record c { detokenizer = d; pending = c.pending ++ tk.last_segment d } in
      send done.pending done

  -- The loop over the tokens that the generation path yields.
  unfoldable pub chat_loop : List ℕ → Chat → Chat × FinishReason
  chat_loop [] c = (finish_text c, length_reached)
  chat_loop (t ∷ ts) c =
      let c' = add t c in
      let rest = chat_loop ts (flush c') in
      let condition = stopping_criteria c'.tokens stop_sequences eos_ids in
      if condition.stop_met then (recover condition.trim_length c', stopped) else rest

  abbrev pub new_chat : Chat
  new_chat = record {
    tokens = [];
    detokenizer = tk.reset;
    pending = [];
    emitted_len = 0;
    events = [];
  }

  -- All events, for what the generation path yields, with the last one.
  unfoldable pub stream_chat_completion : List ℕ → List ChatEvent
  stream_chat_completion gen =
      let (c, reason) = chat_loop gen new_chat in
      c.events
      ++ record { segment = []; finish_reason = some reason; completion_tokens = length c.tokens }
        ∷ []
