-- ===== src/Generate/Gemma.antt =====
-- `gemma4_mtp_speculative_generate` of src/nunspark/generate.py with `AssistantDrafter` of
-- src/nunspark/assistant.py: the drafter has no cache of its own and attends to the target's.
pub mod Round
pub mod Lossless
pub mod Tally
use nunspark.Base.{
  ℕ, zero, suc, ◌+◌, ◌-◌, ◌≡◌, List, [], ◌∷◌, Option, none, some, Bool, map, length, take,
  get_elem?, is_some_of, if◌then◌else◌,
}
use nunspark.Generate.Engine.{Engine, last, ◌>>=◌, ◌>>◌, check_kv_quant_support}
use nunspark.Generate.Emit.{
  SpecStats, Run, Flow, halt, go, resume, start, emit, emit_accepted, emit_bonus, drive,
}
use nunspark.Generate.Draft.{accept_loop}
use nunspark.Generate.Hidden.{Hiddens}

-- What the path reads of the engine besides its hidden states: the keys and values of the last pass
-- by layer type, cut to their first positions, and the embedding of a token.
pub record Attended (e : Engine) : Type 1 where
  pub States : Type 0
  pub target_kv_states : e.Kv → States
  pub first_positions : ℕ → States → States
  pub Embed : Type 0
  pub embed_tokens : ℕ → Embed

-- The assistant's network on the concatenated inputs, with the casts to its own weight type.
pub record AssistantModel (Hidden States Embed : Type 0) : Type 1 where
  pub Logits : Type 0
  pub embed_astype : Embed → Embed
  pub hidden_astype : Hidden → Hidden
  pub states_astype : States → States
  pub call : Embed × Hidden → States → ℕ → Hidden × Logits
  pub argmax : Logits → ℕ

module _ {Hidden States Embed : Type 0} (am : AssistantModel Hidden States Embed) where
  unfoldable pub draft_step : Embed → Hidden → States → ℕ → Hidden × am.Logits
  draft_step target_embed target_last_hidden shared_kv_states position_ids =
      am.call (am.embed_astype target_embed, am.hidden_astype target_last_hidden)
        (am.states_astype shared_kv_states) position_ids

  abbrev pub next_embed : Option (ℕ → Embed) → ℕ → Embed → Embed
  next_embed none token cur_embed = cur_embed
  next_embed (some embed_fn) token cur_embed = embed_fn token

  -- The draft tokens, their logits and the last hidden state.
  unfoldable pub assist :
      ℕ → Embed → Hidden → States → ℕ → Option (ℕ → Embed) → List ℕ × List am.Logits × Hidden
  assist zero cur_embed final_hidden states position embed_fn = ([], [], final_hidden)
  assist (suc n) cur_embed final_hidden states position embed_fn =
      let (last_hidden, logits) = draft_step cur_embed final_hidden states position in
      let token = am.argmax logits in
      let rest =
        assist n (next_embed embed_fn token cur_embed) last_hidden states position embed_fn in
      (token ∷ rest.0, logits ∷ rest.1, rest.2)

  -- `none` is the exception of `mx.concatenate` on no token.
  unfoldable pub draft_speculative :
      Embed
      → Hidden
      → States
      → ℕ
      → ℕ
      → Option (ℕ → Embed)
      → Option (List ℕ × List am.Logits × Hidden)
  draft_speculative embed hidden states position zero embed_fn = none
  draft_speculative embed hidden states position (suc n) embed_fn =
      some (assist (suc n) embed hidden states position embed_fn)

-- The tally of a verify pass that proposed `k` tokens and accepted `m`, `off` of them off the path.
abbrev pub count_sweep : ℕ → ℕ → ℕ → Run → Run
count_sweep k m off r = record r {
  stats = record r.stats {
    draft_tokens_proposed = r.stats.draft_tokens_proposed + k;
    target_passes = r.stats.target_passes + 1;
    accepted_offpath = r.stats.accepted_offpath + off;
    accepted_total = r.stats.accepted_total + m;
  };
}

module _ (e : Engine) (h : Hiddens e) (a : Attended e)
    (am : AssistantModel h.Hidden a.States a.Embed) where
  open e use {Kv, Row, forward, truncate, argmax}
  open h use {Hidden, last_hidden_state}
  open a use {States, target_kv_states, first_positions, Embed, embed_tokens}

  -- The variables of the loop. `last_hidden` is a slice of one position, `none` where it is empty.
  pub record MtpSession : Type 0 where
    pub kv : Kv
    pub last_hidden : Option Hidden
    pub kv_states : States
    pub prefix_len : ℕ
    pub b : ℕ
    pub run : Run

  module _ (k accept_top_k max_tokens : ℕ) (eos : Option ℕ) where
    unfoldable pub mtp_round : MtpSession → Option (Flow MtpSession)
    mtp_round s = do
      hidden ← s.last_hidden
      drafted ←
          draft_speculative am (embed_tokens s.b) hidden s.kv_states s.prefix_len k
            (some embed_tokens)
      let q = drafted.0
      let swept = forward (s.b ∷ q) s.kv
      (m, off) ← accept_loop e accept_top_k q swept.0
      bonus ← get_elem? (map argmax swept.0) m
      some (
          resume
            (λ r. record {
              kv = truncate (k - m) swept.1;
              last_hidden = get_elem? (last_hidden_state swept.1) m;
              kv_states = first_positions (s.prefix_len + m + 1) (target_kv_states swept.1);
              prefix_len = s.prefix_len + (m + 1);
              b = bonus;
              run = r;
            })
            (emit_bonus max_tokens eos bonus
              (emit_accepted max_tokens eos (take m q) (count_sweep k m off s.run))))

  -- The whole path, with K = `k`. The prompt is one pass, since its attention states must be whole.
  unfoldable pub gemma4_mtp_speculative_generate :
      ℕ → ℕ → List ℕ → ℕ → Option ℕ → Bool → Kv → Option Run
  gemma4_mtp_speculative_generate k accept_top_k prompt max_tokens eos kv_quant kv = do
    check_kv_quant_support e kv_quant
    row ← last (forward prompt kv).0
    let kv' = (forward prompt kv).1
    let b = argmax row
    let r = emit b start
    if is_some_of b eos
        then some r
        else drive (λ s. s.run) (mtp_round k accept_top_k max_tokens eos) max_tokens
            (max_tokens + 1)
            (record {
              kv = kv';
              last_hidden = last (last_hidden_state kv');
              kv_states = target_kv_states kv';
              prefix_len = length prompt;
              b = b;
              run = r;
            })
