-- ===== src/Generate/Eagle.antt =====
-- `eagle_speculative_generate` of src/nunspark/generate.py with `EagleDrafter.draft_speculative` of
-- src/nunspark/eagle_drafter.py: a feature-level drafter predicts from the target's last hidden state.
pub mod Lossless
use nunspark.Base.{
  ℕ, zero, suc, ◌+◌, ◌-◌, ◌≡◌, List, [], ◌∷◌, Option, none, some, Bool, true, map, take, drop,
  get_elem?, is_some_of, if◌then◌else◌, ◌==◌,
}
use nunspark.Generate.Engine.{Engine, last, ◌>>=◌, ◌>>◌, prefill, check_kv_quant_support}
use nunspark.Generate.Emit.{
  SpecStats, Run, Flow, halt, go, resume, start, emit, emit_accepted, emit_bonus, drive,
}
use nunspark.Generate.Ngram.{accept_prefix}
use nunspark.Generate.Hidden.{Hiddens}

-- The drafter's network, and the choice of a token from its logits at a temperature.
pub record EagleModel (Hidden : Type 0) : Type 1 where
  pub Logits : Type 0
  pub call : Hidden → ℕ → Hidden × Logits
  pub argmax : Logits → ℕ
  pub categorical : Logits → ℕ

-- `PREFILL_CHUNK`, the window of the paths that take no other.
abbrev pub default_prefill_chunk : ℕ
default_prefill_chunk = 1024

module _ {Hidden : Type 0} (em : EagleModel Hidden) where
  -- The draft tokens and the logits they came from; `cold` is `temp <= 0.0`.
  unfoldable pub predict : Bool → ℕ → Hidden → ℕ → List ℕ × List em.Logits
  predict cold zero hidden token = ([], [])
  predict cold (suc n) hidden token =
      let (pred_hidden, logits) = em.call hidden token in
      let next_token = if cold then em.argmax logits else em.categorical logits in
      let rest = predict cold n pred_hidden next_token in
      (next_token ∷ rest.0, if cold then rest.1 else logits ∷ rest.1)

  abbrev pub unless_empty {ℓ} : {A : Type ℓ} → List A → Option (List A)
  unless_empty [] = none
  unless_empty (x ∷ xs) = some (x ∷ xs)

  -- `none` is the exception of `mx.concatenate` on no token.
  unfoldable pub draft_speculative :
      Bool → ℕ → Hidden → ℕ → Option (List ℕ × Option (List em.Logits))
  draft_speculative cold max_draft_tokens last_hidden bootstrap_token = do
    let drafted = predict cold max_draft_tokens last_hidden bootstrap_token
    stacked ← unless_empty drafted.0
    some (stacked, unless_empty drafted.1)

-- The tally of a verify pass that proposed `k` tokens and accepted `m`.
abbrev pub count_eagle : ℕ → ℕ → Run → Run
count_eagle k m r = record r {
  stats = record r.stats {
    draft_tokens_proposed = r.stats.draft_tokens_proposed + k;
    target_passes = r.stats.target_passes + 1;
    accepted_total = r.stats.accepted_total + m;
  };
}

module _ (e : Engine) (h : Hiddens e) (em : EagleModel h.Hidden) where
  open e use {Kv, Row, forward, truncate, argmax}
  open h use {Hidden, last_hidden_state}

  -- The variables of the loop.
  pub record EagleSession : Type 0 where
    pub kv : Kv
    pub last_hidden : List Hidden
    pub b : ℕ
    pub run : Run

  module _ (k max_tokens : ℕ) (eos : Option ℕ) where
    unfoldable pub eagle_round : EagleSession → Option (Flow EagleSession)
    eagle_round s = do
      hidden ← last s.last_hidden
      (q, draft_logits) ← draft_speculative em true k hidden s.b
      let swept = forward (s.b ∷ q) s.kv
      let targ = map argmax swept.0
      m ← accept_prefix q targ
      bonus ← get_elem? targ m
      some (
          resume
            (λ r. record {
              kv = truncate (k - m) swept.1;
              last_hidden = take 1 (drop m (last_hidden_state swept.1));
              b = bonus;
              run = r;
            })
            (emit_bonus max_tokens eos bonus
              (emit_accepted max_tokens eos (take m q) (count_eagle k m s.run))))

  -- The whole path, with K = `k`; each round yields a token.
  unfoldable pub eagle_speculative_generate : ℕ → List ℕ → ℕ → Option ℕ → Bool → Kv → Option Run
  eagle_speculative_generate k prompt max_tokens eos kv_quant kv = do
    check_kv_quant_support e kv_quant
    (row, kv') ← prefill e prompt kv default_prefill_chunk
    let b = argmax row
    let r = emit b start
    if is_some_of b eos
        then some r
        else drive (λ s. s.run) (eagle_round k max_tokens eos) max_tokens (max_tokens + 1)
            (record { kv = kv'; last_hidden = last_hidden_state kv'; b = b; run = r })
