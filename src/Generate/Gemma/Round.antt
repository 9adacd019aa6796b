-- ===== src/Generate/Gemma/Round.antt =====
-- One round of `gemma4_mtp_speculative_generate`, and the invariant of its loop: what the drafter
-- attends to and where it stands.
use nunspark.Base.{
  ℕ, zero, suc, ◌+◌, ◌-◌, ◌≤◌, ◌<◌, ◌≡◌, refl, sym, ap, subst, ◌∙◌, List, [], ◌∷◌, ◌++◌, Option,
  some, length, take, get_elem?, arith, length-take, length-append, append_assoc, take-append,
}
use nunspark.Generate.Engine.{Engine, Contract, IsUnrotated, IsUnrotated-fewer, nexts}
use nunspark.Generate.Emit.{Run, Flow, emit_accepted, emit_bonus, Ends}
use nunspark.Generate.Stats.{IsTallied, Extends, run_of_flow, round-Extends, pass-IsTallied}
use nunspark.Generate.Draft.Accept.{Accepted, accept_loop-Accepted}
use nunspark.Generate.Hidden.{Hiddens, HiddenContract}
use nunspark.Generate.Rollback.{Inv, Good, truncate-forward, round-Ends}
use nunspark.Generate.Gemma.{
  Attended, AssistantModel, MtpSession, assist, draft_speculative, count_sweep, mtp_round,
}

-- The engine's states after a pass over unrotated caches cover what the store then holds, position
-- by position, so that their first `n` positions cover its first `n` tokens. Nothing is said of the
-- states after a cache has rotated, which are those of the window.
pub record AttendedContract {e : Engine} (c : Contract e) (a : Attended e) : Type 0 where
  pub covers : a.States → List ℕ
  pub states_cover :
      (ts : List ℕ) (kv : e.Kv)
      → IsUnrotated e.window (length (c.holds kv ++ ts))
      → covers (a.target_kv_states (e.forward ts kv).1) ≡ c.holds kv ++ ts
  pub first_cover :
      (n : ℕ) (ts : List ℕ) (kv : e.Kv)
      → IsUnrotated e.window (length (c.holds kv ++ ts))
      → covers (a.first_positions n (a.target_kv_states (e.forward ts kv).1))
        ≡ take n (c.holds kv ++ ts)

pub draft_speculative-length :
    {Hidden States Embed : Type 0} (am : AssistantModel Hidden States Embed) (embed : Embed)
    (hidden : Hidden) (states : States) (position k : ℕ) (embed_fn : Option (ℕ → Embed))
    → 1 ≤ k
    → (d : List ℕ × List am.Logits × Hidden) × (draft_speculative am embed hidden states position k
          embed_fn
        ≡ some d)
      × (length d.0 ≡ k)
unfolding draft_speculative assist
draft_speculative-length am embed hidden states position zero embed_fn pos = absurd (omega arith)
draft_speculative-length am embed hidden states position (suc k) embed_fn pos =
    (_, refl, ap suc (length-assist k _ _))
  where
    length-assist :
        (n : ℕ) (embed : _) (hidden : _)
        → length (assist am n embed hidden states position embed_fn).0 ≡ n
    length-assist zero embed hidden = refl
    length-assist (suc n) embed hidden = ap suc (length-assist n _ _)

pub get_elem?-some {ℓ} :
    {A : Type ℓ} (xs : List A) (n : ℕ) → n < length xs → (x : A) × (get_elem? xs n ≡ some x)
get_elem?-some [] n h = absurd (omega arith)
get_elem?-some (x ∷ xs) zero h = (x, refl)
get_elem?-some (x ∷ xs) (suc n) h = get_elem?-some xs n (omega arith)

module _ {e : Engine} (c : Contract e) {h : Hiddens e} (hc : HiddenContract h) {a : Attended e}
    (ac : AttendedContract c a) (am : AssistantModel h.Hidden a.States a.Embed) where
  open e use {Kv, Row, forward, argmax}
  open h use {Hidden, last_hidden_state}
  open c use {holds, next, forward_rows}
  open ac use {covers, first_cover}

  -- What the drafter is given: a hidden state, the attention states of just what the store holds, and
  -- the number of its tokens.
  pub record IsPlaced (s : MtpSession e h a am) : Type 0 where
    pub hidden : Hidden
    pub has_hidden : s.last_hidden ≡ some hidden
    pub attends : covers s.kv_states ≡ holds s.kv
    pub position : s.prefix_len ≡ length (holds s.kv)

  module _ (k accept_top_k : ℕ) (prompt : List ℕ) (max_tokens : ℕ) (eos : Option ℕ) where
    abbrev pub Before : MtpSession e h a am → Type 0
    Before =
        Inv c (λ (s : MtpSession e h a am). s.kv) (λ s. s.b) (λ s. s.run) IsPlaced
          (accept_top_k ≤ 1) IsTallied prompt max_tokens eos

    abbrev pub Done : Run → Type 0
    Done =
        Good c (λ (s : MtpSession e h a am). s.kv) (λ s. s.b) (λ s. s.run) IsPlaced
          (accept_top_k ≤ 1) IsTallied prompt max_tokens eos

    Accepted-Ends :
        (s : MtpSession e h a am) (d : List ℕ × List am.Logits × Hidden)
        → (i : Before s) → IsUnrotated e.window (length (holds s.kv) + suc k)
        → draft_speculative am
            (a.embed_tokens s.b)
            i.side.hidden
            s.kv_states
            s.prefix_len
            k
            (some a.embed_tokens)
          ≡ some d
        → length d.0 ≡ k
        → Accepted e next accept_top_k (prompt ++ s.run.out) d.0 (forward (s.b ∷ d.0) s.kv).0
        → Ends (λ t. t.run) Before Done s (mtp_round e h a am k accept_top_k max_tokens eos s)
    unfolding mtp_round
    Accepted-Ends s d i fits drafted len v =
        rw (i.side.has_hidden, drafted, v.accepts, v.bonus)
          (round-Ends c (λ (t : MtpSession e h a am). t.kv) (λ t. t.b) (λ t. t.run) IsPlaced
            (accept_top_k ≤ 1) IsTallied prompt max_tokens eos s run ts bonus _ i (refl, refl)
            v.follows refl tally (λ r. (fed, refl, refl, placed r)))
      where
        q : List ℕ
        q = d.0

        ts : List ℕ
        ts = take v.count q

        bonus : ℕ
        bonus = next (prompt ++ s.run.out ++ ts)

        run : Run
        run = count_sweep k v.count v.off s.run

        flow : Flow Run
        flow = emit_bonus max_tokens eos bonus (emit_accepted max_tokens eos ts run)

        swept : Kv
        swept = (forward (s.b ∷ q) s.kv).1

        kept : holds (e.truncate (k - v.count) swept) ≡ holds s.kv ++ s.b ∷ ts
        kept = truncate-forward c s.kv s.b q k v.count len (omega (arith, v.within)) fits

        fed : holds (e.truncate (k - v.count) swept) ≡ prompt ++ s.run.out ++ ts
        fed = kept ∙ sym (append_assoc (holds s.kv) (s.b ∷ []) ts) ∙ ap (λ xs. xs ++ ts) i.aligned

        count_ts : length ts ≡ v.count
        count_ts = omega (arith, length-take v.count q, v.within)

        state_at : (x : Hidden) × (get_elem? (last_hidden_state swept) v.count ≡ some x)
        state_at =
            get_elem?-some (last_hidden_state swept) v.count
              (omega (arith, hc.hidden_rows (s.b ∷ q) s.kv, v.within))

        cut :
            covers (a.first_positions (s.prefix_len + v.count + 1) (a.target_kv_states swept))
            ≡ holds s.kv ++ s.b ∷ ts
        cut =
            let here : s.prefix_len + v.count + 1 ≡ length (holds s.kv) + suc v.count =
              omega (arith, i.side.position) in
            first_cover (s.prefix_len + v.count + 1) (s.b ∷ q) s.kv (
              IsUnrotated-fewer e.window _ (length (holds s.kv) + suc k)
                (omega (arith, length-append (holds s.kv) (s.b ∷ q), len)) fits)
            ∙ rw here (take-append (holds s.kv) (s.b ∷ q) (suc v.count))

        placed :
            (r : Run)
            → IsPlaced (record {
              kv = e.truncate (k - v.count) swept;
              last_hidden = get_elem? (last_hidden_state swept) v.count;
              kv_states = a.first_positions (s.prefix_len + v.count + 1) (a.target_kv_states swept);
              prefix_len = s.prefix_len + (v.count + 1);
              b = bonus;
              run = r;
            })
        placed r = record {
          hidden = state_at.0;
          has_hidden = state_at.1;
          attends = cut ∙ sym kept;
          position = omega (
            arith,
            ap length kept,
            length-append (holds s.kv) (s.b ∷ ts),
            count_ts,
            i.side.position,
          );
        }

        tally : IsTallied (run_of_flow flow)
        tally =
            pass-IsTallied s.run run (run_of_flow flow) k v.count v.off i.tallied (refl, refl, refl)
              refl refl refl refl (omega (arith, v.within)) v.off_le
              (subst (λ n. Extends (n + 1) run (run_of_flow flow)) count_ts
                (round-Extends max_tokens eos bonus ts run))

    pub mtp_round-Ends :
        (s : MtpSession e h a am)
        → 1 ≤ k
        → Before s
        → IsUnrotated e.window (length (holds s.kv) + suc k)
        → Ends (λ t. t.run) Before Done s (mtp_round e h a am k accept_top_k max_tokens eos s)
    mtp_round-Ends s pos i fits =
        let (d, drafted, len) =
          draft_speculative-length am (a.embed_tokens s.b) i.side.hidden s.kv_states s.prefix_len k
            (some a.embed_tokens) pos in
        Accepted-Ends s d i fits drafted len (
          accept_loop-Accepted e next accept_top_k (prompt ++ s.run.out) d.0 _
            (forward_rows (s.b ∷ d.0) s.kv ∙ ap (λ xs. next xs ∷ nexts next xs d.0) i.aligned))
