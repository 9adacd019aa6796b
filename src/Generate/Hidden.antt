-- ===== src/Generate/Hidden.antt =====
-- The hidden states that the engine records in a pass (src/nunspark/engine.py), which the feature-level
-- drafters of src/nunspark/generate.py read, and `_prefill` with them.
use nunspark.Base.{
  ℕ, zero, suc, ◌≤◌, ◌≡◌, refl, List, [], ◌∷◌, Option, some, length, take, drop, arith, ◌==◌, false,
}
use nunspark.Generate.Engine.{Engine, prefill, prefill_windows, last}

-- `last_hidden_state` has a state for each token of the last pass. The engine's memory of its last
-- pass is kept here with the store that the pass went over.
pub record Hiddens (e : Engine) : Type 1 where
  pub Hidden : Type 0
  pub last_hidden_state : e.Kv → List Hidden

pub record HiddenContract {e : Engine} (h : Hiddens e) : Type 0 where
  pub hidden_rows :
      (ts : List ℕ) (kv : e.Kv) → length (h.last_hidden_state (e.forward ts kv).1) ≡ length ts

pub last_of_some {ℓ} : {A : Type ℓ} (xs : List A) → 1 ≤ length xs → (x : A) × (last xs ≡ some x)
last_of_some [] h = absurd (omega arith)
last_of_some (x ∷ []) h = (x, refl)
last_of_some (x ∷ y ∷ ys) h = last_of_some (y ∷ ys) (omega arith)

module _ {e : Engine} {h : Hiddens e} (hc : HiddenContract h) where
  open e use {Kv, Row}
  open h use {Hidden, last_hidden_state}

  prefill_windows-last_hidden :
      (fuel k : ℕ) (ids : List ℕ) (kv : Kv) (logits : Option Row) {row : Row} {kv' : Kv}
      → ((ids ≡ []) → 1 ≤ length (last_hidden_state kv))
      → prefill_windows e fuel (suc k) ids kv logits ≡ some (row, kv')
      → 1 ≤ length (last_hidden_state kv')
  unfolding prefill_windows
  prefill_windows-last_hidden fuel k [] kv logits start ok = ground (arith, start refl)
  prefill_windows-last_hidden zero k (t ∷ ts) kv logits start ok = ground arith
  prefill_windows-last_hidden (suc fuel) k (t ∷ ts) kv logits start ok =
      prefill_windows-last_hidden fuel k (drop k ts) _ _
        (λ _. omega (arith, hc.hidden_rows (t ∷ take k ts) kv)) ok

  -- After the prefill of a prompt the engine holds the hidden state of at least one token.
  pub prefill-last_hidden :
      (ids : List ℕ) (kv : Kv) (chunk : ℕ) {row : Row} {kv' : Kv}
      → 1 ≤ length ids
      → 1 ≤ chunk
      → prefill e ids kv chunk ≡ some (row, kv')
      → 1 ≤ length (last_hidden_state kv')
  unfolding prefill
  prefill-last_hidden [] kv chunk len p ok = absurd (omega arith)
  prefill-last_hidden (t ∷ ts) kv zero len p ok = absurd (omega arith)
  prefill-last_hidden (t ∷ ts) kv (suc k) len p ok =
      let positive : (suc k == 0) ≡ false = ground arith in
      prefill_windows-last_hidden (length (t ∷ ts)) k (t ∷ ts) kv _ (λ e. absurd (cons_nil e))
        (rw positive at ok)
    where
      cons_nil : (t ∷ ts ≡ []) → ⊥
      cons_nil e = cc
