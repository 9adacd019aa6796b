-- ===== src/Generate/Engine.antt =====
-- The interface between the generation paths (src/nunspark/generate.py) and the streaming engine
-- with its KV store (src/nunspark/engine.py, src/nunspark/kv_store.py). A pass over tokens gives one row of
-- logits for each token.
use nunspark.Base.{
  ℕ, zero, suc, ◌-◌, ◌≤◌, ◌≡◌, List, [], ◌∷◌, ◌++◌, Option, none, some, Bool, map, length, take,
  drop, ◌==◌, if◌then◌else◌, ◌<◌, arith,
}

-- `forward` appends its tokens to the KV store; `verify_forward` leaves the store alone and records
-- what `commit_verified` may append later. `truncate` is `KVStore.truncate`. `argmax`, `near_tie` and
-- `top_k` read one row; `vocab` is its length. `window` is the size of the smallest sliding window
-- among the engine's caches (`RotatingKVCache`), `none` for an engine without one.
pub record Engine : Type 1 where
  pub Kv : Type 0
  pub Row : Type 0
  pub Recs : Type 0
  pub forward : List ℕ → Kv → List Row × Kv
  pub verify_forward : List ℕ → Kv → List Row × Recs
  pub commit_verified : Kv → Recs → ℕ → Kv
  pub truncate : ℕ → Kv → Kv
  pub argmax : Row → ℕ
  pub near_tie : Row → Bool
  pub vocab : ℕ
  pub top_k : Row → ℕ → List ℕ
  pub supports_quantized_kv : Bool
  pub window : Option ℕ

-- A store of `n` tokens has no rotated cache: `RotatingKVCache.is_trimmable` at offset `n`.
unfoldable pub IsUnrotated : Option ℕ → ℕ → Type 0
IsUnrotated none n = Unit {0}
IsUnrotated (some w) n = n < w

pub IsUnrotated-fewer :
    (window : Option ℕ) (m n : ℕ) → m ≤ n → IsUnrotated window n → IsUnrotated window m
unfolding IsUnrotated
IsUnrotated-fewer none m n le h = tt
IsUnrotated-fewer (some w) m n le h = omega arith

-- The tokens that follow each token of a pass, by a greedy choice `next`.
abbrev pub nexts : (List ℕ → ℕ) → List ℕ → List ℕ → List ℕ
nexts next context [] = []
nexts next context (t ∷ ts) = next (context ++ t ∷ []) ∷ nexts next (context ++ t ∷ []) ts

-- The engine's contract. A store holds a token sequence, and the argmax of a row depends on the
-- tokens before it alone: not on the shape of the pass that computes it (no argmax near-tie flips).
-- A truncation drops the last tokens of a store without a rotated cache. Of a rotated one only the
-- length is known, since the tokens that left the window cannot come back: what such a store holds
-- then may be any sequence of that length, also one that is of no prompt.
pub record Contract (e : Engine) : Type 0 where
  pub holds : e.Kv → List ℕ
  pub next : List ℕ → ℕ
  pub forward_rows :
      (ts : List ℕ) (kv : e.Kv) → map e.argmax (e.forward ts kv).0 ≡ nexts next (holds kv) ts
  pub forward_holds : (ts : List ℕ) (kv : e.Kv) → holds (e.forward ts kv).1 ≡ holds kv ++ ts
  pub verify_rows :
      (ts : List ℕ) (kv : e.Kv) → map e.argmax (e.verify_forward ts kv).0 ≡ nexts next (holds kv) ts
  pub commit_holds :
      (ts : List ℕ) (kv : e.Kv) (n : ℕ)
      → n ≤ length ts
      → holds (e.commit_verified kv (e.verify_forward ts kv).1 n) ≡ holds kv ++ take n ts
  pub truncate_length :
      (n : ℕ) (kv : e.Kv) → length (holds (e.truncate n kv)) ≡ length (holds kv) - n
  pub truncate_holds :
      (n : ℕ) (kv : e.Kv)
      → IsUnrotated e.window (length (holds kv))
      → holds (e.truncate n kv) ≡ take (length (holds kv) - n) (holds kv)

-- What is known of a pass on any store, rotated or not: a row of logits for each token.
pub record RowContract (e : Engine) : Type 0 where
  pub forward_length : (ts : List ℕ) (kv : e.Kv) → length (e.forward ts kv).0 ≡ length ts

-- The arguments that the paths share. `kv_quant` says whether one is given.
pub record Request : Type 0 where
  pub prompt : List ℕ
  pub max_tokens : ℕ
  pub eos_id : Option ℕ
  pub processed_tokens : ℕ
  pub prefill_chunk : ℕ
  pub kv_quant : Bool

abbrev pub last {ℓ} : {A : Type ℓ} → List A → Option A
last [] = none
last (x ∷ []) = some x
last (x ∷ y ∷ ys) = last (y ∷ ys)

infixl 5 ◌>>=◌
abbrev pub ◌>>=◌ {ℓ κ} : {A : Type ℓ} {B : Type κ} → Option A → (A → Option B) → Option B
none >>= f = none
some a >>= f = f a

abbrev pub ◌>>◌ {ℓ} : {B : Type ℓ} → Option (Unit {0}) → Option B → Option B
m >> k = m >>= λ _. k

infixl 5 ◌>>◌
module _ (e : Engine) where
  open e use {Kv, Row, forward, argmax, supports_quantized_kv}

  -- `none` is an exception: the `ValueError` of a quantized store on an attention-sink model.
  unfoldable pub check_kv_quant_support : Bool → Option (Unit {0})
  check_kv_quant_support kv_quant =
      if kv_quant then (if supports_quantized_kv then some tt else none) else some tt

  -- The windows that are left, with the logits of the last one. The fuel bounds their number.
  unfoldable pub prefill_windows : ℕ → ℕ → List ℕ → Kv → Option Row → Option (Row × Kv)
  prefill_windows fuel chunk [] kv logits = logits >>= λ row. some (row, kv)
  prefill_windows zero chunk (t ∷ ts) kv logits = none
  prefill_windows (suc fuel) chunk (t ∷ ts) kv logits =
      prefill_windows fuel chunk (drop chunk (t ∷ ts)) (forward (take chunk (t ∷ ts)) kv).1
        (last (forward (take chunk (t ∷ ts)) kv).0)

  -- An empty prompt is one pass over no token; a window size of 0 is `range`'s `ValueError`.
  unfoldable pub prefill : List ℕ → Kv → ℕ → Option (Row × Kv)
  prefill [] kv chunk = last (forward [] kv).0 >>= λ row. some (row, (forward [] kv).1)
  prefill (t ∷ ts) kv chunk =
      if chunk == 0 then none else prefill_windows (length (t ∷ ts)) chunk (t ∷ ts) kv none
