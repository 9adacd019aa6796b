-- ===== src/Generate/Batch.antt =====
-- `batched_generate` of src/nunspark/generate.py: several prompts, padded on the left to one length,
-- through one pass a step.
pub mod Lanes
pub mod Decodes
pub mod Prefills
pub mod Lossless
use nunspark.Base.{
  ℕ, zero, suc, ◌-◌, max, List, [], ◌∷◌, ◌++◌, Option, none, some, Bool, true, false, ◌&&◌, map,
  length, take, drop, replicate, is_some_of, if◌then◌else◌, ◌==◌, ltb,
}
use nunspark.Generate.Engine.{◌>>=◌, ◌>>◌}
use nunspark.KvStore.Caches.{CacheKind}

-- The engine on rows of tokens: a pass gives the logits of each row's last position. The optional
-- list is `pad_lengths`, the number of pad tokens at the start of each row.
pub record BatchEngine : Type 1 where
  pub Kv : Type 0
  pub Row : Type 0
  pub forward : List (List ℕ) → Option (List ℕ) → Kv → List Row × Kv
  pub cache_kinds : Option (List CacheKind)
  pub supports_quantized_kv : Bool

abbrev pub all_whole : List CacheKind → Bool
all_whole [] = true
all_whole (CacheKind.kv ∷ kinds) = all_whole kinds
all_whole (CacheKind.unknown ∷ kinds) = all_whole kinds
all_whole (CacheKind.sliding w ∷ kinds) = false
all_whole (CacheKind.pair_of n ∷ kinds) = false

-- `none` is the `ValueError`, for either kind of layer.
unfoldable pub reject_rotating : Option (List CacheKind) → Option (Unit {0})
reject_rotating none = some tt
reject_rotating (some kinds) = if all_whole kinds then some tt else none

-- `max(len(p) for p in prompts)`, an exception where there are none.
abbrev pub longest : List (List ℕ) → ℕ
longest [] = 0
longest (p ∷ ps) = max (length p) (longest ps)

abbrev pub longest_of : List (List ℕ) → Option ℕ
longest_of [] = none
longest_of (p ∷ ps) = some (longest (p ∷ ps))

abbrev pub pad_counts : ℕ → List (List ℕ) → List ℕ
pad_counts width prompts = map (λ p. width - length p) prompts

abbrev pub pad_rows : ℕ → ℕ → List (List ℕ) → List (List ℕ)
pad_rows pad_id width prompts = map (λ p. replicate (width - length p) pad_id ++ p) prompts

abbrev pub any_padded : List ℕ → Bool
any_padded [] = false
any_padded (n ∷ ns) = if ltb 0 n then true else any_padded ns

-- A row of the batch: its output, and whether it is finished.
pub record BatchRow : Type 0 where
  pub output : List ℕ
  pub finished : Bool

-- The loop over the rows, for the sampled tokens; `none` is an index out of range.
abbrev pub advance_row : Option ℕ → ℕ → BatchRow → BatchRow
advance_row eos t r =
    if r.finished then r else record { output = r.output ++ t ∷ []; finished = is_some_of t eos }

unfoldable pub advance : Option ℕ → List ℕ → List BatchRow → Option (List BatchRow)
advance eos toks [] = some []
advance eos [] (r ∷ rs) = none
advance eos (t ∷ toks) (r ∷ rs) = advance eos toks rs >>= λ rest. some (advance_row eos t r ∷ rest)

abbrev pub all_finished : List BatchRow → Bool
all_finished [] = true
all_finished (r ∷ rs) = r.finished && all_finished rs

-- The next column: a finished row is fed the pad token.
unfoldable pub feed : ℕ → List ℕ → List BatchRow → List (List ℕ)
feed pad_id (t ∷ toks) (r ∷ rs) = ((if r.finished then pad_id else t) ∷ []) ∷ feed pad_id toks rs
feed pad_id toks rs = []

abbrev pub outputs : List BatchRow → List (List ℕ)
outputs rs = map (λ (r : BatchRow). r.output) rs

module _ (e : BatchEngine) where
  open e use {Kv, Row, forward}

  -- `_prefill_batched` on the columns that are left, `width` of them; the fuel bounds the windows.
  unfoldable pub prefill_columns :
      ℕ → ℕ → ℕ → List (List ℕ) → Option (List ℕ) → Kv → Option (List Row) → Option (List Row) × Kv
  prefill_columns zero chunk width rows pads kv logits = (logits, kv)
  prefill_columns (suc fuel) chunk width rows pads kv logits =
      let swept = forward (map (take chunk) rows) pads kv in
      let rest =
        prefill_columns fuel chunk (width - chunk) (map (drop chunk) rows) pads swept.1
          (some swept.0) in
      if width == 0 then (logits, kv) else rest

  -- A window size of 0 is `range`'s `ValueError`.
  unfoldable pub prefill_batched :
      ℕ → List (List ℕ) → Kv → Option (List ℕ) → ℕ → Option (Option (List Row) × Kv)
  prefill_batched width rows kv pads chunk =
      if chunk == 0 then none else some (prefill_columns width chunk width rows pads kv none)

  module _ (sample : Row → ℕ) (eos : Option ℕ) (pad_id : ℕ) (pads : Option (List ℕ)) where
    -- The decode loop with `n` rounds left.
    unfoldable pub decode_batch :
        ℕ → Option (List Row) → Kv → List BatchRow → Option (List (List ℕ))
    decode_batch zero logits kv rs = some (outputs rs)
    decode_batch (suc n) logits kv rs = do
      rows ← logits
      let toks = map sample rows
      rs' ← advance eos toks rs
      let swept = forward (feed pad_id toks rs') pads kv
      let rest = decode_batch n (some swept.0) swept.1 rs'
      if all_finished rs' then some (outputs rs') else rest

  -- The whole path; `sample` is the choice of `_sample_batch` for a row.
  unfoldable pub batched_generate :
      (Row → ℕ) → List (List ℕ) → ℕ → Bool → ℕ → Option ℕ → ℕ → Kv → Option (List (List ℕ))
  batched_generate sample prompts max_tokens kv_quant pad_id eos chunk kv = do
    reject_rotating e.cache_kinds
    (if kv_quant then (if e.supports_quantized_kv then some tt else none) else some (tt {0}))
    width ← longest_of prompts
    let counts = pad_counts width prompts
    let pads = if any_padded counts then some counts else none
    (logits, kv') ← prefill_batched width (pad_rows pad_id width prompts) kv pads chunk
    decode_batch sample eos pad_id pads max_tokens logits kv'
        (map (λ p. record { output = []; finished = false }) prompts)
