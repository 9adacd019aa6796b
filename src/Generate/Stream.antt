-- ===== src/Generate/Stream.antt =====
-- `stream_generate` of src/nunspark/generate.py: `generate` token by token, on a store that may hold the
-- start of the prompt.
use nunspark.Base.{ℕ, List, [], Option, drop}
use nunspark.Generate.Engine.{Engine, ◌>>=◌, ◌>>◌, prefill, check_kv_quant_support, Request}
use nunspark.Generate.Greedy.{decode}

-- The tokens that the generator yields; `sample` is `_sample` at the temperature of the call.
unfoldable pub stream_generate : (e : Engine) → (e.Row → ℕ) → Request → e.Kv → Option (List ℕ)
stream_generate e sample q kv = do
  check_kv_quant_support e q.kv_quant
  (row, kv') ← prefill e (drop q.processed_tokens q.prompt) kv q.prefill_chunk
  decode e sample q.max_tokens row kv' []
