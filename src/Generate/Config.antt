-- ===== src/Generate/Config.antt =====
-- `get_optimal_config` of src/nunspark/generate.py.
use nunspark.Base.{ℕ, ◌&&◌, leb, ltb, if◌then◌else◌}

-- The `reason` strings.
pub data Reason : Type 0 where
  short_generation_overhead_dominates : Reason
  optimal_speculation_range : Reason
  degraded_acceptance_conservative_draft : Reason
  long_generation_minimal_draft : Reason

-- A dictionary of the function; without speculation it has no numbers.
pub data Config : Type 0 where
  no_speculation : Reason → Config
  speculation : ℕ → ℕ → Reason → Config

unfoldable pub get_optimal_config : ℕ → ℕ → Config
get_optimal_config prompt_tokens max_tokens =
    if ltb max_tokens 20
    then no_speculation short_generation_overhead_dominates
    else if leb max_tokens 50 && ltb prompt_tokens 50
    then speculation 40 512 optimal_speculation_range
    else if leb max_tokens 100
    then speculation 24 512 degraded_acceptance_conservative_draft
    else speculation 16 512 long_generation_minimal_draft
