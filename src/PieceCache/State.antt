-- ===== src/PieceCache/State.antt =====
-- The fields of a PieceCache, and its constructor (src/nunspark/piece_cache.py). `resident` and
-- `experts` are the two regions, `staging` the buffer of speculative loads. `inflight` holds the ids
-- that are reserved; `queue` is the priority queue of the worker.
use nunspark.Base.{ℕ, ◌+◌, Bool, false, List, [], Option, none, some}
use nunspark.PieceCache.Pieces.{Pid, Weights, PieceClass, dense, core, expert}

-- A counter for each class.
pub record ByClass : Type 0 where
  pub dense_count : ℕ
  pub core_count : ℕ
  pub expert_count : ℕ

abbrev pub no_counts : ByClass
no_counts = record { dense_count = 0; core_count = 0; expert_count = 0 }

-- `counts[cls] += n`.
unfoldable pub add_count : PieceClass → ℕ → ByClass → ByClass
add_count dense n c = record c { dense_count = c.dense_count + n }
add_count core n c = record c { core_count = c.core_count + n }
add_count expert n c = record c { expert_count = c.expert_count + n }

-- A staged piece: its weights, their bytes, and the epoch of its insertion.
pub record Staged : Type 0 where
  pub weights : Weights
  pub nbytes : ℕ
  pub epoch : ℕ

-- An entry of the queue: its tier (0 demand, 1 speculative), its number and its piece.
pub record Task : Type 0 where
  pub tier : ℕ
  pub seq : ℕ
  pub pid : Pid

pub record Cache : Type 0 where
  pub budget : ℕ
  pub expert_budget : ℕ
  pub pinned : List Pid
  pub resident : List (Pid × Weights)
  pub experts : List (Pid × Weights)
  pub bytes : ℕ
  pub main_bytes : ℕ
  pub expert_bytes : ℕ
  pub split_active : Bool
  pub inflight : List Pid
  pub peak_bytes : ℕ
  pub hits : ℕ
  pub misses : ℕ
  pub hits_by_class : ByClass
  pub misses_by_class : ByClass
  pub bytes_by_class : ByClass
  pub speculative_issued : ℕ
  pub speculative_used : ℕ
  pub speculative_wasted_bytes : ℕ
  pub spec_pending : List Pid
  pub epoch : ℕ
  pub staging : List (Pid × Staged)
  pub staging_bytes : ℕ
  pub staging_cap : ℕ
  pub queue : List Task
  pub next_seq : ℕ
  -- The warm pool is there, and the demand prefetches that it still has to hand to the queue.
  pub warm_pool : Bool
  pub warming : List Task

-- The constructor. `expert_budget` is `int(budget * expert_frac)` and `default_cap` is
-- `int(expert_budget * 0.2)`, the two products of floats.
unfoldable pub init : ℕ → ℕ → ℕ → List Pid → Option ℕ → Bool → Cache
init budget expert_budget default_cap pinned spec_staging_bytes warm_pool = record {
  budget = budget;
  expert_budget = expert_budget;
  pinned = pinned;
  resident = [];
  experts = [];
  bytes = 0;
  main_bytes = 0;
  expert_bytes = 0;
  split_active = false;
  inflight = [];
  peak_bytes = 0;
  hits = 0;
  misses = 0;
  hits_by_class = no_counts;
  misses_by_class = no_counts;
  bytes_by_class = no_counts;
  speculative_issued = 0;
  speculative_used = 0;
  speculative_wasted_bytes = 0;
  spec_pending = [];
  epoch = 0;
  staging = [];
  staging_bytes = 0;
  staging_cap = elim spec_staging_bytes [ none ↦ default_cap | some n ↦ n ];
  queue = [];
  next_seq = 0;
  warm_pool = warm_pool;
  warming = [];
}
