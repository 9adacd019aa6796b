-- ===== src/PieceCache/Ops.antt =====
-- The operations of src/nunspark/piece_cache.py that run under the lock, one function for each locked
-- block. A `get` is `get_enter`, then either a load by its own thread (`land`, `release`) or a wait
-- and `get_resume`; the worker takes a task by `worker_pick` and loads it in the same way.
use nunspark.Base.{
  ℕ, ◌+◌, ◌-◌, max, Bool, true, false, ◌&&◌, ◌||◌, List, [], ◌∷◌, Option, none, some, leb, ltb,
  if◌then◌else◌,
}
use nunspark.PieceCache.Pieces.{Pid, Weights, expert, piece_bytes, piece_class, is_expert}
use nunspark.PieceCache.Table.{member, discard, lookup, has, remove, assign, move_to_end}
use nunspark.PieceCache.State.{Cache, Staged, add_count}
use nunspark.PieceCache.Evict.{evict_locked}

-- `_region(pid)`.
unfoldable pub region : Cache → Pid → List (Pid × Weights)
region s pid = if is_expert pid then s.experts else s.resident

-- `begin_pass`: each staged piece whose epoch is over is dropped, and its bytes are counted wasted.
unfoldable pub stale_pids : ℕ → List (Pid × Staged) → List Pid
stale_pids epoch [] = []
stale_pids epoch ((pid, g) ∷ t) =
    let rest = stale_pids epoch t in if ltb g.epoch (epoch - 1) then pid ∷ rest else rest

unfoldable pub expire : Cache → Pid → Cache
expire s pid = elim (lookup pid s.staging) [
  | none ↦ s
  | some g ↦ record s {
    staging = remove pid s.staging;
    staging_bytes = s.staging_bytes - g.nbytes;
    speculative_wasted_bytes = s.speculative_wasted_bytes + g.nbytes;
  }
]

unfoldable pub expire_all : Cache → List Pid → Cache
expire_all s [] = s
expire_all s (pid ∷ pids) = expire_all (expire s pid) pids

unfoldable pub begin_pass : Cache → Cache
begin_pass s = expire_all (record s { epoch = s.epoch + 1 }) (stale_pids (s.epoch + 1) s.staging)

-- `peek`: a lookup that changes nothing.
unfoldable pub peek : Cache → Pid → Option Weights
peek s pid = elim (lookup pid (region s pid)) [
  | some w ↦ some w
  | none ↦ elim (lookup pid s.staging) [ none ↦ none | some g ↦ some g.weights ]
]

-- `self.peak_bytes = max(self.peak_bytes, self._bytes + self._staging_bytes)`.
unfoldable pub note_peak : Cache → Cache
note_peak s = record s { peak_bytes = max s.peak_bytes (s.bytes + s.staging_bytes) }

-- A hit in the region of the piece.
unfoldable pub touch : Cache → Pid → Cache
touch s pid =
    let counted = record s {
      hits = s.hits + 1;
      hits_by_class = add_count (piece_class pid) 1 s.hits_by_class;
    } in
    if is_expert pid
    then record counted { experts = move_to_end pid s.experts }
    else record counted { resident = move_to_end pid s.resident }

-- `_promote_staged`, from the staged entry that the caller found.
unfoldable pub promote_staged : Cache → Pid → Staged → Cache
promote_staged s pid g = evict_locked pid (
    note_peak (record s {
      staging = remove pid s.staging;
      staging_bytes = s.staging_bytes - g.nbytes;
      speculative_used = s.speculative_used + 1;
      experts = assign pid g.weights s.experts;
      expert_bytes = s.expert_bytes + g.nbytes;
      bytes = s.bytes + g.nbytes;
      split_active = true;
      hits = s.hits + 1;
      hits_by_class = add_count expert 1 s.hits_by_class;
    }))

-- What the first locked block of `get` decides.
pub data Entered : Type 0 where
  hit : Weights → Entered
  owner : Entered
  waits : Entered

unfoldable pub reserve : Cache → Pid → Cache
reserve s pid = record s {
  inflight = pid ∷ s.inflight;
  misses = s.misses + 1;
  misses_by_class = add_count (piece_class pid) 1 s.misses_by_class;
}

-- A `get` that joins a speculative load in flight makes it a demand load.
unfoldable pub join : Cache → Pid → Cache
join s pid =
    if member pid s.spec_pending
    then record s {
      speculative_used = s.speculative_used + 1;
      spec_pending = discard pid s.spec_pending;
    }
    else s

unfoldable pub get_miss : Cache → Pid → Cache × Entered
get_miss s pid = if member pid s.inflight then (join s pid, waits) else (reserve s pid, owner)

unfoldable pub get_staged : Cache → Pid → Cache × Entered
get_staged s pid = elim (lookup pid s.staging) [
  | some g ↦ (promote_staged s pid g, hit g.weights)
  | none ↦ get_miss s pid
]

unfoldable pub get_enter : Cache → Pid → Cache × Entered
get_enter s pid = elim (lookup pid (region s pid)) [
  | some w ↦ (touch s pid, hit w)
  | none ↦ get_staged s pid
]

-- The locked block after a wait; `none` sends the caller back to `get_enter`.
unfoldable pub get_resume : Cache → Pid → Cache × Option Weights
get_resume s pid = elim (lookup pid (region s pid)) [
  | some w ↦ (touch s pid, some w)
  | none ↦ (s, none)
]

-- The `while` loop of `_stage_locked` over the staged pieces, oldest first.
pub record Room : Type 0 where
  pub staging : List (Pid × Staged)
  pub bytes : ℕ
  pub wasted : ℕ

unfoldable pub make_room : ℕ → ℕ → ℕ → List (Pid × Staged) → Room
make_room cap nbytes used [] = record { staging = []; bytes = used; wasted = 0 }
make_room cap nbytes used ((pid, g) ∷ t) =
    let rest = make_room cap nbytes (used - g.nbytes) t in
    if leb (used + nbytes) cap
    then record { staging = (pid, g) ∷ t; bytes = used; wasted = 0 }
    else record rest { wasted = g.nbytes + rest.wasted }

unfoldable pub stage_locked : Cache → Pid → Weights → ℕ → Cache
stage_locked s pid w nbytes =
    let room = make_room s.staging_cap nbytes s.staging_bytes s.staging in
    if ltb s.staging_cap nbytes
    then record s { speculative_wasted_bytes = s.speculative_wasted_bytes + nbytes }
    else record s {
      staging = assign pid (record { weights = w; nbytes = nbytes; epoch = s.epoch }) room.staging;
      staging_bytes = room.bytes + nbytes;
      speculative_wasted_bytes = s.speculative_wasted_bytes + room.wasted;
    }

-- The insertion of a demand load.
unfoldable pub insert_demand : Cache → Pid → Weights → Cache
insert_demand s pid w =
    if is_expert pid
    then record s {
      experts = assign pid w s.experts;
      expert_bytes = s.expert_bytes + piece_bytes w;
      split_active = true;
      bytes = s.bytes + piece_bytes w;
    }
    else record s {
      resident = assign pid w s.resident;
      main_bytes = s.main_bytes + piece_bytes w;
      bytes = s.bytes + piece_bytes w;
    }

-- The locked block of `_materialize`, after the load of the weights, up to the eviction.
unfoldable pub arrive : Cache → Pid → Weights → Cache
arrive s pid w =
    let counted = record s {
      spec_pending = discard pid s.spec_pending;
      bytes_by_class = add_count (piece_class pid) (piece_bytes w) s.bytes_by_class;
    } in
    note_peak (
      if member pid s.spec_pending && is_expert pid
      then stage_locked counted pid w (piece_bytes w)
      else insert_demand counted pid w)

unfoldable pub land : Cache → Pid → Weights → Cache
land s pid w = evict_locked pid (arrive s pid w)

-- The `finally` of `_materialize`, after a load that landed or failed.
unfoldable pub release : Cache → Pid → Cache
release s pid = record s { inflight = discard pid s.inflight }

-- A task of `prefetch`, by whether it is speculative and whether there is a warm pool.
unfoldable pub issue : Bool → Bool → Pid → Cache → Cache
issue true warm pid s = record s {
  speculative_issued = s.speculative_issued + 1;
  spec_pending = pid ∷ s.spec_pending;
  queue = record { tier = 1; seq = s.next_seq; pid = pid } ∷ s.queue;
  next_seq = s.next_seq + 1;
}
issue false true pid s = record s {
  warming = record { tier = 0; seq = s.next_seq; pid = pid } ∷ s.warming;
  next_seq = s.next_seq + 1;
}
issue false false pid s = record s {
  queue = record { tier = 0; seq = s.next_seq; pid = pid } ∷ s.queue;
  next_seq = s.next_seq + 1;
}

-- One piece of `prefetch`.
unfoldable pub prefetch_one : Bool → Cache → Pid → Cache
prefetch_one speculative s pid =
    if has pid (region s pid) || member pid s.inflight || has pid s.staging
    then s
    else issue speculative s.warm_pool pid (reserve s pid)

unfoldable pub prefetch : Bool → Cache → List Pid → Cache
prefetch speculative s [] = s
prefetch speculative s (pid ∷ pids) = prefetch speculative (prefetch_one speculative s pid) pids

-- The locked block of `_run` for a task that it took: whether it loads the piece.
unfoldable pub worker_pick : Cache → Pid → Cache × Bool
worker_pick s pid =
    if has pid (region s pid) || has pid s.staging
    then (
      record s { inflight = discard pid s.inflight; spec_pending = discard pid s.spec_pending },
      false,
    )
    else if member pid s.inflight
    then (s, true)
    else (record s { spec_pending = discard pid s.spec_pending }, false)
