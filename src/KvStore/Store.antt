-- ===== src/KvStore/Store.antt =====
-- `KVStore` of src/nunspark/kv_store.py: its state and its operations, one function for each block that
-- runs under the lock.
use nunspark.Base.{
  ℕ, ◌+◌, ◌-◌, List, [], ◌∷◌, ◌++◌, Option, none, some, Bool, true, false, ◌||◌, not, ◌==◌, leb,
  if◌then◌else◌, contains, reverse, max,
}
use nunspark.Generate.Engine.{◌>>=◌}
use nunspark.KvStore.Caches.{CacheLibrary, CacheKind, KvQuant, Cache, cache_nbytes, trim}
use nunspark.KvStore.Layers.{discard, lookup, remove, assign, move_to_end, each, layers, total}
use nunspark.KvStore.Payload.{Payload, save, load, new_cache, is_rotating}

module _ (lib : CacheLibrary) (cache_kinds : Option (List CacheKind))
    (kv_quant : Option KvQuant) where
  -- `offloaded` and `inflight` are sets; `files` is the scratch directory. An event of `inflight` is
  -- set when its layer is taken out.
  pub record KvStore : Type 0 where
    pub budget : ℕ
    pub prefetch_enabled : Bool
    pub resident : List (ℕ × Cache lib)
    pub offloaded : List ℕ
    pub files : ℕ → Option (Payload lib)
    pub inflight : List ℕ
    pub queue : List ℕ
    pub peak_bytes : ℕ
    pub hits : ℕ
    pub misses : ℕ

  -- The constructor.
  unfoldable pub open_store : ℕ → Bool → KvStore
  open_store budget prefetch_enabled = record {
    budget = budget;
    prefetch_enabled = prefetch_enabled;
    resident = [];
    offloaded = [];
    files = λ layer. none;
    inflight = [];
    queue = [];
    peak_bytes = 0;
    hits = 0;
    misses = 0;
  }

  abbrev pub load_file : Bool → ℕ → Option (Payload lib) → Option (Cache lib)
  load_file false layer file = new_cache lib cache_kinds kv_quant layer
  load_file true layer none = none
  load_file true layer (some d) = load lib d (new_cache lib cache_kinds kv_quant layer)

  -- `_load_cache`: `none` is an exception.
  unfoldable pub load_cache : ℕ → KvStore → Option (Cache lib)
  load_cache layer s = load_file (contains layer s.offloaded) layer (s.files layer)

  -- An empty cache is dropped: it is as a new one.
  abbrev pub pop_empty : ℕ → KvStore → KvStore
  pop_empty layer s = record s { resident = remove layer s.resident }

  abbrev pub write_file : ℕ → Payload lib → (ℕ → Option (Payload lib)) → ℕ → Option (Payload lib)
  write_file layer d files x = if x == layer then some d else files x

  unfoldable pub offload : ℕ → Cache lib → KvStore → KvStore
  offload layer cache s = record s {
    files = write_file layer (save lib (is_rotating lib cache_kinds kv_quant layer) cache) s.files;
    resident = remove layer s.resident;
    offloaded = layer ∷ discard layer s.offloaded;
  }

  -- The body of the eviction loop, after its first test. The layers of the loop are resident, since
  -- the loop takes out only layers that it has passed.
  abbrev pub evict_found : ℕ → Option (Cache lib) → ℕ × KvStore → ℕ × KvStore
  evict_found layer none (held, s) = (held, s)
  evict_found layer (some cache) (held, s) =
      if cache_nbytes lib cache == 0
      then (held, pop_empty layer s)
      else (held - cache_nbytes lib cache, offload layer cache s)

  unfoldable pub evict_one : ℕ → ℕ → ℕ × KvStore → ℕ × KvStore
  evict_one protect layer (held, s) =
      if layer == protect then (held, s) else evict_found layer (lookup layer s.resident) (held, s)

  -- The layers that are left, and the resident bytes.
  unfoldable pub evict_scan : ℕ → List ℕ → ℕ × KvStore → KvStore
  evict_scan protect [] (held, s) = s
  evict_scan protect (layer ∷ ls) (held, s) =
      let rest = evict_scan protect ls (evict_one protect layer (held, s)) in
      if leb held s.budget then s else rest

  unfoldable pub resident_bytes : KvStore → ℕ
  resident_bytes s = total (cache_nbytes lib) s.resident

  -- `_evict_locked`: most recently used layers go first.
  unfoldable pub evict_locked : ℕ → KvStore → KvStore
  evict_locked protect s =
      evict_scan protect (reverse (layers s.resident))
        (resident_bytes s, record s { peak_bytes = max s.peak_bytes (resident_bytes s) })

  -- How the first block of `get` ends: with a cache, as the owner of a load, or as a waiter on
  -- another thread's load.
  pub data Entered : Type 0 where
    hit : Cache lib → KvStore → Entered
    owner : KvStore → Entered
    waiter : Entered

  abbrev pub enter_found : ℕ → Option (Cache lib) → KvStore → Entered
  enter_found layer (some cache) s = hit cache (
      evict_locked layer
        (record s { resident = move_to_end layer cache s.resident; hits = s.hits + 1 }))
  enter_found layer none s =
      if contains layer s.inflight
      then waiter
      else owner (record s { inflight = layer ∷ s.inflight; misses = s.misses + 1 })

  unfoldable pub get_enter : ℕ → KvStore → Entered
  get_enter layer s = enter_found layer (lookup layer s.resident) s

  -- The locked blocks of `_materialize`, for a cache that was loaded; `evict` is its argument.
  unfoldable pub land : Bool → ℕ → Cache lib → KvStore → KvStore
  land evict layer cache s =
      let landed : KvStore = record s {
        resident = assign layer cache s.resident;
        offloaded = discard layer s.offloaded;
      } in
      let kept = if evict then evict_locked layer landed else landed in
      record kept { inflight = discard layer kept.inflight }

  -- The `finally` of `_materialize` after a load that failed.
  unfoldable pub give_up : ℕ → KvStore → KvStore
  give_up layer s = record s { inflight = discard layer s.inflight }

  abbrev pub materialize : Bool → ℕ → KvStore → Option (Cache lib × KvStore)
  materialize evict layer s = load_cache layer s >>= λ cache. some (cache, land evict layer cache s)

  abbrev pub finish_get : ℕ → Entered → Option (Cache lib × KvStore)
  finish_get layer (hit cache s) = some (cache, s)
  finish_get layer (owner s) = materialize true layer s
  finish_get layer waiter = none

  -- `get` where no other thread moves: `none` is a wait for another thread's load, or an exception.
  unfoldable pub get : ℕ → KvStore → Option (Cache lib × KvStore)
  get layer s = finish_get layer (get_enter layer s)

  abbrev pub is_some : Option (Cache lib) → Bool
  is_some none = false
  is_some (some c) = true

  unfoldable pub prefetch_one : ℕ → KvStore → KvStore
  prefetch_one layer s =
      if not (contains layer s.offloaded)
      then s
      else if is_some (lookup layer s.resident) || contains layer s.inflight
      then s
      else record s {
        inflight = layer ∷ s.inflight;
        misses = s.misses + 1;
        queue = s.queue ++ layer ∷ [];
      }

  unfoldable pub prefetch_each : List ℕ → KvStore → KvStore
  prefetch_each [] s = s
  prefetch_each (layer ∷ ls) s = prefetch_each ls (prefetch_one layer s)

  unfoldable pub prefetch : List ℕ → KvStore → KvStore
  prefetch ls s = if s.prefetch_enabled then prefetch_each ls s else s

  -- What the worker does with the head of its queue: `some` is a layer that it goes on to load.
  unfoldable pub worker_take : KvStore → Option ℕ × KvStore
  worker_take s = elim s.queue [
    | [] ↦ (none, s)
    | layer ∷ ls ↦
        if is_some (lookup layer s.resident)
        then (none, record s { queue = ls; inflight = discard layer s.inflight })
        else if contains layer s.inflight
        then (some layer, record s { queue = ls })
        else (none, record s { queue = ls })
  ]

  -- The loop of `truncate` over the offloaded layers.
  unfoldable pub reload_each : List ℕ → KvStore → Option KvStore
  reload_each [] s = some s
  reload_each (layer ∷ ls) s = load_cache layer s >>= λ cache.
      reload_each ls (record s {
        resident = assign layer cache s.resident;
        offloaded = discard layer s.offloaded;
      })

  -- `truncate`: a negative `n` is as 0.
  unfoldable pub truncate : ℕ → KvStore → Option KvStore
  truncate n s =
      if n == 0
      then some s
      else reload_each s.offloaded s >>= λ t.
          some (record t { resident = each (trim lib n) t.resident })

  unfoldable pub resident_ids : KvStore → List ℕ
  resident_ids s = layers s.resident
