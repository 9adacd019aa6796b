-- ===== src/KvStore/Caches.antt =====
-- The per-layer caches of the tensor libraries, and the cache kinds of src/nunspark/archspec.py that
-- src/nunspark/kv_store.py makes them from.
use nunspark.Base.{ℕ, ◌+◌, List, [], ◌∷◌, Option, none, some, Bool, map, if◌then◌else◌, replicate}

-- Arrays, and the caches of mlx_lm: KVCache, RotatingKVCache and QuantizedKVCache. A `meta_state` is
-- the numbers that its strings spell. `has_keys` says that a cache has buffers. The children of a
-- CacheList are KVCaches, and `set_states` is the setter of its state.
pub record CacheLibrary : Type 1 where
  pub Array : Type 0
  pub size : Array → ℕ
  pub shape : Array → List ℕ
  pub zeros : List ℕ → Array → Array
  pub ints : List ℕ → Array
  pub to_ints : Array → List ℕ
  pub Plain : Type 0
  pub plain_new : Plain
  pub plain_has_keys : Plain → Bool
  pub plain_nbytes : Plain → ℕ
  pub plain_state : Plain → Array × Array
  pub plain_set : Array × Array → Plain → Plain
  pub plain_trim : ℕ → Plain → Plain
  pub Window : Type 0
  pub window_new : ℕ → Window
  pub window_has_keys : Window → Bool
  pub window_nbytes : Window → ℕ
  pub window_state : Window → Array × Array
  pub window_set : Array × Array → Window → Window
  pub window_meta : Window → List ℕ
  pub window_set_meta : List ℕ → Window → Window
  pub window_trim : ℕ → Window → Window
  pub Quantized : Type 0
  pub quantized_new : ℕ × ℕ → Quantized
  pub quantized_default : Quantized
  pub quantized_has_keys : Quantized → Bool
  pub quantized_nbytes : Quantized → ℕ
  pub quantized_state : Quantized → (Array × Array × Array) × (Array × Array × Array)
  pub quantized_set : (Array × Array × Array) × (Array × Array × Array) → Quantized → Quantized
  pub quantized_meta : Quantized → List ℕ
  pub quantized_set_meta : List ℕ → Quantized → Quantized
  pub quantized_trim : ℕ → Quantized → Quantized
  pub set_states : List (Array × Array) → List Plain → List Plain

-- `KV`, `Rotating(window)` and `Paired(n)`; any other value is unknown.
pub data CacheKind : Type 0 where
  kv : CacheKind
  sliding : ℕ → CacheKind
  pair_of : ℕ → CacheKind
  unknown : CacheKind

-- `KVQuant`, after its check of the bits.
pub record KvQuant : Type 0 where
  pub bits : ℕ
  pub group_size : ℕ

module _ (lib : CacheLibrary) where
  open lib use {Plain, Window, Quantized, Array}

  pub data Cache : Type 0 where
    plain : Plain → Cache
    window : Window → Cache
    quantized : Quantized → Cache
    cache_list : List Plain → Cache

  -- `none` is a `ValueError`.
  unfoldable pub make_cache : Option CacheKind → Option KvQuant → Option Cache
  make_cache none none = some (plain lib.plain_new)
  make_cache none (some q) = some (quantized (lib.quantized_new (q.group_size, q.bits)))
  make_cache (some kv) none = some (plain lib.plain_new)
  make_cache (some kv) (some q) = some (quantized (lib.quantized_new (q.group_size, q.bits)))
  make_cache (some (sliding w)) quant = some (window (lib.window_new w))
  make_cache (some (pair_of n)) none = some (cache_list (replicate n lib.plain_new))
  make_cache (some (pair_of n)) (some q) = none
  make_cache (some unknown) quant = none

  abbrev pub sum_nbytes : List Plain → ℕ
  sum_nbytes [] = 0
  sum_nbytes (c ∷ cs) = (if lib.plain_has_keys c then lib.plain_nbytes c else 0) + sum_nbytes cs

  -- `_cache_nbytes`.
  unfoldable pub cache_nbytes : Cache → ℕ
  cache_nbytes (plain c) = if lib.plain_has_keys c then lib.plain_nbytes c else 0
  cache_nbytes (window c) = if lib.window_has_keys c then lib.window_nbytes c else 0
  cache_nbytes (quantized c) = if lib.quantized_has_keys c then lib.quantized_nbytes c else 0
  cache_nbytes (cache_list cs) = sum_nbytes cs

  -- `cache.trim(n)`; a CacheList trims its children.
  unfoldable pub trim : ℕ → Cache → Cache
  trim n (plain c) = plain (lib.plain_trim n c)
  trim n (window c) = window (lib.window_trim n c)
  trim n (quantized c) = quantized (lib.quantized_trim n c)
  trim n (cache_list cs) = cache_list (map (lib.plain_trim n) cs)

  -- What a cache holds, whatever buffers it holds it in.
  pub data Contents : Type 0 where
    plain_of : Array × Array → Contents
    window_of : Array × Array → List ℕ → Contents
    quantized_of : (Array × Array × Array) × (Array × Array × Array) → List ℕ → Contents
    list_of : List (Array × Array) → Contents

  abbrev pub contents : Cache → Contents
  contents (plain c) = plain_of (lib.plain_state c)
  contents (window c) = window_of (lib.window_state c) (lib.window_meta c)
  contents (quantized c) = quantized_of (lib.quantized_state c) (lib.quantized_meta c)
  contents (cache_list cs) = list_of (map lib.plain_state cs)
