-- ===== src/KvStore/Payload.antt =====
-- The files of src/nunspark/kv_store.py: what `_evict_locked` writes for a layer, and `_load_cache`.
use nunspark.Base.{
  ℕ, zero, suc, ◌+◌, List, [], ◌∷◌, Option, none, some, Bool, true, false, length, get_elem?, ltb,
  if◌then◌else◌,
}
use nunspark.Generate.Engine.{◌>>=◌}
use nunspark.KvStore.Caches.{
  CacheLibrary, CacheKind, sliding, KvQuant, Cache, plain, window, quantized, cache_list,
  make_cache,
}

-- The names of the arrays in a file; `list_keys i` is the string of `list{i}_keys`.
pub data Name : Type 0 where
  list_n : Name
  list_keys : ℕ → Name
  list_values : ℕ → Name
  list_vshape : ℕ → Name
  qmeta : Name
  keys_q : Name
  keys_scales : Name
  keys_biases : Name
  values_q : Name
  values_scales : Name
  values_biases : Name
  keys : Name
  values : Name
  meta : Name

module _ (lib : CacheLibrary) where
  open lib use {Array, Plain}

  -- The dictionary of a safetensors file.
  abbrev pub Payload : Type 0
  Payload = Name → Option Array

  abbrev pub child_keys : Option Plain → Option Array
  child_keys none = none
  child_keys (some c) = some (lib.plain_state c).0

  abbrev pub child_values : Option Plain → Option Array
  child_values none = none
  child_values (some c) =
      if ltb 0 (lib.size (lib.plain_state c).1) then some (lib.plain_state c).1 else none

  abbrev pub child_vshape : Option Plain → Option Array
  child_vshape none = none
  child_vshape (some c) =
      if ltb 0 (lib.size (lib.plain_state c).1)
      then none
      else some (lib.ints (lib.shape (lib.plain_state c).1))

  -- Safetensors refuses empty arrays, so the shape of zero-width values is kept in their place.
  unfoldable pub list_payload : List Plain → Payload
  list_payload cs list_n = some (lib.ints (length cs ∷ []))
  list_payload cs (list_keys i) = child_keys (get_elem? cs i)
  list_payload cs (list_values i) = child_values (get_elem? cs i)
  list_payload cs (list_vshape i) = child_vshape (get_elem? cs i)
  list_payload cs _ = none

  unfoldable pub quantized_payload : lib.Quantized → Payload
  quantized_payload c keys_q = some (lib.quantized_state c).0.0
  quantized_payload c keys_scales = some (lib.quantized_state c).0.1
  quantized_payload c keys_biases = some (lib.quantized_state c).0.2
  quantized_payload c values_q = some (lib.quantized_state c).1.0
  quantized_payload c values_scales = some (lib.quantized_state c).1.1
  quantized_payload c values_biases = some (lib.quantized_state c).1.2
  quantized_payload c qmeta = some (lib.ints (lib.quantized_meta c))
  quantized_payload c _ = none

  -- Keys and values, and the numbers of a rotating layer.
  unfoldable pub state_payload : Array × Array → Option (List ℕ) → Payload
  state_payload s m keys = some s.0
  state_payload s m values = some s.1
  state_payload s none meta = none
  state_payload s (some numbers) meta = some (lib.ints numbers)
  state_payload s m _ = none

  -- `rotating` is `_is_rotating(layer)`. A KVCache has an empty `meta_state`.
  unfoldable pub save : Bool → Cache lib → Payload
  save rotating (cache_list cs) = list_payload cs
  save rotating (quantized c) = quantized_payload c
  save rotating (window c) =
      state_payload (lib.window_state c) (if rotating then some (lib.window_meta c) else none)
  save rotating (plain c) = state_payload (lib.plain_state c) (if rotating then some [] else none)

  -- The values of a child, or zero-width ones of the shape that is kept.
  abbrev pub values_or_zeros : Payload → ℕ → Array → Option Array → Option Array
  values_or_zeros d i k (some v) = some v
  values_or_zeros d i k none =
      d (list_vshape i) >>= λ vshape. some (lib.zeros (lib.to_ints vshape) k)

  -- The states of `n` children from child `i` on.
  unfoldable pub load_states : Payload → ℕ → ℕ → Option (List (Array × Array))
  load_states d i zero = some []
  load_states d i (suc n) = do
    k ← d (list_keys i)
    v ← values_or_zeros d i k (d (list_values i))
    rest ← load_states d (i + 1) n
    some ((k, v) ∷ rest)

  abbrev pub head : List ℕ → Option ℕ
  head [] = none
  head (x ∷ xs) = some x

  -- `none` is the exception of a missing array, or of a layer's kind that does not match.
  unfoldable pub load_list : Payload → Array → Option (Cache lib) → Option (Cache lib)
  load_list d count (some (cache_list cs)) = do
    n ← head (lib.to_ints count)
    states ← load_states d 0 n
    some (cache_list (lib.set_states states cs))
  load_list d count _ = none

  unfoldable pub load_quantized : Payload → Array → Option (Cache lib)
  load_quantized d numbers = do
    kq ← d keys_q
    ks ← d keys_scales
    kb ← d keys_biases
    vq ← d values_q
    vs ← d values_scales
    vb ← d values_biases
    some (
        quantized (
          lib.quantized_set_meta (lib.to_ints numbers)
            (lib.quantized_set ((kq, ks, kb), (vq, vs, vb)) lib.quantized_default)))

  unfoldable pub load_window : Payload → Array → Option (Cache lib) → Option (Cache lib)
  load_window d numbers (some (window c)) = do
    k ← d keys
    v ← d values
    some (window (lib.window_set_meta (lib.to_ints numbers) (lib.window_set (k, v) c)))
  load_window d numbers _ = none

  unfoldable pub load_plain : Payload → Option (Cache lib)
  load_plain d = do k ← d keys; v ← d values; some (plain (lib.plain_set (k, v) lib.plain_new))

  -- The chain of tests on the names in the file, for a fresh cache of the layer.
  abbrev pub load_by :
      Payload → Option (Cache lib) → Option Array → Option Array → Option Array → Option (Cache lib)
  load_by d fresh (some count) q m = load_list d count fresh
  load_by d fresh none (some numbers) m = load_quantized d numbers
  load_by d fresh none none (some numbers) = load_window d numbers fresh
  load_by d fresh none none none = load_plain d

  unfoldable pub load : Payload → Option (Cache lib) → Option (Cache lib)
  load d fresh = load_by d fresh (d list_n) (d qmeta) (d meta)

  module _ (cache_kinds : Option (List CacheKind)) (kv_quant : Option KvQuant) where
    abbrev pub kind_in : Option (List CacheKind) → ℕ → Option (Option CacheKind)
    kind_in none layer = some none
    kind_in (some kinds) layer = get_elem? kinds layer >>= λ kind. some (some kind)

    -- `_new_cache(layer)`; a layer beyond the kinds is an `IndexError`.
    unfoldable pub new_cache : ℕ → Option (Cache lib)
    new_cache layer = kind_in cache_kinds layer >>= λ kind. make_cache lib kind kv_quant

    abbrev pub is_sliding : Option (Option CacheKind) → Bool
    is_sliding (some (some (sliding w))) = true
    is_sliding _ = false

    -- `_is_rotating(layer)`.
    unfoldable pub is_rotating : ℕ → Bool
    is_rotating layer = is_sliding (kind_in cache_kinds layer)
