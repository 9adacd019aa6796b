-- ===== src/KvStore/Roundtrip.antt =====
-- A layer's cache through its file: `_evict_locked` writes it, `_load_cache` reads it.
use nunspark.Base.{
  ℕ, suc, ◌+◌, ◌≡◌, refl, sym, ap, ◌∙◌, List, [], ◌∷◌, Option, some, Bool, true, false, length, map,
  get_elem?, ltb, arith, Bool-cases, inl, inr, ltb-false→le,
}
use nunspark.KvStore.Caches.{
  CacheLibrary, Cache, plain, window, quantized, cache_list, contents, plain_of, list_of,
}
use nunspark.KvStore.Payload.{
  list_values, save, load, list_payload, quantized_payload, state_payload, load_states, load_list,
  load_quantized, load_window, load_plain, values_or_zeros,
}

-- The documented behaviour of the libraries. `IsLike` says of two arrays that they have one type.
pub record CacheLaws (lib : CacheLibrary) : Type 1 where
  pub to_ints-ints : (xs : List ℕ) → lib.to_ints (lib.ints xs) ≡ xs
  pub IsLike : lib.Array → lib.Array → Type 0
  pub zeros_like : (k v : lib.Array) → lib.size v ≡ 0 → IsLike k v → lib.zeros (lib.shape v) k ≡ v
  pub plain_state_set :
      (x : lib.Array × lib.Array) (c : lib.Plain) → lib.plain_state (lib.plain_set x c) ≡ x
  pub plain_like : (c : lib.Plain) → IsLike (lib.plain_state c).0 (lib.plain_state c).1
  pub window_restored :
      (c c0 : lib.Window)
      → lib.window_state
          (lib.window_set_meta (lib.window_meta c) (lib.window_set (lib.window_state c) c0))
        ≡ lib.window_state c
  pub window_meta_set :
      (m : List ℕ) (c : lib.Window) → lib.window_meta (lib.window_set_meta m c) ≡ m
  pub quantized_restored :
      (c c0 : lib.Quantized)
      → lib.quantized_state (
          lib.quantized_set_meta
            (lib.quantized_meta c)
            (lib.quantized_set (lib.quantized_state c) c0))
        ≡ lib.quantized_state c
  pub quantized_meta_set :
      (m : List ℕ) (c : lib.Quantized) → lib.quantized_meta (lib.quantized_set_meta m c) ≡ m
  pub states_set :
      (xs : List (lib.Array × lib.Array)) (cs : List lib.Plain)
      → length xs ≡ length cs
      → map lib.plain_state (lib.set_states xs cs) ≡ xs

length-map {ℓ κ} :
    {A : Type ℓ} {B : Type κ} (f : A → B) (xs : List A) → length (map f xs) ≡ length xs
length-map f [] = refl
length-map f (x ∷ xs) = ap suc (length-map f xs)

-- Beyond the first `i` children come `rest`.
abbrev IsTail {ℓ} : {A : Type ℓ} → List A → ℕ → List A → Type ℓ
IsTail xs i rest = (j : ℕ) → get_elem? xs (i + j) ≡ get_elem? rest j

module _ {lib : CacheLibrary} (laws : CacheLaws lib) where
  open lib use {Array, Plain}
  open laws use {to_ints-ints, zeros_like, plain_like}

  -- A cache is of the layer's kind: `rotating` is `_is_rotating`, `fresh` the layer's new cache.
  abbrev pub Fits : Bool → Option (Cache lib) → Cache lib → Type 0
  Fits rotating fresh (plain c) = rotating ≡ false
  Fits rotating fresh (quantized c) = Unit {0}
  Fits rotating fresh (window c) =
      (rotating ≡ true) × ((w : lib.Window) × (fresh ≡ some (window w)))
  Fits rotating fresh (cache_list cs) =
      (ds : List Plain) × (fresh ≡ some (cache_list ds)) × (length cs ≡ length ds)

  values_loaded :
      (cs : List Plain) (i : ℕ) (c : Plain)
      → get_elem? cs i ≡ some c
      → values_or_zeros lib
          (list_payload lib cs)
          i
          (lib.plain_state c).0
          (list_payload lib cs (list_values i))
        ≡ some (lib.plain_state c).1
  unfolding list_payload
  values_loaded cs i c e = elim (Bool-cases (ltb 0 (lib.size (lib.plain_state c).1))) [
    | inl some_values ↦ rw (e, some_values) refl
    | inr no_values ↦
        let empty : lib.size (lib.plain_state c).1 ≡ 0 =
          omega (arith, ltb-false→le 0 (lib.size (lib.plain_state c).1) no_values) in
        rw (e, no_values, e, no_values, to_ints-ints)
          (ap some (zeros_like (lib.plain_state c).0 (lib.plain_state c).1 empty (plain_like c)))
  ]

  states_loaded :
      (cs : List Plain) (i : ℕ) (rest : List Plain)
      → IsTail cs i rest
      → load_states lib (list_payload lib cs) i (length rest) ≡ some (map lib.plain_state rest)
  unfolding load_states list_payload
  states_loaded cs i [] tail = refl
  states_loaded cs i (c ∷ rest) tail =
      let here : get_elem? cs i ≡ some c = ap (get_elem? cs) (omega (arith)) ∙ tail 0 in
      let values = values_loaded cs i c here in
      let later =
        states_loaded cs (i + 1) rest (λ j. ap (get_elem? cs) (omega (arith)) ∙ tail (suc j)) in
      let values' = rw here at values in rw (here, values', later) refl

  -- A cache of the layer's kind, written to the layer's file and read back, holds what it held and
  -- is of the layer's kind: also where the values of a child have width zero.
  pub load-save :
      (rotating : Bool) (fresh : Option (Cache lib)) (c : Cache lib)
      → Fits rotating fresh c
      → (c' : Cache lib) × (load lib (save lib rotating c) fresh ≡ some c')
        × (contents lib c' ≡ contents lib c)
        × Fits rotating fresh c'
  unfolding load save load_plain load_window load_quantized load_list state_payload
      quantized_payload list_payload
  load-save rotating fresh (plain c) f = rw f (
    plain (lib.plain_set (lib.plain_state c) lib.plain_new),
    refl,
    ap plain_of (laws.plain_state_set (lib.plain_state c) lib.plain_new),
    refl,
  )
  load-save rotating fresh (quantized c) f = (
    quantized (
        lib.quantized_set_meta (lib.quantized_meta c)
          (lib.quantized_set (lib.quantized_state c) lib.quantized_default)),
    rw to_ints-ints refl,
    rw (laws.quantized_restored c lib.quantized_default, laws.quantized_meta_set) refl,
    tt,
  )
  load-save rotating fresh (window c) (r, (w, e)) =
      rw (r, e)
        (
          window (lib.window_set_meta (lib.window_meta c) (lib.window_set (lib.window_state c) w)),
          rw to_ints-ints refl,
          rw (laws.window_restored c w, laws.window_meta_set) refl,
          (refl, (w, refl)),
        )
  load-save rotating fresh (cache_list cs) (ds, e, same) =
      let states = map lib.plain_state cs in
      let kept = laws.states_set states ds (length-map lib.plain_state cs ∙ same) in
      let loaded = states_loaded cs 0 cs (λ j. ap (get_elem? cs) (omega arith)) in
      rw e (
        cache_list (lib.set_states states ds),
        list_loaded loaded,
        ap list_of kept,
        (
          ds,
          refl,
          sym (length-map lib.plain_state (lib.set_states states ds))
              ∙ ap length kept
              ∙ length-map lib.plain_state cs
              ∙ same,
        ),
      )
    where
      list_loaded :
          {ds : List Plain}
          → load_states lib (list_payload lib cs) 0 (length cs) ≡ some (map lib.plain_state cs)
          → load lib (list_payload lib cs) (some (cache_list ds))
            ≡ some (cache_list (lib.set_states (map lib.plain_state cs) ds))
      list_loaded h = rw (to_ints-ints, h) refl
