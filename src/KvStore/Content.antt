-- ===== src/KvStore/Content.antt =====
-- What the layers of the store of src/nunspark/kv_store.py hold, wherever they are kept, and what the
-- steps of an eviction leave of it.
use nunspark.Base.{
  ℕ, ◌≡◌, refl, sym, ap, ◌∙◌, List, Option, none, some, true, false, ◌==◌, if◌then◌else◌, contains,
  arith, Bool-cases, inl, inr, ==_iff,
}
use nunspark.KvStore.Caches.{
  CacheLibrary, CacheKind, KvQuant, Cache, Contents, contents, cache_nbytes, trim,
}
use nunspark.KvStore.Layers.{
  lookup, lookup-remove, contains-discard, IsDistinct, discard-IsDistinct,
}
use nunspark.KvStore.Payload.{save, load, new_cache, is_rotating}
use nunspark.KvStore.Roundtrip.{CacheLaws, Fits, load-save}
use nunspark.KvStore.Store.{KvStore, load_cache, offload}

-- What the libraries guarantee of the caches of a layer: `IsOf` says that a cache was made for the
-- layer. A cache without buffers holds what a new one holds.
pub record LayerLaws (lib : CacheLibrary) (laws : CacheLaws lib)
    (cache_kinds : Option (List CacheKind)) (kv_quant : Option KvQuant) : Type 1 where
  pub IsOf : ℕ → Cache lib → Type 0
  pub of_new :
      (layer : ℕ) (c : Cache lib) → new_cache lib cache_kinds kv_quant layer ≡ some c → IsOf layer c
  pub of_fits :
      (layer : ℕ) (c : Cache lib)
      → IsOf layer c
      → Fits laws
          (is_rotating lib cache_kinds kv_quant layer)
          (new_cache lib cache_kinds kv_quant layer)
          c
  pub of_loaded :
      (layer : ℕ) (c c' : Cache lib)
      → IsOf layer c
      → load lib
          (save lib (is_rotating lib cache_kinds kv_quant layer) c)
          (new_cache lib cache_kinds kv_quant layer)
        ≡ some c'
      → IsOf layer c'
  pub of_trim : (layer n : ℕ) (c : Cache lib) → IsOf layer c → IsOf layer (trim lib n c)
  pub of_blank :
      (layer : ℕ) (c : Cache lib)
      → IsOf layer c
      → cache_nbytes lib c ≡ 0
      → (c0 : Cache lib) × (new_cache lib cache_kinds kv_quant layer ≡ some c0)
        × (contents lib c0 ≡ contents lib c)

module _ {lib : CacheLibrary} {laws : CacheLaws lib} {cache_kinds : Option (List CacheKind)}
    {kv_quant : Option KvQuant} (ll : LayerLaws lib laws cache_kinds kv_quant) where
  open ll use {IsOf}

  abbrev State : Type 0
  State = KvStore lib cache_kinds kv_quant

  abbrev pub or_loaded : Option (Cache lib) → Option (Cache lib) → Option (Cache lib)
  or_loaded none loaded = loaded
  or_loaded (some c) loaded = some c

  -- The cache of a layer: the resident one, or else the one that a load would give.
  abbrev pub cache_at : ℕ → State → Option (Cache lib)
  cache_at layer s =
      or_loaded (lookup layer s.resident) (load_cache lib cache_kinds kv_quant layer s)

  abbrev pub contents_of : Option (Cache lib) → Option (Contents lib)
  contents_of none = none
  contents_of (some c) = some (contents lib c)

  abbrev pub content_at : ℕ → State → Option (Contents lib)
  content_at layer s = contents_of (cache_at layer s)

  -- The caches are of their layers, a resident layer is not offloaded, and an offloaded one can be
  -- loaded.
  pub record IsSound (s : State) : Type 0 where
    pub of_layer : (layer : ℕ) (c : Cache lib) → lookup layer s.resident ≡ some c → IsOf layer c
    pub apart :
        (layer : ℕ) (c : Cache lib)
        → lookup layer s.resident ≡ some c
        → contains layer s.offloaded ≡ false
    pub stored :
        (layer : ℕ)
        → contains layer s.offloaded ≡ true
        → (c : Cache lib) × (load_cache lib cache_kinds kv_quant layer s ≡ some c) × IsOf layer c
    pub distinct : IsDistinct s.offloaded

  -- `t` holds what `s` holds.
  pub record Keeps (s t : State) : Type 0 where
    pub sound : IsSound t
    pub same : (x : ℕ) → content_at x t ≡ content_at x s

  abbrev offloading : ℕ → Cache lib → State → State
  offloading layer c s = offload lib cache_kinds kv_quant layer c s

  offload-lookup :
      (layer : ℕ) (c : Cache lib) (s : State) (x : ℕ)
      → lookup x (offloading layer c s).resident
        ≡ (if x == layer then none else lookup x s.resident)
  unfolding offload
  offload-lookup layer c s x = lookup-remove x layer s.resident

  offload-contains :
      (layer : ℕ) (c : Cache lib) (s : State) (x : ℕ)
      → contains x (offloading layer c s).offloaded
        ≡ (if x == layer then true else contains x s.offloaded)
  unfolding offload contains
  offload-contains layer c s x = ground (arith, contains-discard x layer s.offloaded)

  offload-load_other :
      (layer : ℕ) (c : Cache lib) (s : State) (x : ℕ)
      → (x == layer) ≡ false
      → load_cache lib cache_kinds kv_quant x (offloading layer c s)
        ≡ load_cache lib cache_kinds kv_quant x s
  unfolding load_cache offload contains
  offload-load_other layer c s x other =
      rw (other, contains-discard x layer s.offloaded, other) refl

  offload-load_self :
      (layer : ℕ) (c : Cache lib) (s : State)
      → load_cache lib cache_kinds kv_quant layer (offloading layer c s)
        ≡ load lib
            (save lib (is_rotating lib cache_kinds kv_quant layer) c)
            (new_cache lib cache_kinds kv_quant layer)
  unfolding load_cache offload contains
  offload-load_self layer c s = let self : (layer == layer) ≡ true = ground arith in rw self refl

  -- Writing a resident layer to its file and dropping it from memory loses nothing.
  pub offload-Keeps :
      (layer : ℕ) (c : Cache lib) (s : State)
      → IsSound s
      → lookup layer s.resident ≡ some c
      → Keeps s (offloading layer c s)
  unfolding offload
  offload-Keeps layer c s i here = record {
    sound = record {
      of_layer = λ x d found. elim (Bool-cases (x == layer)) [
        | inl same ↦ absurd (gone x d same found)
        | inr other ↦ i.of_layer x d (sym (kept x other) ∙ found)
      ];
      apart = λ x d found. elim (Bool-cases (x == layer)) [
        | inl same ↦ absurd (gone x d same found)
        | inr other ↦
            (offload-contains layer c s x ∙ rw other refl)
            ∙ i.apart x d (sym (kept x other) ∙ found)
      ];
      stored = λ x listed. elim (Bool-cases (x == layer)) [
        | inl same ↦ written x ((==_iff x layer).0 same)
        | inr other ↦
            let before : contains x s.offloaded ≡ true =
              sym (offload-contains layer c s x ∙ rw other refl) ∙ listed in
            let (d, found, of) = i.stored x before in
            (d, offload-load_other layer c s x other ∙ found, of)
      ];
      distinct = listed_once;
    };
    same = λ x. elim (Bool-cases (x == layer)) [
      | inl same ↦ read x ((==_iff x layer).0 same)
      | inr other ↦ rw (kept x other, offload-load_other layer c s x other) refl
    ];
  }
    where
      listed_once : IsDistinct (offloading layer c s).offloaded
      listed_once =
          let self : (layer == layer) ≡ true = ground arith in
          (
            contains-discard layer layer s.offloaded ∙ rw self refl,
            discard-IsDistinct layer s.offloaded i.distinct,
          )

      of : IsOf layer c
      of = i.of_layer layer c here

      saved :
          (c' : Cache lib) × (load lib
              (save lib (is_rotating lib cache_kinds kv_quant layer) c)
              (new_cache lib cache_kinds kv_quant layer)
            ≡ some c')
          × (contents lib c' ≡ contents lib c)
          × Fits laws
              (is_rotating lib cache_kinds kv_quant layer)
              (new_cache lib cache_kinds kv_quant layer)
              c'
      saved = load-save laws _ _ c (ll.of_fits layer c of)

      kept :
          (x : ℕ)
          → (x == layer) ≡ false
          → lookup x (offloading layer c s).resident ≡ lookup x s.resident
      kept x other = offload-lookup layer c s x ∙ rw other refl

      gone :
          (x : ℕ) (d : Cache lib)
          → (x == layer) ≡ true
          → lookup x (offloading layer c s).resident ≡ some d
          → ⊥
      gone x d same found =
          let none_there : lookup x (offloading layer c s).resident ≡ none =
            offload-lookup layer c s x ∙ rw same refl in
          ground arith

      written :
          (x : ℕ)
          → x ≡ layer
          → (d : Cache lib) × (load_cache lib cache_kinds kv_quant x (offloading layer c s)
              ≡ some d)
            × IsOf x d
      written x e =
          rw e (
            saved.0,
            offload-load_self layer c s ∙ saved.1,
            ll.of_loaded layer c saved.0 of saved.1,
          )

      read : (x : ℕ) → x ≡ layer → content_at x (offloading layer c s) ≡ content_at x s
      read x e =
          let self : (layer == layer) ≡ true = ground arith in
          let none_there : lookup layer (offloading layer c s).resident ≡ none =
            offload-lookup layer c s layer ∙ rw self refl in
          rw e (rw (none_there, offload-load_self layer c s, saved.1, here) (ap some saved.2))
