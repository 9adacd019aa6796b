-- ===== src/KvStore/Gets.antt =====
-- `get` of src/nunspark/kv_store.py, and the landing of a load.
use nunspark.Base.{
  ℕ, ◌+◌, ◌≡◌, refl, sym, ap, subst, ◌∙◌, List, ◌∷◌, Option, none, some, Bool, true, false, ◌==◌,
  contains, arith, Bool-cases, inl, inr, ==_iff,
}
use nunspark.KvStore.Caches.{CacheLibrary, CacheKind, KvQuant, Cache, Contents, contents}
use nunspark.KvStore.Layers.{
  discard, lookup, assign, move_to_end, lookup-assign, lookup-move_to_end, contains-discard,
  discard-IsDistinct,
}
use nunspark.KvStore.Roundtrip.{CacheLaws}
use nunspark.KvStore.Store.{
  KvStore, open_store, load_cache, evict_locked, hit, get_enter, enter_found, finish_get, land, get,
}
use nunspark.KvStore.Content.{LayerLaws, IsSound, Keeps, cache_at, content_at, contents_of}
use nunspark.KvStore.Kept.{Keeps-trans, fields-Keeps, evict_locked-Spares}

module _ {lib : CacheLibrary} {laws : CacheLaws lib} {cache_kinds : Option (List CacheKind)}
    {kv_quant : Option KvQuant} (ll : LayerLaws lib laws cache_kinds kv_quant) where
  open ll use {IsOf}

  abbrev pub State : Type 0
  State = KvStore lib cache_kinds kv_quant

  -- A layer that was loaded is made resident.
  abbrev pub landed : ℕ → Cache lib → State → State
  landed layer c s = record s {
    resident = assign layer c s.resident;
    offloaded = discard layer s.offloaded;
  }

  -- What a load gives is a cache of its layer.
  pub loaded-IsOf :
      (layer : ℕ) (c : Cache lib) (s : State)
      → IsSound ll s
      → load_cache lib cache_kinds kv_quant layer s ≡ some c
      → IsOf layer c
  unfolding load_cache
  loaded-IsOf layer c s i loaded = elim (Bool-cases (contains layer s.offloaded)) [
    | inl listed ↦
        let (d, found, of) = i.stored layer listed in
        let same : d ≡ c = one d (sym found ∙ loaded) in subst (IsOf layer) same of
    | inr fresh ↦ ll.of_new layer c (rw fresh at loaded)
  ]
    where
      one : (d : Cache lib) → (some d ≡ some c) → d ≡ c
      one d e = cc

  pub landed-load_other :
      (layer : ℕ) (c : Cache lib) (s : State) (x : ℕ)
      → (x == layer) ≡ false
      → load_cache lib cache_kinds kv_quant x (landed layer c s)
        ≡ load_cache lib cache_kinds kv_quant x s
  unfolding load_cache
  landed-load_other layer c s x other = rw (contains-discard x layer s.offloaded, other) refl

  -- A layer that is not resident, once loaded, is read from memory as it was read before.
  pub landed-cache_at :
      (layer : ℕ) (c : Cache lib) (s : State)
      → lookup layer s.resident ≡ none
      → load_cache lib cache_kinds kv_quant layer s ≡ some c
      → (x : ℕ) → cache_at ll x (landed layer c s) ≡ cache_at ll x s
  landed-cache_at layer c s away loaded x = elim (Bool-cases (x == layer)) [
    | inl same ↦ self ((==_iff x layer).0 same)
    | inr other ↦
        rw (lookup-assign x layer c s.resident, other, landed-load_other layer c s x other) refl
  ]
    where
      self : x ≡ layer → cache_at ll x (landed layer c s) ≡ cache_at ll x s
      self e =
          let own : (layer == layer) ≡ true = ground arith in
          rw e (rw (lookup-assign layer layer c s.resident, own, away, loaded) refl)

  pub landed-IsSound :
      (layer : ℕ) (c : Cache lib) (s : State)
      → IsSound ll s
      → IsOf layer c
      → IsSound ll (landed layer c s)
  landed-IsSound layer c s i of = record {
    of_layer = λ x d found. elim (Bool-cases (x == layer)) [
      | inl same ↦
          own x d ((==_iff x layer).0 same)
            (sym (lookup-assign x layer c s.resident ∙ rw same refl) ∙ found)
      | inr other ↦
          i.of_layer x d (sym (lookup-assign x layer c s.resident ∙ rw other refl) ∙ found)
    ];
    apart = λ x d found. elim (Bool-cases (x == layer)) [
      | inl same ↦ contains-discard x layer s.offloaded ∙ rw same refl
      | inr other ↦
          (contains-discard x layer s.offloaded ∙ rw other refl)
          ∙ i.apart x d (sym (lookup-assign x layer c s.resident ∙ rw other refl) ∙ found)
    ];
    stored = λ x listed. elim (Bool-cases (x == layer)) [
      | inl same ↦ absurd (out x same listed)
      | inr other ↦
          let (d, found, d_of) =
            i.stored x (sym (contains-discard x layer s.offloaded ∙ rw other refl) ∙ listed) in
          (d, landed-load_other layer c s x other ∙ found, d_of)
    ];
    distinct = discard-IsDistinct layer s.offloaded i.distinct;
  }
    where
      own : (x : ℕ) (d : Cache lib) → x ≡ layer → (some c ≡ some d) → IsOf x d
      own x d e same = let here : c ≡ d = cc in rw e (subst (IsOf layer) here of)

      out : (x : ℕ) → (x == layer) ≡ true → contains x (discard layer s.offloaded) ≡ true → ⊥
      out x same listed = let gone = contains-discard x layer s.offloaded in ground arith

  -- What a load and its landing leave: the layer in memory, and all contents.
  pub land-Spares :
      (evict : Bool) (layer : ℕ) (c : Cache lib) (s : State)
      → IsSound ll s
      → lookup layer s.resident ≡ none
      → load_cache lib cache_kinds kv_quant layer s ≡ some c
      → Keeps ll s (land lib cache_kinds kv_quant evict layer c s)
        × (lookup layer (land lib cache_kinds kv_quant evict layer c s).resident ≡ some c)
  unfolding land
  land-Spares evict layer c s i away loaded = by_flag evict
    where
      there : State
      there = landed layer c s

      brought : Keeps ll s there
      brought = record {
        sound = landed-IsSound layer c s i (loaded-IsOf layer c s i loaded);
        same = λ x. ap (contents_of ll) (landed-cache_at layer c s away loaded x);
      }

      in_memory : lookup layer there.resident ≡ some c
      in_memory =
          let own : (layer == layer) ≡ true = ground arith in
          lookup-assign layer layer c s.resident ∙ rw own refl

      by_flag :
          (flag : Bool)
          → Keeps ll s (land lib cache_kinds kv_quant flag layer c s)
            × (lookup layer (land lib cache_kinds kv_quant flag layer c s).resident ≡ some c)
      by_flag false = (
        Keeps-trans ll s there _ brought (fields-Keeps ll there _ refl refl refl brought.sound),
        in_memory,
      )
      by_flag true =
          let spared = evict_locked-Spares ll layer there brought.sound in
          let left = evict_locked lib cache_kinds kv_quant layer there in
          (
            Keeps-trans ll s left _ (Keeps-trans ll s there left brought spared.keeps)
                (fields-Keeps ll left _ refl refl refl spared.keeps.sound),
            spared.stays ∙ in_memory,
          )

  hit-Spares :
      (layer : ℕ) (c : Cache lib) (s : State)
      → IsSound ll s
      → lookup layer s.resident ≡ some c
      → (s' : State) × (enter_found lib cache_kinds kv_quant layer (some c) s ≡ hit c s')
        × Keeps ll s s'
        × (lookup layer s'.resident ≡ some c)
  unfolding load_cache
  hit-Spares layer c s i here =
      let used : State = record s {
        resident = move_to_end layer c s.resident;
        hits = s.hits + 1;
      } in
      let moved : (x : ℕ) → lookup x used.resident ≡ lookup x s.resident =
        λ x. lookup-move_to_end x layer c s.resident here in
      let keeps : Keeps ll s used = record {
        sound = record {
          of_layer = λ x d found. i.of_layer x d (sym (moved x) ∙ found);
          apart = λ x d found. i.apart x d (sym (moved x) ∙ found);
          stored = λ x listed. i.stored x listed;
          distinct = i.distinct;
        };
        same = λ x. rw (moved x) refl;
      } in
      let spared = evict_locked-Spares ll layer used keeps.sound in
      (
        evict_locked lib cache_kinds kv_quant layer used,
        refl,
        Keeps-trans ll s used _ keeps spared.keeps,
        spared.stays ∙ moved layer ∙ here,
      )

  some_injective : (x y : Contents lib) → (some x ≡ some y) → x ≡ y
  some_injective x y e = cc

  contents_of-some :
      (o : Option (Cache lib)) {v : Contents lib}
      → contents_of ll o ≡ some v
      → (c : Cache lib) × (o ≡ some c) × (contents lib c ≡ v)
  contents_of-some none {v} e = absurd (never e)
    where
      never : (none ≡ some v) → ⊥
      never h = cc
  contents_of-some (some c) {v} e = (c, refl, some_injective (contents lib c) v e)

  -- `get` of a layer that no other thread is loading returns a cache that holds what the layer held,
  -- and which is the resident one from then on, however many layers the eviction wrote to disk; no
  -- layer's contents change.
  pub get-content :
      (layer : ℕ) (s : State) (v : Contents lib)
      → IsSound ll s
      → contains layer s.inflight ≡ false
      → content_at ll layer s ≡ some v
      → (c : Cache lib) × (s' : State) × (get lib cache_kinds kv_quant layer s ≡ some (c, s'))
        × (contents lib c ≡ v)
        × (lookup layer s'.resident ≡ some c)
        × Keeps ll s s'
  unfolding get get_enter load_cache
  get-content layer s v i idle held = found (lookup layer s.resident) refl
    where
      found :
          (o : Option (Cache lib))
          → lookup layer s.resident ≡ o
          → (c : Cache lib) × (s' : State) × (finish_get lib cache_kinds kv_quant layer
                (enter_found lib cache_kinds kv_quant layer (lookup layer s.resident) s)
              ≡ some (c, s'))
            × (contents lib c ≡ v)
            × (lookup layer s'.resident ≡ some c)
            × Keeps ll s s'
      found (some c) here =
          let (s', entered, keeps, stays) = hit-Spares layer c s i here in
          let value = rw here at held in
          (
            c,
            s',
            rw here (ap (finish_get lib cache_kinds kv_quant layer) entered),
            some_injective (contents lib c) v value,
            stays,
            keeps,
          )
      found none away =
          let (c, loaded, value) =
            contents_of-some (load_cache lib cache_kinds kv_quant layer s) (rw away at held) in
          let reserved : State = record s {
            inflight = layer ∷ s.inflight;
            misses = s.misses + 1;
          } in
          let loaded_there : load_cache lib cache_kinds kv_quant layer reserved ≡ some c = loaded in
          let taken = fields-Keeps ll s reserved refl refl refl i in
          let (keeps, stays) = land-Spares true layer c reserved taken.sound away loaded_there in
          (
            c,
            land lib cache_kinds kv_quant true layer c reserved,
            rw (away, idle, loaded) refl,
            value,
            stays,
            Keeps-trans ll s reserved _ taken keeps,
          )

  -- A new store is sound.
  pub open_store-IsSound :
      (budget : ℕ) (prefetch_enabled : Bool)
      → IsSound ll (open_store lib cache_kinds kv_quant budget prefetch_enabled)
  unfolding open_store lookup contains
  open_store-IsSound budget prefetch_enabled = record {
    of_layer = λ layer c found. absurd (ground arith);
    apart = λ layer c found. refl;
    stored = λ layer listed. absurd (ground arith);
    distinct = tt;
  }
