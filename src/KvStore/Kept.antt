-- ===== src/KvStore/Kept.antt =====
-- The operations of the store of src/nunspark/kv_store.py keep what the layers hold: eviction, `get`
-- and what lands a load.
use nunspark.Base.{
  ℕ, ◌≡◌, refl, sym, ap, ◌∙◌, List, [], ◌∷◌, Option, none, some, true, false, ◌==◌, contains, leb,
  reverse, max, arith, Bool-cases, inl, inr, ==_iff,
}
use nunspark.KvStore.Caches.{CacheLibrary, CacheKind, KvQuant, Cache, contents, cache_nbytes}
use nunspark.KvStore.Layers.{lookup, remove, layers, lookup-remove}
use nunspark.KvStore.Payload.{new_cache}
use nunspark.KvStore.Roundtrip.{CacheLaws}
use nunspark.KvStore.Store.{
  KvStore, load_cache, offload, pop_empty, evict_one, evict_found, evict_scan, evict_locked,
  resident_bytes,
}
use nunspark.KvStore.Content.{LayerLaws, IsSound, Keeps, content_at, offload-Keeps}

module _ {lib : CacheLibrary} {laws : CacheLaws lib} {cache_kinds : Option (List CacheKind)}
    {kv_quant : Option KvQuant} (ll : LayerLaws lib laws cache_kinds kv_quant) where
  open ll use {IsOf}

  abbrev State : Type 0
  State = KvStore lib cache_kinds kv_quant

  Keeps-refl : (s : State) → IsSound ll s → Keeps ll s s
  Keeps-refl s i = record { sound = i; same = λ x. refl }

  pub Keeps-trans : (s t u : State) → Keeps ll s t → Keeps ll t u → Keeps ll s u
  Keeps-trans s t u a b = record { sound = b.sound; same = λ x. b.same x ∙ a.same x }

  -- Fields besides the resident and offloaded layers and the files are of no matter.
  pub fields-Keeps :
      (s t : State)
      → t.resident ≡ s.resident
      → t.offloaded ≡ s.offloaded
      → t.files ≡ s.files
      → IsSound ll s
      → Keeps ll s t
  unfolding load_cache
  fields-Keeps s t r o f i = record {
    sound = record {
      of_layer = λ x c found. i.of_layer x c (ap (lookup x) (sym r) ∙ found);
      apart = λ x c found. rw o (i.apart x c (ap (lookup x) (sym r) ∙ found));
      stored = λ x listed.
          let (c, found, of) = i.stored x (ap (contains x) (sym o) ∙ listed) in
          (c, rw (o, f) found, of);
      distinct = rw o i.distinct;
    };
    same = λ x. rw (r, o, f) refl;
  }

  pop_empty-Keeps :
      (layer : ℕ) (c : Cache lib) (s : State)
      → IsSound ll s
      → lookup layer s.resident ≡ some c
      → cache_nbytes lib c ≡ 0
      → Keeps ll s (pop_empty lib cache_kinds kv_quant layer s)
  unfolding load_cache
  pop_empty-Keeps layer c s i here empty = record {
    sound = record {
      of_layer = λ x d found. i.of_layer x d (there x d found);
      apart = λ x d found. i.apart x d (there x d found);
      stored = λ x listed. i.stored x listed;
      distinct = i.distinct;
    };
    same = λ x. elim (Bool-cases (x == layer)) [
      | inl same ↦ read x ((==_iff x layer).0 same)
      | inr other ↦ rw (lookup-remove x layer s.resident, other) refl
    ];
  }
    where
      there :
          (x : ℕ) (d : Cache lib)
          → lookup x (remove layer s.resident) ≡ some d
          → lookup x s.resident ≡ some d
      there x d found = ground (arith, lookup-remove x layer s.resident)

      blank :
          (c0 : Cache lib) × (new_cache lib cache_kinds kv_quant layer ≡ some c0)
          × (contents lib c0 ≡ contents lib c)
      blank = ll.of_blank layer c (i.of_layer layer c here) empty

      read :
          (x : ℕ)
          → x ≡ layer
          → content_at ll x (pop_empty lib cache_kinds kv_quant layer s) ≡ content_at ll x s
      read x e =
          let self : (layer == layer) ≡ true = ground arith in
          rw e (
            rw (lookup-remove layer layer s.resident, self, here, i.apart layer c here, blank.1)
              (ap some blank.2))

  evict_found-Keeps :
      (layer held : ℕ) (s : State) (found : Option (Cache lib))
      → IsSound ll s
      → lookup layer s.resident ≡ found
      → Keeps ll s (evict_found lib cache_kinds kv_quant layer found (held, s)).1
  evict_found-Keeps layer held s none i here = Keeps-refl s i
  evict_found-Keeps layer held s (some c) i here = elim (Bool-cases (cache_nbytes lib c == 0)) [
    | inl empty ↦
        rw empty (pop_empty-Keeps layer c s i here ((==_iff (cache_nbytes lib c) 0).0 empty))
    | inr full ↦ rw full (offload-Keeps ll layer c s i here)
  ]

  evict_found-lookup :
      (layer held x : ℕ) (s : State) (found : Option (Cache lib))
      → (x == layer) ≡ false
      → lookup x (evict_found lib cache_kinds kv_quant layer found (held, s)).1.resident
        ≡ lookup x s.resident
  unfolding offload
  evict_found-lookup layer held x s none other = refl
  evict_found-lookup layer held x s (some c) other = elim (Bool-cases (cache_nbytes lib c == 0)) [
    | inl empty ↦ rw (empty, lookup-remove x layer s.resident, other) refl
    | inr full ↦ rw (full, lookup-remove x layer s.resident, other) refl
  ]

  -- What the scan of an eviction keeps: the contents of all layers, and the protected layer in place.
  pub record Spares (protect : ℕ) (s t : State) : Type 0 where
    pub keeps : Keeps ll s t
    pub stays : lookup protect t.resident ≡ lookup protect s.resident

  Spares-trans :
      (protect : ℕ) (s t u : State) → Spares protect s t → Spares protect t u → Spares protect s u
  Spares-trans protect s t u a b = record {
    keeps = Keeps-trans s t u a.keeps b.keeps;
    stays = b.stays ∙ a.stays;
  }

  evict_one-Spares :
      (protect layer held : ℕ) (s : State)
      → IsSound ll s
      → Spares protect s (evict_one lib cache_kinds kv_quant protect layer (held, s)).1
  unfolding evict_one
  evict_one-Spares protect layer held s i = elim (Bool-cases (layer == protect)) [
    | inl same ↦ rw same (record { keeps = Keeps-refl s i; stays = refl })
    | inr other ↦
        let apart : (protect == layer) ≡ false = ground arith in
        rw other (record {
          keeps = evict_found-Keeps layer held s (lookup layer s.resident) i refl;
          stays = evict_found-lookup layer held protect s (lookup layer s.resident) apart;
        })
  ]

  evict_scan-Spares :
      (protect : ℕ) (ls : List ℕ) (held : ℕ) (s : State)
      → IsSound ll s
      → Spares protect s (evict_scan lib cache_kinds kv_quant protect ls (held, s))
  unfolding evict_scan
  evict_scan-Spares protect [] held s i = record { keeps = Keeps-refl s i; stays = refl }
  evict_scan-Spares protect (layer ∷ ls) held s i =
      let step = evict_one-Spares protect layer held s i in
      let next = evict_one lib cache_kinds kv_quant protect layer (held, s) in
      let later = evict_scan-Spares protect ls next.0 next.1 step.keeps.sound in
      elim (Bool-cases (leb held s.budget)) [
        | inl fits ↦ rw fits (record { keeps = Keeps-refl s i; stays = refl })
        | inr over ↦ rw over (Spares-trans protect s next.1 _ step later)
      ]

  -- An eviction changes what no layer holds, whatever it writes to files or drops, and leaves the
  -- protected layer in memory.
  pub evict_locked-Spares :
      (protect : ℕ) (s : State)
      → IsSound ll s
      → Spares protect s (evict_locked lib cache_kinds kv_quant protect s)
  unfolding evict_locked
  evict_locked-Spares protect s i =
      let counted : State = record s {
        peak_bytes = max s.peak_bytes (resident_bytes lib cache_kinds kv_quant s);
      } in
      let same = fields-Keeps s counted refl refl refl i in
      Spares-trans protect s counted _ (record { keeps = same; stays = refl })
        (evict_scan-Spares protect (reverse (layers s.resident)) _ counted same.sound)
