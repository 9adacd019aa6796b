-- ===== src/KvStore/Prefetches.antt =====
-- A prefetch of src/nunspark/kv_store.py from its call to its landing by the worker.
use nunspark.Base.{
  ℕ, ◌+◌, ◌≡◌, refl, ◌∙◌, List, [], ◌∷◌, Option, some, true, false, ◌==◌, contains, arith,
}
use nunspark.KvStore.Caches.{CacheLibrary, CacheKind, KvQuant, Cache}
use nunspark.KvStore.Layers.{lookup, contains-discard}
use nunspark.KvStore.Roundtrip.{CacheLaws}
use nunspark.KvStore.Store.{load_cache, land, prefetch, prefetch_each, prefetch_one, worker_take}
use nunspark.KvStore.Content.{LayerLaws, IsSound, Keeps}
use nunspark.KvStore.Kept.{Keeps-trans, fields-Keeps}
use nunspark.KvStore.Gets.{State, land-Spares}
use nunspark.KvStore.Truncates.{away_of}

module _ {lib : CacheLibrary} {laws : CacheLaws lib} {cache_kinds : Option (List CacheKind)}
    {kv_quant : Option KvQuant} (ll : LayerLaws lib laws cache_kinds kv_quant) where
  -- A prefetch of an offloaded layer that no thread is loading, on an idle worker: the worker takes the
  -- layer, its load does not fail, and once landed the layer is in memory and no longer in flight, and
  -- no layer's contents have changed. The worker evicts nothing.
  pub prefetch-lands :
      (layer : ℕ) (s : State ll)
      → IsSound ll s
      → s.prefetch_enabled ≡ true
      → s.queue ≡ []
      → contains layer s.offloaded ≡ true
      → contains layer s.inflight ≡ false
      → (t : State ll) × (c : Cache lib) × (worker_take lib cache_kinds kv_quant
            (prefetch lib cache_kinds kv_quant (layer ∷ []) s)
          ≡ (some layer, t))
        × (load_cache lib cache_kinds kv_quant layer t ≡ some c)
        × (lookup layer (land lib cache_kinds kv_quant false layer c t).resident ≡ some c)
        × (contains layer (land lib cache_kinds kv_quant false layer c t).inflight ≡ false)
        × Keeps ll s (land lib cache_kinds kv_quant false layer c t)
  unfolding prefetch prefetch_each prefetch_one worker_take contains load_cache land
  prefetch-lands layer s i enabled idle listed calm =
      let away = away_of ll layer s i listed in
      let own : (layer == layer) ≡ true = ground arith in
      let (c, loaded, of) = i.stored layer listed in
      let t : State ll = record s {
        inflight = layer ∷ s.inflight;
        misses = s.misses + 1;
        queue = [];
      } in
      let taken = fields-Keeps ll s t refl refl refl i in
      let (keeps, there) = land-Spares ll false layer c t taken.sound away loaded in
      (
        t,
        c,
        rw (enabled, listed, away, calm, idle) (rw (away, own) refl),
        loaded,
        there,
        contains-discard layer layer (layer ∷ s.inflight) ∙ rw own refl,
        Keeps-trans ll s t _ taken keeps,
      )
