-- ===== src/KvStore/Truncates.antt =====
-- `truncate` of src/nunspark/kv_store.py: the offloaded layers are loaded, then all are trimmed.
use nunspark.Base.{
  ℕ, ◌≤◌, ◌≡◌, refl, sym, ap, ◌∙◌, List, [], ◌∷◌, Option, none, some, Bool, true, false, ◌==◌, ◌||◌,
  if◌then◌else◌, contains, arith, Bool-cases, inl, inr, ==_iff,
}
use nunspark.KvStore.Caches.{CacheLibrary, CacheKind, KvQuant, Cache, trim}
use nunspark.KvStore.Layers.{
  lookup, each, lookup-assign, lookup-each, none-lookup-each, contains-discard, IsDistinct,
}
use nunspark.KvStore.Roundtrip.{CacheLaws}
use nunspark.KvStore.Store.{load_cache, land, truncate, reload_each, is_some}
use nunspark.KvStore.Content.{LayerLaws, IsSound, cache_at}
use nunspark.KvStore.Gets.{State, landed, landed-cache_at, landed-IsSound}

module _ {lib : CacheLibrary} {laws : CacheLaws lib} {cache_kinds : Option (List CacheKind)}
    {kv_quant : Option KvQuant} (ll : LayerLaws lib laws cache_kinds kv_quant) where
  open ll use {IsOf}

  -- The offloaded layers `ls`, made resident, are read as before.
  record Reloaded (ls : List ℕ) (s t : State ll) : Type 0 where
    sound : IsSound ll t
    same : (x : ℕ) → cache_at ll x t ≡ cache_at ll x s
    left : (x : ℕ) → contains x ls ≡ true → contains x t.offloaded ≡ false
    others : (x : ℕ) → contains x t.offloaded ≡ true → contains x s.offloaded ≡ true
    brought :
        (x : ℕ)
        → (is_some lib cache_kinds kv_quant (lookup x t.resident)
            ≡ is_some lib cache_kinds kv_quant (lookup x s.resident) || contains x ls)

  pub away_of :
      (layer : ℕ) (s : State ll)
      → IsSound ll s
      → contains layer s.offloaded ≡ true
      → lookup layer s.resident ≡ none
  away_of layer s i listed = by_case (lookup layer s.resident) refl
    where
      by_case : (o : Option (Cache lib)) → lookup layer s.resident ≡ o → o ≡ none
      by_case none e = refl
      by_case (some c) e = let apart = i.apart layer c e in ground arith

  reload_each-Reloaded :
      (ls : List ℕ) (s : State ll)
      → IsSound ll s
      → IsDistinct ls
      → ((x : ℕ) → contains x ls ≡ true → contains x s.offloaded ≡ true)
      → (t : State ll) × (reload_each lib cache_kinds kv_quant ls s ≡ some t) × Reloaded ls s t
  unfolding reload_each contains
  reload_each-Reloaded [] s i d sub = (
    s,
    refl,
    record {
      sound = i;
      same = λ x. refl;
      left = λ x h. ground arith;
      others = λ x h. h;
      brought = λ x. ground arith;
    },
  )
  reload_each-Reloaded (layer ∷ ls) s i (fresh, d) sub =
      let own : (layer == layer) ≡ true = ground arith in
      let listed : contains layer s.offloaded ≡ true = sub layer (rw own refl) in
      let (c, loaded, of) = i.stored layer listed in
      let away = away_of layer s i listed in
      let (t, ran, r) =
        reload_each-Reloaded ls (landed ll layer c s) (landed-IsSound ll layer c s i of) d
          (λ x h. after x c h) in
      (
        t,
        rw loaded ran,
        record {
          sound = r.sound;
          same = λ x. r.same x ∙ landed-cache_at ll layer c s away loaded x;
          left = λ x h. first_or_later x c t r h;
          others = λ x h.
              let gone = contains-discard x layer s.offloaded in
              let back = r.others x h in ground arith;
          brought = λ x. widened x c (
              r.brought x
              ∙ ap (λ o. is_some lib cache_kinds kv_quant o || contains x ls)
                  (lookup-assign x layer c s.resident));
        },
      )
    where
      after :
          (x : ℕ) (c : Cache lib)
          → contains x ls ≡ true
          → contains x (landed ll layer c s).offloaded ≡ true
      after x c h = elim (Bool-cases (x == layer)) [
        | inl same ↦
            let e = (==_iff x layer).0 same in
            let clash : contains layer ls ≡ true = ap (λ (y : ℕ). contains y ls) (sym e) ∙ h in
            ground arith
        | inr other ↦
            let e = sub x (rw other h) in contains-discard x layer s.offloaded ∙ rw other e
      ]

      first_or_later :
          (x : ℕ) (c : Cache lib) (t : State ll)
          → Reloaded ls (landed ll layer c s) t
          → (x == layer || contains x ls) ≡ true
          → contains x t.offloaded ≡ false
      first_or_later x c t r h = elim (Bool-cases (contains x t.offloaded)) [
        | inr out ↦ out
        | inl still ↦
            let back = r.others x still in
            let gone = contains-discard x layer s.offloaded in let later = r.left x in ground arith
      ]

      widened :
          (x : ℕ) {b : Bool} (c : Cache lib)
          → b
            ≡ is_some lib cache_kinds kv_quant (if x == layer then some c else lookup x s.resident)
              || contains x ls
          → b
            ≡ is_some lib cache_kinds kv_quant (lookup x s.resident)
              || (x == layer || contains x ls)
      widened x c h = elim (Bool-cases (x == layer)) [
        | inl same ↦ ground arith
        | inr other ↦ ground arith
      ]

  -- Whether a layer has ever been asked for and still has contents of its own.
  abbrev pub is_held : ℕ → State ll → Bool
  is_held x s = is_some lib cache_kinds kv_quant (lookup x s.resident) || contains x s.offloaded

  abbrev pub trimmed_if : Bool → ℕ → Option (Cache lib) → Option (Cache lib)
  trimmed_if false n o = o
  trimmed_if true n none = none
  trimmed_if true n (some c) = some (trim lib n c)

  trim_each-cache_at :
      (n : ℕ) (t : State ll) (x : ℕ)
      → contains x t.offloaded ≡ false
      → cache_at ll x (record t { resident = each (trim lib n) t.resident })
        ≡ trimmed_if (is_some lib cache_kinds kv_quant (lookup x t.resident)) n (cache_at ll x t)
  unfolding load_cache
  trim_each-cache_at n t x out = by_case (lookup x t.resident) refl
    where
      by_case :
          (o : Option (Cache lib))
          → lookup x t.resident ≡ o
          → cache_at ll x (record t { resident = each (trim lib n) t.resident })
            ≡ trimmed_if
                (is_some lib cache_kinds kv_quant (lookup x t.resident))
                n
                (cache_at ll x t)
      by_case none e = rw (none-lookup-each (trim lib n) x t.resident e, e) refl
      by_case (some c) e = rw (lookup-each (trim lib n) x t.resident e, e) refl

  each_of :
      (f : Cache lib → Cache lib) (x : ℕ) (t : List (ℕ × Cache lib)) {d : Cache lib}
      → lookup x (each f t) ≡ some d
      → (c : Cache lib) × (lookup x t ≡ some c) × (d ≡ f c)
  each_of f x t {d} h = by_case (lookup x t) refl
    where
      by_case :
          (o : Option (Cache lib))
          → lookup x t ≡ o
          → (c : Cache lib) × (lookup x t ≡ some c) × (d ≡ f c)
      by_case none e = let gone = none-lookup-each f x t e in absurd (ground arith)
      by_case (some c) e = let found = lookup-each f x t e in (c, e, ground arith)

  -- `truncate` by at least one token does not fail, trims the cache of every layer that is resident or
  -- offloaded, and leaves the others as new ones; afterwards no layer is offloaded.
  pub truncate-trims :
      (n : ℕ) (s : State ll)
      → 1 ≤ n
      → IsSound ll s
      → (t : State ll) × (truncate lib cache_kinds kv_quant n s ≡ some t)
        × IsSound ll t
        × ((x : ℕ) → contains x t.offloaded ≡ false)
        × ((x : ℕ) → cache_at ll x t ≡ trimmed_if (is_held x s) n (cache_at ll x s))
  unfolding truncate load_cache
  truncate-trims n s pos i =
      let positive : (n == 0) ≡ false = ground arith in
      let (t, ran, r) = reload_each-Reloaded s.offloaded s i i.distinct (λ x h. h) in
      let out : (x : ℕ) → contains x t.offloaded ≡ false = λ x. none_left t r x in
      (
        record t { resident = each (trim lib n) t.resident },
        rw (positive, ran) refl,
        record {
          of_layer = λ x d found.
              let (c, there, made) = each_of (trim lib n) x t.resident found in
              rw made (ll.of_trim x n c (r.sound.of_layer x c there));
          apart = λ x d found. out x;
          stored = λ x listed. let gone = out x in absurd (ground arith);
          distinct = r.sound.distinct;
        },
        out,
        λ x. trim_each-cache_at n t x (out x) ∙ rw (r.brought x, r.same x) refl,
      )
    where
      none_left :
          (t : State ll) → Reloaded s.offloaded s t → (x : ℕ) → contains x t.offloaded ≡ false
      none_left t r x = elim (Bool-cases (contains x t.offloaded)) [
        | inr gone ↦ gone
        | inl still ↦ let back = r.left x (r.others x still) in ground arith
      ]

  -- A worker that reads the file of an offloaded layer before a `truncate` and lands it after undoes the
  -- truncate: `truncate` leaves the layer's cache trimmed, and the landing puts back the one that was
  -- not.
  pub truncate-resurrects :
      (layer n : ℕ) (c : Cache lib) (s : State ll)
      → 1 ≤ n
      → IsSound ll s
      → contains layer s.offloaded ≡ true
      → load_cache lib cache_kinds kv_quant layer s ≡ some c
      → (t : State ll) × (truncate lib cache_kinds kv_quant n s ≡ some t)
        × (cache_at ll layer t ≡ some (trim lib n c))
        × (cache_at ll layer (land lib cache_kinds kv_quant false layer c t) ≡ some c)
  unfolding land
  truncate-resurrects layer n c s pos i listed loaded =
      let (t, ran, sound, out, at) = truncate-trims n s pos i in
      let away = away_of layer s i listed in
      let own : (layer == layer) ≡ true = ground arith in
      (
        t,
        ran,
        at layer ∙ rw (away, listed, loaded) refl,
        rw (lookup-assign layer layer c t.resident, own) refl,
      )
