-- ===== src/KvStore/Sample.antt =====
-- A small cache library whose arrays are lists, and layers that all have a plain cache.
use nunspark.Base.{ℕ, ◌+◌, ◌-◌, ◌≡◌, refl, List, [], ◌∷◌, none, some, length, take, map, ltb, arith}
use nunspark.KvStore.Caches.{
  CacheLibrary, Cache, plain, window, quantized, cache_list, contents, trim, cache_nbytes,
  make_cache,
}
use nunspark.KvStore.Payload.{load, save, new_cache, is_rotating, load_plain, state_payload}
use nunspark.KvStore.Roundtrip.{CacheLaws, Fits}
use nunspark.KvStore.Content.{LayerLaws}

abbrev pub Pair : Type 0
Pair = List ℕ × List ℕ

abbrev pub cut : ℕ → Pair → Pair
cut n s = (take (length s.0 - n) s.0, take (length s.1 - n) s.1)

abbrev pub bytes : Pair → ℕ
bytes s = length s.0 + length s.1

abbrev pub Six : Type 0
Six = (List ℕ × List ℕ × List ℕ) × (List ℕ × List ℕ × List ℕ)

abbrev pub nothing : Six
nothing = (([], [], []), ([], [], []))

-- A window or a quantized cache is its state with its numbers.
abbrev pub lists : CacheLibrary
lists = record {
  Array = List ℕ;
  size = λ v. length v;
  shape = λ v. length v ∷ [];
  zeros = λ shape k. [];
  ints = λ xs. xs;
  to_ints = λ v. v;
  Plain = Pair;
  plain_new = ([], []);
  plain_has_keys = λ c. ltb 0 (bytes c);
  plain_nbytes = λ c. bytes c;
  plain_state = λ c. c;
  plain_set = λ s c. s;
  plain_trim = cut;
  Window = Pair × List ℕ;
  window_new = λ w. (([], []), 0 ∷ w ∷ 0 ∷ 0 ∷ []);
  window_has_keys = λ c. ltb 0 (bytes c.0);
  window_nbytes = λ c. bytes c.0;
  window_state = λ c. c.0;
  window_set = λ s c. (s, c.1);
  window_meta = λ c. c.1;
  window_set_meta = λ m c. (c.0, m);
  window_trim = λ n c. (cut n c.0, c.1);
  Quantized = Six × List ℕ;
  quantized_new = λ config. (nothing, 0 ∷ config.0 ∷ config.1 ∷ []);
  quantized_default = (nothing, 0 ∷ 64 ∷ 8 ∷ []);
  quantized_has_keys = λ c. ltb 0 (length c.0.0.0);
  quantized_nbytes = λ c. length c.0.0.0;
  quantized_state = λ c. c.0;
  quantized_set = λ s c. (s, c.1);
  quantized_meta = λ c. c.1;
  quantized_set_meta = λ m c. (c.0, m);
  quantized_trim = λ n c. c;
  set_states = λ states cs. states;
}

pub no_values : (v : List ℕ) → length v ≡ 0 → [] ≡ v
no_values [] h = refl
no_values (x ∷ v) h = absurd (omega arith)

pub map_same : (xs : List Pair) → map (λ x. x) xs ≡ xs
map_same [] = refl
map_same ((k, v) ∷ xs) = let rest = map_same xs in rw rest refl

abbrev pub lists-Laws : CacheLaws lists
lists-Laws = record {
  to_ints-ints = λ xs. refl;
  IsLike = λ k v. Unit {0};
  zeros_like = λ k v h like. no_values v h;
  plain_state_set = λ s c. refl;
  plain_like = λ c. tt;
  window_restored = λ c c0. refl;
  window_meta_set = λ m c. refl;
  quantized_restored = λ c c0. refl;
  quantized_meta_set = λ m c. refl;
  states_set = λ xs cs h. map_same xs;
}

-- Every layer has a plain cache.
abbrev pub IsPlain : Cache lists → Type 0
IsPlain (plain c) = Unit {0}
IsPlain (window c) = ⊥
IsPlain (quantized c) = ⊥
IsPlain (cache_list cs) = ⊥

pub made : (layer : ℕ) (c : Cache lists) → new_cache lists none none layer ≡ some c → IsPlain c
unfolding new_cache make_cache
made layer (plain c) e = tt
made layer (window c) e = cc
made layer (quantized c) e = cc
made layer (cache_list cs) e = cc

pub fits :
    (layer : ℕ) (c : Cache lists)
    → IsPlain c
    → Fits lists-Laws (is_rotating lists none none layer) (new_cache lists none none layer) c
unfolding is_rotating
fits layer (plain c) p = refl
fits layer (window c) p = absurd p
fits layer (quantized c) p = tt
fits layer (cache_list cs) p = absurd p

pub reloaded :
    (layer : ℕ) (c c' : Cache lists)
    → IsPlain c
    → load lists
        (save lists (is_rotating lists none none layer) c)
        (new_cache lists none none layer)
      ≡ some c'
    → IsPlain c'
unfolding load save load_plain state_payload is_rotating
reloaded layer (plain c) (plain c') p e = tt
reloaded layer (plain c) (window c') p e = cc
reloaded layer (plain c) (quantized c') p e = cc
reloaded layer (plain c) (cache_list cs) p e = cc
reloaded layer (window c) c' p e = absurd p
reloaded layer (quantized c) c' p e = absurd p
reloaded layer (cache_list cs) c' p e = absurd p

pub cut_down : (layer n : ℕ) (c : Cache lists) → IsPlain c → IsPlain (trim lists n c)
unfolding trim
cut_down layer n (plain c) p = tt
cut_down layer n (window c) p = absurd p
cut_down layer n (quantized c) p = absurd p
cut_down layer n (cache_list cs) p = absurd p

pub blank :
    (layer : ℕ) (c : Cache lists)
    → IsPlain c
    → cache_nbytes lists c ≡ 0
    → (c0 : Cache lists) × (new_cache lists none none layer ≡ some c0)
      × (contents lists c0 ≡ contents lists c)
unfolding cache_nbytes new_cache make_cache
blank layer (plain ([], [])) p h = (plain ([], []), refl, refl)
blank layer (plain ([], x ∷ v)) p h = absurd (ground arith)
blank layer (plain (x ∷ k, v)) p h = absurd (ground arith)
blank layer (window c) p h = absurd p
blank layer (quantized c) p h = absurd p
blank layer (cache_list cs) p h = absurd p

abbrev pub plain_layers : LayerLaws lists lists-Laws none none
plain_layers = record {
  IsOf = λ layer c. IsPlain c;
  of_new = made;
  of_fits = fits;
  of_loaded = reloaded;
  of_trim = cut_down;
  of_blank = blank;
}
