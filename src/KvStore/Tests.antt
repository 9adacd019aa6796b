-- ===== src/KvStore/Tests.antt =====
-- The theorems on the KV store at small inputs.
use nunspark.Base.{ℕ, ◌≡◌, refl, [], ◌∷◌, Option, none, some, true, false, arith, contains}
use nunspark.KvStore.Caches.{Cache, plain, cache_list, contents, plain_of, trim}
use nunspark.KvStore.Layers.{lookup, discard, assign, remove}
use nunspark.KvStore.Payload.{load, save, load_plain, state_payload, is_rotating}
use nunspark.KvStore.Roundtrip.{Fits, load-save}
use nunspark.KvStore.Store.{
  worker_take, prefetch, KvStore, open_store, get, land, truncate, load_cache, offload,
  evict_locked,
}
use nunspark.KvStore.Content.{IsSound, Keeps, cache_at, offload-Keeps}
use nunspark.KvStore.Kept.{Spares, evict_locked-Spares}
use nunspark.KvStore.Gets.{landed, landed-IsSound, open_store-IsSound, get-content}
use nunspark.KvStore.Truncates.{is_held, trimmed_if, truncate-trims, truncate-resurrects}
use nunspark.KvStore.Prefetches.{prefetch-lands}
use nunspark.KvStore.Sample.{lists, lists-Laws, plain_layers}

-- Two children, the second with zero-width values.
abbrev indexed : Cache lists
indexed = cache_list ((1 ∷ 2 ∷ [], 3 ∷ 4 ∷ []) ∷ (5 ∷ [], []) ∷ [])

abbrev fresh_pair : Option (Cache lists)
fresh_pair = some (cache_list (([], []) ∷ ([], []) ∷ []))

load-save_example :
    (c' : Cache lists) × (load lists (save lists false indexed) fresh_pair ≡ some c')
    × (contents lists c' ≡ contents lists indexed)
    × Fits lists-Laws false fresh_pair c'
load-save_example =
    load-save lists-Laws false fresh_pair indexed (([], []) ∷ ([], []) ∷ [], refl, refl)

abbrev State : Type 0
State = KvStore lists none none

abbrev first : Cache lists
first = plain (1 ∷ 2 ∷ [], 3 ∷ 4 ∷ [])

abbrev second : Cache lists
second = plain (5 ∷ 6 ∷ 7 ∷ [], 8 ∷ 9 ∷ 10 ∷ [])

abbrev empty_store : State
empty_store = open_store lists none none 5 true

-- Both layers in memory, over the budget of 5 bytes.
abbrev both : State
both = landed plain_layers 1 second (landed plain_layers 0 first empty_store)

both-IsSound : IsSound plain_layers both
both-IsSound =
    landed-IsSound plain_layers 1 second (landed plain_layers 0 first empty_store)
      (landed-IsSound plain_layers 0 first empty_store (open_store-IsSound plain_layers 5 true) tt)
      tt

-- The second layer on disk.
abbrev one_out : State
one_out = offload lists none none 1 second both

one_out-IsSound : IsSound plain_layers one_out
unfolding assign lookup open_store
one_out-IsSound =
    let kept = offload-Keeps plain_layers 1 second both both-IsSound refl in kept.sound

evict_locked-Spares_example : Spares plain_layers 0 both (evict_locked lists none none 0 both)
evict_locked-Spares_example = evict_locked-Spares plain_layers 0 both both-IsSound

get-content_example :
    (c : Cache lists) × (s' : State) × (get lists none none 1 one_out ≡ some (c, s'))
    × (contents lists c ≡ plain_of (5 ∷ 6 ∷ 7 ∷ [], 8 ∷ 9 ∷ 10 ∷ []))
    × (lookup 1 s'.resident ≡ some c)
    × Keeps plain_layers one_out s'
unfolding assign lookup open_store offload remove discard contains load_cache load save load_plain
    state_payload is_rotating
get-content_example =
    get-content plain_layers 1 one_out (plain_of (5 ∷ 6 ∷ 7 ∷ [], 8 ∷ 9 ∷ 10 ∷ [])) one_out-IsSound
      refl refl

truncate-trims_example :
    (t : State) × (truncate lists none none 1 one_out ≡ some t)
    × IsSound plain_layers t
    × ((x : ℕ) → contains x t.offloaded ≡ false)
    × ((x : ℕ)
        → cache_at plain_layers x t
          ≡ trimmed_if plain_layers
              (is_held plain_layers x one_out)
              1
              (cache_at plain_layers x one_out))
truncate-trims_example = truncate-trims plain_layers 1 one_out (omega arith) one_out-IsSound

truncate-resurrects_example :
    (t : State) × (truncate lists none none 1 one_out ≡ some t)
    × (cache_at plain_layers 1 t ≡ some (trim lists 1 second))
    × (cache_at plain_layers 1 (land lists none none false 1 second t) ≡ some second)
unfolding assign lookup open_store offload remove discard contains load_cache load save load_plain
    state_payload is_rotating
truncate-resurrects_example =
    truncate-resurrects plain_layers 1 1 second one_out (omega arith) one_out-IsSound refl refl

prefetch-lands_example :
    (t : State) × (c : Cache lists) × (worker_take lists none none
        (prefetch lists none none (1 ∷ []) one_out)
      ≡ (some 1, t))
    × (load_cache lists none none 1 t ≡ some c)
    × (lookup 1 (land lists none none false 1 c t).resident ≡ some c)
    × (contains 1 (land lists none none false 1 c t).inflight ≡ false)
    × Keeps plain_layers one_out (land lists none none false 1 c t)
unfolding open_store offload contains
prefetch-lands_example = prefetch-lands plain_layers 1 one_out one_out-IsSound refl refl refl refl
