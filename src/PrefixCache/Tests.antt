-- ===== src/PrefixCache/Tests.antt =====
-- The slot of src/nunspark/prefix_cache.py on a store that is the list of the tokens that it holds.
use nunspark.Base.{ℕ, ◌≡◌, ◌-◌, refl, ap, List, [], ◌∷◌, ◌++◌, Option, some, take, length, arith}
use nunspark.PrefixCache.Slot.{
  CacheKind, whole, rotating, Store, open_slot, begin, begin_with, begin_from, commit, commit_with,
  commit_at, reuse, reset, clear, common_prefix_len, is_rotated, any_rotated, first_whole,
}
use nunspark.PrefixCache.Requests.{Laws, IsResumable}
use nunspark.PrefixCache.Commits.{Agree, request, requests, finish, requests-IsResumable}

abbrev rows : Store (List ℕ)
rows = record {
  fresh = [];
  truncate = λ n kv. take (length kv - n) kv;
  offset = λ layer kv. length kv;
}

-- A model with a window of 9 tokens in its second layer.
abbrev windowed : Option (List CacheKind)
windowed = some (whole ∷ rotating 9 ∷ [])

abbrev itself : List ℕ → List ℕ
itself kv = kv

rows-Laws : Laws rows windowed itself
rows-Laws = record {
  held-fresh = refl;
  offset-held = λ layer kv e. refl;
  held-truncate = λ n kv e. refl;
}

-- A generation that yields 7 and 8, of which the last is not fed back.
abbrev generate : List ℕ → List ℕ → List ℕ × List ℕ
generate kv suffix = ((kv ++ suffix) ++ 7 ∷ [], 7 ∷ 8 ∷ [])

agree_lem : (fed : List ℕ) → Agree (fed ++ 7 ∷ []) (fed ++ 7 ∷ 8 ∷ [])
agree_lem [] = refl
agree_lem (x ∷ fed) = ap (λ l. x ∷ l) (agree_lem fed)

generate-Agree :
    (kv suffix : List ℕ) → Agree (generate kv suffix).0 ((kv ++ suffix) ++ (generate kv suffix).1)
generate-Agree kv suffix = agree_lem (kv ++ suffix)

begin_runs :
    begin rows
      (requests rows generate (open_slot rows windowed) ((1 ∷ 2 ∷ []) ∷ []))
      (1 ∷ 2 ∷ 7 ∷ 4 ∷ [])
    ≡ (
      record {
        cache_kinds = windowed;
        kv = some (1 ∷ 2 ∷ 7 ∷ []);
        tokens = 1 ∷ 2 ∷ 7 ∷ [];
        probe_layer = some 0;
      },
      4 ∷ [],
    )
unfolding requests request finish begin begin_with begin_from commit commit_with commit_at reuse
    reset clear common_prefix_len is_rotated any_rotated first_whole open_slot
begin_runs = refl

requests-IsResumable_example : IsResumable rows windowed itself (1 ∷ 2 ∷ 7 ∷ 4 ∷ []) (
    begin rows
      (requests rows generate (open_slot rows windowed) ((1 ∷ 2 ∷ []) ∷ []))
      (1 ∷ 2 ∷ 7 ∷ 4 ∷ []))
requests-IsResumable_example =
    requests-IsResumable rows windowed itself rows-Laws generate generate-Agree ((1 ∷ 2 ∷ []) ∷ [])
      (1 ∷ 2 ∷ 7 ∷ 4 ∷ []) (omega arith, tt) (omega arith)
