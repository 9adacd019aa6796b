-- ===== src/PrefixCache/Slot.antt =====
-- The operations of PrefixCache (src/nunspark/prefix_cache.py). The store is the interface `Store`:
-- the calls of KVStore (src/nunspark/kv_store.py) and of `cache_offset`
-- (src/nunspark/archspec.py) that the class makes.
use nunspark.Base.{
  ℕ, suc, ◌+◌, ◌-◌, min, Bool, false, ◌||◌, List, [], ◌∷◌, Option, none, some, leb, ltb, ◌==◌, take,
  drop, length, if◌then◌else◌,
}

-- A layer's cache kind: a sliding window, or one that keeps every row.
pub data CacheKind : Type 0 where
  whole : CacheKind
  rotating : ℕ → CacheKind

pub record Store (Kv : Type 0) : Type 0 where
  pub fresh : Kv
  pub truncate : ℕ → Kv → Kv
  -- The offset of the cache of a layer.
  pub offset : ℕ → Kv → ℕ

pub record Slot (Kv : Type 0) : Type 0 where
  pub cache_kinds : Option (List CacheKind)
  pub kv : Option Kv
  pub tokens : List ℕ
  pub probe_layer : Option ℕ

-- The first layer that keeps every row, from layer `i` on.
unfoldable pub first_whole : ℕ → List CacheKind → Option ℕ
first_whole i [] = none
first_whole i (whole ∷ kinds) = some i
first_whole i (rotating window ∷ kinds) = first_whole (i + 1) kinds

unfoldable pub any_rotated : ℕ → List CacheKind → Bool
any_rotated n [] = false
any_rotated n (whole ∷ kinds) = any_rotated n kinds
any_rotated n (rotating window ∷ kinds) = leb window n || any_rotated n kinds

-- `_rotated(length)`.
unfoldable pub is_rotated : Option (List CacheKind) → ℕ → Bool
is_rotated none n = false
is_rotated (some kinds) n = any_rotated n kinds

unfoldable pub common_prefix_len : List ℕ → List ℕ → ℕ
common_prefix_len [] b = 0
common_prefix_len (x ∷ a) [] = 0
common_prefix_len (x ∷ a) (y ∷ b) =
    let rest = common_prefix_len a b in if x == y then suc rest else 0

module _ {Kv : Type 0} (store : Store Kv) where
  -- The constructor.
  unfoldable pub open_slot : Option (List CacheKind) → Slot Kv
  open_slot kinds = record {
    cache_kinds = kinds;
    kv = none;
    tokens = [];
    probe_layer = elim kinds [ none ↦ some 0 | some ks ↦ first_whole 0 ks ];
  }

  -- `_drop`.
  unfoldable pub clear : Slot Kv → Slot Kv
  clear s = record s { kv = none; tokens = [] }

  -- `_reset`.
  unfoldable pub reset : Slot Kv → Slot Kv
  reset s = record (clear s) { kv = some store.fresh }

  -- The end of `begin`, with the store of the slot and a common prefix of that length.
  unfoldable pub reuse : Slot Kv → Kv → ℕ → Slot Kv
  reuse s kv common =
      let dropped = length s.tokens - common in
      record s {
        kv = some (if ltb 0 dropped then store.truncate dropped kv else kv);
        tokens = take common s.tokens;
      }

  -- `begin` on a slot that holds a store, for a model with a layer to probe.
  unfoldable pub begin_from : Slot Kv → Kv → List ℕ → Slot Kv × List ℕ
  begin_from s kv prompt =
      let common = min (common_prefix_len s.tokens prompt) (length prompt - 1) in
      if leb common 0 || is_rotated s.cache_kinds (length s.tokens)
      then (reset s, prompt)
      else (reuse s kv common, drop common prompt)

  unfoldable pub begin_with : Option Kv → Option ℕ → Slot Kv → List ℕ → Slot Kv × List ℕ
  begin_with none layer s prompt = (reset s, prompt)
  begin_with (some kv) none s prompt = (reset s, prompt)
  begin_with (some kv) (some layer) s prompt = begin_from s kv prompt

  -- `begin`: the slot, whose store the caller borrows, and the suffix to prefill.
  unfoldable pub begin : Slot Kv → List ℕ → Slot Kv × List ℕ
  begin s prompt = begin_with s.kv s.probe_layer s prompt

  -- `commit` on a slot that holds a store, with the offset of the probed layer.
  unfoldable pub commit_at : Slot Kv → Kv → ℕ → List ℕ → Slot Kv
  commit_at s kv actual tokens =
      if ltb (length tokens) actual
      then if is_rotated s.cache_kinds actual
        then clear s
        else record s { kv = some (store.truncate (actual - length tokens) kv); tokens = tokens }
      else record s { tokens = take actual tokens }

  unfoldable pub commit_with : Option Kv → Option ℕ → Slot Kv → List ℕ → Slot Kv
  commit_with none layer s tokens = s
  commit_with (some kv) none s tokens = s
  commit_with (some kv) (some layer) s tokens = commit_at s kv (store.offset layer kv) tokens

  unfoldable pub commit : Slot Kv → List ℕ → Slot Kv
  commit s tokens = commit_with s.kv s.probe_layer s tokens
