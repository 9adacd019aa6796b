-- ===== src/PieceCache/Evict.antt =====
-- `_evict_locked` of src/nunspark/piece_cache.py: each region is brought under its own cap, from the
-- most recent end in the main region and from the oldest in the expert region.
use nunspark.Base.{
  ℕ, ◌+◌, ◌-◌, ◌≤◌, ◌≡◌, ◌⊎◌, inl, inr, Bool, true, ◌||◌, List, [], ◌∷◌, reverse, leb, leb→le,
  if◌then◌else◌, list_eq, arith, Bool-cases,
}
use nunspark.PieceCache.Pieces.{Pid, Weights, piece_bytes}
use nunspark.PieceCache.Table.{member, total}
use nunspark.PieceCache.State.{Cache}

-- An entry that no eviction drops.
unfoldable pub is_kept : List Pid → Pid → Pid → Bool
is_kept pinned protect pid = list_eq pid protect || member pid pinned

pub record Scan : Type 0 where
  pub entries : List (Pid × Weights)
  pub left : ℕ
  pub freed : ℕ

-- The loop of a region over its entries in the order of eviction: while `used` bytes are above
-- `cap`, an entry that is not kept is dropped. `left` is what is used at the end.
unfoldable pub evict_scan : List Pid → Pid → ℕ → ℕ → List (Pid × Weights) → Scan
evict_scan pinned protect cap used [] = record { entries = []; left = used; freed = 0 }
evict_scan pinned protect cap used ((pid, w) ∷ t) =
    let kept = evict_scan pinned protect cap used t in
    let dropped = evict_scan pinned protect cap (used - piece_bytes w) t in
    if leb used cap
    then record { entries = (pid, w) ∷ t; left = used; freed = 0 }
    else if is_kept pinned protect pid
    then record kept { entries = (pid, w) ∷ kept.entries }
    else record dropped { freed = piece_bytes w + dropped.freed }

unfoldable pub main_cap : Cache → ℕ
main_cap s = if s.split_active then s.budget - s.expert_budget else s.budget

unfoldable pub evict_main : Pid → Cache → Cache
evict_main protect s =
    let scan = evict_scan s.pinned protect (main_cap s) s.main_bytes (reverse s.resident) in
    record s {
      resident = reverse scan.entries;
      main_bytes = scan.left;
      bytes = s.bytes - scan.freed;
    }

-- The expert region shares its budget with the staging buffer, so that the loop counts both.
unfoldable pub evict_experts : Pid → Cache → Cache
evict_experts protect s =
    let scan =
      evict_scan s.pinned protect s.expert_budget (s.expert_bytes + s.staging_bytes) s.experts in
    record s {
      experts = scan.entries;
      expert_bytes = s.expert_bytes - scan.freed;
      bytes = s.bytes - scan.freed;
    }

unfoldable pub evict_locked : Pid → Cache → Cache
evict_locked protect s = evict_experts protect (evict_main protect s)

-- What is left of the entries when the loop ends: kept ones only, or as many bytes as fit.
abbrev pub AllKept : List Pid → Pid → List (Pid × Weights) → Type 0
AllKept pinned protect [] = Unit {0}
AllKept pinned protect ((pid, w) ∷ t) =
    (is_kept pinned protect pid ≡ true) × AllKept pinned protect t

pub record Scanned (pinned : List Pid) (protect : Pid) (cap used : ℕ) (t : List (Pid × Weights))
    (r : Scan) : Type 0 where
  pub freed_left : r.freed + r.left ≡ used
  pub freed_total : r.freed + total piece_bytes r.entries ≡ total piece_bytes t
  pub fits : (r.left ≤ cap) ⊎ AllKept pinned protect r.entries

pub evict_scan-Scanned :
    (pinned : List Pid) (protect : Pid) (cap used : ℕ) (t : List (Pid × Weights))
    → total piece_bytes t ≤ used
    → Scanned pinned protect cap used t (evict_scan pinned protect cap used t)
unfolding evict_scan total
evict_scan-Scanned pinned protect cap used [] h = record {
  freed_left = omega arith;
  freed_total = omega arith;
  fits = inr tt;
}
evict_scan-Scanned pinned protect cap used ((pid, w) ∷ t) h = elim (Bool-cases (leb used cap)) [
  | inl under ↦ rw under (record {
    freed_left = omega arith;
    freed_total = omega arith;
    fits = inl (leb→le used cap under);
  })
  | inr over ↦ elim (Bool-cases (is_kept pinned protect pid)) [
    | inl keep ↦
        let r = evict_scan-Scanned pinned protect cap used t (omega arith) in
        rw (over, keep)
          (record {
            freed_left = r.freed_left;
            freed_total = omega (arith, r.freed_total);
            fits = elim r.fits [ inl f ↦ inl f | inr a ↦ inr (keep, a) ];
          })
    | inr drop_it ↦
        let r = evict_scan-Scanned pinned protect cap (used - piece_bytes w) t (omega arith) in
        rw (over, drop_it)
          (record {
            freed_left = omega (arith, r.freed_left);
            freed_total = omega (arith, r.freed_total);
            fits = r.fits;
          })
  ]
]
