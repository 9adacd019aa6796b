-- ===== src/PieceCache/Kept.antt =====
-- What an insertion into the cache of src/nunspark/piece_cache.py leaves in the tables.
use nunspark.Base.{
  ℕ, ◌+◌, ◌-◌, ◌≡◌, refl, sym, ap, ◌∙◌, inl, inr, true, false, ◌&&◌, List, [], ◌∷◌, reverse, arith,
  leb, list_eq, list_eq→eq, list_eq_self, Bool-cases,
}
use nunspark.PieceCache.Pieces.{Pid, Weights, piece_bytes, is_expert, piece_class}
use nunspark.PieceCache.Table.{member, discard, has, assign}
use nunspark.PieceCache.State.{Cache, add_count}
use nunspark.PieceCache.Evict.{
  evict_scan, is_kept, evict_main, evict_experts, evict_locked, main_cap,
}
use nunspark.PieceCache.Ops.{region, arrive, note_peak, insert_demand, land}
use nunspark.PieceCache.Accounting.{IsAccounted, IsWithin, evict_locked-IsWithin}
use nunspark.PieceCache.Locked.{arrive-IsAccounted}
use nunspark.PieceCache.Presence.{has-reverse}
use nunspark.PieceCache.Locked.{region-expert, region-main}

evict_scan-kept :
    (q : Pid) (pinned : List Pid) (protect : Pid) (cap used : ℕ) (t : List (Pid × Weights))
    → is_kept pinned protect q ≡ true
    → has q t ≡ true
    → has q (evict_scan pinned protect cap used t).entries ≡ true
unfolding has evict_scan
evict_scan-kept q pinned protect cap used [] k h = h
evict_scan-kept q pinned protect cap used ((p, w) ∷ t) k h =
    let kept = evict_scan-kept q pinned protect cap used t k in
    let dropped = evict_scan-kept q pinned protect cap (used - piece_bytes w) t k in
    elim (Bool-cases (list_eq p q)) [
      | inl same ↦
          let here = ap (is_kept pinned protect) (list_eq→eq p q same) ∙ k in
          elim (Bool-cases (leb used cap)) [
            | inl under ↦ rw (under, same) refl
            | inr over ↦ rw (over, here, same) refl
          ]
      | inr other ↦ ground (arith, kept, dropped)
    ]

-- An eviction drops no piece that is pinned or protected.
pub evict_locked-kept :
    (protect : Pid) (s : Cache) (q : Pid)
    → is_kept s.pinned protect q ≡ true
    → has q (region s q) ≡ true
    → has q (region (evict_locked protect s) q) ≡ true
unfolding evict_locked evict_experts evict_main
evict_locked-kept protect s q k h = elim (Bool-cases (is_expert q)) [
  | inl ex ↦
      ap (has q) (region-expert (evict_locked protect s) q ex)
      ∙ evict_scan-kept q s.pinned protect s.expert_budget (s.expert_bytes + s.staging_bytes)
          s.experts k (sym (ap (has q) (region-expert s q ex)) ∙ h)
  | inr ma ↦
      let t = reverse s.resident in
      ap (has q) (region-main (evict_locked protect s) q ma)
      ∙ has-reverse q (evict_scan s.pinned protect (main_cap s) s.main_bytes t).entries
      ∙ evict_scan-kept q s.pinned protect (main_cap s) s.main_bytes t k
          (has-reverse q s.resident ∙ sym (ap (has q) (region-main s q ma)) ∙ h)
]

pub has-assign_self :
    {V : Type 0} (q : Pid) (v : V) (t : List (Pid × V)) → has q (assign q v t) ≡ true
unfolding has assign
has-assign_self q v [] = ground (arith, list_eq_self q)
has-assign_self q v ((p, w) ∷ t) = ground (arith, has-assign_self q v t)

insert_demand-here :
    (s : Cache) (p : Pid) (w : Weights) → has p (region (insert_demand s p w) p) ≡ true
unfolding insert_demand region
insert_demand-here s p w = elim (Bool-cases (is_expert p)) [
  | inl ex ↦ rw ex (has-assign_self p w s.experts)
  | inr ma ↦ rw ma (has-assign_self p w s.resident)
]

-- A load that is not a speculative expert load is in its region after it has landed, whatever the
-- eviction dropped.
pub land-here :
    (s : Cache) (p : Pid) (w : Weights)
    → (member p s.spec_pending && is_expert p) ≡ false
    → has p (region (land s p w) p) ≡ true
unfolding land arrive note_peak region is_kept
land-here s p w demand =
    let counted : Cache = record s {
      spec_pending = discard p s.spec_pending;
      bytes_by_class = add_count (piece_class p) (piece_bytes w) s.bytes_by_class;
    } in
    rw demand (
      evict_locked-kept p (note_peak (insert_demand counted p w)) p (ground (arith, list_eq_self p))
        (insert_demand-here counted p w))

-- When a load of a piece that is in no table lands in a cache with true byte counters, each region
-- ends within its cap, or holds nothing but pieces that are pinned or have just come in; the expert
-- region shares its cap with the staged pieces.
pub land-IsWithin :
    (s : Cache) (p : Pid) (w : Weights)
    → has p (region s p) ≡ false
    → has p s.staging ≡ false
    → IsAccounted s
    → IsWithin p (land s p w)
unfolding land
land-IsWithin s p w absent unstaged a =
    evict_locked-IsWithin p (arrive s p w) (arrive-IsAccounted s p w absent unstaged a)
