-- ===== src/PieceCache/Accounting.antt =====
-- The byte accounting of the cache, and the caps that eviction restores.
use nunspark.Base.{
  ℕ, ◌+◌, ◌≤◌, ◌≡◌, refl, sym, ap, subst, ◌∙◌, ◌⊎◌, inl, inr, List, [], ◌∷◌, reverse, arith,
  reverse-reverse,
}
use mathlib.Core.List.{reverse-cons}
use nunspark.PieceCache.Pieces.{Pid, piece_bytes}
use nunspark.PieceCache.Table.{total, total-append, total-one}
use nunspark.PieceCache.State.{Cache, Staged, ByClass}
use nunspark.PieceCache.Evict.{
  evict_scan, evict_main, evict_experts, evict_locked, main_cap, AllKept, evict_scan-Scanned,
}

abbrev pub sum_counts : ByClass → ℕ
sum_counts c = c.dense_count + c.core_count + c.expert_count

abbrev pub staged_bytes : Staged → ℕ
staged_bytes g = g.nbytes

-- The byte counters are the bytes of the tables, staging is within its cap, and the sums of the
-- counters by class are the counters.
pub record IsAccounted (s : Cache) : Type 0 where
  pub main : s.main_bytes ≡ total piece_bytes s.resident
  pub experts : s.expert_bytes ≡ total piece_bytes s.experts
  pub bytes : s.bytes ≡ s.main_bytes + s.expert_bytes
  pub staged : s.staging_bytes ≡ total staged_bytes s.staging
  pub capped : s.staging_bytes ≤ s.staging_cap
  pub hits : s.hits ≡ sum_counts s.hits_by_class
  pub misses : s.misses ≡ sum_counts s.misses_by_class

-- Each region is within its cap, or all that is left in it is pinned or protected.
pub record IsWithin (protect : Pid) (s : Cache) : Type 0 where
  pub main : (s.main_bytes ≤ main_cap s) ⊎ AllKept s.pinned protect (reverse s.resident)
  pub experts :
      (s.expert_bytes + s.staging_bytes ≤ s.expert_budget) ⊎ AllKept s.pinned protect s.experts

pub total-reverse :
    {V : Type 0} (size : V → ℕ) (t : List (Pid × V)) → total size (reverse t) ≡ total size t
unfolding total
total-reverse size [] = refl
total-reverse size ((p, v) ∷ t) =
    ap (total size) (reverse-cons (p, v) t)
    ∙ total-append size (reverse t) ((p, v) ∷ [])
    ∙ omega (arith, total-reverse size t, total-one size p v)

pub evict_main-IsAccounted :
    (protect : Pid) (s : Cache) → IsAccounted s → IsAccounted (evict_main protect s)
unfolding evict_main
evict_main-IsAccounted protect s a =
    let r =
      evict_scan-Scanned s.pinned protect (main_cap s) s.main_bytes (reverse s.resident)
        (omega (arith, total-reverse piece_bytes s.resident, a.main)) in
    let back =
      total-reverse piece_bytes
        (evict_scan s.pinned protect (main_cap s) s.main_bytes (reverse s.resident)).entries in
    record {
      main =
          omega (
            arith,
            back,
            r.freed_left,
            r.freed_total,
            a.main,
            total-reverse piece_bytes s.resident,
          );
      experts = a.experts;
      bytes = omega (arith, r.freed_left, a.bytes);
      staged = a.staged;
      capped = a.capped;
      hits = a.hits;
      misses = a.misses;
    }

pub evict_experts-IsAccounted :
    (protect : Pid) (s : Cache) → IsAccounted s → IsAccounted (evict_experts protect s)
unfolding evict_experts
evict_experts-IsAccounted protect s a =
    let r =
      evict_scan-Scanned s.pinned protect s.expert_budget (s.expert_bytes + s.staging_bytes)
        s.experts (omega (arith, a.experts)) in
    record {
      main = a.main;
      experts = omega (arith, r.freed_total, a.experts);
      bytes = omega (arith, r.freed_total, a.experts, a.bytes);
      staged = a.staged;
      capped = a.capped;
      hits = a.hits;
      misses = a.misses;
    }

pub evict_locked-IsAccounted :
    (protect : Pid) (s : Cache) → IsAccounted s → IsAccounted (evict_locked protect s)
unfolding evict_locked
evict_locked-IsAccounted protect s a =
    evict_experts-IsAccounted protect (evict_main protect s) (evict_main-IsAccounted protect s a)

pub evict_main-IsWithin :
    (protect : Pid) (s : Cache)
    → IsAccounted s
    → ((evict_main protect s).main_bytes ≤ main_cap (evict_main protect s))
      ⊎ AllKept s.pinned protect (reverse (evict_main protect s).resident)
unfolding evict_main main_cap
evict_main-IsWithin protect s a =
    let scan = evict_scan s.pinned protect (main_cap s) s.main_bytes (reverse s.resident) in
    elim (evict_scan-Scanned s.pinned protect (main_cap s) s.main_bytes (reverse s.resident)
      (omega (arith, total-reverse piece_bytes s.resident, a.main))).fits [
        | inl f ↦ inl f
        | inr k ↦ inr (subst (AllKept s.pinned protect) (sym (reverse-reverse scan.entries)) k)
      ]

pub evict_experts-IsWithin :
    (protect : Pid) (s : Cache)
    → IsAccounted s
    → ((evict_experts protect s).expert_bytes + s.staging_bytes ≤ s.expert_budget)
      ⊎ AllKept s.pinned protect (evict_experts protect s).experts
unfolding evict_experts
evict_experts-IsWithin protect s a =
    let r =
      evict_scan-Scanned s.pinned protect s.expert_budget (s.expert_bytes + s.staging_bytes)
        s.experts (omega (arith, a.experts)) in
    elim r.fits [
      | inl f ↦ inl (omega (arith, f, r.freed_left, r.freed_total, a.experts))
      | inr k ↦ inr k
    ]

-- After an eviction each region is within its cap, or holds nothing but pieces that are pinned or
-- protected; the expert region shares its cap with the staged pieces.
pub evict_locked-IsWithin :
    (protect : Pid) (s : Cache) → IsAccounted s → IsWithin protect (evict_locked protect s)
unfolding evict_locked evict_experts evict_main main_cap
evict_locked-IsWithin protect s a = record {
  main = evict_main-IsWithin protect s a;
  experts =
      evict_experts-IsWithin protect (evict_main protect s) (evict_main-IsAccounted protect s a);
}
