-- ===== src/PieceCache/Absent.antt =====
-- A piece that is in no table of src/nunspark/piece_cache.py, and the operations that keep it so.
use nunspark.Base.{
  ℕ, ◌+◌, ◌≡◌, sym, ap, ◌∙◌, inl, inr, true, false, ◌&&◌, List, [], ◌∷◌, reverse, some, ltb,
  Bool-cases, Option-cases, list_eq,
}
use nunspark.PieceCache.Pieces.{Pid, Weights, piece_bytes, is_expert, piece_class}
use nunspark.PieceCache.Table.{member, discard, lookup, has}
use nunspark.PieceCache.State.{Cache, Staged, add_count}
use nunspark.PieceCache.Evict.{evict_scan, evict_main, evict_experts, evict_locked, main_cap}
use nunspark.PieceCache.Ops.{
  arrive, region, expire, expire_all, begin_pass, stale_pids, note_peak, touch, promote_staged,
  make_room, stage_locked, insert_demand, land,
}
use nunspark.PieceCache.Presence.{
  has-remove, has-assign, has-present, has-move_to_end, has-evict_scan, has-reverse,
}
use nunspark.PieceCache.Preserve.{make_room-fresh}
use nunspark.PieceCache.Locked.{region-expert, region-main}

pub record IsAbsent (s : Cache) (q : Pid) : Type 0 where
  pub resident : is_expert q ≡ false → has q s.resident ≡ false
  pub experts : is_expert q ≡ true → has q s.experts ≡ false
  pub staging : has q s.staging ≡ false

pub absent_lem :
    (s : Cache) (q : Pid) → has q (region s q) ≡ false → has q s.staging ≡ false → IsAbsent s q
absent_lem s q r g = record {
  resident = λ ma. sym (ap (has q) (region-main s q ma)) ∙ r;
  experts = λ ex. sym (ap (has q) (region-expert s q ex)) ∙ r;
  staging = g;
}

pub IsAbsent-region : (s : Cache) (q : Pid) → IsAbsent s q → has q (region s q) ≡ false
IsAbsent-region s q a = elim (Bool-cases (is_expert q)) [
  | inl ex ↦ ap (has q) (region-expert s q ex) ∙ a.experts ex
  | inr ma ↦ ap (has q) (region-main s q ma) ∙ a.resident ma
]

evict_main-IsAbsent :
    (protect : Pid) (s : Cache) (q : Pid) → IsAbsent s q → IsAbsent (evict_main protect s) q
unfolding evict_main
evict_main-IsAbsent protect s q a = record {
  resident = λ ma.
      has-reverse q
        (evict_scan s.pinned protect (main_cap s) s.main_bytes (reverse s.resident)).entries
      ∙ has-evict_scan q s.pinned protect (main_cap s) s.main_bytes (reverse s.resident)
          (has-reverse q s.resident ∙ a.resident ma);
  experts = a.experts;
  staging = a.staging;
}

evict_experts-IsAbsent :
    (protect : Pid) (s : Cache) (q : Pid) → IsAbsent s q → IsAbsent (evict_experts protect s) q
unfolding evict_experts
evict_experts-IsAbsent protect s q a = record {
  resident = a.resident;
  experts = λ ex.
      has-evict_scan q s.pinned protect s.expert_budget (s.expert_bytes + s.staging_bytes) s.experts
        (a.experts ex);
  staging = a.staging;
}

pub evict_locked-IsAbsent :
    (protect : Pid) (s : Cache) (q : Pid) → IsAbsent s q → IsAbsent (evict_locked protect s) q
unfolding evict_locked
evict_locked-IsAbsent protect s q a =
    evict_experts-IsAbsent protect (evict_main protect s) q (evict_main-IsAbsent protect s q a)

expire-IsAbsent : (s : Cache) (p q : Pid) → IsAbsent s q → IsAbsent (expire s p) q
unfolding expire
expire-IsAbsent s p q a = elim (Option-cases (lookup p s.staging)) [
  | inl none_there ↦ rw (none_there, expire) a
  | inr (g, here) ↦
      rw (here, expire)
        (record {
          resident = a.resident;
          experts = a.experts;
          staging = has-remove q p s.staging a.staging;
        })
]

expire_all-IsAbsent :
    (s : Cache) (pids : List Pid) (q : Pid) → IsAbsent s q → IsAbsent (expire_all s pids) q
unfolding expire_all
expire_all-IsAbsent s [] q a = a
expire_all-IsAbsent s (p ∷ pids) q a =
    expire_all-IsAbsent (expire s p) pids q (expire-IsAbsent s p q a)

pub begin_pass-IsAbsent : (s : Cache) (q : Pid) → IsAbsent s q → IsAbsent (begin_pass s) q
unfolding begin_pass
begin_pass-IsAbsent s q a =
    expire_all-IsAbsent (record s { epoch = s.epoch + 1 }) (stale_pids (s.epoch + 1) s.staging) q
      (record { resident = a.resident; experts = a.experts; staging = a.staging })

pub touch-IsAbsent : (s : Cache) (p q : Pid) → IsAbsent s q → IsAbsent (touch s p) q
unfolding touch
touch-IsAbsent s p q a = elim (Bool-cases (is_expert p)) [
  | inl ex ↦ rw ex (record {
    resident = a.resident;
    experts = λ x. has-move_to_end q p s.experts (a.experts x);
    staging = a.staging;
  })
  | inr ma ↦ rw ma (record {
    resident = λ x. has-move_to_end q p s.resident (a.resident x);
    experts = a.experts;
    staging = a.staging;
  })
]

pub promote_staged-IsAbsent :
    (s : Cache) (p q : Pid) (g : Staged)
    → lookup p s.staging ≡ some g
    → IsAbsent s q
    → IsAbsent (promote_staged s p g) q
unfolding promote_staged note_peak
promote_staged-IsAbsent s p q g here a = evict_locked-IsAbsent p _ q (record {
  resident = a.resident;
  experts = λ x.
      has-assign q p g.weights s.experts (has-present q p s.staging here a.staging) (a.experts x);
  staging = has-remove q p s.staging a.staging;
})

stage_locked-IsAbsent :
    (s : Cache) (p q : Pid) (w : Weights) (n : ℕ)
    → list_eq p q ≡ false
    → IsAbsent s q
    → IsAbsent (stage_locked s p w n) q
unfolding stage_locked
stage_locked-IsAbsent s p q w n other a = elim (Bool-cases (ltb s.staging_cap n)) [
  | inl big ↦ rw big (record { resident = a.resident; experts = a.experts; staging = a.staging })
  | inr small ↦ rw small (record {
    resident = a.resident;
    experts = a.experts;
    staging =
        has-assign q p (record { weights = w; nbytes = n; epoch = s.epoch })
          (make_room s.staging_cap n s.staging_bytes s.staging).staging other
          (make_room-fresh q s.staging_cap n s.staging_bytes s.staging a.staging);
  })
]

insert_demand-IsAbsent :
    (s : Cache) (p q : Pid) (w : Weights)
    → list_eq p q ≡ false
    → IsAbsent s q
    → IsAbsent (insert_demand s p w) q
unfolding insert_demand
insert_demand-IsAbsent s p q w other a = elim (Bool-cases (is_expert p)) [
  | inl ex ↦ rw ex (record {
    resident = a.resident;
    experts = λ x. has-assign q p w s.experts other (a.experts x);
    staging = a.staging;
  })
  | inr ma ↦ rw ma (record {
    resident = λ x. has-assign q p w s.resident other (a.resident x);
    experts = a.experts;
    staging = a.staging;
  })
]

-- A load that lands brings in no piece but its own.
pub land-IsAbsent :
    (s : Cache) (p q : Pid) (w : Weights)
    → list_eq p q ≡ false
    → IsAbsent s q
    → IsAbsent (land s p w) q
unfolding land arrive note_peak
land-IsAbsent s p q w other a =
    let counted : Cache = record s {
      spec_pending = discard p s.spec_pending;
      bytes_by_class = add_count (piece_class p) (piece_bytes w) s.bytes_by_class;
    } in
    let c : IsAbsent counted q = record {
      resident = a.resident;
      experts = a.experts;
      staging = a.staging;
    } in
    evict_locked-IsAbsent p _ q (elim (Bool-cases (member p s.spec_pending && is_expert p)) [
      | inl spec ↦
          let d = stage_locked-IsAbsent counted p q w (piece_bytes w) other c in
          rw spec (record { resident = d.resident; experts = d.experts; staging = d.staging })
      | inr demand ↦
          let d = insert_demand-IsAbsent counted p q w other c in
          rw demand (record { resident = d.resident; experts = d.experts; staging = d.staging })
    ])
