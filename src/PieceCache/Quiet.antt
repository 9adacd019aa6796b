-- ===== src/PieceCache/Quiet.antt =====
-- The operations of src/nunspark/piece_cache.py that leave the reservations and the queued tasks alone.
use nunspark.Base.{
  ℕ, ◌+◌, ◌≡◌, refl, ◌∙◌, inl, inr, ◌&&◌, List, [], ◌∷◌, ltb, Bool-cases, Option-cases,
}
use nunspark.PieceCache.Pieces.{Pid, Weights, piece_bytes, is_expert, piece_class}
use nunspark.PieceCache.Table.{member, discard, lookup}
use nunspark.PieceCache.State.{Cache, Staged, add_count}
use nunspark.PieceCache.Evict.{evict_main, evict_experts, evict_locked}
use nunspark.PieceCache.Ops.{
  arrive, expire, expire_all, begin_pass, stale_pids, note_peak, touch, promote_staged,
  stage_locked, insert_demand, land, join,
}

-- `r` holds the reservations and the tasks of `s`.
pub record IsQuiet (s r : Cache) : Type 0 where
  pub inflight : r.inflight ≡ s.inflight
  pub queue : r.queue ≡ s.queue
  pub warming : r.warming ≡ s.warming

quiet : {s : Cache} → IsQuiet s s
quiet = record { inflight = refl; queue = refl; warming = refl }

expire-IsQuiet : (s : Cache) (p : Pid) → IsQuiet s (expire s p)
unfolding expire
expire-IsQuiet s p = elim (Option-cases (lookup p s.staging)) [
  | inl absent ↦ rw (absent, expire) quiet
  | inr (g, here) ↦ rw (here, expire) (record { inflight = refl; queue = refl; warming = refl })
]

expire_all-IsQuiet : (s : Cache) (pids : List Pid) → IsQuiet s (expire_all s pids)
unfolding expire_all
expire_all-IsQuiet s [] = quiet
expire_all-IsQuiet s (p ∷ pids) =
    let e = expire-IsQuiet s p in
    let r = expire_all-IsQuiet (expire s p) pids in
    record {
      inflight = r.inflight ∙ e.inflight;
      queue = r.queue ∙ e.queue;
      warming = r.warming ∙ e.warming;
    }

pub begin_pass-IsQuiet : (s : Cache) → IsQuiet s (begin_pass s)
unfolding begin_pass
begin_pass-IsQuiet s =
    let next : Cache = record s { epoch = s.epoch + 1 } in
    let r = expire_all-IsQuiet next (stale_pids (s.epoch + 1) s.staging) in
    record { inflight = r.inflight; queue = r.queue; warming = r.warming }

pub touch-IsQuiet : (s : Cache) (p : Pid) → IsQuiet s (touch s p)
unfolding touch
touch-IsQuiet s p = elim (Bool-cases (is_expert p)) [
  | inl ex ↦ rw ex (record { inflight = refl; queue = refl; warming = refl })
  | inr ma ↦ rw ma (record { inflight = refl; queue = refl; warming = refl })
]

pub promote_staged-IsQuiet : (s : Cache) (p : Pid) (g : Staged) → IsQuiet s (promote_staged s p g)
unfolding promote_staged note_peak evict_locked evict_experts evict_main
promote_staged-IsQuiet s p g = record { inflight = refl; queue = refl; warming = refl }

pub join-IsQuiet : (s : Cache) (p : Pid) → IsQuiet s (join s p)
unfolding join
join-IsQuiet s p = elim (Bool-cases (member p s.spec_pending)) [
  | inl ex ↦ rw ex (record { inflight = refl; queue = refl; warming = refl })
  | inr ma ↦ rw ma (record { inflight = refl; queue = refl; warming = refl })
]

stage_locked-IsQuiet :
    (s : Cache) (p : Pid) (w : Weights) (n : ℕ) → IsQuiet s (stage_locked s p w n)
unfolding stage_locked
stage_locked-IsQuiet s p w n = elim (Bool-cases (ltb s.staging_cap n)) [
  | inl ex ↦ rw ex (record { inflight = refl; queue = refl; warming = refl })
  | inr ma ↦ rw ma (record { inflight = refl; queue = refl; warming = refl })
]

insert_demand-IsQuiet : (s : Cache) (p : Pid) (w : Weights) → IsQuiet s (insert_demand s p w)
unfolding insert_demand
insert_demand-IsQuiet s p w = elim (Bool-cases (is_expert p)) [
  | inl ex ↦ rw ex (record { inflight = refl; queue = refl; warming = refl })
  | inr ma ↦ rw ma (record { inflight = refl; queue = refl; warming = refl })
]

pub land-IsQuiet : (s : Cache) (p : Pid) (w : Weights) → IsQuiet s (land s p w)
unfolding land arrive note_peak evict_locked evict_experts evict_main
land-IsQuiet s p w =
    let counted : Cache = record s {
      spec_pending = discard p s.spec_pending;
      bytes_by_class = add_count (piece_class p) (piece_bytes w) s.bytes_by_class;
    } in
    elim (Bool-cases (member p s.spec_pending && is_expert p)) [
      | inl spec ↦
          let q = stage_locked-IsQuiet counted p w (piece_bytes w) in
          rw spec (record { inflight = q.inflight; queue = q.queue; warming = q.warming })
      | inr demand ↦
          let q = insert_demand-IsQuiet counted p w in
          rw demand (record { inflight = q.inflight; queue = q.queue; warming = q.warming })
    ]
