-- ===== src/PieceCache/Locked.antt =====
-- The accounting through the locked blocks of src/nunspark/piece_cache.py that load and release pieces.
use nunspark.Base.{
  refl, sym, ap, ◌∙◌, ℕ, ◌≡◌, inl, inr, true, false, ◌&&◌, arith, ltb, Bool-cases, ltb-false→le,
}
use nunspark.PieceCache.Pieces.{Pid, Weights, piece_bytes, is_expert, piece_class}
use nunspark.PieceCache.Table.{member, discard, has, total-assign}
use nunspark.PieceCache.State.{Cache, Staged, add_count}
use nunspark.PieceCache.Ops.{region, make_room, stage_locked, insert_demand, arrive, land, release}
use nunspark.PieceCache.Accounting.{IsAccounted, staged_bytes, evict_locked-IsAccounted}
use nunspark.PieceCache.Preserve.{
  make_room-total, make_room-fits, make_room-fresh, note_peak-IsAccounted,
}

pub stage_locked-IsAccounted :
    (s : Cache) (pid : Pid) (w : Weights) (n : ℕ)
    → has pid s.staging ≡ false
    → IsAccounted s
    → IsAccounted (stage_locked s pid w n)
unfolding stage_locked
stage_locked-IsAccounted s pid w n fresh a =
    let room = make_room s.staging_cap n s.staging_bytes s.staging in
    let entry : Staged = record { weights = w; nbytes = n; epoch = s.epoch } in
    elim (Bool-cases (ltb s.staging_cap n)) [
      | inl big ↦ rw big (record {
        main = a.main;
        experts = a.experts;
        bytes = a.bytes;
        staged = a.staged;
        capped = a.capped;
        hits = a.hits;
        misses = a.misses;
      })
      | inr small ↦ rw small (record {
        main = a.main;
        experts = a.experts;
        bytes = a.bytes;
        staged = omega (
          arith,
          total-assign staged_bytes pid entry room.staging
              (make_room-fresh pid s.staging_cap n s.staging_bytes s.staging fresh),
          make_room-total s.staging_cap n s.staging_bytes s.staging a.staged,
        );
        capped =
            make_room-fits s.staging_cap n s.staging_bytes s.staging a.staged
              (ltb-false→le s.staging_cap n small);
        hits = a.hits;
        misses = a.misses;
      })
    ]

pub region-expert : (s : Cache) (pid : Pid) → is_expert pid ≡ true → region s pid ≡ s.experts
unfolding region
region-expert s pid ex = rw ex refl

pub region-main : (s : Cache) (pid : Pid) → is_expert pid ≡ false → region s pid ≡ s.resident
unfolding region
region-main s pid ma = rw ma refl

pub insert_demand-IsAccounted :
    (s : Cache) (pid : Pid) (w : Weights)
    → has pid (region s pid) ≡ false
    → IsAccounted s
    → IsAccounted (insert_demand s pid w)
unfolding insert_demand
insert_demand-IsAccounted s pid w fresh a = elim (Bool-cases (is_expert pid)) [
  | inl ex ↦ rw ex (record {
    main = a.main;
    experts = omega (
      arith,
      a.experts,
      total-assign piece_bytes pid w s.experts
          (sym (ap (has pid) (region-expert s pid ex)) ∙ fresh),
    );
    bytes = omega (arith, a.bytes);
    staged = a.staged;
    capped = a.capped;
    hits = a.hits;
    misses = a.misses;
  })
  | inr ma ↦ rw ma (record {
    main = omega (
      arith,
      a.main,
      total-assign piece_bytes pid w s.resident (sym (ap (has pid) (region-main s pid ma)) ∙ fresh),
    );
    experts = a.experts;
    bytes = omega (arith, a.bytes);
    staged = a.staged;
    capped = a.capped;
    hits = a.hits;
    misses = a.misses;
  })
]

pub arrive-IsAccounted :
    (s : Cache) (pid : Pid) (w : Weights)
    → has pid (region s pid) ≡ false
    → has pid s.staging ≡ false
    → IsAccounted s
    → IsAccounted (arrive s pid w)
unfolding arrive region
arrive-IsAccounted s pid w absent unstaged a =
    let counted : Cache = record s {
      spec_pending = discard pid s.spec_pending;
      bytes_by_class = add_count (piece_class pid) (piece_bytes w) s.bytes_by_class;
    } in
    let c : IsAccounted counted = record {
      main = a.main;
      experts = a.experts;
      bytes = a.bytes;
      staged = a.staged;
      capped = a.capped;
      hits = a.hits;
      misses = a.misses;
    } in
    note_peak-IsAccounted _ (elim (Bool-cases (member pid s.spec_pending && is_expert pid)) [
      | inl spec ↦ rw spec (stage_locked-IsAccounted counted pid w (piece_bytes w) unstaged c)
      | inr demand ↦ rw demand (insert_demand-IsAccounted counted pid w absent c)
    ])

pub land-IsAccounted :
    (s : Cache) (pid : Pid) (w : Weights)
    → has pid (region s pid) ≡ false
    → has pid s.staging ≡ false
    → IsAccounted s
    → IsAccounted (land s pid w)
unfolding land
land-IsAccounted s pid w absent unstaged a =
    evict_locked-IsAccounted pid (arrive s pid w) (arrive-IsAccounted s pid w absent unstaged a)

pub release-IsAccounted : (s : Cache) (pid : Pid) → IsAccounted s → IsAccounted (release s pid)
unfolding release
release-IsAccounted s pid a = record {
  main = a.main;
  experts = a.experts;
  bytes = a.bytes;
  staged = a.staged;
  capped = a.capped;
  hits = a.hits;
  misses = a.misses;
}
