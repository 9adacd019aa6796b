-- ===== src/PieceCache/Stageable.antt =====
-- The staging buffer of src/nunspark/piece_cache.py: experts only, each with its bytes.
use nunspark.Base.{
  ℕ, ◌+◌, ◌-◌, ◌≡◌, refl, sym, ap, ◌∙◌, inl, inr, true, ◌&&◌, List, [], ◌∷◌, some, arith, leb, ltb,
  Bool-cases, Option-cases, list_eq, list_eq→eq,
}
use nunspark.PieceCache.Pieces.{Pid, Weights, piece_bytes, is_expert, piece_class}
use nunspark.PieceCache.Table.{member, discard, lookup, remove, assign}
use nunspark.PieceCache.State.{Cache, Staged, add_count}
use nunspark.PieceCache.Evict.{evict_main, evict_experts, evict_locked}
use nunspark.PieceCache.Ops.{
  arrive, expire, expire_all, begin_pass, stale_pids, note_peak, touch, promote_staged, make_room,
  stage_locked, insert_demand, land,
}

abbrev pub AllStaged : List (Pid × Staged) → Type 0
AllStaged [] = Unit {0}
AllStaged ((p, g) ∷ t) = (is_expert p ≡ true) × (g.nbytes ≡ piece_bytes g.weights) × AllStaged t

pub AllStaged-lookup :
    (p : Pid) (t : List (Pid × Staged)) {g : Staged}
    → AllStaged t
    → lookup p t ≡ some g
    → (is_expert p ≡ true) × (g.nbytes ≡ piece_bytes g.weights)
unfolding lookup
AllStaged-lookup p [] a h = absurd (ground arith)
AllStaged-lookup p ((k, f) ∷ t) {g = g} (x, n, a) h = elim (Bool-cases (list_eq k p)) [
  | inl same ↦ (ap is_expert (sym (list_eq→eq k p same)) ∙ x, ground arith)
  | inr other ↦ AllStaged-lookup p t {g = g} a (ground arith)
]

remove-AllStaged : (p : Pid) (t : List (Pid × Staged)) → AllStaged t → AllStaged (remove p t)
unfolding remove
remove-AllStaged p [] a = tt
remove-AllStaged p ((k, f) ∷ t) (x, n, a) = elim (Bool-cases (list_eq k p)) [
  | inl same ↦ rw same a
  | inr other ↦ rw other (x, n, remove-AllStaged p t a)
]

assign-AllStaged :
    (p : Pid) (g : Staged) (t : List (Pid × Staged))
    → is_expert p ≡ true
    → g.nbytes ≡ piece_bytes g.weights
    → AllStaged t
    → AllStaged (assign p g t)
unfolding assign
assign-AllStaged p g [] e s a = (e, s, tt)
assign-AllStaged p g ((k, f) ∷ t) e s (x, n, a) = elim (Bool-cases (list_eq k p)) [
  | inl same ↦ rw same (x, s, a)
  | inr other ↦ rw other (x, n, assign-AllStaged p g t e s a)
]

make_room-AllStaged :
    (cap n used : ℕ) (t : List (Pid × Staged))
    → AllStaged t
    → AllStaged (make_room cap n used t).staging
unfolding make_room
make_room-AllStaged cap n used [] a = tt
make_room-AllStaged cap n used ((k, f) ∷ t) (x, m, a) = elim (Bool-cases (leb (used + n) cap)) [
  | inl fits ↦ rw fits (x, m, a)
  | inr over ↦ rw over (make_room-AllStaged cap n (used - f.nbytes) t a)
]

expire-AllStaged : (s : Cache) (p : Pid) → AllStaged s.staging → AllStaged (expire s p).staging
unfolding expire
expire-AllStaged s p a = elim (Option-cases (lookup p s.staging)) [
  | inl absent ↦ rw (absent, expire) a
  | inr (g, here) ↦ rw (here, expire) (remove-AllStaged p s.staging a)
]

expire_all-AllStaged :
    (s : Cache) (pids : List Pid) → AllStaged s.staging → AllStaged (expire_all s pids).staging
unfolding expire_all
expire_all-AllStaged s [] a = a
expire_all-AllStaged s (p ∷ pids) a =
    expire_all-AllStaged (expire s p) pids (expire-AllStaged s p a)

pub begin_pass-AllStaged : (s : Cache) → AllStaged s.staging → AllStaged (begin_pass s).staging
unfolding begin_pass
begin_pass-AllStaged s a =
    expire_all-AllStaged (record s { epoch = s.epoch + 1 }) (stale_pids (s.epoch + 1) s.staging) a

pub touch-AllStaged : (s : Cache) (p : Pid) → AllStaged s.staging → AllStaged (touch s p).staging
unfolding touch
touch-AllStaged s p a = elim (Bool-cases (is_expert p)) [ inl ex ↦ rw ex a | inr ma ↦ rw ma a ]

pub promote_staged-AllStaged :
    (s : Cache) (p : Pid) (g : Staged)
    → AllStaged s.staging
    → AllStaged (promote_staged s p g).staging
unfolding promote_staged note_peak evict_locked evict_experts evict_main
promote_staged-AllStaged s p g a = remove-AllStaged p s.staging a

stage_locked-AllStaged :
    (s : Cache) (p : Pid) (w : Weights)
    → is_expert p ≡ true
    → AllStaged s.staging
    → AllStaged (stage_locked s p w (piece_bytes w)).staging
unfolding stage_locked
stage_locked-AllStaged s p w e a = elim (Bool-cases (ltb s.staging_cap (piece_bytes w))) [
  | inl big ↦ rw big a
  | inr small ↦ rw small (
      assign-AllStaged p (record { weights = w; nbytes = piece_bytes w; epoch = s.epoch })
        (make_room s.staging_cap (piece_bytes w) s.staging_bytes s.staging).staging e refl
        (make_room-AllStaged s.staging_cap (piece_bytes w) s.staging_bytes s.staging a))
]

insert_demand-staging :
    (s : Cache) (p : Pid) (w : Weights)
    → AllStaged s.staging
    → AllStaged (insert_demand s p w).staging
unfolding insert_demand
insert_demand-staging s p w a = elim (Bool-cases (is_expert p)) [
  | inl ex ↦ rw ex a
  | inr ma ↦ rw ma a
]

pub land-AllStaged :
    (s : Cache) (p : Pid) (w : Weights) → AllStaged s.staging → AllStaged (land s p w).staging
unfolding land arrive note_peak evict_locked evict_experts evict_main
land-AllStaged s p w a =
    let counted : Cache = record s {
      spec_pending = discard p s.spec_pending;
      bytes_by_class = add_count (piece_class p) (piece_bytes w) s.bytes_by_class;
    } in
    elim (Bool-cases (member p s.spec_pending && is_expert p)) [
      | inl spec ↦ rw spec (stage_locked-AllStaged counted p w (ground arith) a)
      | inr demand ↦ rw demand (insert_demand-staging counted p w a)
    ]
