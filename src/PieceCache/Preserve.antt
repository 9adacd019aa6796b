-- ===== src/PieceCache/Preserve.antt =====
-- The accounting through the operations of src/nunspark/piece_cache.py on the tables.
use nunspark.Base.{
  ℕ, ◌+◌, ◌-◌, ◌≤◌, ◌≡◌, refl, inl, inr, Bool, false, List, [], ◌∷◌, Option, some, arith, leb,
  Bool-cases, Option-cases, leb→le,
}
use nunspark.PieceCache.Pieces.{
  Pid, piece_bytes, PieceClass, dense, core, expert, is_expert, piece_class,
}
use nunspark.PieceCache.Table.{lookup, has, total, total-remove, total-assign, total-move_to_end}
use nunspark.PieceCache.State.{Cache, Staged, ByClass, add_count, init}
use nunspark.PieceCache.Ops.{
  stale_pids, expire, expire_all, begin_pass, note_peak, touch, promote_staged, make_room,
}
use nunspark.PieceCache.Accounting.{IsAccounted, sum_counts, staged_bytes, evict_locked-IsAccounted}

pub sum_counts-add_count :
    (c : PieceClass) (n : ℕ) (b : ByClass) → sum_counts (add_count c n b) ≡ sum_counts b + n
unfolding add_count
sum_counts-add_count dense n b = omega arith
sum_counts-add_count core n b = omega arith
sum_counts-add_count expert n b = omega arith

pub init-IsAccounted :
    (budget expert_budget default_cap : ℕ) (pinned : List Pid) (staging : Option ℕ) (warm : Bool)
    → IsAccounted (init budget expert_budget default_cap pinned staging warm)
unfolding init total
init-IsAccounted budget expert_budget default_cap pinned staging warm = record {
  main = refl;
  experts = refl;
  bytes = refl;
  staged = refl;
  capped = omega arith;
  hits = refl;
  misses = refl;
}

expire-IsAccounted : (s : Cache) (pid : Pid) → IsAccounted s → IsAccounted (expire s pid)
unfolding expire
expire-IsAccounted s pid a = elim (Option-cases (lookup pid s.staging)) [
  | inl absent ↦ rw (absent, expire) a
  | inr (g, here) ↦
      rw (here, expire)
        (record {
          main = a.main;
          experts = a.experts;
          bytes = a.bytes;
          staged = omega (arith, a.staged, total-remove staged_bytes pid s.staging here);
          capped = omega (arith, a.capped);
          hits = a.hits;
          misses = a.misses;
        })
]

expire_all-IsAccounted :
    (s : Cache) (pids : List Pid) → IsAccounted s → IsAccounted (expire_all s pids)
unfolding expire_all
expire_all-IsAccounted s [] a = a
expire_all-IsAccounted s (pid ∷ pids) a =
    expire_all-IsAccounted (expire s pid) pids (expire-IsAccounted s pid a)

pub begin_pass-IsAccounted : (s : Cache) → IsAccounted s → IsAccounted (begin_pass s)
unfolding begin_pass
begin_pass-IsAccounted s a =
    expire_all-IsAccounted (record s { epoch = s.epoch + 1 }) (stale_pids (s.epoch + 1) s.staging)
      (record {
        main = a.main;
        experts = a.experts;
        bytes = a.bytes;
        staged = a.staged;
        capped = a.capped;
        hits = a.hits;
        misses = a.misses;
      })

pub note_peak-IsAccounted : (s : Cache) → IsAccounted s → IsAccounted (note_peak s)
unfolding note_peak
note_peak-IsAccounted s a = record {
  main = a.main;
  experts = a.experts;
  bytes = a.bytes;
  staged = a.staged;
  capped = a.capped;
  hits = a.hits;
  misses = a.misses;
}

pub touch-IsAccounted : (s : Cache) (pid : Pid) → IsAccounted s → IsAccounted (touch s pid)
unfolding touch
touch-IsAccounted s pid a =
    let counted = sum_counts-add_count (piece_class pid) 1 s.hits_by_class in
    elim (Bool-cases (is_expert pid)) [
      | inl ex ↦ rw ex (record {
        main = a.main;
        experts = omega (arith, a.experts, total-move_to_end piece_bytes pid s.experts);
        bytes = a.bytes;
        staged = a.staged;
        capped = a.capped;
        hits = omega (arith, a.hits, counted);
        misses = a.misses;
      })
      | inr ma ↦ rw ma (record {
        main = omega (arith, a.main, total-move_to_end piece_bytes pid s.resident);
        experts = a.experts;
        bytes = a.bytes;
        staged = a.staged;
        capped = a.capped;
        hits = omega (arith, a.hits, counted);
        misses = a.misses;
      })
    ]

pub promote_staged-IsAccounted :
    (s : Cache) (pid : Pid) (g : Staged)
    → lookup pid s.staging ≡ some g
    → has pid s.experts ≡ false
    → g.nbytes ≡ piece_bytes g.weights
    → IsAccounted s
    → IsAccounted (promote_staged s pid g)
unfolding promote_staged
promote_staged-IsAccounted s pid g here fresh sized a = evict_locked-IsAccounted pid _ (
    note_peak-IsAccounted _ (record {
      main = a.main;
      experts =
          omega (arith, a.experts, sized, total-assign piece_bytes pid g.weights s.experts fresh);
      bytes = omega (arith, a.bytes);
      staged = omega (arith, a.staged, total-remove staged_bytes pid s.staging here);
      capped = omega (arith, a.capped);
      hits = omega (arith, a.hits, sum_counts-add_count expert 1 s.hits_by_class);
      misses = a.misses;
    }))

pub make_room-total :
    (cap nbytes used : ℕ) (t : List (Pid × Staged))
    → used ≡ total staged_bytes t
    → (make_room cap nbytes used t).bytes ≡ total staged_bytes (make_room cap nbytes used t).staging
unfolding make_room total
make_room-total cap nbytes used [] h = h
make_room-total cap nbytes used ((pid, g) ∷ t) h =
    ground (arith, make_room-total cap nbytes (used - g.nbytes) t)

pub make_room-fits :
    (cap nbytes used : ℕ) (t : List (Pid × Staged))
    → used ≡ total staged_bytes t
    → nbytes ≤ cap
    → (make_room cap nbytes used t).bytes + nbytes ≤ cap
unfolding make_room total
make_room-fits cap nbytes used [] h n = omega arith
make_room-fits cap nbytes used ((pid, g) ∷ t) h n = elim (Bool-cases (leb (used + nbytes) cap)) [
  | inl under ↦ rw under (leb→le (used + nbytes) cap under)
  | inr over ↦ rw over (make_room-fits cap nbytes (used - g.nbytes) t (omega arith) n)
]

pub make_room-fresh :
    (pid : Pid) (cap nbytes used : ℕ) (t : List (Pid × Staged))
    → has pid t ≡ false
    → has pid (make_room cap nbytes used t).staging ≡ false
unfolding make_room has
make_room-fresh pid cap nbytes used [] h = h
make_room-fresh pid cap nbytes used ((p, g) ∷ t) h =
    ground (arith, make_room-fresh pid cap nbytes (used - g.nbytes) t)
