-- ===== src/PieceCache/Releases.antt =====
-- The end of a load of src/nunspark/piece_cache.py: the reservation is released, after a load that
-- failed or one that landed.
use nunspark.Base.{ℕ, ◌+◌, ◌≡◌, inl, inr, true, List, arith, list_eq, Bool-cases}
use nunspark.PieceCache.Pieces.{Pid}
use nunspark.PieceCache.Table.{member, discard}
use nunspark.PieceCache.Ops.{release}
use nunspark.PieceCache.Locked.{release-IsAccounted}
use nunspark.PieceCache.Threads.{System, act, fails, releases, drop_first}
use nunspark.PieceCache.Owners.{bit, occurrences, drop_first-occurrences, member-discard}
use nunspark.PieceCache.Consistency.{Consistent, seekers}
use nunspark.PieceCache.Loads.{Holds, loading-Holds, bit-bound}

-- The reservation goes, and with it one of the threads that hold a piece.
discard-owned :
    (p q : Pid) (ps : List Pid) (m n : ℕ)
    → m ≡ bit (member q ps)
    → m ≡ bit (list_eq p q) + n
    → n ≡ bit (member q (discard p ps))
unfolding bit
discard-owned p q ps m n owned fewer =
    ground (arith, member-discard q p ps, bit-bound (member q ps))

failed-Consistent :
    (y : System) (p : Pid)
    → Holds y p
    → Consistent y
    → Consistent (record y { cache = release y.cache p; loading = drop_first p y.loading })
unfolding seekers occurrences release
failed-Consistent y p o i = record {
  accounted = release-IsAccounted y.cache p i.accounted;
  staged = i.staged;
  owned = λ q.
      discard-owned p q y.cache.inflight (seekers y q + occurrences q y.landed) _ (i.owned q)
        (omega (arith, o.fewer q));
  absent = λ q h.
      let a = i.absent q (omega (arith, h, o.fewer q)) in
      record { resident = a.resident; experts = a.experts; staging = a.staging };
}

pub fails-Consistent : (y : System) (p : Pid) → Consistent y → Consistent (act (fails p) y)
unfolding act
fails-Consistent y p i = elim (Bool-cases (member p y.loading)) [
  | inl there ↦ rw there (failed-Consistent y p (loading-Holds y p there i) i)
  | inr idle ↦ rw idle i
]

released-Consistent :
    (y : System) (p : Pid)
    → member p y.landed ≡ true
    → Consistent y
    → Consistent (record y { cache = release y.cache p; landed = drop_first p y.landed })
unfolding seekers occurrences release
released-Consistent y p there i = record {
  accounted = release-IsAccounted y.cache p i.accounted;
  staged = i.staged;
  owned = λ q.
      discard-owned p q y.cache.inflight (seekers y q + occurrences q y.landed) _ (i.owned q)
        (omega (arith, drop_first-occurrences q p y.landed there));
  absent = λ q h.
      let a = i.absent q (omega (arith, h)) in
      record { resident = a.resident; experts = a.experts; staging = a.staging };
}

pub releases-Consistent : (y : System) (p : Pid) → Consistent y → Consistent (act (releases p) y)
unfolding act
releases-Consistent y p i = elim (Bool-cases (member p y.landed)) [
  | inl there ↦ rw there (released-Consistent y p there i)
  | inr idle ↦ rw idle i
]
