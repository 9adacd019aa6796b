-- ===== src/PieceCache/Loads.antt =====
-- The worker and the loads of src/nunspark/piece_cache.py: a task that is taken, and a reservation that
-- is loaded, inserted and released.
use nunspark.Base.{
  ◌+◌, ◌≤◌, ◌≡◌, refl, sym, ap, subst, ◌∙◌, inl, inr, Bool, true, false, List, [], ◌∷◌, some, arith,
  list_eq, list_eq_self, Bool-cases, Option-cases,
}
use nunspark.PieceCache.Pieces.{Pid, Weights}
use nunspark.PieceCache.Table.{member}
use nunspark.PieceCache.State.{Cache, Task}
use nunspark.PieceCache.Ops.{land, worker_pick}
use nunspark.PieceCache.Absent.{IsAbsent, IsAbsent-region, land-IsAbsent}
use nunspark.PieceCache.Stageable.{land-AllStaged}
use nunspark.PieceCache.Quiet.{land-IsQuiet}
use nunspark.PieceCache.Locked.{land-IsAccounted}
use nunspark.PieceCache.Threads.{System, act, picks, lands, pick, after_pick, pop_least, drop_first}
use nunspark.PieceCache.Owners.{
  bit, occurrences, task_occurrences, drawn, pop_least-drawn, drop_first-occurrences,
}
use nunspark.PieceCache.Consistency.{Consistent, seekers}

bit-member : (b : Bool) → 1 ≤ bit b → b ≡ true
unfolding bit
bit-member b h = ground arith

pub member-occurrences : (p : Pid) (ps : List Pid) → member p ps ≡ true → 1 ≤ occurrences p ps
unfolding member occurrences bit
member-occurrences p [] h = ground arith
member-occurrences p (k ∷ ps) h = ground (arith, member-occurrences p ps)

bit_self : (p : Pid) → bit (list_eq p p) ≡ 1
unfolding bit
bit_self p = ap bit (list_eq_self p)

-- A task that the worker takes is for a piece that is reserved and in no table: the worker loads it.
pub worker_pick-loads :
    (s : Cache) (p : Pid) → IsAbsent s p → member p s.inflight ≡ true → worker_pick s p ≡ (s, true)
unfolding worker_pick
worker_pick-loads s p gone there = rw (IsAbsent-region s p gone, gone.staging, there) refl

taken-Consistent :
    (y : System) (t : Task) (rest : List Task)
    → ((q : Pid)
        → task_occurrences q y.cache.queue ≡ bit (list_eq t.pid q) + task_occurrences q rest)
    → Consistent y
    → Consistent (record y { cache = record y.cache { queue = rest }; loading = t.pid ∷ y.loading })
unfolding seekers occurrences
taken-Consistent y t rest moved i = record {
  accounted = record {
    main = i.accounted.main;
    experts = i.accounted.experts;
    bytes = i.accounted.bytes;
    staged = i.accounted.staged;
    capped = i.accounted.capped;
    hits = i.accounted.hits;
    misses = i.accounted.misses;
  };
  staged = i.staged;
  owned = λ q. omega (arith, i.owned q, moved q);
  absent = λ q h.
      let a = i.absent q (omega (arith, h, moved q)) in
      record { resident = a.resident; experts = a.experts; staging = a.staging };
}

pick-Consistent :
    (y : System) (t : Task) (rest : List Task)
    → ((q : Pid)
        → task_occurrences q y.cache.queue ≡ bit (list_eq t.pid q) + task_occurrences q rest)
    → Consistent y
    → Consistent (pick y (some (t, rest)))
unfolding pick after_pick seekers
pick-Consistent y t rest moved i =
    let sought : 1 ≤ seekers y t.pid = omega (arith, moved t.pid, bit_self t.pid) in
    let gone = i.absent t.pid sought in
    let there = bit-member (member t.pid y.cache.inflight) (omega (arith, sought, i.owned t.pid)) in
    subst (λ r. Consistent (after_pick y t.pid r))
      (sym (
        worker_pick-loads (record y.cache { queue = rest }) t.pid
          (record { resident = gone.resident; experts = gone.experts; staging = gone.staging })
          there))
      (taken-Consistent y t rest moved i)

pub picks-Consistent : (y : System) → Consistent y → Consistent (act picks y)
unfolding act drawn pick
picks-Consistent y i = elim (Option-cases (pop_least y.cache.queue)) [
  | inl empty ↦ rw (empty, act, pick) i
  | inr ((t, rest), here) ↦
      let moved : (q : Pid)
          → task_occurrences q y.cache.queue ≡ bit (list_eq t.pid q) + task_occurrences q rest =
        λ q. sym (sym (ap (drawn q) here) ∙ pop_least-drawn q y.cache.queue) in
      rw (here, act) (pick-Consistent y t rest moved i)
]

-- What a thread that loads a piece knows of it: no other will load it, and it is in no table.
pub record Holds (y : System) (p : Pid) : Type 0 where
  pub gone : IsAbsent y.cache p
  pub single : (q : Pid) → seekers y q ≤ 1
  pub fewer :
      (q : Pid)
      → bit (list_eq p q) + occurrences q (drop_first p y.loading) ≡ occurrences q y.loading

pub bit-bound : (b : Bool) → bit b ≤ 1
unfolding bit
bit-bound b = ground arith

pub loading-Holds : (y : System) (p : Pid) → member p y.loading ≡ true → Consistent y → Holds y p
unfolding seekers
loading-Holds y p there i =
    let sought : 1 ≤ seekers y p = omega (arith, member-occurrences p y.loading there) in
    record {
      gone = i.absent p sought;
      single = λ q. omega (arith, i.owned q, bit-bound (member q y.cache.inflight));
      fewer = λ q. drop_first-occurrences q p y.loading there;
    }

bit-other : (b : Bool) → bit b ≡ 0 → b ≡ false
unfolding bit
bit-other b h = ground arith

landed-Consistent :
    (y : System) (p : Pid) (w : Weights)
    → Holds y p
    → Consistent y
    → Consistent (record y {
      cache = land y.cache p w;
      loading = drop_first p y.loading;
      landed = p ∷ y.landed;
    })
unfolding seekers occurrences
landed-Consistent y p w o i =
    let k = land-IsQuiet y.cache p w in
    record {
      accounted =
          land-IsAccounted y.cache p w (IsAbsent-region y.cache p o.gone) o.gone.staging
            i.accounted;
      staged = land-AllStaged y.cache p w i.staged;
      owned = λ q. omega (
        arith,
        i.owned q,
        o.fewer q,
        ap (task_occurrences q) k.queue,
        ap (task_occurrences q) k.warming,
        ap (λ l. bit (member q l)) k.inflight,
      );
      absent = λ q h.
          let sought : 1 ≤ seekers y q = omega (
            arith,
            h,
            o.fewer q,
            ap (task_occurrences q) k.queue,
            ap (task_occurrences q) k.warming,
          ) in
          land-IsAbsent y.cache p q w
            (bit-other (list_eq p q) (
              omega (
                arith,
                o.single q,
                o.fewer q,
                h,
                ap (task_occurrences q) k.queue,
                ap (task_occurrences q) k.warming,
                bit-bound (list_eq p q),
              )))
            (i.absent q sought);
    }

pub lands-Consistent :
    (y : System) (p : Pid) (w : Weights) → Consistent y → Consistent (act (lands p w) y)
unfolding act
lands-Consistent y p w i = elim (Bool-cases (member p y.loading)) [
  | inl there ↦ rw there (landed-Consistent y p w (loading-Holds y p there i) i)
  | inr idle ↦ rw idle i
]
