-- ===== src/PieceCache/Prefetches.antt =====
-- `prefetch` of src/nunspark/piece_cache.py, and the tasks that it gives to the warm pool.
use nunspark.Base.{
  ◌+◌, ◌≡◌, refl, sym, ap, subst, ◌∙◌, inl, inr, Bool, true, false, ◌||◌, List, [], ◌∷◌, some,
  arith, list_eq, Bool-cases, Option-cases,
}
use nunspark.PieceCache.Pieces.{Pid}
use nunspark.PieceCache.Table.{member, has}
use nunspark.PieceCache.State.{Cache, Task}
use nunspark.PieceCache.Ops.{region, reserve, issue, prefetch_one, prefetch}
use nunspark.PieceCache.Accounting.{IsAccounted}
use nunspark.PieceCache.Absent.{IsAbsent, absent_lem}
use nunspark.PieceCache.Stageable.{AllStaged}
use nunspark.PieceCache.Threads.{System, act, warms, take_task, after_warm}
use nunspark.PieceCache.Owners.{bit, task_occurrences, drawn, take_task-drawn}
use nunspark.PieceCache.Consistency.{Consistent, seekers}
use nunspark.PieceCache.Reservations.{member-fresh, reserve-IsAccounted, reserve-IsAbsent}

-- A cache with the tables and the counters of the one in which `p` is reserved, and one more task
-- for `p`, in the queue or with the warm pool.
record IsIssued (s : Cache) (p : Pid) (r : Cache) : Type 0 where
  accounted : IsAccounted s → IsAccounted r
  resident : r.resident ≡ s.resident
  experts : r.experts ≡ s.experts
  staging : r.staging ≡ s.staging
  inflight : r.inflight ≡ p ∷ s.inflight
  tasks :
      (q : Pid)
      → task_occurrences q r.queue + task_occurrences q r.warming
        ≡ bit (list_eq p q) + task_occurrences q s.queue + task_occurrences q s.warming

issue-IsIssued :
    (speculative warm : Bool) (s : Cache) (p : Pid)
    → IsIssued s p (issue speculative warm p (reserve s p))
unfolding issue reserve task_occurrences
issue-IsIssued true warm s p = record {
  accounted = λ a.
      let r = reserve-IsAccounted s p a in
      record {
        main = r.main;
        experts = r.experts;
        bytes = r.bytes;
        staged = r.staged;
        capped = r.capped;
        hits = r.hits;
        misses = r.misses;
      };
  resident = refl;
  experts = refl;
  staging = refl;
  inflight = refl;
  tasks = λ q. omega arith;
}
issue-IsIssued false true s p = record {
  accounted = λ a.
      let r = reserve-IsAccounted s p a in
      record {
        main = r.main;
        experts = r.experts;
        bytes = r.bytes;
        staged = r.staged;
        capped = r.capped;
        hits = r.hits;
        misses = r.misses;
      };
  resident = refl;
  experts = refl;
  staging = refl;
  inflight = refl;
  tasks = λ q. omega arith;
}
issue-IsIssued false false s p = record {
  accounted = λ a.
      let r = reserve-IsAccounted s p a in
      record {
        main = r.main;
        experts = r.experts;
        bytes = r.bytes;
        staged = r.staged;
        capped = r.capped;
        hits = r.hits;
        misses = r.misses;
      };
  resident = refl;
  experts = refl;
  staging = refl;
  inflight = refl;
  tasks = λ q. omega arith;
}

issued-Consistent :
    (y : System) (p : Pid) (c : Cache)
    → IsIssued y.cache p c
    → IsAbsent y.cache p
    → member p y.cache.inflight ≡ false
    → Consistent y
    → Consistent (record y { cache = c })
unfolding seekers
issued-Consistent y p c r gone fresh i = record {
  accounted = r.accounted i.accounted;
  staged = subst AllStaged (sym r.staging) i.staged;
  owned = λ q. omega (
    arith,
    i.owned q,
    r.tasks q,
    member-fresh q p y.cache.inflight fresh,
    ap (λ l. bit (member q l)) r.inflight,
  );
  absent = λ q h.
      let a = reserve-IsAbsent y p q gone i (omega (arith, h, r.tasks q)) in
      record {
        resident = λ x. ap (has q) r.resident ∙ a.resident x;
        experts = λ x. ap (has q) r.experts ∙ a.experts x;
        staging = ap (has q) r.staging ∙ a.staging;
      };
}

prefetch_one-Consistent :
    (speculative : Bool) (y : System) (p : Pid)
    → Consistent y
    → Consistent (record y { cache = prefetch_one speculative y.cache p })
unfolding prefetch_one
prefetch_one-Consistent speculative y p i =
    elim (Bool-cases
      (has p (region y.cache p) || member p y.cache.inflight || has p y.cache.staging)) [
        | inl held ↦ rw held i
        | inr fresh ↦ rw fresh (
            issued-Consistent y p (issue speculative y.cache.warm_pool p (reserve y.cache p))
              (issue-IsIssued speculative y.cache.warm_pool y.cache p)
              (absent_lem y.cache p (ground arith) (ground arith)) (ground arith) i)
      ]

pub prefetch-Consistent :
    (speculative : Bool) (y : System) (pids : List Pid)
    → Consistent y
    → Consistent (record y { cache = prefetch speculative y.cache pids })
unfolding prefetch
prefetch-Consistent speculative y [] i = i
prefetch-Consistent speculative y (p ∷ pids) i =
    prefetch-Consistent speculative (record y { cache = prefetch_one speculative y.cache p }) pids
      (prefetch_one-Consistent speculative y p i)

warm-Consistent :
    (y : System) (t : Task) (rest : List Task)
    → ((q : Pid)
        → task_occurrences q y.cache.warming ≡ bit (list_eq t.pid q) + task_occurrences q rest)
    → Consistent y
    → Consistent (after_warm y (some (t, rest)))
unfolding after_warm seekers task_occurrences
warm-Consistent y t rest moved i = record {
  accounted = record {
    main = i.accounted.main;
    experts = i.accounted.experts;
    bytes = i.accounted.bytes;
    staged = i.accounted.staged;
    capped = i.accounted.capped;
    hits = i.accounted.hits;
    misses = i.accounted.misses;
  };
  staged = i.staged;
  owned = λ q. omega (arith, i.owned q, moved q);
  absent = λ q h.
      let a = i.absent q (omega (arith, h, moved q)) in
      record { resident = a.resident; experts = a.experts; staging = a.staging };
}

pub warms-Consistent : (y : System) (p : Pid) → Consistent y → Consistent (act (warms p) y)
unfolding act after_warm drawn
warms-Consistent y p i = elim (Option-cases (take_task p y.cache.warming)) [
  | inl gone ↦ rw (gone, act, after_warm) i
  | inr ((t, rest), here) ↦
      let moved : (q : Pid)
          → task_occurrences q y.cache.warming ≡ bit (list_eq t.pid q) + task_occurrences q rest =
        λ q. sym (sym (ap (drawn q) here) ∙ take_task-drawn q p y.cache.warming here) in
      rw (here, act) (warm-Consistent y t rest moved i)
]
