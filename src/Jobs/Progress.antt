-- ===== src/Jobs/Progress.antt =====
-- How the queues of the worker of src/nunspark/webapp/jobs.py shrink over its turns.
use nunspark.Base.{
  ℕ, suc, zero, ◌+◌, ◌-◌, ◌≤◌, ◌≡◌, refl, sym, ap, subst, ◌∙◌, inl, inr, Bool, true, false, List,
  [], ◌∷◌, ◌++◌, append-nil, Option, none, some, contains, Bool-cases, Option-cases, length, arith,
}
use nunspark.Jobs.Key.{Job, Key}
use nunspark.Jobs.Worker.{
  Manager, find_job, Grown, Fate, unknown, dropped, deferred, joined, fate, settle, grow_queue,
  grow, max_batch, run_group, group_key, take_job, turn_queue, turn_peeked, turn_unless, turn, work,
}
use nunspark.Jobs.Fifo.{flat, waiting, runnable_ids, runnable_queue, work-line}

-- No sentinel is in the queue.
unfoldable pub all_some : List (Option ℕ) → Bool
all_some [] = true
all_some (none ∷ q) = false
all_some (some id ∷ q) = all_some q

abbrev pub pending : Manager → ℕ
pending m = length m.peeked + length m.queue

module _ (jobs : List Job) (cancels : List ℕ) (key : Key) where
  record Small (n : ℕ) (g : Grown) : Type 0 where
    size : length g.peeked + length g.queue ≤ n
    open_queue : all_some g.queue ≡ true
    quiet : g.stopped ≡ false

  settle-Small :
      (f : Fate) (id n : ℕ) (rest again back : Grown)
      → Small n rest
      → Small n again
      → Small (suc n) back
      → Small (suc n) (settle f id rest again back)
  unfolding settle
  settle-Small unknown id n rest again back r a b = record {
    size = omega (arith, r.size);
    open_queue = r.open_queue;
    quiet = r.quiet;
  }
  settle-Small dropped id n rest again back r a b = record {
    size = omega (arith, r.size);
    open_queue = r.open_queue;
    quiet = r.quiet;
  }
  settle-Small deferred id n rest again back r a b = b
  settle-Small joined id n rest again back r a b = record {
    size = omega (arith, a.size);
    open_queue = a.open_queue;
    quiet = a.quiet;
  }

  grow_queue-Small :
      (room : ℕ) (q : List (Option ℕ))
      → all_some q ≡ true
      → Small (length q) (grow_queue jobs cancels key room q)
  unfolding grow_queue all_some
  grow_queue-Small zero q h = record { size = omega arith; open_queue = h; quiet = refl }
  grow_queue-Small (suc room) [] h = record { size = omega arith; open_queue = h; quiet = refl }
  grow_queue-Small (suc room) (none ∷ q) h = absurd (ground arith)
  grow_queue-Small (suc room) (some id ∷ q) h =
      settle-Small (fate jobs cancels key id) id (length q)
        (grow_queue jobs cancels key (suc room) q) (grow_queue jobs cancels key room q)
        (record { group = []; cancelled = []; peeked = id ∷ []; queue = q; stopped = false })
        (grow_queue-Small (suc room) q h) (grow_queue-Small room q h)
        (record { size = omega arith; open_queue = h; quiet = refl })

  grow-Small :
      (room : ℕ) (p : List ℕ) (q : List (Option ℕ))
      → all_some q ≡ true
      → Small (length p + length q) (grow jobs cancels key room p q)
  unfolding grow
  grow-Small zero p q h = record { size = omega arith; open_queue = h; quiet = refl }
  grow-Small (suc room) [] q h =
      let g = grow_queue-Small (suc room) q h in
      record { size = omega (arith, g.size); open_queue = g.open_queue; quiet = g.quiet }
  grow-Small (suc room) (id ∷ p) q h =
      let g =
        settle-Small (fate jobs cancels key id) id (length p + length q)
          (grow jobs cancels key (suc room) p q) (grow jobs cancels key room p q)
          (record { group = []; cancelled = []; peeked = id ∷ p; queue = q; stopped = false })
          (grow-Small (suc room) p q h) (grow-Small room p q h)
          (record { size = omega arith; open_queue = h; quiet = refl }) in
      record { size = omega (arith, g.size); open_queue = g.open_queue; quiet = g.quiet }

-- A worker that still runs, with at most that many ids ahead of it.
record IsAhead (n : ℕ) (m : Manager) : Type 0 where
  size : pending m ≤ n
  open_queue : all_some m.queue ≡ true
  running : m.stop ≡ false

run_group-IsAhead :
    (n : ℕ) (m : Manager) (job : Job) (key : Option Key)
    → IsAhead n m
    → IsAhead n (run_group m job key)
unfolding run_group
run_group-IsAhead n m job none h = record {
  size = h.size;
  open_queue = h.open_queue;
  running = h.running;
}
run_group-IsAhead n m job (some key) h =
    let g = grow-Small m.jobs m.cancels key (max_batch - 1) m.peeked m.queue h.open_queue in
    record {
      size = omega (arith, g.size, h.size);
      open_queue = g.open_queue;
      running = ground (arith, h.running, g.quiet);
    }

take_job-IsAhead : (n : ℕ) (m : Manager) (id : ℕ) → IsAhead n m → IsAhead n (take_job m id)
unfolding take_job
take_job-IsAhead n m id h = elim (Option-cases (find_job id m.jobs)) [
  | inl gone ↦ rw (gone, take_job) h
  | inr (job, here) ↦ elim (Bool-cases (contains id m.cancels)) [
    | inl off ↦
        rw (here, take_job)
          (rw off (record { size = h.size; open_queue = h.open_queue; running = h.running }))
    | inr on ↦ rw (here, take_job) (rw on (run_group-IsAhead n m job (group_key m.batching job) h))
  ]
]

turn_queue-IsAhead :
    (n : ℕ) (m : Manager) (q : List (Option ℕ))
    → m.queue ≡ q
    → length m.peeked ≡ 0
    → IsAhead (suc n) m
    → IsAhead n (turn_queue m q)
unfolding turn_queue all_some
turn_queue-IsAhead n m [] e p h = record {
  size = omega (arith, ap length e, p);
  open_queue = h.open_queue;
  running = h.running;
}
turn_queue-IsAhead n m (none ∷ q) e p h =
    absurd (ground (arith, sym (ap all_some e) ∙ h.open_queue))
turn_queue-IsAhead n m (some id ∷ q) e p h =
    take_job-IsAhead n (record m { queue = q }) id
      (record {
        size = omega (arith, ap length e, p, h.size);
        open_queue = sym (ap all_some e) ∙ h.open_queue;
        running = h.running;
      })

turn_peeked-IsAhead :
    (n : ℕ) (m : Manager) (p : List ℕ)
    → m.peeked ≡ p
    → IsAhead (suc n) m
    → IsAhead n (turn_peeked m p)
unfolding turn_peeked
turn_peeked-IsAhead n m [] e h = turn_queue-IsAhead n m m.queue refl (ap length e) h
turn_peeked-IsAhead n m (id ∷ p) e h =
    take_job-IsAhead n (record m { peeked = p }) id
      (record {
        size = omega (arith, ap length e, h.size);
        open_queue = h.open_queue;
        running = h.running;
      })

turn-IsAhead : (n : ℕ) (m : Manager) → IsAhead (suc n) m → IsAhead n (turn m)
unfolding turn turn_unless
turn-IsAhead n m h =
    subst (λ b. IsAhead n (turn_unless b m)) (sym h.running)
      (turn_peeked-IsAhead n m m.peeked refl h)

work-IsAhead : (n : ℕ) (m : Manager) → IsAhead n m → IsAhead 0 (work n m)
unfolding work
work-IsAhead zero m h = h
work-IsAhead (suc n) m h = work-IsAhead n (turn m) (turn-IsAhead n m h)

waiting-none :
    (jobs : List Job) (cancels : List ℕ) (p : List ℕ) (q : List (Option ℕ))
    → length p + length q ≤ 0
    → waiting jobs cancels p q ≡ []
unfolding waiting runnable_ids runnable_queue
waiting-none jobs cancels [] [] h = refl
waiting-none jobs cancels [] (x ∷ q) h = absurd (omega arith)
waiting-none jobs cancels (x ∷ p) q h = absurd (omega arith)

-- As many turns as there are ids in the queues of a running worker, with no shutdown among them, are
-- enough: the runners have then been given, after what they had, each known and not cancelled job of
-- the queues, in their order.
pub work_complete :
    (n : ℕ) (m : Manager)
    → m.stop ≡ false
    → all_some m.queue ≡ true
    → pending m ≤ n
    → flat (work n m).dispatched ≡ flat m.dispatched ++ waiting m.jobs m.cancels m.peeked m.queue
work_complete n m running open_queue h =
    let e = work-IsAhead n m (record { size = h; open_queue = open_queue; running = running }) in
    let r = work n m in
    sym (append-nil (flat r.dispatched))
    ∙ sym (ap (λ l. flat r.dispatched ++ l) (waiting-none r.jobs r.cancels r.peeked r.queue e.size))
    ∙ work-line n m
