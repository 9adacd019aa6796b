-- ===== src/Jobs/Fifo.antt =====
-- The order in which the worker of src/nunspark/webapp/jobs.py runs the jobs.
use nunspark.Base.{
  ℕ, suc, zero, ◌-◌, ◌≡◌, refl, sym, ap, ◌∙◌, inl, inr, Bool, true, false, not, List, [], ◌∷◌, ◌++◌,
  append-nil, append_assoc, Option, none, some, ◌==◌, contains, if◌then◌else◌, arith, Bool-cases,
  Option-cases, subst,
}
use nunspark.Jobs.Key.{Job, Key, is_compatible}
use nunspark.Jobs.Worker.{
  Manager, find_job, Grown, Fate, unknown, dropped, deferred, joined, fate, settle, grow_queue,
  grow, run_group, group_key, turn_unless, take_job, turn_queue, turn_peeked, turn, work, max_batch,
}

abbrev pub flat : List (List ℕ) → List ℕ
flat [] = []
flat (g ∷ gs) = g ++ flat gs

module _ (jobs : List Job) (cancels : List ℕ) where
  -- A known job that is not cancelled.
  unfoldable pub is_runnable : ℕ → Bool
  is_runnable id = elim (find_job id jobs) [ none ↦ false | some j ↦ not (contains id cancels) ]

  unfoldable pub runnable_ids : List ℕ → List ℕ
  runnable_ids [] = []
  runnable_ids (id ∷ p) = let rest = runnable_ids p in if is_runnable id then id ∷ rest else rest

  unfoldable pub runnable_queue : List (Option ℕ) → List ℕ
  runnable_queue [] = []
  runnable_queue (none ∷ q) = runnable_queue q
  runnable_queue (some id ∷ q) =
      let rest = runnable_queue q in if is_runnable id then id ∷ rest else rest

  -- What is left to run, in order.
  unfoldable pub waiting : List ℕ → List (Option ℕ) → List ℕ
  waiting p q = runnable_ids p ++ runnable_queue q

  abbrev is_live : Fate → Bool
  is_live unknown = false
  is_live dropped = false
  is_live deferred = true
  is_live joined = true

  fate-live : (key : Key) (id : ℕ) → is_runnable id ≡ is_live (fate jobs cancels key id)
  unfolding is_runnable fate
  fate-live key id = elim (Option-cases (find_job id jobs)) [
    | inl gone ↦ rw (gone, fate, is_runnable) refl
    | inr (j, here) ↦ elim (Bool-cases (contains id cancels)) [
      | inl off ↦ rw (here, fate, is_runnable) (rw off refl)
      | inr on ↦ elim (Bool-cases (is_compatible j key)) [
        | inl same ↦ rw (here, fate, is_runnable) (rw (on, same) refl)
        | inr other ↦ rw (here, fate, is_runnable) (rw (on, other) refl)
      ]
    ]
  ]

  abbrev Splits : Grown → List ℕ → Type 0
  Splits g all = g.group ++ waiting g.peeked g.queue ≡ all

  abbrev first : ℕ → List ℕ → List ℕ
  first id rest = if is_runnable id then id ∷ rest else rest

  settle-Splits :
      (f : Fate) (id : ℕ) (rest again back : Grown) (tail : List ℕ)
      → is_runnable id ≡ is_live f
      → Splits rest tail
      → Splits again tail
      → Splits back (first id tail)
      → Splits (settle f id rest again back) (first id tail)
  unfolding settle
  settle-Splits unknown id rest again back tail e r a b = rw e r
  settle-Splits dropped id rest again back tail e r a b = rw e r
  settle-Splits deferred id rest again back tail e r a b = b
  settle-Splits joined id rest again back tail e r a b = rw e (ap (λ l. id ∷ l) a)

  first-waiting :
      (id : ℕ) (p : List ℕ) (q : List (Option ℕ)) → waiting (id ∷ p) q ≡ first id (waiting p q)
  unfolding waiting runnable_ids
  first-waiting id p q = elim (Bool-cases (is_runnable id)) [
    | inl runs ↦ rw runs refl
    | inr idle ↦ rw idle refl
  ]

  grow_queue-Splits :
      (key : Key) (room : ℕ) (q : List (Option ℕ))
      → Splits (grow_queue jobs cancels key room q) (runnable_queue q)
  unfolding grow_queue waiting runnable_ids runnable_queue
  grow_queue-Splits key zero q = refl
  grow_queue-Splits key (suc room) [] = refl
  grow_queue-Splits key (suc room) (none ∷ q) = refl
  grow_queue-Splits key (suc room) (some id ∷ q) =
      settle-Splits (fate jobs cancels key id) id (grow_queue jobs cancels key (suc room) q)
        (grow_queue jobs cancels key room q)
        (record { group = []; cancelled = []; peeked = id ∷ []; queue = q; stopped = false })
        (runnable_queue q) (fate-live key id) (grow_queue-Splits key (suc room) q)
        (grow_queue-Splits key room q) (first-waiting id [] q)

  waiting-nil : (q : List (Option ℕ)) → runnable_queue q ≡ waiting [] q
  unfolding waiting runnable_ids
  waiting-nil q = refl

  pub grow-Splits :
      (key : Key) (room : ℕ) (p : List ℕ) (q : List (Option ℕ))
      → Splits (grow jobs cancels key room p q) (waiting p q)
  unfolding grow
  grow-Splits key zero p q = refl
  grow-Splits key (suc room) [] q = grow_queue-Splits key (suc room) q ∙ waiting-nil q
  grow-Splits key (suc room) (id ∷ p) q =
      settle-Splits (fate jobs cancels key id) id (grow jobs cancels key (suc room) p q)
        (grow jobs cancels key room p q)
        (record { group = []; cancelled = []; peeked = id ∷ p; queue = q; stopped = false })
        (waiting p q) (fate-live key id) (grow-Splits key (suc room) p q) (grow-Splits key room p q)
        (first-waiting id p q)
      ∙ sym (first-waiting id p q)

flat-append : (gs : List (List ℕ)) (g : List ℕ) → flat (gs ++ g ∷ []) ≡ flat gs ++ g
flat-append [] g = append-nil g
flat-append (h ∷ gs) g = ap (λ l. h ++ l) (flat-append gs g) ∙ sym (append_assoc h (flat gs) g)

pub find_job-id : (id : ℕ) (jobs : List Job) {j : Job} → find_job id jobs ≡ some j → j.id ≡ id
unfolding find_job
find_job-id id [] h = absurd (ground arith)
find_job-id id (k ∷ jobs) {j = j} h = elim (Bool-cases (k.id == id)) [
  | inl same ↦ ground arith
  | inr other ↦ find_job-id id jobs {j = j} (ground arith)
]

-- What a turn leaves alone, and the order in which it hands out what is `ahead`.
record Keeps (m r : Manager) (ahead : List ℕ) : Type 0 where
  jobs : r.jobs ≡ m.jobs
  cancels : r.cancels ≡ m.cancels
  order :
      flat r.dispatched ++ waiting m.jobs m.cancels r.peeked r.queue ≡ flat m.dispatched ++ ahead

one-order :
    (gs : List (List ℕ)) (g rest ahead : List ℕ)
    → g ++ rest ≡ ahead
    → flat (gs ++ g ∷ []) ++ rest ≡ flat gs ++ ahead
one-order gs g rest ahead e =
    ap (λ l. l ++ rest) (flat-append gs g)
    ∙ append_assoc (flat gs) g rest
    ∙ ap (λ l. flat gs ++ l) e

run_group-Keeps :
    (m : Manager) (job : Job) (key : Option Key)
    → Keeps m (run_group m job key) (job.id ∷ waiting m.jobs m.cancels m.peeked m.queue)
unfolding run_group
run_group-Keeps m job none = record {
  jobs = refl;
  cancels = refl;
  order = one-order m.dispatched (job.id ∷ []) _ _ refl;
}
run_group-Keeps m job (some key) = record {
  jobs = refl;
  cancels = refl;
  order =
      one-order m.dispatched
        (job.id ∷ (grow m.jobs m.cancels key (max_batch - 1) m.peeked m.queue).group) _ _
        (ap (λ l. job.id ∷ l) (grow-Splits m.jobs m.cancels key (max_batch - 1) m.peeked m.queue));
}

take_job-Keeps :
    (m : Manager) (id : ℕ)
    → Keeps m
        (take_job m id)
        (first m.jobs m.cancels id (waiting m.jobs m.cancels m.peeked m.queue))
unfolding take_job is_runnable
take_job-Keeps m id = elim (Option-cases (find_job id m.jobs)) [
  | inl gone ↦
      rw (gone, take_job, is_runnable) (record { jobs = refl; cancels = refl; order = refl })
  | inr (job, here) ↦ elim (Bool-cases (contains id m.cancels)) [
    | inl off ↦
        rw (here, take_job, is_runnable)
          (rw off (record { jobs = refl; cancels = refl; order = refl }))
    | inr on ↦
        rw (here, take_job, is_runnable)
          (rw on (
            subst
              (λ i.
                Keeps m (run_group m job (group_key m.batching job))
                  (i ∷ waiting m.jobs m.cancels m.peeked m.queue))
              (find_job-id id m.jobs here) (run_group-Keeps m job (group_key m.batching job))))
  ]
]

turn_queue-Keeps :
    (m : Manager) (q : List (Option ℕ))
    → m.peeked ≡ []
    → m.queue ≡ q
    → Keeps m (turn_queue m q) (waiting m.jobs m.cancels [] q)
unfolding turn_queue waiting runnable_ids runnable_queue
turn_queue-Keeps m [] e f = record {
  jobs = refl;
  cancels = refl;
  order =
      ap (λ p. flat m.dispatched ++ waiting m.jobs m.cancels p m.queue) e
      ∙ ap (λ q. flat m.dispatched ++ waiting m.jobs m.cancels [] q) f;
}
turn_queue-Keeps m (none ∷ q) e f = record {
  jobs = refl;
  cancels = refl;
  order = ap (λ p. flat m.dispatched ++ waiting m.jobs m.cancels p q) e;
}
turn_queue-Keeps m (some id ∷ q) e f =
    let k = take_job-Keeps (record m { queue = q }) id in
    record {
      jobs = k.jobs;
      cancels = k.cancels;
      order =
          k.order
          ∙ ap (λ p. flat m.dispatched ++ first m.jobs m.cancels id (waiting m.jobs m.cancels p q))
              e;
    }

turn_peeked-Keeps :
    (m : Manager) (p : List ℕ)
    → m.peeked ≡ p
    → Keeps m (turn_peeked m p) (waiting m.jobs m.cancels p m.queue)
unfolding turn_peeked
turn_peeked-Keeps m [] e = turn_queue-Keeps m m.queue e refl
turn_peeked-Keeps m (id ∷ p) e =
    let k = take_job-Keeps (record m { peeked = p }) id in
    record {
      jobs = k.jobs;
      cancels = k.cancels;
      order =
          k.order
          ∙ ap (λ l. flat m.dispatched ++ l) (sym (first-waiting m.jobs m.cancels id p m.queue));
    }

turn_unless-Keeps :
    (stop : Bool) (m : Manager)
    → Keeps m (turn_unless stop m) (waiting m.jobs m.cancels m.peeked m.queue)
unfolding turn_unless
turn_unless-Keeps true m = record { jobs = refl; cancels = refl; order = refl }
turn_unless-Keeps false m = turn_peeked-Keeps m m.peeked refl

-- The jobs that have been handed to a runner, followed by those that are left to run.
abbrev pub line : Manager → List ℕ
line m = flat m.dispatched ++ waiting m.jobs m.cancels m.peeked m.queue

turn-line : (m : Manager) → line (turn m) ≡ line m
unfolding turn
turn-line m =
    let k = turn_unless-Keeps m.stop m in
    ap
      (λ js. flat (turn m).dispatched ++ waiting js (turn m).cancels (turn m).peeked (turn m).queue)
      k.jobs
    ∙ ap (λ cs. flat (turn m).dispatched ++ waiting m.jobs cs (turn m).peeked (turn m).queue)
        k.cancels
    ∙ k.order

-- Whatever the number of turns, grouped or not: the jobs that have been handed to the runners,
-- followed by the known and not cancelled ones that are left in the queues, are the same sequence. No
-- job is lost, run twice or overtaken, also when an id that was peeked is put back.
pub work-line : (n : ℕ) (m : Manager) → line (work n m) ≡ line m
unfolding work
work-line zero m = refl
work-line (suc n) m = work-line n (turn m) ∙ turn-line m
