-- ===== src/Jobs/Batches.antt =====
-- The groups that the worker of src/nunspark/webapp/jobs.py hands out over its turns.
use nunspark.Base.{
  ℕ, suc, zero, ◌≡◌, refl, sym, ap, subst, ◌∙◌, inl, inr, Bool, true, false, List, [], ◌∷◌, Option,
  none, some, contains, Bool-cases, Option-cases,
}
use nunspark.Jobs.Key.{Job, Key}
use nunspark.Jobs.Worker.{
  Manager, find_job, run_group, group_key, take_job, turn_queue, turn_peeked, turn_unless, turn,
  work,
}
use nunspark.Jobs.Fifo.{find_job-id}
use nunspark.Jobs.Groups.{AllBatches, run_group-AllBatches, group_key-compat}

-- What a step leaves alone, and that it hands out batches only.
record Batched (m r : Manager) : Type 0 where
  jobs : r.jobs ≡ m.jobs
  batches : AllBatches m.jobs m.dispatched → AllBatches m.jobs r.dispatched

run_group-jobs : (m : Manager) (job : Job) (key : Option Key) → (run_group m job key).jobs ≡ m.jobs
unfolding run_group
run_group-jobs m job none = refl
run_group-jobs m job (some key) = refl

take_job-Batched : (m : Manager) (id : ℕ) → Batched m (take_job m id)
unfolding take_job
take_job-Batched m id = elim (Option-cases (find_job id m.jobs)) [
  | inl gone ↦ rw (gone, take_job) (record { jobs = refl; batches = λ a. a })
  | inr (job, here) ↦ elim (Bool-cases (contains id m.cancels)) [
    | inl off ↦ rw (here, take_job) (rw off (record { jobs = refl; batches = λ a. a }))
    | inr on ↦
        rw (here, take_job)
          (rw on (record {
            jobs = run_group-jobs m job (group_key m.batching job);
            batches =
                run_group-AllBatches m job (group_key m.batching job)
                  (ap (λ i. find_job i m.jobs) (find_job-id id m.jobs here) ∙ here)
                  (λ key. group_key-compat m.batching job {key = key});
          }))
  ]
]

turn_queue-Batched : (m : Manager) (q : List (Option ℕ)) → Batched m (turn_queue m q)
unfolding turn_queue
turn_queue-Batched m [] = record { jobs = refl; batches = λ a. a }
turn_queue-Batched m (none ∷ q) = record { jobs = refl; batches = λ a. a }
turn_queue-Batched m (some id ∷ q) =
    let b = take_job-Batched (record m { queue = q }) id in
    record { jobs = b.jobs; batches = b.batches }

turn_peeked-Batched : (m : Manager) (p : List ℕ) → Batched m (turn_peeked m p)
unfolding turn_peeked
turn_peeked-Batched m [] = turn_queue-Batched m m.queue
turn_peeked-Batched m (id ∷ p) =
    let b = take_job-Batched (record m { peeked = p }) id in
    record { jobs = b.jobs; batches = b.batches }

turn_unless-Batched : (stop : Bool) (m : Manager) → Batched m (turn_unless stop m)
unfolding turn_unless
turn_unless-Batched true m = record { jobs = refl; batches = λ a. a }
turn_unless-Batched false m = turn_peeked-Batched m m.peeked

turn-AllBatches :
    (m : Manager) → AllBatches m.jobs m.dispatched → AllBatches (turn m).jobs (turn m).dispatched
unfolding turn
turn-AllBatches m a =
    let b = turn_unless-Batched m.stop m in
    subst (λ js. AllBatches js (turn m).dispatched) (sym b.jobs) (b.batches a)

-- If every group handed out so far is a batch, so is every one after any number of turns: at most
-- MAX_BATCH jobs, and jobs that share a group all have one compatibility key.
pub work-AllBatches :
    (n : ℕ) (m : Manager)
    → AllBatches m.jobs m.dispatched
    → AllBatches (work n m).jobs (work n m).dispatched
unfolding work
work-AllBatches zero m a = a
work-AllBatches (suc n) m a = work-AllBatches n (turn m) (turn-AllBatches m a)
