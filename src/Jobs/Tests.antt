-- ===== src/Jobs/Tests.antt =====
-- The worker of src/nunspark/webapp/jobs.py on a few jobs.
use nunspark.Base.{◌++◌, ℕ, ◌≡◌, refl, true, false, [], ◌∷◌, none, some, list_eq, contains, arith}
use nunspark.Jobs.Key.{
  Advanced, Job, get_or, compat_key, same_bits, same_bool, key_eq, is_compatible,
}
use nunspark.Jobs.Worker.{
  Manager, find_job, fate, settle, grow_queue, grow, group_key, run_group, take_job, turn_queue,
  turn_peeked, turn_unless, turn, work,
}
use nunspark.Jobs.Fifo.{line, work-line, flat, waiting}
use nunspark.Jobs.Progress.{all_some, work_complete}
use nunspark.Jobs.Groups.{AllBatches}
use nunspark.Jobs.Batches.{work-AllBatches}

abbrev plain : Advanced
plain = record { batch = none; budget = none; kv_bits = none; kv_group_size = none }

abbrev job : ℕ → ℕ → Job
job id tokens = record {
  id = id;
  model = 109 ∷ [];
  draft = none;
  use_chat_template = true;
  max_tokens = tokens;
  temperature = 0;
  advanced = plain;
}

-- Jobs 1, 2, 5 and 4 are alike, 3 is longer and 2 is cancelled; 9 is unknown.
abbrev manager : Manager
manager = record {
  jobs = job 1 64 ∷ job 2 64 ∷ job 3 99 ∷ job 4 64 ∷ job 5 64 ∷ [];
  peeked = [];
  queue = some 1 ∷ some 2 ∷ some 9 ∷ some 5 ∷ some 3 ∷ some 4 ∷ [];
  cancels = 2 ∷ [];
  cancelled = [];
  batching = true;
  dispatched = [];
  stop = false;
}

work_runs : (work 3 manager).dispatched ≡ (1 ∷ 5 ∷ []) ∷ (3 ∷ []) ∷ (4 ∷ []) ∷ []
unfolding work turn turn_unless turn_peeked turn_queue take_job run_group group_key compat_key grow
    grow_queue settle fate find_job is_compatible key_eq same_bits same_bool get_or list_eq contains
work_runs = refl

work-line_example : line (work 2 manager) ≡ line manager
work-line_example = work-line 2 manager

work-AllBatches_example : AllBatches (work 2 manager).jobs (work 2 manager).dispatched
work-AllBatches_example = work-AllBatches 2 manager tt

queue-all_some : all_some manager.queue ≡ true
unfolding all_some
queue-all_some = refl

work_complete_example :
    flat (work 6 manager).dispatched
    ≡ flat manager.dispatched ++ waiting manager.jobs manager.cancels manager.peeked manager.queue
work_complete_example = work_complete 6 manager refl queue-all_some (omega arith)
