-- ===== src/Jobs/Worker.antt =====
-- The worker of src/nunspark/webapp/jobs.py: `_next_job_id`, `_peek_job_id`, `_defer` and `_run`. A
-- turn is one round of the loop of `_run`, seen from when it holds its first job id to when it hands
-- out its group; a job that arrives meanwhile is one that stands in the queue already.
use nunspark.Base.{
  false, ◌-◌, true, ℕ, suc, zero, Bool, List, [], ◌∷◌, ◌++◌, Option, none, some, ◌==◌, contains,
  if◌then◌else◌, ◌||◌,
}
use nunspark.Jobs.Key.{Job, Key, compat_key, is_compatible}

-- The queue's `none` is the sentinel of `shutdown`. `dispatched` are the groups handed to the runners;
-- `stop` says that the loop has been told to end or has ended.
pub record Manager : Type 0 where
  pub jobs : List Job
  pub peeked : List ℕ
  pub queue : List (Option ℕ)
  pub cancels : List ℕ
  pub cancelled : List ℕ
  pub batching : Bool
  pub dispatched : List (List ℕ)
  pub stop : Bool

abbrev pub max_batch : ℕ
max_batch = 8

-- `self._jobs.get(job_id)`.
unfoldable pub find_job : ℕ → List Job → Option Job
find_job id [] = none
find_job id (j ∷ js) = let rest = find_job id js in if j.id == id then some j else rest

-- What the peek loop leaves: the ids it adds to the group, those it finds cancelled, the queues, and
-- whether it took the sentinel of `shutdown`, which has set `_stop` by then.
pub record Grown : Type 0 where
  pub group : List ℕ
  pub cancelled : List ℕ
  pub peeked : List ℕ
  pub queue : List (Option ℕ)
  pub stopped : Bool

pub data Fate : Type 0 where
  unknown dropped deferred joined : Fate

-- What the loop does with a job id.
unfoldable pub fate : List Job → List ℕ → Key → ℕ → Fate
fate jobs cancels key nid = elim (find_job nid jobs) [
  | none ↦ unknown
  | some njob ↦
      if contains nid cancels then dropped else if is_compatible njob key then joined else deferred
]

-- The loop's pass over an id that it has popped: `rest` is what it does if it goes on, `again` if it
-- goes on with one place less, `back` if it stops.
unfoldable pub settle : Fate → ℕ → Grown → Grown → Grown → Grown
settle unknown nid rest again back = rest
settle dropped nid rest again back = record rest { cancelled = nid ∷ rest.cancelled }
settle deferred nid rest again back = back
settle joined nid rest again back = record again { group = nid ∷ again.group }

module _ (jobs : List Job) (cancels : List ℕ) (key : Key) where
  -- The loop on the queue, when nothing is peeked, with `room` places left.
  unfoldable pub grow_queue : ℕ → List (Option ℕ) → Grown
  grow_queue zero q = record { group = []; cancelled = []; peeked = []; queue = q; stopped = false }
  grow_queue (suc room) [] = record {
    group = [];
    cancelled = [];
    peeked = [];
    queue = [];
    stopped = false;
  }
  grow_queue (suc room) (none ∷ q) = record {
    group = [];
    cancelled = [];
    peeked = [];
    queue = q;
    stopped = true;
  }
  grow_queue (suc room) (some nid ∷ q) =
      settle (fate jobs cancels key nid) nid (grow_queue (suc room) q) (grow_queue room q)
        (record { group = []; cancelled = []; peeked = nid ∷ []; queue = q; stopped = false })

  -- The loop, the peeked ids first.
  unfoldable pub grow : ℕ → List ℕ → List (Option ℕ) → Grown
  grow zero p q = record { group = []; cancelled = []; peeked = p; queue = q; stopped = false }
  grow (suc room) [] q = grow_queue (suc room) q
  grow (suc room) (nid ∷ p) q =
      settle (fate jobs cancels key nid) nid (grow (suc room) p q) (grow room p q)
        (record { group = []; cancelled = []; peeked = nid ∷ p; queue = q; stopped = false })

-- The key of the group that a job starts, if it may start one.
unfoldable pub group_key : Bool → Job → Option Key
group_key batching job = if batching then compat_key job else none

-- The group of a job, handed to a runner.
unfoldable pub run_group : Manager → Job → Option Key → Manager
run_group m job none = record m { dispatched = m.dispatched ++ (job.id ∷ []) ∷ [] }
run_group m job (some key) =
    let g = grow m.jobs m.cancels key (max_batch - 1) m.peeked m.queue in
    record m {
      peeked = g.peeked;
      queue = g.queue;
      cancelled = g.cancelled ++ m.cancelled;
      dispatched = m.dispatched ++ (job.id ∷ g.group) ∷ [];
      stop = m.stop || g.stopped;
    }

unfoldable pub take_job : Manager → ℕ → Manager
take_job m id = elim (find_job id m.jobs) [
  | none ↦ m
  | some job ↦
      if contains id m.cancels
      then record m { cancelled = id ∷ m.cancelled }
      else run_group m job (group_key m.batching job)
]

-- `_next_job_id`, and the turn of `_run` with what it returns. A worker that waits does
-- not change.
unfoldable pub turn_queue : Manager → List (Option ℕ) → Manager
turn_queue m [] = m
turn_queue m (none ∷ q) = record m { queue = q; stop = true }
turn_queue m (some id ∷ q) = take_job (record m { queue = q }) id

unfoldable pub turn_peeked : Manager → List ℕ → Manager
turn_peeked m [] = turn_queue m m.queue
turn_peeked m (id ∷ p) = take_job (record m { peeked = p }) id

unfoldable pub turn_unless : Bool → Manager → Manager
turn_unless true m = m
turn_unless false m = turn_peeked m m.peeked

unfoldable pub turn : Manager → Manager
turn m = turn_unless m.stop m

-- That many turns of the loop of `_run`.
unfoldable pub work : ℕ → Manager → Manager
work zero m = m
work (suc n) m = work n (turn m)
