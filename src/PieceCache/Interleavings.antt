-- ===== src/PieceCache/Interleavings.antt =====
-- Any sequence of the locked blocks of src/nunspark/piece_cache.py.
use nunspark.Base.{ℕ, ◌∷◌, [], List, Bool, Option}
use nunspark.PieceCache.Pieces.{Pid}
use nunspark.PieceCache.State.{init}
use nunspark.PieceCache.Threads.{
  System, Action, begins, gets, resumes, prefetches, warms, picks, lands, fails, releases, act,
  run_actions,
}
use nunspark.PieceCache.Consistency.{
  Consistent, start, start-Consistent, begins-Consistent, resumes-Consistent,
}
use nunspark.PieceCache.Reservations.{gets-Consistent}
use nunspark.PieceCache.Prefetches.{prefetch-Consistent, warms-Consistent}
use nunspark.PieceCache.Loads.{picks-Consistent, lands-Consistent}
use nunspark.PieceCache.Releases.{fails-Consistent, releases-Consistent}

-- Each locked block, on each branch, keeps the state of the cache and of its threads consistent.
pub act-Consistent : (a : Action) (y : System) → Consistent y → Consistent (act a y)
unfolding act
act-Consistent begins y i = begins-Consistent y i
act-Consistent (gets p) y i = gets-Consistent y p i
act-Consistent (resumes p) y i = resumes-Consistent y p i
act-Consistent (prefetches speculative pids) y i = prefetch-Consistent speculative y pids i
act-Consistent (warms p) y i = warms-Consistent y p i
act-Consistent picks y i = picks-Consistent y i
act-Consistent (lands p w) y i = lands-Consistent y p w i
act-Consistent (fails p) y i = fails-Consistent y p i
act-Consistent (releases p) y i = releases-Consistent y p i

pub run_actions-keeps :
    (actions : List Action) (y : System) → Consistent y → Consistent (run_actions actions y)
unfolding run_actions
run_actions-keeps [] y i = i
run_actions-keeps (a ∷ actions) y i = run_actions-keeps actions (act a y) (act-Consistent a y i)

-- Whatever the order in which the threads that share a new cache take its lock, and whatever loads
-- fail: the byte counters are the bytes of the tables, staging is within its cap, hits and misses are
-- the sums of the counters by class, each reservation has exactly one task or thread that will
-- release it, and a piece that is still to be loaded is in no table.
pub run_actions-Consistent :
    (actions : List Action) (budget expert_budget default_cap : ℕ) (pinned : List Pid)
    (staging : Option ℕ) (warm : Bool)
    → Consistent
        (run_actions actions (start (init budget expert_budget default_cap pinned staging warm)))
run_actions-Consistent actions budget expert_budget default_cap pinned staging warm =
    run_actions-keeps actions _
      (start-Consistent budget expert_budget default_cap pinned staging warm)
