-- ===== src/PieceCache/Threads.antt =====
-- The threads that share the cache of src/nunspark/piece_cache.py. An action is one locked block, with
-- the loads between them: `loading` holds the pieces that a thread has reserved and reads, `landed`
-- those that it has inserted and not yet released (`_materialize` takes the lock twice). A list of
-- actions is an interleaving; an action that no thread is ready for changes nothing.
use nunspark.Base.{
  Bool, true, false, ◌&&◌, ◌||◌, List, [], ◌∷◌, Option, none, some, ltb, ◌==◌, if◌then◌else◌,
  list_eq,
}
use nunspark.PieceCache.Pieces.{Pid, Weights}
use nunspark.PieceCache.Table.{member}
use nunspark.PieceCache.State.{Cache, Task}
use nunspark.PieceCache.Ops.{
  begin_pass, Entered, hit, owner, waits, get_enter, get_resume, land, release, prefetch,
  worker_pick,
}

pub record System : Type 0 where
  pub cache : Cache
  pub loading : List Pid
  pub landed : List Pid

pub data Action : Type 0 where
  begins : Action
  gets : Pid → Action
  resumes : Pid → Action
  prefetches : Bool → List Pid → Action
  warms : Pid → Action
  picks : Action
  lands : Pid → Weights → Action
  fails : Pid → Action
  releases : Pid → Action

-- The first occurrence dropped.
unfoldable pub drop_first : Pid → List Pid → List Pid
drop_first pid [] = []
drop_first pid (p ∷ ps) = let rest = drop_first pid ps in if list_eq p pid then ps else p ∷ rest

-- Whether a task comes out of the priority queue before another.
unfoldable pub before : Task → Task → Bool
before t u = ltb t.tier u.tier || (t.tier == u.tier && ltb t.seq u.seq)

-- `self._pq.get()`: the least entry, and what is left.
unfoldable pub pop_least : List Task → Option (Task × List Task)
pop_least [] = none
pop_least (t ∷ ts) = elim (pop_least ts) [
  | none ↦ some (t, [])
  | some (u, rest) ↦ if before u t then some (u, t ∷ rest) else some (t, u ∷ rest)
]

-- The warming task of a piece, and the other ones.
unfoldable pub take_task : Pid → List Task → Option (Task × List Task)
take_task pid [] = none
take_task pid (t ∷ ts) =
    let rest = take_task pid ts in
    if list_eq t.pid pid
    then some (t, ts)
    else elim rest [ none ↦ none | some (u, us) ↦ some (u, t ∷ us) ]

unfoldable pub after_get : System → Pid → Cache × Entered → System
after_get y pid (c, hit w) = record y { cache = c }
after_get y pid (c, owner) = record y { cache = c; loading = pid ∷ y.loading }
after_get y pid (c, waits) = record y { cache = c }

-- `_warm_then_queue`, after the warming.
unfoldable pub after_warm : System → Option (Task × List Task) → System
after_warm y none = y
after_warm y (some (t, rest)) = record y {
  cache = record y.cache { warming = rest; queue = t ∷ y.cache.queue };
}

unfoldable pub after_pick : System → Pid → Cache × Bool → System
after_pick y pid (c, true) = record y { cache = c; loading = pid ∷ y.loading }
after_pick y pid (c, false) = record y { cache = c }

-- A turn of the loop of `_run`.
unfoldable pub pick : System → Option (Task × List Task) → System
pick y none = y
pick y (some (t, rest)) = after_pick y t.pid (worker_pick (record y.cache { queue = rest }) t.pid)

unfoldable pub act : Action → System → System
act begins y = record y { cache = begin_pass y.cache }
act (gets pid) y = after_get y pid (get_enter y.cache pid)
act (resumes pid) y = record y { cache = (get_resume y.cache pid).0 }
act (prefetches speculative pids) y = record y { cache = prefetch speculative y.cache pids }
act (warms pid) y = after_warm y (take_task pid y.cache.warming)
act picks y = pick y (pop_least y.cache.queue)
act (lands pid w) y =
    if member pid y.loading
    then record y {
      cache = land y.cache pid w;
      loading = drop_first pid y.loading;
      landed = pid ∷ y.landed;
    }
    else y
act (fails pid) y =
    if member pid y.loading
    then record y { cache = release y.cache pid; loading = drop_first pid y.loading }
    else y
act (releases pid) y =
    if member pid y.landed
    then record y { cache = release y.cache pid; landed = drop_first pid y.landed }
    else y

unfoldable pub run_actions : List Action → System → System
run_actions [] y = y
run_actions (a ∷ rest) y = run_actions rest (act a y)
