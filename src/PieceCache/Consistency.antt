-- ===== src/PieceCache/Consistency.antt =====
-- What holds of the cache and of the threads of src/nunspark/piece_cache.py between two locked blocks.
use nunspark.Base.{
  ℕ, ◌+◌, ◌≤◌, ◌≡◌, refl, ap, inl, inr, Bool, List, [], Option, arith, Option-cases,
}
use nunspark.PieceCache.Pieces.{Pid}
use nunspark.PieceCache.Table.{member, lookup}
use nunspark.PieceCache.State.{Cache, init}
use nunspark.PieceCache.Ops.{region, begin_pass, touch, get_resume}
use nunspark.PieceCache.Accounting.{IsAccounted}
use nunspark.PieceCache.Absent.{IsAbsent, begin_pass-IsAbsent, touch-IsAbsent}
use nunspark.PieceCache.Stageable.{AllStaged, begin_pass-AllStaged, touch-AllStaged}
use nunspark.PieceCache.Quiet.{IsQuiet, begin_pass-IsQuiet, touch-IsQuiet}
use nunspark.PieceCache.Preserve.{begin_pass-IsAccounted, touch-IsAccounted, init-IsAccounted}
use nunspark.PieceCache.Threads.{System, act, begins, resumes}
use nunspark.PieceCache.Owners.{bit, occurrences, task_occurrences}

-- The tasks and threads that have reserved a piece and not yet loaded it.
unfoldable pub seekers : System → Pid → ℕ
seekers y q =
    task_occurrences q y.cache.queue + task_occurrences q y.cache.warming + occurrences q y.loading

-- The accounting holds, staging holds experts with their bytes, each reserved piece has exactly one
-- task or thread that will release it and no other piece has one, and a piece that is still to be
-- loaded is in no table.
pub record Consistent (y : System) : Type 0 where
  pub accounted : IsAccounted y.cache
  pub staged : AllStaged y.cache.staging
  pub owned : (q : Pid) → seekers y q + occurrences q y.landed ≡ bit (member q y.cache.inflight)
  pub absent : (q : Pid) → 1 ≤ seekers y q → IsAbsent y.cache q

-- The state before any thread has started.
unfoldable pub start : Cache → System
start c = record { cache = c; loading = []; landed = [] }

pub start-Consistent :
    (budget expert_budget default_cap : ℕ) (pinned : List Pid) (staging : Option ℕ) (warm : Bool)
    → Consistent (start (init budget expert_budget default_cap pinned staging warm))
unfolding start init seekers occurrences task_occurrences member bit
start-Consistent budget expert_budget default_cap pinned staging warm = record {
  accounted = init-IsAccounted budget expert_budget default_cap pinned staging warm;
  staged = tt;
  owned = λ q. refl;
  absent = λ q h. absurd (omega (arith, h));
}

pub seekers-quiet :
    (y : System) (c : Cache) (q : Pid)
    → IsQuiet y.cache c
    → seekers (record y { cache = c }) q ≡ seekers y q
unfolding seekers
seekers-quiet y c q k =
    omega (arith, ap (task_occurrences q) k.queue, ap (task_occurrences q) k.warming)

-- A block that changes neither the reservations nor the tasks.
pub quiet-Consistent :
    (y : System) (c : Cache)
    → IsQuiet y.cache c
    → IsAccounted c
    → AllStaged c.staging
    → ((q : Pid) → IsAbsent y.cache q → IsAbsent c q)
    → Consistent y
    → Consistent (record y { cache = c })
quiet-Consistent y c k a g keep i = record {
  accounted = a;
  staged = g;
  owned =
      λ q. omega (arith, seekers-quiet y c q k, i.owned q, ap (λ l. bit (member q l)) k.inflight);
  absent = λ q h. keep q (i.absent q (omega (arith, h, seekers-quiet y c q k)));
}

pub begins-Consistent : (y : System) → Consistent y → Consistent (act begins y)
unfolding act
begins-Consistent y i =
    quiet-Consistent y (begin_pass y.cache) (begin_pass-IsQuiet y.cache)
      (begin_pass-IsAccounted y.cache i.accounted) (begin_pass-AllStaged y.cache i.staged)
      (begin_pass-IsAbsent y.cache) i

pub touch-Consistent :
    (y : System) (p : Pid) → Consistent y → Consistent (record y { cache = touch y.cache p })
touch-Consistent y p i =
    quiet-Consistent y (touch y.cache p) (touch-IsQuiet y.cache p)
      (touch-IsAccounted y.cache p i.accounted) (touch-AllStaged y.cache p i.staged)
      (touch-IsAbsent y.cache p) i

pub resumes-Consistent : (y : System) (p : Pid) → Consistent y → Consistent (act (resumes p) y)
unfolding act get_resume
resumes-Consistent y p i = elim (Option-cases (lookup p (region y.cache p))) [
  | inl gone ↦ rw (gone, act, get_resume) i
  | inr (w, here) ↦ rw (here, act, get_resume) (touch-Consistent y p i)
]
