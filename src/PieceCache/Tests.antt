-- ===== src/PieceCache/Tests.antt =====
-- Runs of the cache of src/nunspark/piece_cache.py on a few pieces.
use nunspark.Base.{◌≤◌, ◌≡◌, refl, true, false, ◌&&◌, List, [], ◌∷◌, none, arith, list_eq}
use nunspark.PieceCache.Pieces.{
  Pid, Weights, piece_bytes, expert, codes, piece_class, is_expert, is_infix, starts_with,
}
use nunspark.PieceCache.Table.{member, has, discard}
use nunspark.PieceCache.State.{Cache, init}
use nunspark.PieceCache.Threads.{
  Action, begins, gets, resumes, prefetches, picks, lands, fails, releases, act, run_actions, pick,
  pop_least, after_pick, drop_first,
}
use nunspark.PieceCache.Ops.{
  land, prefetch, prefetch_one, issue, reserve, worker_pick, release, get_enter, owner, region,
  peek,
}
use nunspark.PieceCache.Absent.{IsAbsent}
use nunspark.PieceCache.Accounting.{IsAccounted, IsWithin}
use nunspark.PieceCache.Consistency.{Consistent, start, start-Consistent}
use nunspark.PieceCache.Interleavings.{run_actions-Consistent}
use nunspark.PieceCache.Kept.{land-IsWithin, land-here}
use nunspark.PieceCache.Retries.{retry-staged}
use nunspark.PieceCache.Reads.{served, get_enter-peek}
use nunspark.PieceCache.Dedupe.{prefetch-again}

abbrev guess : Pid
guess = codes "l0_expert_1"

abbrev layer : Pid
layer = codes "l0_core"

guess-class : piece_class guess ≡ expert
unfolding piece_class is_infix starts_with
guess-class = refl

abbrev pair : Weights
pair = (codes "w", 7) ∷ (codes "b", 3) ∷ []

abbrev empty_cache : Cache
empty_cache = init 100 60 20 [] none false

abbrev failed_guess : Cache
failed_guess =
    (run_actions (prefetches true (guess ∷ []) ∷ picks ∷ fails guess ∷ [])
      (start empty_cache)).cache

failed_guess-IsAbsent : IsAbsent failed_guess guess
unfolding run_actions act prefetch prefetch_one issue reserve pick pop_least worker_pick after_pick
    start init release drop_first member has region is_expert piece_class is_infix starts_with
    list_eq
failed_guess-IsAbsent = record { resident = λ e. refl; experts = λ e. refl; staging = refl }

failed_guess-fresh : member guess failed_guess.inflight ≡ false
unfolding run_actions act prefetch prefetch_one issue reserve pick pop_least worker_pick after_pick
    start init release drop_first discard member has region is_expert piece_class is_infix
    starts_with list_eq
failed_guess-fresh = refl

failed_guess-pending : member guess failed_guess.spec_pending ≡ true
unfolding run_actions act prefetch prefetch_one issue reserve pick pop_least worker_pick after_pick
    start init release drop_first discard member has region is_expert piece_class is_infix
    starts_with list_eq
failed_guess-pending = refl

failed_guess-room : piece_bytes pair ≤ failed_guess.staging_cap
unfolding run_actions act prefetch prefetch_one issue reserve pick pop_least worker_pick after_pick
    start init release drop_first discard member has region is_expert piece_class is_infix
    starts_with list_eq piece_bytes
failed_guess-room = omega arith

guess-is_expert : is_expert guess ≡ true
unfolding is_expert piece_class is_infix starts_with
guess-is_expert = refl

retry-staged_example :
    ((get_enter failed_guess guess).1 ≡ owner)
    × (has guess (land (get_enter failed_guess guess).0 guess pair).staging ≡ true)
    × (has guess (land (get_enter failed_guess guess).0 guess pair).experts ≡ false)
retry-staged_example =
    retry-staged failed_guess guess pair guess-is_expert failed_guess-IsAbsent failed_guess-fresh
      failed_guess-pending failed_guess-room

-- A failed guess, its retry, a layer, and a new pass.
abbrev actions : List Action
actions =
    prefetches true (guess ∷ [])
    ∷ picks
    ∷ fails guess
    ∷ gets guess
    ∷ prefetches false (layer ∷ guess ∷ [])
    ∷ lands guess pair
    ∷ picks
    ∷ begins
    ∷ releases guess
    ∷ gets guess
    ∷ lands layer pair
    ∷ resumes layer
    ∷ releases layer
    ∷ []

run_actions-Consistent_example : Consistent (run_actions actions (start empty_cache))
run_actions-Consistent_example = run_actions-Consistent actions 100 60 20 [] none false

empty_cache-IsAccounted : IsAccounted empty_cache
unfolding init start
empty_cache-IsAccounted = (start-Consistent 100 60 20 [] none false).accounted

empty_cache-region : has guess (region empty_cache guess) ≡ false
unfolding has region is_expert piece_class is_infix starts_with init
empty_cache-region = refl

empty_cache-staging : has guess empty_cache.staging ≡ false
unfolding has init
empty_cache-staging = refl

land-IsWithin_example : IsWithin guess (land empty_cache guess pair)
land-IsWithin_example =
    land-IsWithin empty_cache guess pair empty_cache-region empty_cache-staging
      empty_cache-IsAccounted

empty_cache-demand : (member guess empty_cache.spec_pending && is_expert guess) ≡ false
unfolding member init
empty_cache-demand = refl

land-here_example : has guess (region (land empty_cache guess pair) guess) ≡ true
land-here_example = land-here empty_cache guess pair empty_cache-demand

get_enter-peek_example :
    served (get_enter (land empty_cache guess pair) guess).1
    ≡ peek (land empty_cache guess pair) guess
get_enter-peek_example = get_enter-peek (land empty_cache guess pair) guess

prefetch-again_example :
    prefetch true (prefetch false empty_cache (layer ∷ guess ∷ [])) (layer ∷ guess ∷ [])
    ≡ prefetch false empty_cache (layer ∷ guess ∷ [])
prefetch-again_example = prefetch-again false true empty_cache (layer ∷ guess ∷ [])
