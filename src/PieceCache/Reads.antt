-- ===== src/PieceCache/Reads.antt =====
-- `peek` and `get` of src/nunspark/piece_cache.py, side by side.
use nunspark.Base.{◌≡◌, refl, inl, inr, Option, none, some, Bool-cases, Option-cases}
use nunspark.PieceCache.Pieces.{Pid, Weights}
use nunspark.PieceCache.Table.{lookup, member}
use nunspark.PieceCache.State.{Cache}
use nunspark.PieceCache.Ops.{
  region, peek, Entered, hit, owner, waits, get_miss, get_staged, get_enter,
}

-- The weights that a `get` returns without a load.
abbrev pub served : Entered → Option Weights
served (hit w) = some w
served owner = none
served waits = none

get_miss-served : (s : Cache) (p : Pid) → served (get_miss s p).1 ≡ none
unfolding get_miss
get_miss-served s p = elim (Bool-cases (member p s.inflight)) [
  | inl there ↦ rw there refl
  | inr fresh ↦ rw fresh refl
]

-- `get` returns a piece without a load exactly when `peek` shows one, and then the same weights.
pub get_enter-peek : (s : Cache) (p : Pid) → served (get_enter s p).1 ≡ peek s p
unfolding get_enter get_staged peek
get_enter-peek s p = elim (Option-cases (lookup p (region s p))) [
  | inr (w, here) ↦ rw (here, get_enter, peek) refl
  | inl gone ↦ elim (Option-cases (lookup p s.staging)) [
    | inl unstaged ↦ rw (gone, get_enter, peek) (rw (unstaged, get_staged) (get_miss-served s p))
    | inr (g, here) ↦ rw (gone, get_enter, peek) (rw (here, get_staged) refl)
  ]
]
