-- ===== src/Drafter.antt =====
-- The model-free drafter of src/nunspark/ngram_drafter.py, class NGramDrafter.
-- `NGramDrafter` is the object, `init` its constructor, `propose` and `observe` its methods; a
-- method returns the new object beside its result. The two loops of `propose` are
-- `scan_starts` (over `start`, downwards) and `scan_ngrams` (over `n`, downwards).
pub mod Lookup
pub mod Adaptive
pub mod Probes
pub mod Tests
use nunspark.Base.{
  ℕ, zero, suc, ◌+◌, ◌-◌, ◌*◌, ◌/◌, ◌%◌, min, max, Bool, true, false, ◌&&◌, ◌||◌, Option, none,
  some, List, [], ◌∷◌, ltb, leb, ◌==◌, if◌then◌else◌, length, take, drop, list_eq,
}

pub record NGramDrafter : Type 0 where
  pub max_ngram : ℕ
  pub num_draft_tokens : ℕ
  pub adaptive : Bool
  pub min_draft_tokens : ℕ
  pub reprobe_every : ℕ
  pub k_cur : ℕ
  pub k_min_seen : ℕ
  pub k_max_seen : ℕ
  pub disabled_rounds : ℕ
  pub probes : ℕ
  pub disabled_calls : ℕ
  pub probing : Bool

-- `none` is the `ValueError` of an argument below 1.
unfoldable pub init : ℕ → ℕ → Bool → ℕ → ℕ → Option NGramDrafter
init max_ngram num_draft_tokens adaptive min_draft_tokens reprobe_every =
    if ltb max_ngram 1 || ltb num_draft_tokens 1 || ltb min_draft_tokens 1 || ltb reprobe_every 1
    then none
    else some (record {
      max_ngram = max_ngram;
      num_draft_tokens = num_draft_tokens;
      adaptive = adaptive;
      min_draft_tokens = min_draft_tokens;
      reprobe_every = reprobe_every;
      k_cur = num_draft_tokens;
      k_min_seen = num_draft_tokens;
      k_max_seen = num_draft_tokens;
      disabled_rounds = 0;
      probes = 0;
      disabled_calls = 0;
      probing = false;
    })

-- `if follow: return follow`, and else the rest of the loop.
unfoldable pub or_else : List ℕ → List ℕ → List ℕ
or_else [] rest = rest
or_else (t ∷ ts) rest = t ∷ ts

-- `for start in range(count - 1, -1, -1)`.
unfoldable pub scan_starts : List ℕ → List ℕ → ℕ → ℕ → ℕ → List ℕ
scan_starts context suffix n k zero = []
scan_starts context suffix n k (suc start) =
    let rest = scan_starts context suffix n k start in
    if list_eq (take n (drop start context)) suffix
    then or_else (take k (drop (start + n) context)) rest
    else rest

-- `for n in range(max_n, 0, -1)`.
unfoldable pub scan_ngrams : List ℕ → ℕ → ℕ → List ℕ
scan_ngrams context k zero = []
scan_ngrams context k (suc m) =
    or_else
      (scan_starts context (drop (length context - suc m) context) (suc m) k
        (length context - suc m))
      (scan_ngrams context k m)

-- The lookup that follows the choice of K.
unfoldable pub lookup_draft : NGramDrafter → List ℕ → ℕ → List ℕ
lookup_draft d context k = scan_ngrams context k (min d.max_ngram (length context - 1))

unfoldable pub propose : NGramDrafter → List ℕ → NGramDrafter × List ℕ
propose d context =
    if d.adaptive && (d.k_cur == 0)
    then (if (d.disabled_calls + 1) % d.reprobe_every == 0
        then (
          record d { disabled_calls = d.disabled_calls + 1; probes = d.probes + 1; probing = true },
          lookup_draft d context d.min_draft_tokens,
        )
        else (
          record d {
            disabled_calls = d.disabled_calls + 1;
            disabled_rounds = d.disabled_rounds + 1;
          },
          [],
        ))
    else (d, lookup_draft d context (if d.adaptive then d.k_cur else d.num_draft_tokens))

-- The value that `k_cur` takes in a round that acted at `base`.
unfoldable pub next_k : NGramDrafter → ℕ → ℕ → ℕ → ℕ
next_k d base proposed accepted =
    if leb (proposed - 1) accepted && leb 2 accepted
    then min d.num_draft_tokens (base * 2)
    else if ltb (accepted * 4) proposed
    then (if leb base d.min_draft_tokens then 0 else max d.min_draft_tokens (base / 2))
    else base

-- The last lines of `observe`: `k_cur` is written, and the two extremes follow it.
unfoldable pub set_k : NGramDrafter → ℕ → NGramDrafter
set_k d k = record d {
  k_cur = k;
  k_min_seen = if ltb k d.k_min_seen then k else d.k_min_seen;
  k_max_seen = if ltb d.k_max_seen k then k else d.k_max_seen;
  probing = false;
}

unfoldable pub observe : NGramDrafter → ℕ → ℕ → NGramDrafter
observe d proposed accepted =
    if not_adaptive_or_empty
    then record d { probing = false }
    else set_k d (next_k d (if d.probing then d.min_draft_tokens else d.k_cur) proposed accepted)
  where
    not_adaptive_or_empty : Bool
    not_adaptive_or_empty = (if d.adaptive then false else true) || (proposed == 0)
