-- ===== src/Generate/Batch/Lossless.antt =====
-- `batched_generate` returns for each prompt what it would get alone.
use nunspark.Base.{
  ℕ, zero, suc, ◌-◌, ◌≤◌, ◌≡◌, refl, sym, ap, subst, ◌∙◌, List, [], ◌∷◌, ◌++◌, Option, none, some,
  true, false, length, drop, replicate, map, if◌then◌else◌, arith, append-nil, Bool-cases, inl, inr,
  ltb, length-append, length-replicate,
}
use nunspark.Generate.Greedy.{greedy, until_eos}
use nunspark.Generate.Batch.{
  BatchEngine, BatchRow, reject_rotating, longest, pad_counts, pad_rows, any_padded,
  batched_generate,
}
use nunspark.Generate.Batch.Lanes.{BatchContract, goal, IsLane, Lanes, no_lanes, lane, IsSureFrom}
use nunspark.Generate.Batch.Decodes.{Masks, IsSure, decode_batch-goal}
use nunspark.Generate.Batch.Prefills.{AllWide, prefill_batched-Filled, length-map}

-- Each prompt has a token, and at most `n`.
abbrev pub AllWithin : ℕ → List (List ℕ) → Type 0
AllWithin n [] = Unit {0}
AllWithin n (p ∷ ps) = (1 ≤ length p) × (length p ≤ n) × AllWithin n ps

abbrev pub AllGiven : List (List ℕ) → Type 0
AllGiven [] = Unit {0}
AllGiven (p ∷ ps) = (1 ≤ length p) × AllGiven ps

within_longest : (ps : List (List ℕ)) (n : ℕ) → AllGiven ps → longest ps ≤ n → AllWithin n ps
within_longest [] n given le = tt
within_longest (p ∷ ps) n given le =
    (given.0, omega arith, within_longest ps n given.1 (omega arith))

drop_pads : (k x : ℕ) (ts : List ℕ) → drop k (replicate k x ++ ts) ≡ ts
drop_pads zero x ts = refl
drop_pads (suc k) x ts = drop_pads k x ts

pad_rows-AllWide :
    (pad_id n : ℕ) (ps : List (List ℕ)) → AllWithin n ps → AllWide n (pad_rows pad_id n ps)
pad_rows-AllWide pad_id n [] within = tt
pad_rows-AllWide pad_id n (p ∷ ps) within = (
  omega (
    arith,
    length-append (replicate (n - length p) pad_id) p,
    length-replicate (n - length p) pad_id,
    within.1,
  ),
  pad_rows-AllWide pad_id n ps within.2,
)

no_pads : (ns : List ℕ) → any_padded ns ≡ false → ns ≡ replicate (length ns) 0
no_pads [] h = refl
no_pads (zero ∷ ns) h = ap (λ ms. 0 ∷ ms) (no_pads ns (ground arith))
no_pads (suc n ∷ ns) h = let padded : ltb 0 (suc n) ≡ true = ground arith in absurd (ground arith)

counts-Masks : (counts : List ℕ) → Masks (if any_padded counts then some counts else none) counts
counts-Masks counts = elim (Bool-cases (any_padded counts)) [
  | inl padded ↦ inl (rw padded refl)
  | inr plain ↦ inr (rw plain refl, no_pads counts plain)
]

abbrev blank : BatchRow
blank = record { output = []; finished = false }

-- The first `n` choices of each prompt are sure.
unfoldable pub AllSure : (List ℕ → ℕ) → (List ℕ → Type 0) → Option ℕ → ℕ → List (List ℕ) → Type 0
AllSure next IsSure eos n [] = Unit {0}
AllSure next IsSure eos n (p ∷ ps) = IsSureFrom next IsSure eos n p × AllSure next IsSure eos n ps

module _ (next : List ℕ → ℕ) (eos : Option ℕ) where
  always-IsSureFrom : (n : ℕ) (ts : List ℕ) → IsSureFrom next (λ ts. Unit {0}) eos n ts
  unfolding IsSureFrom
  always-IsSureFrom zero ts = tt
  always-IsSureFrom (suc n) ts = (tt, λ _. always-IsSureFrom n (ts ++ next ts ∷ []))

  always-AllSure : (n : ℕ) (ps : List (List ℕ)) → AllSure next (λ ts. Unit {0}) eos n ps
  unfolding AllSure
  always-AllSure n [] = tt
  always-AllSure n (p ∷ ps) = (always-IsSureFrom n p, always-AllSure n ps)

pads-AllSure :
    {e : BatchEngine} {argmax : e.Row → ℕ} (c : BatchContract e argmax) (eos : Option ℕ) (n : ℕ)
    (counts : List ℕ) (ps : List (List ℕ))
    → (any_padded counts ≡ true → AllSure c.next c.IsSteady eos n ps)
    → AllSure c.next (IsSure c (if any_padded counts then some counts else none)) eos n ps
pads-AllSure c eos n counts ps steady = elim (Bool-cases (any_padded counts)) [
  | inl padded ↦ rw padded (steady padded)
  | inr plain ↦ rw plain (always-AllSure c.next eos n ps)
]

module _ (next : List ℕ → ℕ) (IsSure : List ℕ → Type 0) (eos : Option ℕ) (max_tokens : ℕ) where
  first-IsLane :
      (pad_id n : ℕ) (p : List ℕ)
      → 1 ≤ length p
      → length p ≤ n
      → IsSureFrom next IsSure eos max_tokens p
      → IsLane next IsSure eos max_tokens max_tokens
          (n - length p)
          (replicate (n - length p) pad_id ++ p)
          blank
          p
  first-IsLane pad_id n p some_tokens le sure = record {
    held = λ live. (
      drop_pads (n - length p) pad_id p ∙ sym (append-nil p),
      omega (
        arith,
        length-append (replicate (n - length p) pad_id) p,
        length-replicate (n - length p) pad_id,
      ),
    );
    ahead = λ live. ap (goal next IsSure eos max_tokens) (append-nil p);
    done = λ fin. absurd (clash fin);
    sure = λ live. subst (IsSureFrom next IsSure eos max_tokens) (sym (append-nil p)) sure;
  }
    where
      clash : (false ≡ true) → ⊥
      clash h = cc

  first-Lanes :
      (pad_id n : ℕ) (ps : List (List ℕ))
      → AllWithin n ps
      → AllSure next IsSure eos max_tokens ps
      → Lanes next IsSure eos max_tokens max_tokens
          (pad_counts n ps)
          (pad_rows pad_id n ps)
          (map (λ p. blank) ps)
          ps
  unfolding AllSure
  first-Lanes pad_id n [] within sure = no_lanes
  first-Lanes pad_id n (p ∷ ps) within sure =
      lane (first-IsLane pad_id n p within.0 within.1 sure.0)
        (first-Lanes pad_id n ps within.2 sure.1)

-- At temperature 0, for at least one prompt, each of at least one token, on an engine without sliding
-- or paired layers, with a store that holds nothing and is not quantized and windows of at least one
-- column, and, if the prompts have different lengths, with no argmax near-tie along the greedy
-- continuation of any of them: the path returns, for each prompt and in their order, its greedy
-- continuation of `max_tokens` tokens, cut after the first end-of-sequence token.
pub batched_generate-goal :
    {e : BatchEngine} {argmax : e.Row → ℕ} (c : BatchContract e argmax) (prompt : List ℕ)
    (prompts : List (List ℕ)) (max_tokens pad_id : ℕ) (eos : Option ℕ) (chunk : ℕ) (kv : e.Kv)
    → reject_rotating e.cache_kinds ≡ some tt
    → AllGiven (prompt ∷ prompts)
    → 1 ≤ chunk
    → c.holds kv ≡ []
    → (any_padded (pad_counts (longest (prompt ∷ prompts)) (prompt ∷ prompts)) ≡ true
        → AllSure c.next c.IsSteady eos max_tokens (prompt ∷ prompts))
    → batched_generate e argmax (prompt ∷ prompts) max_tokens false pad_id eos chunk kv
      ≡ some (map (λ p. until_eos eos (greedy c.next max_tokens p)) (prompt ∷ prompts))
unfolding batched_generate
batched_generate-goal {e} {argmax} c prompt prompts max_tokens pad_id eos chunk kv ok given pos
      empty steady =
    let all = prompt ∷ prompts in
    let n = longest all in
    let counts = pad_counts n all in
    let pads : Option (List ℕ) = if any_padded counts then some counts else none in
    let within = within_longest all n given (omega arith) in
    let (r, ran, (rows, found, held, chosen)) =
      prefill_batched-Filled c chunk n (pad_rows pad_id n all) pads counts kv pos
        (omega (arith, given.0)) (pad_rows-AllWide pad_id n all within) (counts-Masks counts) empty
        (length-map _ all ∙ sym (length-map _ all)) in
    rw (ok, ran, found)
      (decode_batch-goal c pads eos max_tokens pad_id counts max_tokens rows r.1 _ all
        (counts-Masks counts)
        (rw held (
          first-Lanes c.next (IsSure c pads) eos max_tokens pad_id n all within
            (pads-AllSure c eos max_tokens counts all steady)))
        chosen)
