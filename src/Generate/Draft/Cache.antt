-- ===== src/Generate/Draft/Cache.antt =====
-- The draft model's cache through a round of `speculative_generate`: it stays aligned with the
-- tokens that the target's store holds.
use nunspark.Base.{
  ℕ, zero, suc, ◌+◌, ◌-◌, ◌≤◌, ◌<◌, ◌≡◌, refl, sym, ap, ◌∙◌, List, [], ◌∷◌, ◌++◌, some, length,
  take, arith, append_assoc, append-nil, Bool-cases, inl, inr, ltb, take-append, take-take,
  get_elem?-last, length-append, length-take, ltb→lt, ltb-false→le, take_all,
}
use nunspark.Generate.Engine.{last}
use nunspark.Generate.Draft.{DraftModel, draft_loop, settle_cache}

-- What any model of mlx_lm does, whatever its cache: a call gives a row for each token.
pub record CallContract (dm : DraftModel) : Type 0 where
  pub call_length : (ts : List ℕ) (c : dm.Cache) → length (dm.call ts c).0 ≡ length ts

-- The documented behaviour of an mlx_lm model with a plain cache: a call appends its tokens and
-- gives a row for each, and `trim` drops tokens from the end.
pub record DraftContract (dm : DraftModel) : Type 0 where
  pub tokens : dm.Cache → List ℕ
  pub fresh_tokens : tokens dm.make_prompt_cache ≡ []
  pub call_tokens : (ts : List ℕ) (c : dm.Cache) → tokens (dm.call ts c).1 ≡ tokens c ++ ts
  pub call_rows : (ts : List ℕ) (c : dm.Cache) → length (dm.call ts c).0 ≡ length ts
  pub trim_tokens :
      (n : ℕ) (c : dm.Cache) → tokens (dm.trim n c) ≡ take (length (tokens c) - n) (tokens c)

last_of_one {ℓ} : {A : Type ℓ} (xs : List A) → length xs ≡ 1 → (x : A) × (last xs ≡ some x)
last_of_one [] h = absurd (omega arith)
last_of_one (x ∷ []) h = (x, refl)
last_of_one (x ∷ y ∷ ys) h = absurd (omega arith)

module _ {dm : DraftModel} (dc : CallContract dm) where
  -- The loop drafts exactly `n` tokens.
  pub draft_loop-length :
      (n di : ℕ) (cache : dm.Cache) (q : List ℕ)
      → (q' : List ℕ) × (cache' : dm.Cache) × (draft_loop dm n di cache q ≡ some (q ++ q', cache'))
        × (length q' ≡ n)
  unfolding draft_loop
  draft_loop-length zero di cache q = ([], cache, rw append-nil, refl)
  draft_loop-length (suc n) di cache q =
      let (row, found) = last_of_one (dm.call (di ∷ []) cache).0 (dc.call_length (di ∷ []) cache) in
      let nx = dm.argmax row in
      let (q', cache', drafted, len) =
        draft_loop-length n nx (dm.call (di ∷ []) cache).1 (q ++ nx ∷ []) in
      (
        nx ∷ q',
        cache',
        rw found (drafted ∙ ap (λ xs. some (xs, cache')) (append_assoc q (nx ∷ []) q')),
        ap suc len,
      )

-- After a round the draft cache is settled in some way.
pub settle_cache-some :
    (dm : DraftModel) (k m : ℕ) (q : List ℕ) (cache : dm.Cache)
    → 1 ≤ k
    → length q ≡ k
    → (cache' : dm.Cache) × (settle_cache dm k m q cache ≡ some cache')
unfolding settle_cache
settle_cache-some dm k m q cache pos len = elim (Bool-cases (ltb m k)) [
  | inl less ↦ (dm.trim (k - 1 - m) cache, rw less refl)
  | inr all ↦
      let (t, found, whole) = get_elem?-last q (k - 1) (omega arith) in
      ((dm.call (t ∷ []) cache).1, rw (all, found) refl)
]

module _ {dm : DraftModel} (dc : DraftContract dm) where
  open dc use {tokens, call_tokens, call_rows, trim_tokens}

  -- The loop drafts exactly `n` tokens, and has fed all but the last of them.
  pub draft_loop-drafts :
      (n di : ℕ) (cache : dm.Cache) (q : List ℕ)
      → (q' : List ℕ) × (cache' : dm.Cache) × (draft_loop dm n di cache q ≡ some (q ++ q', cache'))
        × (length q' ≡ n)
        × (tokens cache' ≡ tokens cache ++ take n (di ∷ q'))
  unfolding draft_loop
  draft_loop-drafts zero di cache q =
      ([], cache, rw append-nil, refl, sym (append-nil (tokens cache)))
  draft_loop-drafts (suc n) di cache q =
      let (row, found) = last_of_one (dm.call (di ∷ []) cache).0 (call_rows (di ∷ []) cache) in
      let nx = dm.argmax row in
      let (q', cache', drafted, len, fed) =
        draft_loop-drafts n nx (dm.call (di ∷ []) cache).1 (q ++ nx ∷ []) in
      (
        nx ∷ q',
        cache',
        rw found (drafted ∙ ap (λ xs. some (xs, cache')) (append_assoc q (nx ∷ []) q')),
        ap suc len,
        fed ∙ rw call_tokens (append_assoc (tokens cache) (di ∷ []) (take n (nx ∷ q'))),
      )

  settle-trim :
      (k m b : ℕ) (base q : List ℕ) (cache : dm.Cache)
      → length q ≡ k
      → m < k
      → tokens cache ≡ base ++ take k (b ∷ q)
      → tokens (dm.trim (k - 1 - m) cache) ≡ base ++ b ∷ take m q
  settle-trim k m b base q cache len lt fed =
      let kept : length (tokens cache) - (k - 1 - m) ≡ length base + suc m =
        omega (arith, ap length fed, length-append base (take k (b ∷ q)), length-take k (b ∷ q)) in
      trim_tokens (k - 1 - m) cache
      ∙ rw kept (
          rw fed (
            take-append base (take k (b ∷ q)) (suc m)
            ∙ ap (λ xs. base ++ xs) (take-take (suc m) k (b ∷ q) lt)))

  settle-feed :
      (j k m b t : ℕ) (base q : List ℕ) (cache : dm.Cache)
      → k ≡ suc j
      → length q ≡ suc j
      → suc j ≤ m
      → tokens cache ≡ base ++ take k (b ∷ q)
      → take j q ++ t ∷ [] ≡ q
      → tokens (dm.call (t ∷ []) cache).1 ≡ base ++ b ∷ take m q
  settle-feed j k m b t base q cache e len all fed whole =
      call_tokens (t ∷ []) cache
      ∙ ap (λ xs. xs ++ t ∷ []) (fed ∙ ap (λ (n : ℕ). base ++ take n (b ∷ q)) e)
      ∙ append_assoc base (b ∷ take j q) (t ∷ [])
      ∙ ap (λ xs. base ++ b ∷ xs) (whole ∙ sym (take_all q m (omega arith)))

  -- After a round the draft cache holds what it held, the round's first token and the drafts that
  -- were accepted.
  pub settle_cache-settles :
      (k m b : ℕ) (base q : List ℕ) (cache : dm.Cache)
      → 1 ≤ k
      → length q ≡ k
      → m ≤ k
      → tokens cache ≡ base ++ take k (b ∷ q)
      → (cache' : dm.Cache) × (settle_cache dm k m q cache ≡ some cache')
        × (tokens cache' ≡ base ++ b ∷ take m q)
  unfolding settle_cache
  settle_cache-settles k m b base q cache pos len le fed = elim (Bool-cases (ltb m k)) [
    | inl lt ↦
        (dm.trim (k - 1 - m) cache, rw lt, settle-trim k m b base q cache len (ltb→lt m k lt) fed)
    | inr all ↦
        let (t, found, whole) = get_elem?-last q (k - 1) (omega arith) in
        (
          (dm.call (t ∷ []) cache).1,
          rw (all, found),
          settle-feed (k - 1) k m b t base q cache (omega arith) (omega arith)
              (omega (arith, ltb-false→le m k all)) fed whole,
        )
  ]
