-- ===== src/Generate/Greedy.antt =====
-- `_prefill`, `generate` and the greedy reference that the speculative paths are compared with.
use nunspark.Base.{
  ℕ, zero, suc, ◌≤◌, ◌≡◌, refl, sym, ap, subst, ◌∙◌, List, [], ◌∷◌, ◌++◌, Option, none, some, false,
  map, length, take, drop, is_some_of, if◌then◌else◌, arith, append_assoc, append-nil,
  take-append-drop, length-drop, ◌==◌,
}
use nunspark.Generate.Engine.{
  Engine, Contract, nexts, last, ◌>>=◌, ◌>>◌, prefill, prefill_windows, check_kv_quant_support,
  Request,
}

module _ (e : Engine) where
  open e use {Kv, Row, forward, argmax}

  -- The decode loop, with `n` rounds left; `sample` is `_sample` at the temperature of the call.
  unfoldable pub decode : (Row → ℕ) → ℕ → Row → Kv → List ℕ → Option (List ℕ)
  decode sample zero row kv out = some out
  decode sample (suc n) row kv out = last (forward (sample row ∷ []) kv).0 >>= λ row'.
      decode sample n row' (forward (sample row ∷ []) kv).1 (out ++ sample row ∷ [])

  unfoldable pub generate : (Row → ℕ) → Request → Kv → Option (List ℕ)
  generate sample q kv = do
    check_kv_quant_support e q.kv_quant
    (row, kv') ← prefill e q.prompt kv q.prefill_chunk
    decode sample q.max_tokens row kv' []

-- Greedy decoding by the rule `next`: `n` tokens after a context.
unfoldable pub greedy : (List ℕ → ℕ) → ℕ → List ℕ → List ℕ
greedy next zero context = []
greedy next (suc n) context = next context ∷ greedy next n (context ++ next context ∷ [])

-- A sequence up to and with its first end-of-sequence token.
unfoldable pub until_eos : Option ℕ → List ℕ → List ℕ
until_eos eos [] = []
until_eos eos (t ∷ ts) = let rest = until_eos eos ts in t ∷ (if is_some_of t eos then [] else rest)

last-map {ℓ κ} :
    {A : Type ℓ} {B : Type κ} (f : A → B) (xs : List A) {y : B}
    → last (map f xs) ≡ some y
    → (x : A) × (last xs ≡ some x) × (f x ≡ y)
last-map f [] h = ground arith
last-map f (x ∷ []) h = (x, refl, ground arith)
last-map f (x ∷ x' ∷ xs) h = last-map f (x' ∷ xs) h

last-nexts :
    (next : List ℕ → ℕ) (context : List ℕ) (t : ℕ) (ts : List ℕ)
    → last (nexts next context (t ∷ ts)) ≡ some (next (context ++ t ∷ ts))
last-nexts next context t [] = refl
last-nexts next context t (u ∷ ts) =
    last-nexts next (context ++ t ∷ []) u ts
    ∙ ap (λ c. some (next c)) (append_assoc context (t ∷ []) (u ∷ ts))

module _ {e : Engine} (c : Contract e) where
  open e use {Kv, Row, forward, argmax}
  open c use {holds, next, forward_rows, forward_holds}

  -- The last row of a pass over at least one token gives the token after all that the store then
  -- holds.
  pub forward-last :
      (t : ℕ) (ts : List ℕ) (kv : Kv)
      → (row : Row) × (last (forward (t ∷ ts) kv).0 ≡ some row)
        × (argmax row ≡ next (holds kv ++ t ∷ ts))
  forward-last t ts kv =
      last-map argmax (forward (t ∷ ts) kv).0
        (ap last (forward_rows (t ∷ ts) kv) ∙ last-nexts next (holds kv) t ts)

  -- What `_prefill` returns when it succeeds as meant.
  abbrev pub Prefilled : List ℕ → Option (Row × Kv) → Type 0
  Prefilled context r =
      (row : Row) × (kv : Kv) × (r ≡ some (row, kv))
      × (argmax row ≡ next context)
      × (holds kv ≡ context)

  prefill_windows-Prefilled :
      (fuel chunk : ℕ) (ids : List ℕ) (kv : Kv) (logits : Option Row)
      → 1 ≤ chunk
      → length ids ≤ fuel
      → ((ids ≡ []) → (row : Row) × (logits ≡ some row) × (argmax row ≡ next (holds kv)))
      → Prefilled (holds kv ++ ids) (prefill_windows e fuel chunk ids kv logits)
  unfolding prefill_windows
  prefill_windows-Prefilled fuel chunk [] kv logits p h start =
      let (row, found, best) = start refl in (row, kv, rw found, rw append-nil best, rw append-nil)
  prefill_windows-Prefilled zero chunk (t ∷ ts) kv logits p h start = absurd (omega arith)
  prefill_windows-Prefilled (suc fuel) zero (t ∷ ts) kv logits p h start = absurd (omega arith)
  prefill_windows-Prefilled (suc fuel) (suc k) (t ∷ ts) kv logits p h start =
      subst (λ context. Prefilled context (prefill_windows e fuel (suc k) (drop k ts) kv' logits'))
        whole
        (prefill_windows-Prefilled fuel (suc k) (drop k ts) kv' logits' p
          (omega (arith, length-drop k ts)) next_window)
    where
      window : List ℕ
      window = t ∷ take k ts

      kv' : Kv
      kv' = (forward window kv).1

      logits' : Option Row
      logits' = last (forward window kv).0

      whole : holds kv' ++ drop k ts ≡ holds kv ++ t ∷ ts
      whole = rw forward_holds (
          append_assoc (holds kv) window (drop k ts)
          ∙ ap (λ us. holds kv ++ t ∷ us) (take-append-drop k ts))

      next_window :
          (drop k ts ≡ []) → (row : Row) × (logits' ≡ some row) × (argmax row ≡ next (holds kv'))
      next_window _ =
          let (row, found, best) = forward-last t (take k ts) kv in
          (row, found, rw forward_holds best)

  -- A prompt of at least one token is prefilled window by window to the same end as in one pass:
  -- the logits are those after the whole prompt, and the store holds it.
  pub prefill-Prefilled :
      (ids : List ℕ) (kv : Kv) (chunk : ℕ)
      → 1 ≤ length ids
      → 1 ≤ chunk
      → Prefilled (holds kv ++ ids) (prefill e ids kv chunk)
  unfolding prefill
  prefill-Prefilled [] kv chunk h p = absurd (omega arith)
  prefill-Prefilled (t ∷ ts) kv zero h p = absurd (omega arith)
  prefill-Prefilled (t ∷ ts) kv (suc k) h p =
      let positive : (suc k == 0) ≡ false = ground arith in
      rw positive (
        prefill_windows-Prefilled (length (t ∷ ts)) (suc k) (t ∷ ts) kv none p (omega arith)
          (λ e. absurd (cons_nil e)))
    where
      cons_nil : (t ∷ ts ≡ []) → ⊥
      cons_nil e = cc

  pub decode-greedy :
      (n : ℕ) (row : Row) (kv : Kv) (out : List ℕ)
      → argmax row ≡ next (holds kv)
      → decode e argmax n row kv out ≡ some (out ++ greedy next n (holds kv))
  unfolding decode greedy
  decode-greedy zero row kv out h = rw append-nil
  decode-greedy (suc n) row kv out h =
      let t = argmax row in
      let (row', found, best) = forward-last t [] kv in
      rw found (
        decode-greedy n row' (forward (t ∷ []) kv).1 (out ++ t ∷ []) (rw forward_holds best)
        ∙ rw (forward_holds, h) (ap some (append_assoc out (next (holds kv) ∷ []) _)))

  -- `generate` at temperature 0, on a store that holds nothing and for a supported request with a
  -- prompt, returns `max_tokens` tokens, each the greedy choice after the prompt and those before it.
  pub generate-greedy :
      (q : Request) (kv : Kv)
      → check_kv_quant_support e q.kv_quant ≡ some tt
      → 1 ≤ length q.prompt
      → 1 ≤ q.prefill_chunk
      → holds kv ≡ []
      → generate e argmax q kv ≡ some (greedy next q.max_tokens q.prompt)
  unfolding generate
  generate-greedy q kv ok h p empty =
      let (row, kv', done, best, held) = prefill-Prefilled q.prompt kv q.prefill_chunk h p in
      let held' : holds kv' ≡ q.prompt = held ∙ ap (λ xs. xs ++ q.prompt) empty in
      rw (ok, done)
        (decode-greedy q.max_tokens row kv' [] (best ∙ ap next (sym held))
          ∙ ap (λ xs. some (greedy next q.max_tokens xs)) held')
