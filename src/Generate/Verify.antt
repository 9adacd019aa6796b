-- ===== src/Generate/Verify.antt =====
-- What a verify pass tells of a draft, and the first token of a path, whatever drafts.
use nunspark.Base.{
  ℕ, zero, suc, ◌-◌, ◌≤◌, ◌<◌, max, ◌≡◌, refl, sym, ap, subst, ◌∙◌, List, [], ◌∷◌, ◌++◌, Option,
  some, length, take, drop, get_elem?, is_some_of, if◌then◌else◌, ◌==◌, arith, append_assoc,
  append-nil, Bool-cases, inl, inr, ==_iff, take-append-drop, length-drop,
}
use nunspark.Generate.Engine.{Engine, Contract, nexts, Request, prefill, check_kv_quant_support}
use nunspark.Generate.Greedy.{greedy, until_eos, prefill-Prefilled, Prefilled}
use nunspark.Generate.Emit.{Run, halt, go, start, emit, finish, Follows, finish-emit}
use nunspark.Generate.Ngram.{accept_prefix}

module _ (next : List ℕ → ℕ) where
  -- What a verify pass over `context` tells of a draft.
  pub record Verified (context q : List ℕ) (targ : List ℕ) : Type 0 where
    pub count : ℕ
    pub accepts : accept_prefix q targ ≡ some count
    pub within : count ≤ length q
    pub follows : Follows next context (take count q)
    pub bonus : get_elem? targ count ≡ some (next (context ++ take count q))

  pub accept_prefix-Verified :
      (context q : List ℕ) → Verified context q (next context ∷ nexts next context q)
  unfolding accept_prefix
  accept_prefix-Verified context [] = record {
    count = 0;
    accepts = refl;
    within = omega arith;
    follows = tt;
    bonus = rw append-nil;
  }
  accept_prefix-Verified context (x ∷ q) = elim (Bool-cases (x == next context)) [
    | inl same ↦
        let r = accept_prefix-Verified (context ++ x ∷ []) q in
        record {
          count = suc r.count;
          accepts = rw (same, r.accepts);
          within = omega (arith, r.within);
          follows = ((==_iff x (next context)).0 same, r.follows);
          bonus =
              r.bonus ∙ ap (λ c. some (next c)) (append_assoc context (x ∷ []) (take r.count q));
        }
    | inr other ↦ record {
      count = 0;
      accepts = rw other;
      within = omega arith;
      follows = tt;
      bonus = rw append-nil;
    }
  ]

-- The first token, which is yielded even where `max_tokens` is 0.
pub first-finish :
    (next : List ℕ → ℕ) (prompt : List ℕ) (max_tokens : ℕ) (eos : Option ℕ) (b : ℕ)
    → b ≡ next prompt
    → finish next prompt max_tokens eos
        (if is_some_of b eos then halt (emit b start) else go (emit b start))
      ≡ until_eos eos (greedy next (max 1 max_tokens) prompt)
unfolding emit until_eos greedy
first-finish next prompt zero eos b e = rw e (elim (Bool-cases (is_some_of (next prompt) eos)) [
  | inl stop ↦ rw stop refl
  | inr more ↦ rw more refl
])
first-finish next prompt (suc n) eos b e =
    let m : max 1 (suc n) ≡ suc n - 0 = omega arith in
    rw m (
      finish-emit next prompt (suc n) eos start b (omega arith)
        (e ∙ ap next (sym (append-nil prompt)))
      ∙ ap (λ xs. until_eos eos (greedy next (suc n - 0) xs)) (append-nil prompt))

pub emit-lt : (t : ℕ) (r : Run) → r.emitted < (emit t r).emitted
unfolding emit
emit-lt t r = omega arith

-- What a request and its store must satisfy: quantization is supported, the prompt goes beyond what
-- the store holds, and windows are not empty.
pub record IsServed {e : Engine} (c : Contract e) (q : Request) (kv : e.Kv) : Type 0 where
  pub supported : check_kv_quant_support e q.kv_quant ≡ some tt
  pub suffix : q.processed_tokens < length q.prompt
  pub windows : 1 ≤ q.prefill_chunk
  pub held : c.holds kv ≡ take q.processed_tokens q.prompt

-- The prefill of the suffix that the store does not hold ends as that of the whole prompt.
pub suffix-Prefilled :
    {e : Engine} (c : Contract e) (q : Request) (kv : e.Kv)
    → IsServed c q kv
    → Prefilled c q.prompt (prefill e (drop q.processed_tokens q.prompt) kv q.prefill_chunk)
suffix-Prefilled {e} c q kv h =
    subst (λ xs. Prefilled c xs (prefill e (drop q.processed_tokens q.prompt) kv q.prefill_chunk))
      (ap (λ xs. xs ++ drop q.processed_tokens q.prompt) h.held
        ∙ take-append-drop q.processed_tokens q.prompt)
      (prefill-Prefilled c (drop q.processed_tokens q.prompt) kv q.prefill_chunk
        (omega (arith, length-drop q.processed_tokens q.prompt, h.suffix)) h.windows)
