-- ===== src/Generate/Emit.antt =====
-- What the speculative paths of src/nunspark/generate.py share: the tally `SpecStats`, the tokens
-- yielded so far, the end of a round ("Emit accepted tokens, then the bonus correction") and the
-- loop `while emitted < max_tokens`.
use nunspark.Base.{
  ℕ, zero, suc, ◌+◌, ◌-◌, ◌≤◌, ◌<◌, ◌≡◌, refl, sym, ◌∙◌, List, [], ◌∷◌, ◌++◌, Option, none, some,
  true, false, length, is_some_of, if◌then◌else◌, arith, append_assoc, append-nil, ltb, leb,
  Bool-cases, ◌⊎◌, inl, inr, ltb→lt, leb-false→lt, leb→le, ltb-false→le,
}
use nunspark.Generate.Greedy.{greedy, until_eos}

pub record SpecStats : Type 0 where
  pub target_passes : ℕ
  pub tokens_emitted : ℕ
  pub draft_tokens_proposed : ℕ
  pub accepted_offpath : ℕ
  pub accepted_total : ℕ
  pub near_tie_rows : ℕ

abbrev pub no_stats : SpecStats
no_stats = record {
  target_passes = 0;
  tokens_emitted = 0;
  draft_tokens_proposed = 0;
  accepted_offpath = 0;
  accepted_total = 0;
  near_tie_rows = 0;
}

-- `out` is what the generator has yielded; `emitted` is the variable of that name.
pub record Run : Type 0 where
  pub out : List ℕ
  pub emitted : ℕ
  pub stats : SpecStats

abbrev pub start : Run
start = record { out = []; emitted = 0; stats = no_stats }

-- A step of the generator returns, or goes on with a new state.
pub data Flow (S : Type 0) : Type 0 where
  halt : Run → Flow S
  go : S → Flow S

-- `yield t; emitted += 1; stats.tokens_emitted += 1`.
unfoldable pub emit : ℕ → Run → Run
emit t r = record {
  out = r.out ++ t ∷ [];
  emitted = r.emitted + 1;
  stats = record r.stats { tokens_emitted = r.stats.tokens_emitted + 1 };
}

-- `for t in q[:m]`.
unfoldable pub emit_accepted : ℕ → Option ℕ → List ℕ → Run → Flow Run
emit_accepted max_tokens eos [] r = go r
emit_accepted max_tokens eos (t ∷ ts) r =
    let rest = emit_accepted max_tokens eos ts (emit t r) in
    if leb max_tokens r.emitted then halt r else if is_some_of t eos then halt (emit t r) else rest

-- The bonus, after accepted tokens that did not end the run.
unfoldable pub emit_bonus : ℕ → Option ℕ → ℕ → Flow Run → Flow Run
emit_bonus max_tokens eos bonus (halt r) = halt r
emit_bonus max_tokens eos bonus (go r) =
    if leb max_tokens r.emitted
    then halt r
    else if is_some_of bonus eos
    then halt (emit bonus r)
    else go (emit bonus r)

-- The state that the next round starts from.
abbrev pub resume : {S : Type 0} → (Run → S) → Flow Run → Flow S
resume f (halt r) = halt r
resume f (go r) = go (f r)

-- `while emitted < max_tokens`, for any round of a path. `none` is an exception of a round, or
-- fuel that ran out.
unfoldable pub drive : {S : Type 0} → (S → Run) → (S → Option (Flow S)) → ℕ → ℕ → S → Option Run
drive run_of round max_tokens zero s = none
drive run_of round max_tokens (suc fuel) s = elim (ltb (run_of s).emitted max_tokens) [
  | false ↦ some (run_of s)
  | true ↦ elim (round s) [
    | none ↦ none
    | some (halt r) ↦ some r
    | some (go s') ↦ drive run_of round max_tokens fuel s'
  ]
]

-- Each token is the greedy choice after those before it.
abbrev pub Follows : (List ℕ → ℕ) → List ℕ → List ℕ → Type 0
Follows next context [] = Unit {0}
Follows next context (t ∷ ts) = (t ≡ next context) × Follows next (context ++ t ∷ []) ts

module _ (next : List ℕ → ℕ) (prompt : List ℕ) (max_tokens : ℕ) (eos : Option ℕ) where
  -- What is still to be yielded by the greedy rule after a run that was not ended.
  abbrev pub rest_of : Run → List ℕ
  rest_of r = until_eos eos (greedy next (max_tokens - r.emitted) (prompt ++ r.out))

  -- The whole output that a state of the generator leads to by the greedy rule.
  abbrev pub finish : Flow Run → List ℕ
  finish (halt r) = r.out
  finish (go r) = r.out ++ rest_of r

  pub rest_of-full : (r : Run) → max_tokens ≤ r.emitted → rest_of r ≡ []
  unfolding greedy until_eos
  rest_of-full r h = let e : max_tokens - r.emitted ≡ 0 = omega arith in rw e

  rest_of-emit :
      (r : Run) (t : ℕ)
      → r.emitted < max_tokens
      → t ≡ next (prompt ++ r.out)
      → rest_of r ≡ t ∷ (if is_some_of t eos then [] else rest_of (emit t r))
  unfolding greedy until_eos emit
  rest_of-emit r t h e =
      let m : max_tokens - r.emitted ≡ suc (max_tokens - (r.emitted + 1)) = omega arith in
      rw (m, e, append_assoc prompt r.out (next (prompt ++ r.out) ∷ []))

  -- Yielding one more greedy token leaves the whole output as it was.
  pub finish-emit :
      (r : Run) (t : ℕ)
      → r.emitted < max_tokens
      → t ≡ next (prompt ++ r.out)
      → finish (if is_some_of t eos then halt (emit t r) else go (emit t r)) ≡ finish (go r)
  unfolding emit
  finish-emit r t h e = elim (Bool-cases (is_some_of t eos)) [
    | inl stop ↦ rw (stop, rest_of-emit r t h e, stop) refl
    | inr more ↦ rw (more, rest_of-emit r t h e, more) (append_assoc r.out (t ∷ []) _)
  ]

  -- Emitting draft tokens that follow the greedy rule leaves the whole output as it was.
  pub emit_accepted-finish :
      (ts : List ℕ) (r : Run)
      → Follows next (prompt ++ r.out) ts
      → finish (emit_accepted max_tokens eos ts r) ≡ finish (go r)
  unfolding emit_accepted emit
  emit_accepted-finish [] r f = refl
  emit_accepted-finish (t ∷ ts) r f = elim (Bool-cases (leb max_tokens r.emitted)) [
    | inl full ↦
        rw (full, rest_of-full r (leb→le max_tokens r.emitted full)) (sym (append-nil r.out))
    | inr room ↦
        let here = finish-emit r t (leb-false→lt max_tokens r.emitted room) f.0 in
        elim (Bool-cases (is_some_of t eos)) [
          | inl stop ↦ rw (room, stop) (rw stop at here)
          | inr more ↦
              rw (room, more)
                (emit_accepted-finish ts (emit t r) (later t ts r f.1) ∙ (rw more at here))
        ]
  ]
    where
      later :
          (t : ℕ) (ts : List ℕ) (r : Run)
          → Follows next ((prompt ++ r.out) ++ t ∷ []) ts
          → Follows next (prompt ++ (emit t r).out) ts
      later t ts r g = rw append_assoc at g

  pub emit_bonus-finish :
      (bonus : ℕ) (flow : Flow Run)
      → ((r : Run) → flow ≡ go r → bonus ≡ next (prompt ++ r.out))
      → finish (emit_bonus max_tokens eos bonus flow) ≡ finish flow
  unfolding emit_bonus
  emit_bonus-finish bonus (halt r) f = refl
  emit_bonus-finish bonus (go r) f = elim (Bool-cases (leb max_tokens r.emitted)) [
    | inl full ↦
        rw (full, rest_of-full r (leb→le max_tokens r.emitted full)) (sym (append-nil r.out))
    | inr room ↦ rw room (finish-emit r bonus (leb-false→lt max_tokens r.emitted room) (f r refl))
  ]

-- A run that all accepted tokens leave going has yielded them all.
pub emit_accepted-go :
    (max_tokens : ℕ) (eos : Option ℕ) (ts : List ℕ) (r : Run) {r' : Run}
    → emit_accepted max_tokens eos ts r ≡ go r'
    → (r'.out ≡ r.out ++ ts) × (r'.emitted ≡ r.emitted + length ts)
unfolding emit_accepted emit
emit_accepted-go max_tokens eos [] r h = ground (arith, append-nil r.out)
emit_accepted-go max_tokens eos (t ∷ ts) r {r' = r'} h =
    ground (
      arith,
      emit_accepted-go max_tokens eos ts (emit t r) {r' = r'},
      append_assoc r.out (t ∷ []) ts,
    )

-- What a round that yields the bonus leaves.
pub emit_bonus-go :
    (max_tokens : ℕ) (eos : Option ℕ) (bonus : ℕ) (flow : Flow Run) {r' : Run}
    → emit_bonus max_tokens eos bonus flow ≡ go r'
    → (r : Run) × (flow ≡ go r) × (r' ≡ emit bonus r)
unfolding emit_bonus
emit_bonus-go max_tokens eos bonus (halt r) h = cc
emit_bonus-go max_tokens eos bonus (go r) {r' = r'} h = (r, refl, ground arith)

-- A state that a round goes on with.
pub resume-go :
    {S : Type 0} (mk : Run → S) (flow : Flow Run) {s : S}
    → some (resume mk flow) ≡ some (go s)
    → (r : Run) × (flow ≡ go r) × (s ≡ mk r)
resume-go mk (halt r) h = cc
resume-go mk (go r) h = (r, refl, cc)

-- How a round of a state may end: with a good run, or in a state that has yielded more.
abbrev pub Ends :
    {S : Type 0} → (S → Run) → (S → Type 0) → (Run → Type 0) → S → Option (Flow S) → Type 0
Ends {S} run_of Inv Good s o =
    ((r : Run) × (o ≡ some (halt r)) × Good r)
    ⊎ ((s' : S) × (o ≡ some (go s')) × Inv s' × ((run_of s).emitted < (run_of s').emitted))

module _ {S : Type 0} (run_of : S → Run) (round : S → Option (Flow S)) (max_tokens : ℕ)
    (Inv : S → Type 0) (Good : Run → Type 0) where
  -- The rule of the loop: with as much fuel as there are tokens to yield it ends in a good run.
  pub drive-Good :
      ((s : S) → Inv s → (run_of s).emitted < max_tokens → Ends run_of Inv Good s (round s))
      → ((s : S) → Inv s → max_tokens ≤ (run_of s).emitted → Good (run_of s))
      → (fuel : ℕ) (s : S) → max_tokens - (run_of s).emitted < fuel
      → Inv s
      → (r : Run) × (drive run_of round max_tokens fuel s ≡ some r) × Good r
  unfolding drive
  drive-Good step full zero s m i = absurd (omega arith)
  drive-Good step full (suc fuel) s m i = elim (Bool-cases (ltb (run_of s).emitted max_tokens)) [
    | inr done ↦ (run_of s, rw (done, drive), full s i (ltb-false→le _ _ done))
    | inl more ↦ elim (step s i (ltb→lt _ _ more)) [
      | inl (r, e, g) ↦ (r, rw (more, e, drive), g)
      | inr (s', e, i', grows) ↦
          let (r, found, g) = drive-Good step full fuel s' (omega (arith, ltb→lt _ _ more)) i' in
          (r, rw (more, e, drive) found, g)
    ]
  ]
