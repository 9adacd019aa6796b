-- ===== src/Generate/Batch/Lanes.antt =====
-- The rows of `batched_generate` one beside another: pad count, held tokens, output and prompt.
use nunspark.Base.{
  ℕ, zero, suc, ◌<◌, ◌≡◌, refl, sym, ap, subst, ◌∙◌, List, [], ◌∷◌, ◌++◌, Option, none, some, true,
  false, length, drop, replicate, map, is_some_of, if◌then◌else◌, arith, append_assoc, Bool-cases,
  inl, inr, length-append,
}
use nunspark.Generate.Greedy.{greedy, until_eos}
use nunspark.Generate.Batch.{BatchEngine, BatchRow, advance_row}

-- Rows appended side by side; a store that holds nothing has no rows yet.
abbrev pub beside : List (List ℕ) → List (List ℕ) → List (List ℕ)
beside [] ws = ws
beside (r ∷ rs) [] = r ∷ rs
beside (r ∷ rs) (w ∷ ws) = (r ++ w) ∷ beside rs ws

module _ (next : List ℕ → ℕ) (IsSure : List ℕ → Type 0) where
  -- Each token is the greedy choice after its row, from the row's first token that is no padding on,
  -- where that choice is sure; nothing is said of a row that is all padding.
  pub data Chosen : List ℕ → List (List ℕ) → List ℕ → Type 0 where
    no_rows : Chosen [] [] []
    row :
        {p t : ℕ} {ps ts : List ℕ} {h : List ℕ} {hs : List (List ℕ)}
        → (p < length h → IsSure (drop p h) → t ≡ next (drop p h))
        → Chosen ps hs ts
        → Chosen (p ∷ ps) (h ∷ hs) (t ∷ ts)

-- The engine's contract on rows. A batch without padding computes each row as if it were alone. A
-- padded one, whose rows stand at shifted positions, chooses as the row alone would after tokens that
-- are steady: after others an argmax near-tie may flip.
pub record BatchContract (e : BatchEngine) (argmax : e.Row → ℕ) : Type 1 where
  pub holds : e.Kv → List (List ℕ)
  pub next : List ℕ → ℕ
  pub IsSteady : List ℕ → Type 0
  pub forward_holds :
      (ws : List (List ℕ)) (pads : Option (List ℕ)) (kv : e.Kv)
      → holds (e.forward ws pads kv).1 ≡ beside (holds kv) ws
  pub forward_padded :
      (ws : List (List ℕ)) (pads : List ℕ) (kv : e.Kv)
      → length pads ≡ length (beside (holds kv) ws)
      → Chosen next IsSteady pads
          (beside (holds kv) ws)
          (map argmax (e.forward ws (some pads) kv).0)
  pub forward_plain :
      (ws : List (List ℕ)) (kv : e.Kv)
      → Chosen next
          (λ ts. Unit {0})
          (replicate (length (beside (holds kv) ws)) 0)
          (beside (holds kv) ws)
          (map argmax (e.forward ws none kv).0)

module _ (next : List ℕ → ℕ) (IsSure : List ℕ → Type 0) (eos : Option ℕ) where
  -- The choices of `n` rounds after `ts` are sure, up to the end of the sequence.
  unfoldable pub IsSureFrom : ℕ → List ℕ → Type 0
  IsSureFrom zero ts = Unit {0}
  IsSureFrom (suc n) ts =
      IsSure ts × (is_some_of (next ts) eos ≡ false → IsSureFrom n (ts ++ next ts ∷ []))

module _ (next : List ℕ → ℕ) (IsSure : List ℕ → Type 0) (eos : Option ℕ) (max_tokens : ℕ) where
  -- What a row must become in the end.
  abbrev pub goal : List ℕ → List ℕ
  goal prompt = until_eos eos (greedy next max_tokens prompt)

  -- A row with `n` rounds left. One that is not finished holds its prompt and its output.
  pub record IsLane (n p : ℕ) (h : List ℕ) (r : BatchRow) (prompt : List ℕ) : Type 0 where
    pub held : r.finished ≡ false → (drop p h ≡ prompt ++ r.output) × (p < length h)
    pub ahead :
        r.finished ≡ false
        → r.output ++ until_eos eos (greedy next n (prompt ++ r.output)) ≡ goal prompt
    pub done : r.finished ≡ true → r.output ≡ goal prompt
    pub sure : r.finished ≡ false → IsSureFrom next IsSure eos n (prompt ++ r.output)

  pub data Lanes (n : ℕ) : List ℕ → List (List ℕ) → List BatchRow → List (List ℕ) → Type 0 where
    no_lanes : Lanes n [] [] [] []
    lane :
        {p : ℕ} {ps : List ℕ} {h : List ℕ} {hs : List (List ℕ)} {r : BatchRow} {rs : List BatchRow}
        {prompt : List ℕ} {prompts : List (List ℕ)}
        → IsLane n p h r prompt
        → Lanes n ps hs rs prompts
        → Lanes n (p ∷ ps) (h ∷ hs) (r ∷ rs) (prompt ∷ prompts)

  drop_short : (p : ℕ) (h w : List ℕ) → p < length h → drop p (h ++ w) ≡ drop p h ++ w
  drop_short p [] w lt = absurd (omega arith)
  drop_short zero (x ∷ h) w lt = refl
  drop_short (suc p) (x ∷ h) w lt = drop_short p h w (omega arith)

  abbrev pub fed : ℕ → ℕ → BatchRow → ℕ
  fed pad_id t r = if r.finished then pad_id else t

  -- A row that was finished stays as it is, whatever it is fed.
  finished-IsLane :
      (m n p : ℕ) (h h' : List ℕ) (r : BatchRow) (prompt : List ℕ)
      → IsLane m p h r prompt
      → r.finished ≡ true
      → IsLane n p h' r prompt
  finished-IsLane m n p h h' r prompt i fin = record {
    held = λ live. absurd (both live);
    ahead = λ live. absurd (both live);
    done = i.done;
    sure = λ live. absurd (both live);
  }
    where
      both : r.finished ≡ false → ⊥
      both live = ground arith

  abbrev grown : ℕ → BatchRow → BatchRow
  grown t r = record { output = r.output ++ t ∷ []; finished = is_some_of t eos }

  grown-IsLane :
      (n p t pad_id : ℕ) (h : List ℕ) (r : BatchRow) (prompt : List ℕ)
      → IsLane (suc n) p h r prompt
      → r.finished ≡ false
      → (p < length h → IsSure (drop p h) → t ≡ next (drop p h))
      → IsLane n p (h ++ fed pad_id t (grown t r) ∷ []) (grown t r) prompt
  unfolding greedy until_eos IsSureFrom
  grown-IsLane n p t pad_id h r prompt i live choice = record {
    held = λ going. (
      rw going (
          drop_short p h (t ∷ []) there.1
          ∙ ap (λ xs. xs ++ t ∷ []) there.0
          ∙ append_assoc prompt r.output (t ∷ [])),
      omega (arith, there.1, length-append h (fed pad_id t (grown t r) ∷ [])),
    );
    ahead = λ going.
        append_assoc r.output (t ∷ []) _
        ∙ ap (λ xs. r.output ++ t ∷ until_eos eos (greedy next n xs))
            (sym (append_assoc prompt r.output (t ∷ [])))
        ∙ (rw (sym best, going) at i.ahead live);
    done = λ stop. rw (sym best, stop) at i.ahead live;
    sure = λ going.
        subst (IsSureFrom next IsSure eos n)
          (append_assoc prompt r.output (next (prompt ++ r.output) ∷ [])
            ∙ ap (λ (x : ℕ). prompt ++ (r.output ++ x ∷ [])) (sym best))
          ((i.sure live).1 (ap (λ (x : ℕ). is_some_of x eos) (sym best) ∙ going));
  }
    where
      there : (drop p h ≡ prompt ++ r.output) × (p < length h)
      there = i.held live

      best : t ≡ next (prompt ++ r.output)
      best = choice there.1 (subst IsSure (sym there.0) (i.sure live).0) ∙ ap next there.0

  pub step-IsLane :
      (n p t pad_id : ℕ) (h : List ℕ) (r : BatchRow) (prompt : List ℕ)
      → IsLane (suc n) p h r prompt
      → (p < length h → IsSure (drop p h) → t ≡ next (drop p h))
      → IsLane n p (h ++ fed pad_id t (advance_row eos t r) ∷ []) (advance_row eos t r) prompt
  step-IsLane n p t pad_id h r prompt i choice = elim (Bool-cases r.finished) [
    | inl fin ↦
        subst (λ (s : BatchRow). IsLane n p (h ++ fed pad_id t s ∷ []) s prompt) (stays fin)
          (finished-IsLane (suc n) n p h _ r prompt i fin)
    | inr live ↦
        subst (λ (s : BatchRow). IsLane n p (h ++ fed pad_id t s ∷ []) s prompt) (grows live)
          (grown-IsLane n p t pad_id h r prompt i live choice)
  ]
    where
      stays : r.finished ≡ true → r ≡ advance_row eos t r
      stays fin = ap (λ b. if b then r else grown t r) (sym fin)

      grows : r.finished ≡ false → grown t r ≡ advance_row eos t r
      grows live = ap (λ b. if b then r else grown t r) (sym live)
