-- ===== src/Generate/Batch/Prefills.antt =====
-- The prefill of `batched_generate`, and the whole path.
use nunspark.Base.{
  ℕ, zero, suc, ◌-◌, ◌≤◌, ◌≡◌, refl, sym, ap, subst, ◌∙◌, List, [], ◌∷◌, ◌++◌, Option, some, false,
  length, take, drop, map, arith, append-nil, append_assoc, Bool-cases, inl, inr, ◌==◌, length-drop,
  take-append-drop,
}
use nunspark.Generate.Batch.{BatchEngine, prefill_columns, prefill_batched}
use nunspark.Generate.Batch.Lanes.{BatchContract, Chosen, beside}
use nunspark.Generate.Batch.Decodes.{Masks, IsSure, forward-Chosen}

-- Every row has so many tokens.
abbrev pub AllWide : ℕ → List (List ℕ) → Type 0
AllWide n [] = Unit {0}
AllWide n (r ∷ rs) = (length r ≡ n) × AllWide n rs

pub length-map {ℓ κ} :
    {A : Type ℓ} {B : Type κ} (f : A → B) (xs : List A) → length (map f xs) ≡ length xs
length-map f [] = refl
length-map f (x ∷ xs) = ap suc (length-map f xs)

length-beside : (hs ws : List (List ℕ)) → length hs ≡ length ws → length (beside hs ws) ≡ length ws
length-beside [] ws len = refl
length-beside (h ∷ hs) [] len = absurd (omega arith)
length-beside (h ∷ hs) (w ∷ ws) len = ap suc (length-beside hs ws (omega arith))

beside-halves :
    (c : ℕ) (rows : List (List ℕ)) → beside (map (take c) rows) (map (drop c) rows) ≡ rows
beside-halves c [] = refl
beside-halves c (r ∷ rows) =
    let rest = beside-halves c rows in rw rest (ap (λ xs. xs ∷ rows) (take-append-drop c r))

beside-columns :
    (c : ℕ) (hs rows : List (List ℕ))
    → beside (beside hs (map (take c) rows)) (map (drop c) rows) ≡ beside hs rows
beside-columns c [] rows = beside-halves c rows
beside-columns c (h ∷ hs) [] = refl
beside-columns c (h ∷ hs) (r ∷ rows) =
    let rest = beside-columns c hs rows in
    rw rest (
      ap (λ xs. xs ∷ beside hs rows)
        (append_assoc h (take c r) (drop c r) ∙ ap (λ xs. h ++ xs) (take-append-drop c r)))

beside-narrow :
    (hs rows : List (List ℕ)) → length hs ≡ length rows → AllWide 0 rows → beside hs rows ≡ hs
beside-narrow [] [] len wide = refl
beside-narrow [] (r ∷ rows) len wide = absurd (omega arith)
beside-narrow (h ∷ hs) [] len wide = refl
beside-narrow (h ∷ hs) ([] ∷ rows) len wide =
    let rest = beside-narrow hs rows (omega arith) wide.1 in
    rw rest (ap (λ x. x ∷ hs) (append-nil h))
beside-narrow (h ∷ hs) ((x ∷ r) ∷ rows) len wide = absurd (omega (arith, wide.0))

drop-AllWide :
    (c n : ℕ) (rows : List (List ℕ)) → AllWide n rows → AllWide (n - c) (map (drop c) rows)
drop-AllWide c n [] wide = tt
drop-AllWide c n (r ∷ rows) wide =
    (length-drop c r ∙ ap (λ (k : ℕ). k - c) wide.0, drop-AllWide c n rows wide.1)

module _ {e : BatchEngine} {argmax : e.Row → ℕ} (c : BatchContract e argmax) where
  open c use {holds, next}

  -- What a prefill leaves: rows that hold the columns, and the choices after them.
  abbrev pub Filled : Option (List ℕ) → List ℕ → List (List ℕ) → Option (List e.Row) × e.Kv → Type 0
  Filled pads ps held (logits, kv) =
      (rows : List e.Row) × (logits ≡ some rows)
      × (holds kv ≡ held)
      × Chosen next (IsSure c pads) ps (holds kv) (map argmax rows)

  prefill_columns-Filled :
      (fuel chunk width : ℕ) (rows : List (List ℕ)) (pads : Option (List ℕ)) (ps : List ℕ)
      (kv : e.Kv) (first : List e.Row)
      → 1 ≤ chunk
      → width ≤ fuel
      → AllWide width rows
      → Masks pads ps
      → length (holds kv) ≡ length rows
      → length ps ≡ length rows
      → Chosen next (IsSure c pads) ps (holds kv) (map argmax first)
      → Filled pads ps
          (beside (holds kv) rows)
          (prefill_columns e fuel chunk width rows pads kv (some first))
  unfolding prefill_columns
  prefill_columns-Filled zero chunk width rows pads ps kv first pos le wide masks len plen chosen =
      let none_left : width ≡ 0 = omega arith in
      (
        first,
        refl,
        sym (beside-narrow (holds kv) rows len (subst (λ n. AllWide n rows) none_left wide)),
        chosen,
      )
  prefill_columns-Filled (suc fuel) chunk width rows pads ps kv first pos le wide masks len plen
        chosen =
      elim (Bool-cases (width == 0)) [
        | inl narrow ↦
            let none_left : width ≡ 0 = ground arith in
            rw narrow (
              first,
              refl,
              sym (beside-narrow (holds kv) rows len (subst (λ n. AllWide n rows) none_left wide)),
              chosen,
            )
        | inr wider ↦
            let ws = map (take chunk) rows in
            let swept = e.forward ws pads kv in
            let held : holds swept.1 ≡ beside (holds kv) ws = c.forward_holds ws pads kv in
            let many : length (beside (holds kv) ws) ≡ length rows =
              length-beside (holds kv) ws (len ∙ sym (length-map (take chunk) rows))
              ∙ length-map (take chunk) rows in
            let wide_left : 1 ≤ width = ground arith in
            let (last_rows, found, whole, last_chosen) =
              prefill_columns-Filled fuel chunk (width - chunk) (map (drop chunk) rows) pads ps
                swept.1 swept.0 pos (omega arith) (drop-AllWide chunk width rows wide) masks
                (ap length held ∙ many ∙ sym (length-map (drop chunk) rows))
                (plen ∙ sym (length-map (drop chunk) rows))
                (forward-Chosen c ws pads ps kv masks (plen ∙ sym many)) in
            rw wider (
              last_rows,
              found,
              whole
                  ∙ ap (λ hs. beside hs (map (drop chunk) rows)) held
                  ∙ beside-columns chunk (holds kv) rows,
              last_chosen,
            )
      ]

  -- On a store without rows, a prefill of at least one column.
  pub prefill_batched-Filled :
      (chunk width : ℕ) (rows : List (List ℕ)) (pads : Option (List ℕ)) (ps : List ℕ) (kv : e.Kv)
      → 1 ≤ chunk
      → 1 ≤ width
      → AllWide width rows
      → Masks pads ps
      → holds kv ≡ []
      → length ps ≡ length rows
      → (r : Option (List e.Row) × e.Kv) × (prefill_batched e width rows kv pads chunk ≡ some r)
        × Filled pads ps rows r
  unfolding prefill_batched prefill_columns
  prefill_batched-Filled chunk zero rows pads ps kv pos some_left wide masks empty plen =
      absurd (omega arith)
  prefill_batched-Filled chunk (suc w) rows pads ps kv pos some_left wide masks empty plen =
      let ws = map (take chunk) rows in
      let swept = e.forward ws pads kv in
      let held : holds swept.1 ≡ ws = c.forward_holds ws pads kv ∙ ap (λ hs. beside hs ws) empty in
      let many : length (beside (holds kv) ws) ≡ length rows =
        ap (λ hs. length (beside hs ws)) empty ∙ length-map (take chunk) rows in
      let positive : (chunk == 0) ≡ false = ground arith in
      let wider : (suc w == 0) ≡ false = ground arith in
      let (last_rows, found, whole, chosen) =
        prefill_columns-Filled w chunk (suc w - chunk) (map (drop chunk) rows) pads ps swept.1
          swept.0 pos (omega arith) (drop-AllWide chunk (suc w) rows wide) masks
          (ap length held ∙ length-map (take chunk) rows ∙ sym (length-map (drop chunk) rows))
          (plen ∙ sym (length-map (drop chunk) rows))
          (forward-Chosen c ws pads ps kv masks (plen ∙ sym many)) in
      (
        prefill_columns e w chunk (suc w - chunk) (map (drop chunk) rows) pads swept.1
            (some swept.0),
        rw (positive, wider) refl,
        (
          last_rows,
          found,
          whole ∙ ap (λ hs. beside hs (map (drop chunk) rows)) held ∙ beside-halves chunk rows,
          chosen,
        ),
      )
