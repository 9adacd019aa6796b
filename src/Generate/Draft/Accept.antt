-- ===== src/Generate/Draft/Accept.antt =====
-- The accept test of `speculative_generate`.
use nunspark.Base.{
  ℕ, suc, ◌+◌, ◌≤◌, ◌≡◌, refl, sym, ap, ◌∙◌, List, [], ◌∷◌, ◌++◌, some, true, map, length, take,
  get_elem?, if◌then◌else◌, ◌==◌, arith, append_assoc, append-nil, Bool-cases, inl, inr,
}
use nunspark.Generate.Engine.{Engine, nexts}
use nunspark.Generate.Emit.{Follows}
use nunspark.Generate.Draft.{is_plausible, accept_loop}

-- What a verify pass after `context` tells of a draft `q`. The bonus is always the greedy choice
-- after what was accepted; the accepted tokens are greedy choices if `accept_top_k` is at most 1.
pub record Accepted (e : Engine) (next : List ℕ → ℕ) (accept_top_k : ℕ) (context q : List ℕ)
    (rows : List e.Row) : Type 0 where
  pub count : ℕ
  pub off : ℕ
  pub accepts : accept_loop e accept_top_k q rows ≡ some (count, off)
  pub within : count ≤ length q
  pub off_le : off ≤ count
  pub bonus : get_elem? (map e.argmax rows) count ≡ some (next (context ++ take count q))
  pub follows : accept_top_k ≤ 1 → Follows next context (take count q)
  pub no_off : accept_top_k ≤ 1 → off ≡ 0

plausible-argmax :
    (e : Engine) (accept_top_k x : ℕ) (row : e.Row)
    → accept_top_k ≤ 1
    → is_plausible e accept_top_k x row ≡ true
    → x ≡ e.argmax row
unfolding is_plausible
plausible-argmax e accept_top_k x row h ok = ground arith

module _ (e : Engine) (next : List ℕ → ℕ) (accept_top_k : ℕ) where
  nothing-Accepted :
      (context q : List ℕ) (rows : List e.Row)
      → accept_loop e accept_top_k q rows ≡ some (0, 0)
      → get_elem? (map e.argmax rows) 0 ≡ some (next context)
      → Accepted e next accept_top_k context q rows
  nothing-Accepted context q rows a b = record {
    count = 0;
    off = 0;
    accepts = a;
    within = omega arith;
    off_le = omega arith;
    bonus = b ∙ ap (λ xs. some (next xs)) (sym (append-nil context));
    follows = λ _. tt;
    no_off = λ _. refl;
  }

  more-Accepted :
      (context : List ℕ) (x : ℕ) (q : List ℕ) (row : e.Row) (rows : List e.Row)
      → is_plausible e accept_top_k x row ≡ true
      → e.argmax row ≡ next context
      → Accepted e next accept_top_k (context ++ x ∷ []) q rows
      → Accepted e next accept_top_k context (x ∷ q) (row ∷ rows)
  unfolding accept_loop
  more-Accepted context x q row rows ok best r = record {
    count = suc r.count;
    off = (if x == e.argmax row then 0 else 1) + r.off;
    accepts = rw (ok, r.accepts);
    within = omega (arith, r.within);
    off_le = ground (arith, r.off_le);
    bonus = r.bonus ∙ ap (λ xs. some (next xs)) (append_assoc context (x ∷ []) (take r.count q));
    follows = λ h. (greedy_choice h ∙ best, r.follows h);
    no_off = λ h. ground (arith, greedy_choice h, r.no_off h);
  }
    where
      greedy_choice : accept_top_k ≤ 1 → x ≡ e.argmax row
      greedy_choice h = plausible-argmax e accept_top_k x row h ok

  pub accept_loop-Accepted :
      (context q : List ℕ) (rows : List e.Row)
      → map e.argmax rows ≡ next context ∷ nexts next context q
      → Accepted e next accept_top_k context q rows
  unfolding accept_loop
  accept_loop-Accepted context q [] h = absurd (nil_cons h)
    where
      nil_cons : {a : ℕ} {rest : List ℕ} → ([] ≡ a ∷ rest) → ⊥
      nil_cons e = cc
  accept_loop-Accepted context [] (row ∷ rows) h =
      nothing-Accepted context [] (row ∷ rows) refl (ground (arith, h))
  accept_loop-Accepted context (x ∷ q) (row ∷ rows) h =
      elim (Bool-cases (is_plausible e accept_top_k x row)) [
        | inl ok ↦
            more-Accepted context x q row rows ok (ground (arith, h))
              (accept_loop-Accepted (context ++ x ∷ []) q rows (ground (arith, h)))
        | inr stop ↦ nothing-Accepted context (x ∷ q) (row ∷ rows) (rw stop) (ground (arith, h))
      ]
