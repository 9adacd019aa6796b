-- ===== src/PrefixCache/Commits.antt =====
-- What a finished request leaves in the slot of src/nunspark/prefix_cache.py, and the requests of the
-- server (src/nunspark/server.py), one after the other.
use nunspark.Base.{
  ℕ, ◌-◌, ◌≤◌, ◌<◌, ◌≡◌, refl, sym, ap, subst, ◌∙◌, inl, inr, List, [], ◌∷◌, ◌++◌, Option, none,
  some, take, length, ltb, ltb→lt, ltb-false→le, arith, Bool-cases, take_all,
}
use mathlib.Core.Option.{some-injective}
use nunspark.PrefixCache.Slot.{
  CacheKind, Store, Slot, is_rotated, open_slot, clear, begin, commit_at, commit_with, commit,
}
use nunspark.PrefixCache.Requests.{Laws, IsTrue, IsResumable, begin-Begun}

module _ {Kv : Type 0} (store : Store Kv) where
  -- What `generate` leaves and yields with a borrowed store and a suffix, committed.
  unfoldable pub finish :
      (Kv → List ℕ → Kv × List ℕ) → List ℕ → Option Kv → Slot Kv × List ℕ → Slot Kv
  finish generate prompt none (s, suffix) = s
  finish generate prompt (some kv) (s, suffix) =
      let (after, out) = generate kv suffix in
      commit store (record s { kv = some after }) (prompt ++ out)

  -- A request: `begin`, the generation, and the `commit` of its `finally`.
  unfoldable pub request : (Kv → List ℕ → Kv × List ℕ) → Slot Kv → List ℕ → Slot Kv
  request generate s prompt = let r = begin store s prompt in finish generate prompt r.0.kv r

  unfoldable pub requests : (Kv → List ℕ → Kv × List ℕ) → Slot Kv → List (List ℕ) → Slot Kv
  requests generate s [] = s
  requests generate s (prompt ∷ prompts) = requests generate (request generate s prompt) prompts

abbrev pub AllPrompts : List (List ℕ) → Type 0
AllPrompts [] = Unit {0}
AllPrompts (p ∷ ps) = (1 ≤ length p) × AllPrompts ps

-- Of two token lists one is a prefix of the other.
abbrev pub Agree : List ℕ → List ℕ → Type 0
Agree a b = take (length b) a ≡ take (length a) b

trim_length : (n actual rows : ℕ) → actual ≡ rows → n < actual → rows - (actual - n) ≡ n
trim_length n actual rows e h = omega arith

module _ {Kv : Type 0} (store : Store Kv) (kinds : Option (List CacheKind)) (held : Kv → List ℕ)
    (laws : Laws store kinds held) where
  abbrev True : Slot Kv → Type 0
  True s = IsTrue store kinds held s

  commit_at-True :
      (s : Slot Kv) (kv : Kv) (layer : ℕ) (tokens : List ℕ)
      → s.cache_kinds ≡ kinds
      → s.probe_layer ≡ (open_slot store kinds).probe_layer
      → s.probe_layer ≡ some layer
      → s.kv ≡ some kv
      → Agree (held kv) tokens
      → True (commit_at store s kv (store.offset layer kv) tokens)
  unfolding commit_at clear
  commit_at-True s kv layer tokens k p l there agree =
      let actual = store.offset layer kv in
      let offset = laws.offset-held layer kv (sym p ∙ l) in
      let probed : s.probe_layer ≡ none → ⊥ = λ e. ground arith in
      elim (Bool-cases (ltb (length tokens) actual)) [
        | inl longer ↦ elim (Bool-cases (is_rotated s.cache_kinds actual)) [
          | inl off ↦
              rw (longer, off)
                (record {
                  same_kinds = k;
                  same_probe = p;
                  unprobed = λ e. refl;
                  held_tokens = inl refl;
                })
          | inr fixed ↦
              rw (longer, fixed)
                (record {
                  same_kinds = k;
                  same_probe = p;
                  unprobed = λ e. absurd (probed e);
                  held_tokens = inr (
                    _,
                    refl,
                    laws.held-truncate (actual - length tokens) kv (
                          sym (ap (is_rotated kinds) offset)
                          ∙ sym (ap (λ c. is_rotated c actual) k)
                          ∙ fixed)
                        ∙ ap (λ n. take n (held kv))
                            (trim_length (length tokens) actual (length (held kv)) offset
                              (ltb→lt (length tokens) actual longer))
                        ∙ agree
                        ∙ take_all tokens (length (held kv))
                            (omega (arith, offset, ltb→lt (length tokens) actual longer)),
                  );
                })
        ]
        | inr shorter ↦ rw shorter (record {
          same_kinds = k;
          same_probe = p;
          unprobed = λ e. absurd (probed e);
          held_tokens = inr (
            kv,
            there,
            sym (
                  take_all (held kv) (length tokens)
                    (omega (arith, offset, ltb-false→le (length tokens) actual shorter)))
                ∙ agree
                ∙ ap (λ n. take n tokens) (sym offset),
          );
        })
      ]

  commit_with-True :
      (kv : Kv) (layer : Option ℕ) (s : Slot Kv) (tokens : List ℕ)
      → s.cache_kinds ≡ kinds
      → s.probe_layer ≡ (open_slot store kinds).probe_layer
      → (s.probe_layer ≡ none → s.tokens ≡ [])
      → s.probe_layer ≡ layer
      → s.kv ≡ some kv
      → Agree (held kv) tokens
      → True (commit_with store (some kv) layer s tokens)
  unfolding commit_with
  commit_with-True kv none s tokens k p u l there agree = record {
    same_kinds = k;
    same_probe = p;
    unprobed = u;
    held_tokens = inl (u l);
  }
  commit_with-True kv (some layer) s tokens k p u l there agree =
      commit_at-True s kv layer tokens k p l there agree

  module _ (generate : Kv → List ℕ → Kv × List ℕ)
      (fed : (kv : Kv) (suffix : List ℕ)
        → Agree (held (generate kv suffix).0) ((held kv ++ suffix) ++ (generate kv suffix).1)) where
    finish-True :
        (prompt : List ℕ) (slot : Option Kv) (r : Slot Kv × List ℕ)
        → r.0.kv ≡ slot
        → True r.0
        → IsResumable store kinds held prompt r
        → True (finish store generate prompt slot r)
    unfolding finish commit
    finish-True prompt none (s, suffix) e t b = t
    finish-True prompt (some kv) (s, suffix) e t b =
        let after : Slot Kv = record s { kv = some (generate kv suffix).0 } in
        let whole : held kv ++ suffix ≡ prompt =
          ap (λ k. held k ++ suffix) (some-injective kv b.slot (sym e ∙ b.borrowed))
          ∙ b.whole_prompt in
        commit_with-True (generate kv suffix).0 s.probe_layer after
          (prompt ++ (generate kv suffix).1) t.same_kinds t.same_probe t.unprobed refl refl
          (subst (λ l. Agree (held (generate kv suffix).0) (l ++ (generate kv suffix).1)) whole
            (fed kv suffix))

    request-True :
        (s : Slot Kv) (prompt : List ℕ)
        → 1 ≤ length prompt
        → True s
        → True (request store generate s prompt)
    unfolding request
    request-True s prompt h t =
        let (now, b) = begin-Begun store kinds held laws s prompt h t in
        finish-True prompt (begin store s prompt).0.kv (begin store s prompt) refl now b

    requests-True :
        (s : Slot Kv) (prompts : List (List ℕ))
        → AllPrompts prompts
        → True s
        → True (requests store generate s prompts)
    unfolding requests
    requests-True s [] a t = t
    requests-True s (prompt ∷ prompts) (h, a) t =
        requests-True (request store generate s prompt) prompts a (request-True s prompt h t)

    open_slot-True : True (open_slot store kinds)
    unfolding open_slot
    open_slot-True = record {
      same_kinds = refl;
      same_probe = refl;
      unprobed = λ e. refl;
      held_tokens = inl refl;
    }

    -- On a store that keeps the laws, however many requests with a prompt a new slot has served, when
    -- each leaves a store that agrees with what it was fed and yielded: the next request borrows a store that holds a proper prefix of its prompt
    -- and has exactly the rest of the prompt, which is not empty, to prefill.
    pub requests-IsResumable :
        (prompts : List (List ℕ)) (prompt : List ℕ)
        → AllPrompts prompts
        → 1 ≤ length prompt
        → IsResumable store kinds held prompt
            (begin store (requests store generate (open_slot store kinds) prompts) prompt)
    requests-IsResumable prompts prompt a h =
        (begin-Begun store kinds held laws (requests store generate (open_slot store kinds) prompts)
          prompt h (requests-True (open_slot store kinds) prompts a open_slot-True)).1
