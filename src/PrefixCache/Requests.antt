-- ===== src/PrefixCache/Requests.antt =====
-- What a request finds in the slot of src/nunspark/prefix_cache.py, and what it leaves there.
use nunspark.Base.{
  ℕ, ◌+◌, ◌-◌, ◌≤◌, ◌≡◌, ◌⊎◌, refl, sym, ap, ◌∙◌, inl, inr, false, List, [], ◌++◌, Option, none,
  some, take, drop, length, min, leb, ltb, ltb-false→le, leb-false→lt, if◌then◌else◌, arith,
  Bool-cases, take-take, take-append-drop, take_all, length-drop,
}
use mathlib.Core.Option.{some-injective}
use nunspark.PrefixCache.Slot.{
  CacheKind, Store, Slot, is_rotated, common_prefix_len, open_slot, clear, reset, reuse, begin_from,
  begin_with, begin,
}
use nunspark.PrefixCache.Common.{common_prefix_len-take, common_prefix_len-left}

back : (a b : ℕ) → a ≤ b → b - (b - a) ≡ a
back a b h = omega arith

take-common : (a b : List ℕ) (n : ℕ) → n ≤ common_prefix_len a b → take n a ≡ take n b
take-common a b n h =
    sym (take-take n (common_prefix_len a b) a h)
    ∙ ap (take n) (common_prefix_len-take a b)
    ∙ take-take n (common_prefix_len a b) b h

module _ {Kv : Type 0} (store : Store Kv) (kinds : Option (List CacheKind)) where
  -- What the class relies on: the tokens whose rows a store holds, those of a new one, how many there
  -- are at a layer that keeps every row, and a truncation while no window has rotated.
  pub record Laws (held : Kv → List ℕ) : Type 0 where
    pub held-fresh : held store.fresh ≡ []
    pub offset-held :
        (layer : ℕ) (kv : Kv)
        → (open_slot store kinds).probe_layer ≡ some layer
        → store.offset layer kv ≡ length (held kv)
    pub held-truncate :
        (n : ℕ) (kv : Kv)
        → is_rotated kinds (length (held kv)) ≡ false
        → held (store.truncate n kv) ≡ take (length (held kv) - n) (held kv)

  -- The slot is one of this model, and its tokens are those that its store holds, or there are none.
  pub record IsTrue (held : Kv → List ℕ) (s : Slot Kv) : Type 0 where
    pub same_kinds : s.cache_kinds ≡ kinds
    pub same_probe : s.probe_layer ≡ (open_slot store kinds).probe_layer
    pub unprobed : s.probe_layer ≡ none → s.tokens ≡ []
    pub held_tokens : (s.tokens ≡ []) ⊎ ((kv : Kv) × (s.kv ≡ some kv) × (held kv ≡ s.tokens))

  -- What `begin` promises: a store whose rows are a proper prefix of the prompt, and the rest of it.
  pub record IsResumable (held : Kv → List ℕ) (prompt : List ℕ) (r : Slot Kv × List ℕ)
      : Type 0 where
    pub slot : Kv
    pub borrowed : r.0.kv ≡ some slot
    pub whole_prompt : held slot ++ r.1 ≡ prompt
    pub suffix : 1 ≤ length r.1

  module _ (held : Kv → List ℕ) (laws : Laws held) where
    reset-IsTrue : (s : Slot Kv) → IsTrue held s → IsTrue held (reset store s)
    unfolding reset clear
    reset-IsTrue s t = record {
      same_kinds = t.same_kinds;
      same_probe = t.same_probe;
      unprobed = λ e. refl;
      held_tokens = inl refl;
    }

    reset-IsResumable :
        (s : Slot Kv) (prompt : List ℕ)
        → 1 ≤ length prompt
        → IsResumable held prompt (reset store s, prompt)
    unfolding reset
    reset-IsResumable s prompt h = record {
      slot = store.fresh;
      borrowed = refl;
      whole_prompt = ap (λ l. l ++ prompt) laws.held-fresh;
      suffix = h;
    }

    reuse-held :
        (s : Slot Kv) (kv : Kv) (common : ℕ)
        → s.cache_kinds ≡ kinds
        → held kv ≡ s.tokens
        → common ≤ length s.tokens
        → is_rotated s.cache_kinds (length s.tokens) ≡ false
        → held (
            if ltb 0 (length s.tokens - common)
            then store.truncate (length s.tokens - common) kv
            else kv)
          ≡ take common s.tokens
    reuse-held s kv common same h le fixed = elim (Bool-cases (ltb 0 (length s.tokens - common))) [
      | inl drops ↦ rw drops (
          laws.held-truncate (length s.tokens - common) kv (
            ap (λ l. is_rotated kinds (length l)) h
            ∙ sym (ap (λ k. is_rotated k (length s.tokens)) same)
            ∙ fixed)
          ∙ ap (λ l. take (length l - (length s.tokens - common)) l) h
          ∙ ap (λ n. take n s.tokens) (back common (length s.tokens) le))
      | inr keeps ↦ rw keeps (
          h
          ∙ sym (
              take_all s.tokens common
                (omega (arith, ltb-false→le 0 (length s.tokens - common) keeps))))
    ]

    -- The suffix that `begin` feeds again, and the store that it leaves.
    Begun : List ℕ → Slot Kv × List ℕ → Type 0
    Begun prompt r = IsTrue held r.0 × IsResumable held prompt r

    reset-Begun :
        (s : Slot Kv) (prompt : List ℕ)
        → 1 ≤ length prompt
        → IsTrue held s
        → Begun prompt (reset store s, prompt)
    unfolding Begun
    reset-Begun s prompt h t = (reset-IsTrue s t, reset-IsResumable s prompt h)

    reuse-Begun :
        (s : Slot Kv) (kv : Kv) (prompt : List ℕ) (common : ℕ)
        → 1 ≤ common
        → common ≤ common_prefix_len s.tokens prompt
        → common + 1 ≤ length prompt
        → is_rotated s.cache_kinds (length s.tokens) ≡ false
        → held kv ≡ s.tokens
        → IsTrue held s
        → Begun prompt (reuse store s kv common, drop common prompt)
    unfolding Begun reuse
    reuse-Begun s kv prompt common pos low high fixed h t =
        let e =
          reuse-held s kv common t.same_kinds h
            (omega (arith, low, common_prefix_len-left s.tokens prompt)) fixed in
        (
          record {
            same_kinds = t.same_kinds;
            same_probe = t.same_probe;
            unprobed = λ n. ap (take common) (t.unprobed n) ∙ take_all [] common (omega arith);
            held_tokens = inr (_, refl, e);
          },
          record {
            slot = _;
            borrowed = refl;
            whole_prompt =
                ap (λ l. l ++ drop common prompt) (e ∙ take-common s.tokens prompt common low)
                ∙ take-append-drop common prompt;
            suffix = omega (arith, length-drop common prompt);
          },
        )

    begin_from-Begun :
        (s : Slot Kv) (kv : Kv) (prompt : List ℕ)
        → s.kv ≡ some kv
        → 1 ≤ length prompt
        → IsTrue held s
        → Begun prompt (begin_from store s kv prompt)
    unfolding begin_from
    begin_from-Begun s kv prompt there h t =
        let common = min (common_prefix_len s.tokens prompt) (length prompt - 1) in
        elim (Bool-cases (leb common 0)) [
          | inl cold ↦ rw cold (reset-Begun s prompt h t)
          | inr warm ↦ elim (Bool-cases (is_rotated s.cache_kinds (length s.tokens))) [
            | inl off ↦ rw (warm, off) (reset-Begun s prompt h t)
            | inr fixed ↦
                let pos : 1 ≤ common = omega (arith, leb-false→lt common 0 warm) in
                let known : held kv ≡ s.tokens = elim t.held_tokens [
                  | inl e ↦
                      absurd
                        (omega (arith, pos, common_prefix_len-left s.tokens prompt, ap length e))
                  | inr (k, same, e) ↦ ap held (some-injective kv k (sym there ∙ same)) ∙ e
                ] in
                rw (warm, fixed)
                  (reuse-Begun s kv prompt common pos (omega arith) (omega arith) fixed known t)
          ]
        ]

    begin_with-Begun :
        (slot : Option Kv) (layer : Option ℕ) (s : Slot Kv) (prompt : List ℕ)
        → s.kv ≡ slot
        → 1 ≤ length prompt
        → IsTrue held s
        → Begun prompt (begin_with store slot layer s prompt)
    unfolding begin_with
    begin_with-Begun none layer s prompt e h t = reset-Begun s prompt h t
    begin_with-Begun (some kv) none s prompt e h t = reset-Begun s prompt h t
    begin_with-Begun (some kv) (some layer) s prompt e h t = begin_from-Begun s kv prompt e h t

    -- A request on a true slot gets a store that holds a proper prefix of its prompt, and the rest of
    -- the prompt, which is not empty; and the slot stays true.
    pub begin-Begun :
        (s : Slot Kv) (prompt : List ℕ)
        → 1 ≤ length prompt
        → IsTrue held s
        → IsTrue held (begin store s prompt).0 × IsResumable held prompt (begin store s prompt)
    unfolding begin Begun
    begin-Begun s prompt h t = begin_with-Begun s.kv s.probe_layer s prompt refl h t
