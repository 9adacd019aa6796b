-- ===== src/Drafter/Lookup.antt =====
-- What the prompt lookup of `propose` finds: the most recent earlier occurrence of the longest
-- suffix that has one.
use nunspark.Base.{
  ℕ, zero, suc, ◌+◌, ◌-◌, ◌≤◌, ◌<◌, min, ◌≡◌, refl, ◌∙◌, ap, ◌⊎◌, inl, inr, Bool, true, List, [],
  ◌∷◌, arith, Bool-cases, length, take, drop, length-take, length-drop, list_eq, list_eq→eq,
  list_eq_self,
}
use nunspark.Drafter.{NGramDrafter, or_else, scan_starts, scan_ngrams, lookup_draft}

-- The n-gram at `start` is the suffix of length `n`, and a token follows it.
pub record OccursAt (context : List ℕ) (n start : ℕ) : Type 0 where
  pub before : start + n < length context
  pub same : take n (drop start context) ≡ drop (length context - n) context

or_else-eq : (xs ys : List ℕ) → 0 < length xs → or_else xs ys ≡ xs
unfolding or_else
or_else-eq [] ys h = absurd (omega arith)
or_else-eq (x ∷ xs) ys h = refl

-- The outcome of the search for one n: found at the last start below `count`, or nowhere there.
pub data Scanned (context : List ℕ) (n k count : ℕ) (q : List ℕ) : Type 0 where
  hit :
      (start : ℕ)
      → start < count
      → OccursAt context n start
      → ((s : ℕ) → start < s → s < count → ¬ OccursAt context n s)
      → q ≡ take k (drop (start + n) context)
      → Scanned context n k count q
  miss : ((s : ℕ) → s < count → ¬ OccursAt context n s) → q ≡ [] → Scanned context n k count q

follow_pos :
    (context : List ℕ) (k i : ℕ) → i < length context → 0 < k → 0 < length (take k (drop i context))
follow_pos context k i h p = omega (arith, length-take k (drop i context), length-drop i context)

lt_suc_cases : (t start : ℕ) → t < suc start → (t < start) ⊎ (t ≡ start)
lt_suc_cases t start h = grind arith

Scanned-skip :
    {context : List ℕ} {n k start : ℕ} {q : List ℕ}
    → ¬ OccursAt context n start
    → Scanned context n k start q
    → Scanned context n k (suc start) q
Scanned-skip {context} {n} {k} {start} no_match (hit s h o last e) =
    hit s (omega arith) o
      (λ t p q oc. elim (lt_suc_cases t start q) [
        | inl below ↦ last t p below oc
        | inr same ↦ no_match (rw same at oc)
      ])
      e
Scanned-skip {context} {n} {k} {start} no_match (miss nowhere e) =
    miss
      (λ t q oc. elim (lt_suc_cases t start q) [
        | inl below ↦ nowhere t below oc
        | inr same ↦ no_match (rw same at oc)
      ])
      e

pub scan_starts-Scanned :
    (context : List ℕ) (n k count : ℕ)
    → 0 < k
    → count + n ≤ length context
    → Scanned context n k count (scan_starts context (drop (length context - n) context) n k count)
unfolding scan_starts
scan_starts-Scanned context n k zero p h = miss (λ s q. absurd (omega arith)) refl
scan_starts-Scanned context n k (suc start) p h = elim (Bool-cases found) [
  | inl e ↦
      hit start (omega arith) (record { before = omega arith; same = list_eq→eq _ _ e })
        (λ s a b. absurd (omega arith))
        (rw e (or_else-eq _ _ (follow_pos context k (start + n) (omega arith) p)))
  | inr e ↦ rw e (
      Scanned-skip
        (λ o.
          let e' : list_eq (take n (drop start context)) (drop (length context - n) context)
              ≡ true =
            rw o.same (list_eq_self _) in
          cc)
        (scan_starts-Scanned context n k start p (omega arith)))
]
  where
    found : Bool
    found = list_eq (take n (drop start context)) (drop (length context - n) context)

-- The outcome of the search over all n up to `max_n`: the longest suffix that occurs earlier, at its
-- last earlier occurrence, or no such suffix.
pub data Found (context : List ℕ) (max_n k : ℕ) (q : List ℕ) : Type 0 where
  found :
      (n start : ℕ)
      → 1 ≤ n
      → n ≤ max_n
      → OccursAt context n start
      → ((s : ℕ) → start < s → ¬ OccursAt context n s)
      → ((m s : ℕ) → n < m → m ≤ max_n → ¬ OccursAt context m s)
      → q ≡ take k (drop (start + n) context)
      → Found context max_n k q
  nothing :
      ((m s : ℕ) → 1 ≤ m → m ≤ max_n → ¬ OccursAt context m s) → q ≡ [] → Found context max_n k q

in_range : {context : List ℕ} {n s : ℕ} → OccursAt context n s → s < length context - n
in_range o = omega arith

le_suc_cases : (t m : ℕ) → t ≤ suc m → (t ≤ m) ⊎ (t ≡ suc m)
le_suc_cases t m h = grind arith

Found-longer :
    {context : List ℕ} {m k : ℕ} {q : List ℕ}
    → ((s : ℕ) → ¬ OccursAt context (suc m) s)
    → Found context m k q
    → Found context (suc m) k q
Found-longer {context} {m} {k} absent (found n s one le o last longer e) =
    found n s one (omega arith) o last
      (λ j t a b oc. elim (le_suc_cases j m b) [
        | inl c ↦ longer j t a c oc
        | inr same ↦ absent t (rw same at oc)
      ])
      e
Found-longer {context} {m} {k} absent (nothing none_shorter e) =
    nothing
      (λ j t a b oc. elim (le_suc_cases j m b) [
        | inl c ↦ none_shorter j t a c oc
        | inr same ↦ absent t (rw same at oc)
      ])
      e

-- One round of the loop over n.
Found-step :
    (context : List ℕ) (m k : ℕ) (q rest : List ℕ)
    → suc m < length context
    → 0 < k
    → Scanned context (suc m) k (length context - suc m) q
    → Found context m k rest
    → Found context (suc m) k (or_else q rest)
unfolding or_else
Found-step context m k q rest h p (hit s lt o last e) r =
    found (suc m) s (omega arith) (omega arith) o (λ t a oc. last t a (in_range oc) oc)
      (λ j t a b. absurd (omega arith))
      (or_else-eq q rest (rw e (follow_pos context k (s + suc m) o.before p)) ∙ e)
Found-step context m k q rest h p (miss absent e) r =
    rw (e, or_else) (Found-longer (λ s oc. absent s (in_range oc) oc) r)

scan_ngrams-Found :
    (context : List ℕ) (k m : ℕ)
    → 0 < k
    → m ≤ length context - 1
    → Found context m k (scan_ngrams context k m)
unfolding scan_ngrams
scan_ngrams-Found context k zero p h = nothing (λ j s a b. absurd (omega arith)) refl
scan_ngrams-Found context k (suc m) p h =
    Found-step context m k _ _ (omega arith) p
      (scan_starts-Scanned context (suc m) k (length context - suc m) p (omega arith))
      (scan_ngrams-Found context k m p (omega arith))

-- The lookup with a positive K returns up to K tokens after the last earlier occurrence of the
-- longest suffix n-gram that has one (n at most `max_ngram`, and at least one token follows), and
-- returns nothing only if no suffix n-gram occurs earlier.
pub lookup_draft-Found :
    (d : NGramDrafter) (context : List ℕ) (k : ℕ)
    → 0 < k
    → Found context (min d.max_ngram (length context - 1)) k (lookup_draft d context k)
unfolding lookup_draft
lookup_draft-Found d context k p = scan_ngrams-Found context k _ p (omega arith)

-- A draft is never longer than K.
pub Found-length : {context : List ℕ} {m k : ℕ} {q : List ℕ} → Found context m k q → length q ≤ k
Found-length {context} {m} {k} (found n s _ _ o _ _ e) =
    omega (arith, length-take k (drop (s + n) context), ap length e)
Found-length (nothing _ e) = omega (arith, ap length e)
