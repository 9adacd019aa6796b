-- ===== src/Server/Overlap.antt =====
-- Stop sequences of src/nunspark/server.py as suffixes of the tokens, and what an overlap tells.
use nunspark.Base.{
  ℕ, zero, suc, ◌-◌, ◌≤◌, ◌≡◌, refl, sym, ap, ◌∙◌, List, [], ◌∷◌, ◌++◌, some, true, false, ◌&&◌,
  length, take, drop, get_elem?, leb, list_eq, list_eq→eq, list_eq_self, arith, Bool-cases, inl,
  inr, ◌⊎◌, take-append-drop, length-append, leb→le,
}
use nunspark.Server.{
  Tokenizer, Stop, no_stop, one_stop, many_stops, stop_id_sequences, encode_each, cons_unless_empty,
  Text, last_slice, match_stop, overlap_upto, sequence_overlap, any_overlap,
}

drop_self : (pre xs : List ℕ) → drop (length pre) (pre ++ xs) ≡ xs
drop_self [] xs = refl
drop_self (x ∷ pre) xs = drop_self pre xs

last_slice-append : (pre xs : List ℕ) → 1 ≤ length xs → last_slice (length xs) (pre ++ xs) ≡ xs
last_slice-append pre [] h = absurd (omega arith)
last_slice-append pre (x ∷ xs) h =
    let before : length (pre ++ x ∷ xs) - suc (length xs) ≡ length pre =
      omega (arith, length-append pre (x ∷ xs)) in
    ap (λ (n : ℕ). drop n (pre ++ x ∷ xs)) before ∙ drop_self pre (x ∷ xs)

take_self : (xs rest : List ℕ) → take (length xs) (xs ++ rest) ≡ xs
take_self [] rest = refl
take_self (x ∷ xs) rest = ap (◌∷◌ x) (take_self xs rest)

overlap_upto-hit :
    (tokens sequence : List ℕ) (i n : ℕ)
    → 1 ≤ i
    → i ≤ n
    → list_eq (last_slice i tokens) (take i sequence) ≡ true
    → overlap_upto tokens sequence n ≡ true
unfolding overlap_upto
overlap_upto-hit tokens sequence i zero pos le hit = absurd (omega arith)
overlap_upto-hit tokens sequence i (suc n) pos le hit = elim (Bool-cases (leb i n)) [
  | inl below ↦
      let before = overlap_upto-hit tokens sequence i n pos (leb→le i n below) hit in ground arith
  | inr last ↦
      let e : i ≡ suc n = ground arith in
      let here = ap (λ (k : ℕ). list_eq (last_slice k tokens) (take k sequence)) (sym e) ∙ hit in
      ground arith
]

-- A suffix of the tokens that is a prefix of the sequence is an overlap.
pub suffix_overlaps :
    (pre : List ℕ) (x : ℕ) (xs rest : List ℕ)
    → sequence_overlap (pre ++ x ∷ xs) (x ∷ xs ++ rest) ≡ true
unfolding sequence_overlap
suffix_overlaps pre x xs rest =
    overlap_upto-hit (pre ++ x ∷ xs) (x ∷ xs ++ rest) (length (x ∷ xs)) _ (omega arith)
      (omega (arith, length-append pre (x ∷ xs), length-append (x ∷ xs) rest))
      (rw (last_slice-append pre (x ∷ xs) (omega arith), take_self (x ∷ xs) rest)
        (list_eq_self (x ∷ xs)))

-- Two ways to split one list: the first part of the one ends in that of the other, or runs over it.
pub split :
    (pre seq p q : List ℕ)
    → pre ++ seq ≡ p ++ q
    → ((r : List ℕ) × (pre ≡ p ++ r))
      ⊎ ((x : ℕ) × (xs : List ℕ) × (rest : List ℕ) × (p ≡ pre ++ x ∷ xs) × (seq ≡ x ∷ xs ++ rest))
split pre seq [] q h = inl (pre, refl)
split [] seq (x ∷ p) q h = inr (x, p, q, refl, h)
split (a ∷ pre) seq (x ∷ p) q h =
    let same : a ≡ x = ground arith in
    let tails : pre ++ seq ≡ p ++ q = ground arith in
    elim (split pre seq p q tails) [
      | inl (r, e) ↦ inl (r, rw (same, e) refl)
      | inr (y, ys, rest, e, e') ↦ inr (y, ys, rest, rw (same, e) refl, e')
    ]

pub no_overlap_of :
    (tokens : List ℕ) (seqs : List (List ℕ)) (i : ℕ) {seq : List ℕ}
    → any_overlap tokens seqs ≡ false
    → get_elem? seqs i ≡ some seq
    → sequence_overlap tokens seq ≡ false
unfolding any_overlap
no_overlap_of tokens [] i h e = ground arith
no_overlap_of tokens (s ∷ seqs) zero {seq} h e =
    let same : s ≡ seq = some_same s seq e in
    let here : sequence_overlap tokens s ≡ false = ground arith in
    ap (sequence_overlap tokens) (sym same) ∙ here
  where
    some_same : (a b : List ℕ) → (some a ≡ some b) → a ≡ b
    some_same a b h = cc
no_overlap_of tokens (s ∷ seqs) (suc i) h e =
    let later : any_overlap tokens seqs ≡ false = ground arith in
    no_overlap_of tokens seqs i later e

-- The stop sequence that a stop test found ends the tokens.
pub match_stop-found :
    (tokens : List ℕ) (seqs : List (List ℕ))
    → (match_stop tokens seqs).stop_met ≡ true
    → (i : ℕ) × (seq : List ℕ) × (pre : List ℕ) × (get_elem? seqs i ≡ some seq)
      × (tokens ≡ pre ++ seq)
      × ((match_stop tokens seqs).trim_length ≡ length seq)
unfolding match_stop
match_stop-found tokens [] h = ground arith
match_stop-found tokens (seq ∷ seqs) h =
    elim (Bool-cases
      (leb (length seq) (length tokens) && list_eq (last_slice (length seq) tokens) seq)) [
        | inl here ↦
            let (pre, e) = ended seq tokens (ground arith) in (0, seq, pre, refl, e, rw here refl)
        | inr later ↦
            let (i, s, pre, found, e, trim) = match_stop-found tokens seqs (rw later at h) in
            (suc i, s, pre, found, e, rw later trim)
      ]
  where
    ended :
        (seq tokens : List ℕ)
        → list_eq (last_slice (length seq) tokens) seq ≡ true
        → (pre : List ℕ) × (tokens ≡ pre ++ seq)
    ended [] tokens same = ([], list_eq→eq tokens [] same)
    ended (x ∷ xs) tokens same =
        let n = length tokens - suc (length xs) in
        (
          take n tokens,
          sym (take-append-drop n tokens)
              ∙ ap (λ ys. take n tokens ++ ys) (list_eq→eq (drop n tokens) (x ∷ xs) same),
        )

abbrev AllNonempty : List (List ℕ) → Type 0
AllNonempty seqs = (i : ℕ) (seq : List ℕ) → get_elem? seqs i ≡ some seq → 1 ≤ length seq

cons_unless_empty-AllNonempty :
    (xs : List ℕ) (rest : List (List ℕ))
    → AllNonempty rest
    → AllNonempty (cons_unless_empty xs rest)
cons_unless_empty-AllNonempty [] rest r i seq h = r i seq h
cons_unless_empty-AllNonempty (x ∷ xs) rest r zero seq h = long seq h
  where
    long : (ys : List ℕ) → (some (x ∷ xs) ≡ some ys) → 1 ≤ length ys
    long ys e = ground arith
cons_unless_empty-AllNonempty (x ∷ xs) rest r (suc i) seq h = r i seq h

encode_each-AllNonempty :
    (encode : Text → List ℕ) (ss : List Text) → AllNonempty (encode_each encode ss)
encode_each-AllNonempty encode [] i seq h = ground arith
encode_each-AllNonempty encode (s ∷ ss) i seq h =
    cons_unless_empty-AllNonempty (encode s) (encode_each encode ss)
      (encode_each-AllNonempty encode ss) i seq h

-- The stop sequences of a request are not empty.
pub stop_id_sequences-nonempty :
    (tk : Tokenizer) (stop : Stop) (i : ℕ) (seq : List ℕ)
    → get_elem? (stop_id_sequences tk stop) i ≡ some seq
    → 1 ≤ length seq
unfolding stop_id_sequences
stop_id_sequences-nonempty tk no_stop i seq h = ground arith
stop_id_sequences-nonempty tk (one_stop s) i seq h =
    encode_each-AllNonempty tk.encode (s ∷ []) i seq h
stop_id_sequences-nonempty tk (many_stops ss) i seq h = encode_each-AllNonempty tk.encode ss i seq h
