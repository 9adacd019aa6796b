-- ===== src/PieceCache/Reservations.antt =====
-- The blocks of src/nunspark/piece_cache.py that reserve a piece: a `get` that misses, and `prefetch`.
use nunspark.Base.{
  ◌+◌, ◌≤◌, ◌≡◌, refl, sym, ap, ◌∙◌, inl, inr, false, List, ◌∷◌, none, some, arith, list_eq,
  list_eq→eq, Bool-cases, Option-cases, subst,
}
use nunspark.PieceCache.Pieces.{Pid, Weights, piece_class}
use nunspark.PieceCache.Table.{member, lookup, has}
use nunspark.PieceCache.State.{Cache, Staged}
use nunspark.PieceCache.Ops.{
  region, touch, promote_staged, hit, reserve, join, get_miss, get_staged, get_enter,
}
use nunspark.PieceCache.Accounting.{IsAccounted}
use nunspark.PieceCache.Presence.{lookup-has}
use nunspark.PieceCache.Absent.{IsAbsent, absent_lem, promote_staged-IsAbsent}
use nunspark.PieceCache.Stageable.{AllStaged, AllStaged-lookup, promote_staged-AllStaged}
use nunspark.PieceCache.Quiet.{promote_staged-IsQuiet, join-IsQuiet}
use nunspark.PieceCache.Preserve.{promote_staged-IsAccounted, sum_counts-add_count}
use nunspark.PieceCache.Locked.{region-expert}
use nunspark.PieceCache.Threads.{System, act, gets, after_get}
use nunspark.PieceCache.Owners.{bit, occurrences}
use nunspark.PieceCache.Consistency.{Consistent, seekers, quiet-Consistent, touch-Consistent}

pub member-fresh :
    (q p : Pid) (ps : List Pid)
    → member p ps ≡ false
    → bit (member q (p ∷ ps)) ≡ bit (list_eq p q) + bit (member q ps)
unfolding member bit
member-fresh q p ps fresh = elim (Bool-cases (list_eq p q)) [
  | inl same ↦ grind (arith, ap (λ k. member k ps) (list_eq→eq p q same), same, fresh)
  | inr other ↦ rw other (omega arith)
]

join-IsAccounted : (s : Cache) (p : Pid) → IsAccounted s → IsAccounted (join s p)
unfolding join
join-IsAccounted s p a = elim (Bool-cases (member p s.spec_pending)) [
  | inl spec ↦ rw spec (record {
    main = a.main;
    experts = a.experts;
    bytes = a.bytes;
    staged = a.staged;
    capped = a.capped;
    hits = a.hits;
    misses = a.misses;
  })
  | inr demand ↦ rw demand a
]

join-AllStaged : (s : Cache) (p : Pid) → AllStaged s.staging → AllStaged (join s p).staging
unfolding join
join-AllStaged s p a = elim (Bool-cases (member p s.spec_pending)) [
  | inl spec ↦ rw spec a
  | inr demand ↦ rw demand a
]

join-IsAbsent : (s : Cache) (p q : Pid) → IsAbsent s q → IsAbsent (join s p) q
unfolding join
join-IsAbsent s p q a = elim (Bool-cases (member p s.spec_pending)) [
  | inl spec ↦ rw spec (record { resident = a.resident; experts = a.experts; staging = a.staging })
  | inr demand ↦ rw demand a
]

join-Consistent :
    (y : System) (p : Pid) → Consistent y → Consistent (record y { cache = join y.cache p })
join-Consistent y p i =
    quiet-Consistent y (join y.cache p) (join-IsQuiet y.cache p)
      (join-IsAccounted y.cache p i.accounted) (join-AllStaged y.cache p i.staged)
      (join-IsAbsent y.cache p) i

promote_staged-Consistent :
    (y : System) (p : Pid) (g : Staged)
    → lookup p (region y.cache p) ≡ none
    → lookup p y.cache.staging ≡ some g
    → Consistent y
    → Consistent (record y { cache = promote_staged y.cache p g })
promote_staged-Consistent y p g gone here i =
    let (ex, sized) = AllStaged-lookup p y.cache.staging i.staged here in
    quiet-Consistent y (promote_staged y.cache p g) (promote_staged-IsQuiet y.cache p g)
      (promote_staged-IsAccounted y.cache p g here
        (sym (ap (has p) (region-expert y.cache p ex)) ∙ lookup-has p (region y.cache p) gone) sized
        i.accounted)
      (promote_staged-AllStaged y.cache p g i.staged)
      (λ q. promote_staged-IsAbsent y.cache p q g here) i

pub reserve-IsAccounted : (s : Cache) (p : Pid) → IsAccounted s → IsAccounted (reserve s p)
unfolding reserve
reserve-IsAccounted s p a = record {
  main = a.main;
  experts = a.experts;
  bytes = a.bytes;
  staged = a.staged;
  capped = a.capped;
  hits = a.hits;
  misses = omega (arith, a.misses, sum_counts-add_count (piece_class p) 1 s.misses_by_class);
}

-- What is absent of the seekers' pieces stays so when an absent piece gets one more seeker.
pub reserve-IsAbsent :
    (y : System) (p q : Pid)
    → IsAbsent y.cache p
    → Consistent y
    → 1 ≤ bit (list_eq p q) + seekers y q
    → IsAbsent y.cache q
unfolding bit
reserve-IsAbsent y p q gone i h = elim (Bool-cases (list_eq p q)) [
  | inl same ↦ subst (IsAbsent y.cache) (list_eq→eq p q same) gone
  | inr other ↦ i.absent q (omega (arith, h, ap bit other))
]

-- A reserved piece is to be loaded by the caller.
owner-Consistent :
    (y : System) (p : Pid)
    → IsAbsent y.cache p
    → member p y.cache.inflight ≡ false
    → Consistent y
    → Consistent (record y { cache = reserve y.cache p; loading = p ∷ y.loading })
unfolding reserve seekers occurrences
owner-Consistent y p gone fresh i = record {
  accounted = reserve-IsAccounted y.cache p i.accounted;
  staged = i.staged;
  owned = λ q. omega (arith, i.owned q, member-fresh q p y.cache.inflight fresh);
  absent = λ q h.
      let a = reserve-IsAbsent y p q gone i (omega (arith, h)) in
      record { resident = a.resident; experts = a.experts; staging = a.staging };
}

get_miss-Consistent :
    (y : System) (p : Pid)
    → IsAbsent y.cache p
    → Consistent y
    → Consistent (after_get y p (get_miss y.cache p))
unfolding get_miss after_get
get_miss-Consistent y p gone i = elim (Bool-cases (member p y.cache.inflight)) [
  | inl there ↦ rw there (join-Consistent y p i)
  | inr fresh ↦ rw fresh (owner-Consistent y p gone fresh i)
]

pub get_staged-miss :
    (s : Cache) (p : Pid) → lookup p s.staging ≡ none → get_staged s p ≡ get_miss s p
unfolding get_staged
get_staged-miss s p unstaged = rw (unstaged, get_staged) refl

get_staged-hit :
    (s : Cache) (p : Pid) {g : Staged}
    → lookup p s.staging ≡ some g
    → get_staged s p ≡ (promote_staged s p g, hit g.weights)
unfolding get_staged
get_staged-hit s p here = rw (here, get_staged) refl

get_staged-Consistent :
    (y : System) (p : Pid)
    → lookup p (region y.cache p) ≡ none
    → Consistent y
    → Consistent (after_get y p (get_staged y.cache p))
unfolding after_get
get_staged-Consistent y p gone i = elim (Option-cases (lookup p y.cache.staging)) [
  | inl unstaged ↦
      subst (λ r. Consistent (after_get y p r)) (sym (get_staged-miss y.cache p unstaged))
        (get_miss-Consistent y p
          (absent_lem y.cache p (lookup-has p (region y.cache p) gone)
            (lookup-has p y.cache.staging unstaged))
          i)
  | inr (g, here) ↦
      subst (λ r. Consistent (after_get y p r)) (sym (get_staged-hit y.cache p here))
        (promote_staged-Consistent y p g gone here i)
]

pub get_enter-miss :
    (s : Cache) (p : Pid) → lookup p (region s p) ≡ none → get_enter s p ≡ get_staged s p
unfolding get_enter
get_enter-miss s p gone = rw (gone, get_enter) refl

get_enter-hit :
    (s : Cache) (p : Pid) {w : Weights}
    → lookup p (region s p) ≡ some w
    → get_enter s p ≡ (touch s p, hit w)
unfolding get_enter
get_enter-hit s p here = rw (here, get_enter) refl

pub gets-Consistent : (y : System) (p : Pid) → Consistent y → Consistent (act (gets p) y)
unfolding act after_get
gets-Consistent y p i = elim (Option-cases (lookup p (region y.cache p))) [
  | inl gone ↦
      subst (λ r. Consistent (after_get y p r)) (sym (get_enter-miss y.cache p gone))
        (get_staged-Consistent y p gone i)
  | inr (w, here) ↦
      subst (λ r. Consistent (after_get y p r)) (sym (get_enter-hit y.cache p here))
        (touch-Consistent y p i)
]
