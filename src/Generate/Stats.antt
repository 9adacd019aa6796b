-- ===== src/Generate/Stats.antt =====
-- The tally `SpecStats` of src/nunspark/generate.py through the emissions of a round.
use nunspark.Base.{ℕ, ◌+◌, ◌≤◌, ◌≡◌, ap, List, [], ◌∷◌, Option, length, arith, length-append}
use nunspark.Generate.Emit.{Run, Flow, halt, go, emit, emit_accepted, emit_bonus, start}

-- What a tally says of the tokens of a run.
pub record IsTallied (r : Run) : Type 0 where
  pub yielded : length r.out ≡ r.emitted
  pub emitted : r.stats.tokens_emitted ≡ r.emitted
  pub accepted : r.stats.accepted_total ≤ r.stats.draft_tokens_proposed
  pub offpath : r.stats.accepted_offpath ≤ r.stats.accepted_total
  -- Besides the first token, each pass pays for one token more than it accepts.
  pub paid : r.emitted ≤ 1 + r.stats.target_passes + r.stats.accepted_total

-- `r'` is `r` after at most `n` more tokens.
pub record Extends (n : ℕ) (r r' : Run) : Type 0 where
  pub passes : r'.stats.target_passes ≡ r.stats.target_passes
  pub proposed : r'.stats.draft_tokens_proposed ≡ r.stats.draft_tokens_proposed
  pub offpath : r'.stats.accepted_offpath ≡ r.stats.accepted_offpath
  pub accepted : r'.stats.accepted_total ≡ r.stats.accepted_total
  pub grows : r.emitted ≤ r'.emitted
  pub bounded : r'.emitted ≤ r.emitted + n
  pub counted : r'.stats.tokens_emitted + r.emitted ≡ r.stats.tokens_emitted + r'.emitted
  pub yielded : length r'.out + r.emitted ≡ length r.out + r'.emitted

unfoldable pub run_of_flow : Flow Run → Run
run_of_flow (halt r) = r
run_of_flow (go r) = r

pub emit-Extends : (t : ℕ) (r : Run) → Extends 1 r (emit t r)
unfolding emit
emit-Extends t r = ground (arith, length-append r.out (t ∷ []))

Extends-trans :
    {m n k : ℕ} {r s t : Run} → Extends m r s → Extends n s t → m + n ≤ k → Extends k r t
Extends-trans a b h = ground arith

Extends-none : (n : ℕ) (r : Run) → Extends n r r
Extends-none n r = ground arith

pub emit_accepted-Extends :
    (max_tokens : ℕ) (eos : Option ℕ) (ts : List ℕ) (r : Run)
    → Extends (length ts) r (run_of_flow (emit_accepted max_tokens eos ts r))
unfolding emit_accepted run_of_flow
emit_accepted-Extends max_tokens eos [] r = Extends-none 0 r
emit_accepted-Extends max_tokens eos (t ∷ ts) r = ground (
  arith,
  Extends-none (length (t ∷ ts)) r,
  Extends-trans {k = length (t ∷ ts)} (emit-Extends t r) (Extends-none (length ts) (emit t r))
      (omega arith),
  Extends-trans {k = length (t ∷ ts)} (emit-Extends t r)
      (emit_accepted-Extends max_tokens eos ts (emit t r)) (omega arith),
)

emit_bonus-Extends :
    (max_tokens : ℕ) (eos : Option ℕ) (bonus n : ℕ) (r : Run) (flow : Flow Run)
    → Extends n r (run_of_flow flow)
    → Extends (n + 1) r (run_of_flow (emit_bonus max_tokens eos bonus flow))
unfolding emit_bonus run_of_flow
emit_bonus-Extends max_tokens eos bonus n r (halt r') x = ground arith
emit_bonus-Extends max_tokens eos bonus n r (go r') x = ground (
  arith,
  Extends-trans {k = n + 1} x (emit-Extends bonus r') (omega arith),
  Extends-trans {k = n + 1} x (Extends-none 0 r') (omega arith),
)

-- The end of a round yields at most the accepted tokens and the bonus.
pub round-Extends :
    (max_tokens : ℕ) (eos : Option ℕ) (bonus : ℕ) (ts : List ℕ) (r : Run)
    → Extends
        (length ts + 1)
        r
        (run_of_flow (emit_bonus max_tokens eos bonus (emit_accepted max_tokens eos ts r)))
round-Extends max_tokens eos bonus ts r =
    emit_bonus-Extends max_tokens eos bonus (length ts) r _
      (emit_accepted-Extends max_tokens eos ts r)

-- A tally of one pass that proposed `k` tokens and accepted `m` of them, `x` of them off the path,
-- stays true through at most `m + 1` emissions.
pub pass-IsTallied :
    (r s r' : Run) (k m x : ℕ)
    → IsTallied r
    → (s.out ≡ r.out) × (s.emitted ≡ r.emitted) × (s.stats.tokens_emitted ≡ r.stats.tokens_emitted)
    → (s.stats.target_passes ≡ r.stats.target_passes + 1)
    → (s.stats.draft_tokens_proposed ≡ r.stats.draft_tokens_proposed + k)
    → (s.stats.accepted_total ≡ r.stats.accepted_total + m)
    → (s.stats.accepted_offpath ≡ r.stats.accepted_offpath + x)
    → m ≤ k
    → x ≤ m
    → Extends (m + 1) s r'
    → IsTallied r'
pass-IsTallied r s r' k m x t same p d a o mk xm e =
    let l : length s.out ≡ length r.out = ap length same.0 in omega arith

pub start-IsTallied : (t : ℕ) → IsTallied (emit t start)
unfolding emit
start-IsTallied t = ground arith
