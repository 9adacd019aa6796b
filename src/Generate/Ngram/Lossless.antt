-- ===== src/Generate/Ngram/Lossless.antt =====
-- `ngram_speculative_generate` is lossless: with any drafter it yields the greedy tokens.
use nunspark.Base.{
  ℕ, ◌+◌, ◌≤◌, max, ◌≡◌, sym, ap, ◌∙◌, List, ◌++◌, Option, some, true, false, drop, is_some_of,
  arith, append-nil, Bool-cases, ◌⊎◌, inl, inr,
}
use nunspark.Generate.Engine.{Engine, Contract, Request, prefill}
use nunspark.Generate.Greedy.{greedy, until_eos, Prefilled}
use nunspark.Generate.Emit.{Run, start, emit, drive, rest_of-full, drive-Good}
use nunspark.Generate.Verify.{first-finish, IsServed, suffix-Prefilled}
use nunspark.Generate.Stats.{IsTallied, start-IsTallied}
use nunspark.Generate.Ngram.{DraftSource, Session, ngram_round, ngram_speculative_generate}
use nunspark.Generate.Ngram.Round.{Inv, Good, ngram_round-Ends}

module _ {e : Engine} (c : Contract e) (d : DraftSource) (prompt : List ℕ) (max_tokens : ℕ)
    (eos : Option ℕ) where
  open e use {Kv, Row, forward, verify_forward, commit_verified, argmax}
  open c use {holds, next, forward_rows, forward_holds, verify_rows, commit_holds}

  abbrev Before : Session e d → Type 0
  Before = Inv c d prompt max_tokens eos

  abbrev Done : Run → Type 0
  Done = Good c d prompt max_tokens eos

  started-Inv :
      (drafter : d.State) (kv : Kv) (b : ℕ)
      → b ≡ next prompt
      → holds kv ≡ prompt
      → is_some_of b eos ≡ false
      → Before (record { drafter = drafter; kv = kv; b = b; run = emit b start })
  unfolding emit
  started-Inv drafter kv b best held more = record {
    aligned = rw held;
    output = rw more at (first-finish next prompt max_tokens eos b best);
    tallied = start-IsTallied b;
  }

  stopped-Good : (b : ℕ) → b ≡ next prompt → is_some_of b eos ≡ true → Done (emit b start)
  stopped-Good b best stop =
      (rw stop at (first-finish next prompt max_tokens eos b best), start-IsTallied b)

  full-Good : (s : Session e d) → Before s → max_tokens ≤ s.run.emitted → Done s.run
  full-Good s i h = (
    sym (append-nil s.run.out)
        ∙ ap (λ xs. s.run.out ++ xs) (sym (rest_of-full next prompt max_tokens eos s.run h))
        ∙ i.output,
    i.tallied,
  )

  loop-Good :
      (s : Session e d)
      → Before s
      → (r : Run) × (drive
            (λ t. t.run)
            (ngram_round e d max_tokens eos prompt)
            max_tokens
            (max_tokens + 1)
            s
          ≡ some r)
        × Done r
  loop-Good s i =
      drive-Good (λ t. t.run) (ngram_round e d max_tokens eos prompt) max_tokens Before Done
        (ngram_round-Ends c d prompt max_tokens eos) full-Good (max_tokens + 1) s (omega arith) i

-- With any drafter, on a store that holds the processed part of the prompt, the path returns, and
-- what it yields is the greedy continuation of the prompt, `max_tokens` tokens and at least one, cut
-- after the first end-of-sequence token; and its tally counts what it yielded.
pub ngram-lossless :
    {e : Engine} (c : Contract e) (d : DraftSource) (drafter : d.State) (q : Request) (kv : e.Kv)
    → IsServed c q kv
    → (r : Run) × (ngram_speculative_generate e d drafter q kv ≡ some r)
      × (r.out ≡ until_eos q.eos_id (greedy c.next (max 1 q.max_tokens) q.prompt))
      × IsTallied r
unfolding ngram_speculative_generate
ngram-lossless {e} c d drafter q kv h = ended (Bool-cases (is_some_of b q.eos_id))
  where
    filled : Prefilled c q.prompt (prefill e (drop q.processed_tokens q.prompt) kv q.prefill_chunk)
    filled = suffix-Prefilled c q kv h

    b : ℕ
    b = e.argmax filled.0

    ended :
        (is_some_of b q.eos_id ≡ true) ⊎ (is_some_of b q.eos_id ≡ false)
        → (r : Run) × (ngram_speculative_generate e d drafter q kv ≡ some r)
          × (r.out ≡ until_eos q.eos_id (greedy c.next (max 1 q.max_tokens) q.prompt))
          × IsTallied r
    ended (inl stop) =
        let (out, tally) = stopped-Good c d q.prompt q.max_tokens q.eos_id b filled.3 stop in
        (emit b start, rw (h.supported, filled.2, stop), out, tally)
    ended (inr more) =
        let (r, found, (out, tally)) = loop-Good c d q.prompt q.max_tokens q.eos_id _ (
          started-Inv c d q.prompt q.max_tokens q.eos_id drafter filled.1 b filled.3 filled.4
            more) in
        (r, rw (h.supported, filled.2, more) found, out, tally)
