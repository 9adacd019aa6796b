-- ===== src/Generate/Draft/Lossless.antt =====
-- `speculative_generate`: it returns, what it yields and what its tally says.
use nunspark.Base.{
  ℕ, ◌+◌, ◌≤◌, max, ◌≡◌, sym, ap, ◌∙◌, List, ◌++◌, Option, some, true, false, drop, is_some_of,
  arith, append-nil, Bool-cases, ◌⊎◌, inl, inr,
}
use nunspark.Generate.Engine.{Engine, Contract, Request, prefill}
use nunspark.Generate.Greedy.{greedy, until_eos, Prefilled}
use nunspark.Generate.Emit.{Run, start, emit, drive, rest_of-full, drive-Good}
use nunspark.Generate.Verify.{first-finish, IsServed, suffix-Prefilled}
use nunspark.Generate.Stats.{IsTallied, start-IsTallied}
use nunspark.Generate.Draft.{DraftModel, DraftSession, draft_round, speculative_generate}
use nunspark.Generate.Draft.Cache.{CallContract}
use nunspark.Generate.Draft.Round.{Inv, Good, draft_round-Ends}

module _ {e : Engine} (c : Contract e) {dm : DraftModel} (dc : CallContract dm) (prompt : List ℕ)
    (k accept_top_k max_tokens : ℕ) (eos : Option ℕ) where
  open e use {Kv, Row, forward, verify_forward, commit_verified, argmax}
  open c use {holds, next, verify_rows, commit_holds}

  abbrev Before : DraftSession e dm → Type 0
  Before = Inv c dc prompt k accept_top_k max_tokens eos

  abbrev Done : Run → Type 0
  Done = Good c dc prompt k accept_top_k max_tokens eos

  full-Good : (s : DraftSession e dm) → Before s → max_tokens ≤ s.run.emitted → Done s.run
  full-Good s i h = (
    λ one.
        sym (append-nil s.run.out)
        ∙ ap (λ xs. s.run.out ++ xs) (sym (rest_of-full next prompt max_tokens eos s.run h))
        ∙ i.output one,
    i.tallied,
  )

  started-Inv :
      (kv : Kv) (b : ℕ)
      → b ≡ next prompt
      → holds kv ≡ prompt
      → is_some_of b eos ≡ false
      → Before (record {
        kv = kv;
        draft_cache = (dm.call prompt dm.make_prompt_cache).1;
        b = b;
        run = emit b start;
      })
  unfolding emit
  started-Inv kv b best held more = record {
    aligned = rw held;
    output = λ _. rw more at (first-finish next prompt max_tokens eos b best);
    tallied = start-IsTallied b;
  }

  stopped-Good : (b : ℕ) → b ≡ next prompt → is_some_of b eos ≡ true → Done (emit b start)
  stopped-Good b best stop =
      (λ _. rw stop at (first-finish next prompt max_tokens eos b best), start-IsTallied b)

  loop-Good :
      (s : DraftSession e dm)
      → 1 ≤ k
      → Before s
      → (r : Run) × (drive
            (λ t. t.run)
            (draft_round e dm k accept_top_k max_tokens eos)
            max_tokens
            (max_tokens + 1)
            s
          ≡ some r)
        × Done r
  loop-Good s pos i =
      drive-Good (λ t. t.run) (draft_round e dm k accept_top_k max_tokens eos) max_tokens Before
        Done (λ t j _. draft_round-Ends c dc prompt k accept_top_k max_tokens eos t pos j) full-Good
        (max_tokens + 1) s (omega arith) i

module _ {e : Engine} (c : Contract e) {dm : DraftModel} (dc : CallContract dm) (k accept_top_k : ℕ)
    (q : Request) (kv : e.Kv) where
  generates :
      1 ≤ k
      → IsServed c q kv
      → (r : Run) × (speculative_generate e dm k accept_top_k q kv ≡ some r)
        × Good c dc q.prompt k accept_top_k q.max_tokens q.eos_id r
  unfolding speculative_generate
  generates pos h = ended (Bool-cases (is_some_of b q.eos_id))
    where
      filled :
          Prefilled c q.prompt (prefill e (drop q.processed_tokens q.prompt) kv q.prefill_chunk)
      filled = suffix-Prefilled c q kv h

      b : ℕ
      b = e.argmax filled.0

      ended :
          (is_some_of b q.eos_id ≡ true) ⊎ (is_some_of b q.eos_id ≡ false)
          → (r : Run) × (speculative_generate e dm k accept_top_k q kv ≡ some r)
            × Good c dc q.prompt k accept_top_k q.max_tokens q.eos_id r
      ended (inl stop) = (
        emit b start,
        rw (h.supported, filled.2, stop),
        stopped-Good c dc q.prompt k accept_top_k q.max_tokens q.eos_id b filled.3 stop,
      )
      ended (inr more) =
          let (r, found, good) =
            loop-Good c dc q.prompt k accept_top_k q.max_tokens q.eos_id _ pos (
              started-Inv c dc q.prompt k accept_top_k q.max_tokens q.eos_id filled.1 b filled.3
                filled.4 more) in
          (r, rw (h.supported, filled.2, more) found, good)

  -- With any draft model, at least one draft a round and the accept test of an `accept_top_k` of at
  -- most 1, for a supported request with a positive prefill window, on a store that holds exactly the
  -- processed start of a prompt that goes on after it: the path returns the greedy continuation of the
  -- prompt, `max_tokens` tokens and at least one, cut after the first end-of-sequence token.
  pub speculative-lossless :
      1 ≤ k
      → accept_top_k ≤ 1
      → IsServed c q kv
      → (r : Run) × (speculative_generate e dm k accept_top_k q kv ≡ some r)
        × (r.out ≡ until_eos q.eos_id (greedy c.next (max 1 q.max_tokens) q.prompt))
  speculative-lossless pos one h = let (r, found, good) = generates pos h in (r, found, good.0 one)

  -- With any draft model, any `accept_top_k` and at least one draft a round, for a supported request
  -- with a positive prefill window, on a store that holds exactly the processed start of a prompt that
  -- goes on after it: the path returns, and its tally counts what it yielded: no more tokens than one,
  -- the target passes and the accepted drafts together, and no more accepted drafts than proposed ones.
  pub speculative-IsTallied :
      1 ≤ k
      → IsServed c q kv
      → (r : Run) × (speculative_generate e dm k accept_top_k q kv ≡ some r) × IsTallied r
  speculative-IsTallied pos h = let (r, found, good) = generates pos h in (r, found, good.1)
