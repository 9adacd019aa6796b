-- ===== src/EnginePool/Leaks.antt =====
-- Which engines a process keeps open through the pool of src/nunspark/webapp/engine_pool.py.
use nunspark.Base.{
  ℕ, ◌≡◌, refl, ap, subst, ◌∙◌, sym, if◌then◌else◌, Bool, true, false, ◌&&◌, ◌||◌, not, List, [],
  ◌∷◌, ◌++◌, Option, none, some, list_eq→eq, ◌==◌, arith, Bool-cases, inl, inr,
}
use nunspark.KvStore.Caches.{KvQuant}
use nunspark.EnginePool.{
  Request, PoolKey, EngineHandle, EnginePool, Disk, Acquired, same_draft, same_kv, same_key,
  discard_engine, close_slot, close, reuse, raised, open_engine, install, load_draft, load, key_of,
  acquire, Call, acquires, closes, call, calls,
}

-- The engine of the slot.
unfoldable pub held : Option EngineHandle → List ℕ
held none = []
held (some h) = h.engine ∷ []

unfoldable pub names_draft : Option (List ℕ) → Bool
names_draft none = false
names_draft (some []) = false
names_draft (some (c ∷ cs)) = true

unfoldable pub has_key : Option EngineHandle → PoolKey → Bool
has_key none key = false
has_key (some h) key = same_key h.key key

-- A load that raises once its engine is open.
unfoldable pub fails_late : Request → Disk → Bool
fails_late r disk =
    disk.manifest
    && disk.engine
    && not (disk.tokenizer && (disk.draft || not (names_draft r.draft)))

unfoldable pub Held : List ℕ → EnginePool → Type 0
Held l p = p.opened ≡ held p.slot ++ l

close_slot-Held :
    (l : List ℕ) (s : Option EngineHandle) (p : EnginePool)
    → p.slot ≡ s
    → p.opened ≡ held s ++ l
    → ((close_slot s p).slot ≡ none)
      × ((close_slot s p).opened ≡ l)
      × ((close_slot s p).made ≡ p.made)
unfolding close_slot held discard_engine
close_slot-Held l none p empty at = (empty, at, refl)
close_slot-Held l (some h) p full at =
    let self : (h.engine == h.engine) ≡ true = ground arith in
    let gone : discard_engine h.engine (h.engine ∷ l) ≡ l = rw self refl in
    (refl, (ap (discard_engine h.engine) at ∙ gone), refl)

-- The draft model is the last load: with it or without, the engine stays open.
load_draft-Held :
    (l : List ℕ) (d : Option (List ℕ)) (disk : Disk) (h : EngineHandle) (p : EnginePool)
    → p.slot ≡ none
    → p.opened ≡ h.engine ∷ l
    → Held
        (if not (disk.draft || not (names_draft d)) then h.engine ∷ l else l)
        (load_draft d disk h p).pool
unfolding load_draft held install raised names_draft Held
load_draft-Held l none disk h p empty at = ground (arith, empty, at)
load_draft-Held l (some []) disk h p empty at = ground (arith, empty, at)
load_draft-Held l (some (c ∷ cs)) disk h p empty at = elim (Bool-cases disk.draft) [
  | inl up ↦ ground (arith, empty, at)
  | inr down ↦ ground (arith, empty, at)
]

load_draft-key :
    (d : Option (List ℕ)) (disk : Disk) (e h : EngineHandle) (p : EnginePool)
    → (load_draft d disk e p).handle ≡ some h
    → (h.key ≡ e.key) × ((load_draft d disk e p).pool.slot ≡ some h)
unfolding load_draft install raised
load_draft-key none disk e h p eq = ground (arith, eq)
load_draft-key (some []) disk e h p eq = ground (arith, eq)
load_draft-key (some (c ∷ cs)) disk e h p eq = ground (arith, eq)

same_draft→eq : (c d : Option (List ℕ)) → same_draft c d ≡ true → c ≡ d
unfolding same_draft
same_draft→eq none none h = refl
same_draft→eq none (some d) h = ground arith
same_draft→eq (some c) none h = ground arith
same_draft→eq (some c) (some d) h = ap (λ (x : List ℕ). some x) (list_eq→eq c d h)

same_kv→eq : (c d : Option KvQuant) → same_kv c d ≡ true → c ≡ d
unfolding same_kv
same_kv→eq none none h = refl
same_kv→eq none (some d) h = ground arith
same_kv→eq (some c) none h = ground arith
same_kv→eq (some c) (some d) h = ground (arith, h)

same_key→eq : (a b : PoolKey) → same_key a b ≡ true → a ≡ b
unfolding same_key
same_key→eq a b h =
    ground (arith, list_eq→eq a.path b.path, same_draft→eq a.draft b.draft, same_kv→eq a.kv b.kv)

load-Held :
    (l : List ℕ) (r : Request) (key : PoolKey) (disk : Disk) (p : EnginePool)
    → p.slot ≡ none
    → p.opened ≡ l
    → Held (if fails_late r disk then p.made ∷ l else l) (load r key disk p).pool
unfolding load held raised open_engine fails_late Held
load-Held l r key disk p empty at =
    let drafts =
      load_draft-Held l r.draft disk
        (record { engine = p.made; tokenizer = r.model; draft_model = none; key = key })
        (open_engine p) empty (ap (◌∷◌ p.made) at) in
    ground (arith, empty, at, drafts)

load-key :
    (r : Request) (key : PoolKey) (disk : Disk) (p : EnginePool) (h : EngineHandle)
    → (load r key disk p).handle ≡ some h
    → (h.key ≡ key) × ((load r key disk p).pool.slot ≡ some h)
unfolding load raised open_engine
load-key r key disk p h eq =
    let drafts =
      load_draft-key r.draft disk
        (record { engine = p.made; tokenizer = r.model; draft_model = none; key = key }) h
        (open_engine p) in
    ground (arith, eq, drafts)

reuse-key :
    (s : Option EngineHandle) (key : PoolKey) (p : EnginePool) (fresh : Acquired) (h : EngineHandle)
    → p.slot ≡ s
    → ((fresh.handle ≡ some h) → (h.key ≡ key) × (fresh.pool.slot ≡ some h))
    → (reuse s key p fresh).handle ≡ some h
    → (h.key ≡ key) × ((reuse s key p fresh).pool.slot ≡ some h)
unfolding reuse
reuse-key none key p fresh h at loaded eq = loaded eq
reuse-key (some e) key p fresh h at loaded eq = elim (Bool-cases (same_key e.key key)) [
  | inl same ↦ ground (arith, same_key→eq e.key key same)
  | inr other ↦ ground (arith, loaded)
]

-- A call that raises only after its engine is open, on a pool that has no engine of its key.
unfoldable pub leaks : (List ℕ → List ℕ) → Call → EnginePool → Bool
leaks resolve closes p = false
leaks resolve (acquires r disk) p = not (has_key p.slot (key_of resolve r)) && fails_late r disk

-- The engines that a run of calls leaves open beside the slot, the latest first; `l` is what was
-- there before.
unfoldable pub leaked : (List ℕ → List ℕ) → List Call → EnginePool → List ℕ → List ℕ
leaked resolve [] p l = l
leaked resolve (c ∷ cs) p l =
    leaked resolve cs (call resolve c p) (if leaks resolve c p then p.made ∷ l else l)

reuse-Held :
    (s : Option EngineHandle) (key : PoolKey) (p : EnginePool) (fresh : Acquired) (b : Bool)
    (l : List ℕ)
    → Held l p
    → Held (if b then p.made ∷ l else l) fresh.pool
    → Held (if not (has_key s key) && b then p.made ∷ l else l) (reuse s key p fresh).pool
unfolding reuse has_key
reuse-Held none key p fresh b l at loaded = loaded
reuse-Held (some e) key p fresh b l at loaded = elim (Bool-cases (same_key e.key key)) [
  | inl same ↦ rw same at
  | inr other ↦ rw other loaded
]

call-Held :
    (resolve : List ℕ → List ℕ) (c : Call) (p : EnginePool) (l : List ℕ)
    → Held l p
    → Held (if leaks resolve c p then p.made ∷ l else l) (call resolve c p)
unfolding call leaks acquire close Held held
call-Held resolve closes p l at =
    let shut = close_slot-Held l p.slot p refl at in
    shut.1 ∙ sym (ap (λ (s : Option EngineHandle). held s ++ l) shut.0)
call-Held resolve (acquires r disk) p l at =
    let shut = close_slot-Held l p.slot p refl at in
    let fresh = load-Held l r (key_of resolve r) disk (close p) shut.0 shut.1 in
    reuse-Held p.slot (key_of resolve r) p (load r (key_of resolve r) disk (close p))
      (fails_late r disk) l at
      (subst
        (λ (m : ℕ).
          Held (if fails_late r disk then m ∷ l else l)
            (load r (key_of resolve r) disk (close p)).pool)
        shut.2 fresh)

-- After any calls of the pool that start with the engine of the slot and `l` open, the open engines
-- are the one of the slot, then `l` and the engines of the calls that raised after their engine was
-- open.
pub calls-opened :
    (resolve : List ℕ → List ℕ) (cs : List Call) (p : EnginePool) (l : List ℕ)
    → p.opened ≡ held p.slot ++ l
    → (calls resolve cs p).opened ≡ held (calls resolve cs p).slot ++ leaked resolve cs p l
unfolding calls leaked Held
calls-opened resolve [] p l at = at
calls-opened resolve (c ∷ cs) p l at =
    calls-opened resolve cs (call resolve c p) _ (call-Held resolve c p l at)

-- The handle that `acquire` returns has the key of its request and is the one of the slot.
pub acquire-key :
    (resolve : List ℕ → List ℕ) (r : Request) (disk : Disk) (p : EnginePool) (h : EngineHandle)
    → (acquire resolve r disk p).handle ≡ some h
    → (h.key ≡ key_of resolve r) × ((acquire resolve r disk p).pool.slot ≡ some h)
unfolding acquire
acquire-key resolve r disk p h eq =
    reuse-key p.slot (key_of resolve r) p _ h refl (load-key r (key_of resolve r) disk (close p) h)
      eq
