-- ===== src/EnginePool.antt =====
-- `EnginePool` of src/nunspark/webapp/engine_pool.py: the one slot of a loaded engine, with the
-- engines that the process holds open beside it. An engine is told by the number of its
-- construction; what a call finds on disk is a `Disk`, one field for each of its loads; that closing an engine
-- returns is taken for granted.
mod Leaks
mod Tests
use nunspark.Base.{
  ℕ, suc, if◌then◌else◌, Bool, true, false, ◌&&◌, List, [], ◌∷◌, Option, none, some, list_eq, ◌==◌,
}
use nunspark.KvStore.Caches.{KvQuant}

-- The arguments of `acquire`; a string is the list of its code points.
pub record Request : Type 0 where
  pub model : List ℕ
  pub draft : Option (List ℕ)
  pub budget_bytes : ℕ
  pub kv_quant : Option KvQuant

-- The tuple `key`.
pub record PoolKey : Type 0 where
  pub path : List ℕ
  pub draft : Option (List ℕ)
  pub budget_bytes : ℕ
  pub kv : Option KvQuant

pub record EngineHandle : Type 0 where
  pub engine : ℕ
  pub tokenizer : List ℕ
  pub draft_model : Option (List ℕ)
  pub key : PoolKey

-- `opened` holds the engines constructed and not closed, the latest first, `made` how many were
-- constructed.
pub record EnginePool : Type 0 where
  pub slot : Option EngineHandle
  pub opened : List ℕ
  pub made : ℕ

-- Which loads return; the others raise.
pub record Disk : Type 0 where
  pub manifest : Bool
  pub engine : Bool
  pub tokenizer : Bool
  pub draft : Bool

-- What a call leaves: `none` for an exception, and the pool.
pub record Acquired : Type 0 where
  pub handle : Option EngineHandle
  pub pool : EnginePool

unfoldable pub same_draft : Option (List ℕ) → Option (List ℕ) → Bool
same_draft none none = true
same_draft none (some d) = false
same_draft (some c) none = false
same_draft (some c) (some d) = list_eq c d

unfoldable pub same_kv : Option KvQuant → Option KvQuant → Bool
same_kv none none = true
same_kv none (some d) = false
same_kv (some c) none = false
same_kv (some c) (some d) = c.bits == d.bits && c.group_size == d.group_size

-- The comparison of two keys.
unfoldable pub same_key : PoolKey → PoolKey → Bool
same_key a b =
    list_eq a.path b.path
    && same_draft a.draft b.draft
    && a.budget_bytes == b.budget_bytes
    && same_kv a.kv b.kv

unfoldable pub init : EnginePool
init = record { slot = none; opened = []; made = 0 }

-- The engine leaves the open ones.
unfoldable pub discard_engine : ℕ → List ℕ → List ℕ
discard_engine e [] = []
discard_engine e (x ∷ xs) = let rest = discard_engine e xs in if e == x then xs else x ∷ rest

unfoldable pub close_slot : Option EngineHandle → EnginePool → EnginePool
close_slot none p = p
close_slot (some h) p = record {
  slot = none;
  opened = discard_engine h.engine p.opened;
  made = p.made;
}

unfoldable pub close : EnginePool → EnginePool
close p = close_slot p.slot p

unfoldable pub raised : EnginePool → Acquired
raised p = record { handle = none; pool = p }

-- `engine = StreamingEngine(...)`.
unfoldable pub open_engine : EnginePool → EnginePool
open_engine p = record { slot = p.slot; opened = p.made ∷ p.opened; made = suc p.made }

-- `self._handle = EngineHandle(engine, tokenizer, draft_model, key)`, and its return.
unfoldable pub install : EngineHandle → EnginePool → Acquired
install h p = record {
  handle = some h;
  pool = record { slot = some h; opened = p.opened; made = p.made };
}

-- From `if draft:` on; an empty name is false too.
unfoldable pub load_draft : Option (List ℕ) → Disk → EngineHandle → EnginePool → Acquired
load_draft none disk h p = install h p
load_draft (some []) disk h p = install h p
load_draft (some (c ∷ cs)) disk h p =
    if disk.draft
    then install
        (record {
          engine = h.engine;
          tokenizer = h.tokenizer;
          draft_model = some (c ∷ cs);
          key = h.key;
        })
        p
    else raised p

-- The loads after `self.close()`, in the order of the code.
unfoldable pub load : Request → PoolKey → Disk → EnginePool → Acquired
load r key disk p =
    if disk.manifest && disk.engine
    then if disk.tokenizer
      then load_draft r.draft disk
          (record { engine = p.made; tokenizer = r.model; draft_model = none; key = key })
          (open_engine p)
      else raised (open_engine p)
    else raised p

-- A handle of the same key is returned as it is; else the pool is closed and loaded.
unfoldable pub reuse : Option EngineHandle → PoolKey → EnginePool → Acquired → Acquired
reuse none key p fresh = fresh
reuse (some h) key p fresh =
    if same_key h.key key then record { handle = some h; pool = p } else fresh

-- `resolve` is `str(Path(model).resolve())`.
module _ (resolve : List ℕ → List ℕ) where
  unfoldable pub key_of : Request → PoolKey
  key_of r = record {
    path = resolve r.model;
    draft = r.draft;
    budget_bytes = r.budget_bytes;
    kv = r.kv_quant;
  }

  unfoldable pub acquire : Request → Disk → EnginePool → Acquired
  acquire r disk p = reuse p.slot (key_of r) p (load r (key_of r) disk (close p))

-- The calls that the process makes of its pool.
pub data Call : Type 0 where
  acquires : Request → Disk → Call
  closes : Call

module _ (resolve : List ℕ → List ℕ) where
  unfoldable pub call : Call → EnginePool → EnginePool
  call (acquires r disk) p = (acquire resolve r disk p).pool
  call closes p = close p

  unfoldable pub calls : List Call → EnginePool → EnginePool
  calls [] p = p
  calls (c ∷ cs) p = calls cs (call c p)
