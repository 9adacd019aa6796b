-- ===== src/EnginePool/Tests.antt =====
-- One pool of two models, and the witnesses of its theorems.
use nunspark.Base.{ℕ, ◌≡◌, refl, true, false, List, [], ◌∷◌, ◌++◌, none, some, list_eq}
use nunspark.EnginePool.{
  Request, EngineHandle, EnginePool, Disk, same_draft, same_kv, same_key, init, discard_engine,
  close_slot, close, raised, open_engine, install, load_draft, load, reuse, key_of, acquire, Call,
  acquires, call, calls,
}
use nunspark.EnginePool.Leaks.{
  held, has_key, names_draft, fails_late, leaks, leaked, calls-opened, acquire-key,
}

abbrev resolved : List ℕ → List ℕ
resolved path = 47 ∷ path

abbrev request : ℕ → Request
request model = record {
  model = model ∷ [];
  draft = some (9 ∷ []);
  budget_bytes = 64;
  kv_quant = none;
}

abbrev all_there : Disk
all_there = record { manifest = true; engine = true; tokenizer = true; draft = true }

abbrev draftless : Disk
draftless = record { manifest = true; engine = true; tokenizer = true; draft = false }

abbrev handle : EngineHandle
handle = record {
  engine = 0;
  tokenizer = 1 ∷ [];
  draft_model = some (9 ∷ []);
  key = record { path = 47 ∷ 1 ∷ []; draft = some (9 ∷ []); budget_bytes = 64; kv = none };
}

abbrev one_open : EnginePool
one_open = record { slot = some handle; opened = 0 ∷ []; made = 1 }

-- A model, the same again, one whose draft model is not there, and the first once more.
abbrev script : List Call
script =
    acquires (request 1) all_there
    ∷ acquires (request 1) all_there
    ∷ acquires (request 2) draftless
    ∷ acquires (request 1) all_there
    ∷ []

calls_run : (calls resolved script init).opened ≡ 2 ∷ 1 ∷ []
unfolding calls call acquire reuse key_of load load_draft install open_engine raised close
    close_slot discard_engine same_key same_kv same_draft list_eq init
calls_run = refl

leaked_run : leaked resolved script init [] ≡ 1 ∷ []
unfolding leaked leaks fails_late has_key names_draft calls call acquire reuse key_of load
    load_draft install open_engine raised close close_slot discard_engine same_key same_kv
    same_draft list_eq init
leaked_run = refl

acquired : (acquire resolved (request 1) all_there one_open).handle ≡ some handle
unfolding acquire reuse key_of same_key same_kv same_draft list_eq
acquired = refl

held_one : one_open.opened ≡ held one_open.slot ++ []
unfolding held
held_one = refl

calls-opened_example :
    (calls resolved script one_open).opened
    ≡ held (calls resolved script one_open).slot ++ leaked resolved script one_open []
calls-opened_example = calls-opened resolved script one_open [] held_one

acquire-key_example :
    (handle.key ≡ key_of resolved (request 1))
    × ((acquire resolved (request 1) all_there one_open).pool.slot ≡ some handle)
acquire-key_example = acquire-key resolved (request 1) all_there one_open handle acquired
