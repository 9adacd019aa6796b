-- ===== src/Jobs/Groups.antt =====
-- The groups that the worker of src/nunspark/webapp/jobs.py hands out.
use nunspark.Base.{
  ℕ, suc, zero, ◌-◌, ◌≤◌, ◌≡◌, ◌⊎◌, refl, sym, ap, inl, inr, Bool, true, false, not, ◌&&◌, List, [],
  ◌∷◌, ◌++◌, Option, none, some, contains, arith, Bool-cases, Option-cases, length, list_eq_self,
  subst,
}
use nunspark.Jobs.Key.{Job, Key, compat_key, is_compatible, key_eq, same_bits, same_bool}
use nunspark.Jobs.Worker.{
  Manager, find_job, Grown, Fate, unknown, dropped, deferred, joined, fate, settle, grow_queue,
  grow, run_group, group_key, max_batch,
}

-- The job of an id has the key.
unfoldable pub has_key : List Job → Key → ℕ → Bool
has_key jobs key id = elim (find_job id jobs) [ none ↦ false | some j ↦ is_compatible j key ]

abbrev pub AllKeyed : List Job → Key → List ℕ → Type 0
AllKeyed jobs key [] = Unit {0}
AllKeyed jobs key (id ∷ ids) = (has_key jobs key id ≡ true) × AllKeyed jobs key ids

-- At most MAX_BATCH jobs, and of more than one all have one compatibility key.
pub record IsBatch (jobs : List Job) (group : List ℕ) : Type 0 where
  pub size : length group ≤ max_batch
  pub shared : (length group ≤ 1) ⊎ ((key : Key) × AllKeyed jobs key group)

abbrev pub AllBatches : List Job → List (List ℕ) → Type 0
AllBatches jobs [] = Unit {0}
AllBatches jobs (g ∷ gs) = IsBatch jobs g × AllBatches jobs gs

same_bits_self : (b : Option ℕ) → same_bits b b ≡ true
unfolding same_bits
same_bits_self none = refl
same_bits_self (some a) = ground arith

same_bool_self : (b : Bool) → same_bool b b ≡ true
unfolding same_bool
same_bool_self true = refl
same_bool_self false = refl

key_eq_self : (k : Key) → key_eq k k ≡ true
unfolding key_eq
key_eq_self k =
    rw
      (
        list_eq_self k.model,
        list_eq_self k.budget,
        same_bits_self k.kv_bits,
        same_bool_self k.use_chat_template,
      )
      (ground arith)

module _ (jobs : List Job) (cancels : List ℕ) (key : Key) where
  record Fits (room : ℕ) (g : Grown) : Type 0 where
    size : length g.group ≤ room
    keyed : AllKeyed jobs key g.group

  abbrev is_joined : Fate → Bool
  is_joined unknown = false
  is_joined dropped = false
  is_joined deferred = false
  is_joined joined = true

  fate-is_joined :
      (id : ℕ)
      → is_joined (fate jobs cancels key id) ≡ (not (contains id cancels) && has_key jobs key id)
  unfolding fate has_key
  fate-is_joined id = elim (Option-cases (find_job id jobs)) [
    | inl gone ↦
        rw (gone, fate, has_key)
          (elim (Bool-cases (contains id cancels)) [ inl off ↦ rw off refl | inr on ↦ rw on refl ])
    | inr (j, here) ↦
        rw (here, fate, has_key)
          (elim (Bool-cases (contains id cancels)) [
            | inl off ↦ rw off refl
            | inr on ↦ elim (Bool-cases (is_compatible j key)) [
              | inl same ↦ rw (on, same) refl
              | inr other ↦ rw (on, other) refl
            ]
          ])
  ]

  fate-joined : (id : ℕ) → is_joined (fate jobs cancels key id) ≡ true → has_key jobs key id ≡ true
  fate-joined id e = ground (arith, fate-is_joined id)

  settle-Fits :
      (f : Fate) (id room : ℕ) (rest again back : Grown)
      → (is_joined f ≡ true → has_key jobs key id ≡ true)
      → Fits (suc room) rest
      → Fits room again
      → back.group ≡ []
      → Fits (suc room) (settle f id rest again back)
  unfolding settle
  settle-Fits unknown id room rest again back k r a b = r
  settle-Fits dropped id room rest again back k r a b = record { size = r.size; keyed = r.keyed }
  settle-Fits deferred id room rest again back k r a b = record {
    size = omega (arith, ap length b);
    keyed = subst (AllKeyed jobs key) (sym b) tt;
  }
  settle-Fits joined id room rest again back k r a b = record {
    size = omega (arith, a.size);
    keyed = (k refl, a.keyed);
  }

  grow_queue-Fits :
      (room : ℕ) (q : List (Option ℕ)) → Fits room (grow_queue jobs cancels key room q)
  unfolding grow_queue
  grow_queue-Fits zero q = record { size = omega arith; keyed = tt }
  grow_queue-Fits (suc room) [] = record { size = omega arith; keyed = tt }
  grow_queue-Fits (suc room) (none ∷ q) = record { size = omega arith; keyed = tt }
  grow_queue-Fits (suc room) (some id ∷ q) =
      settle-Fits (fate jobs cancels key id) id room (grow_queue jobs cancels key (suc room) q)
        (grow_queue jobs cancels key room q)
        (record { group = []; cancelled = []; peeked = id ∷ []; queue = q; stopped = false })
        (fate-joined id) (grow_queue-Fits (suc room) q) (grow_queue-Fits room q) refl

  grow-Fits :
      (room : ℕ) (p : List ℕ) (q : List (Option ℕ)) → Fits room (grow jobs cancels key room p q)
  unfolding grow
  grow-Fits zero p q = record { size = omega arith; keyed = tt }
  grow-Fits (suc room) [] q = grow_queue-Fits (suc room) q
  grow-Fits (suc room) (id ∷ p) q =
      settle-Fits (fate jobs cancels key id) id room (grow jobs cancels key (suc room) p q)
        (grow jobs cancels key room p q)
        (record { group = []; cancelled = []; peeked = id ∷ p; queue = q; stopped = false })
        (fate-joined id) (grow-Fits (suc room) p q) (grow-Fits room p q) refl

append-AllBatches :
    (jobs : List Job) (gs : List (List ℕ)) (g : List ℕ)
    → AllBatches jobs gs
    → IsBatch jobs g
    → AllBatches jobs (gs ++ g ∷ [])
append-AllBatches jobs [] g a b = (b, tt)
append-AllBatches jobs (h ∷ gs) g (c, a) b = (c, append-AllBatches jobs gs g a b)

single-IsBatch : (jobs : List Job) (id : ℕ) → IsBatch jobs (id ∷ [])
single-IsBatch jobs id = record { size = omega arith; shared = inl (omega arith) }

find_job-keyed :
    (jobs : List Job) (job : Job) (key : Key)
    → find_job job.id jobs ≡ some job
    → compat_key job ≡ some key
    → has_key jobs key job.id ≡ true
unfolding has_key is_compatible
find_job-keyed jobs job key here k = rw (here, has_key) (rw (k, is_compatible) (key_eq_self key))

pub group_key-compat :
    (batching : Bool) (job : Job) {key : Key}
    → group_key batching job ≡ some key
    → compat_key job ≡ some key
unfolding group_key
group_key-compat true job h = h
group_key-compat false job h = absurd (ground arith)

pub run_group-AllBatches :
    (m : Manager) (job : Job) (key : Option Key)
    → find_job job.id m.jobs ≡ some job
    → ((k : Key) → key ≡ some k → compat_key job ≡ some k)
    → AllBatches m.jobs m.dispatched
    → AllBatches m.jobs (run_group m job key).dispatched
unfolding run_group
run_group-AllBatches m job none here c a =
    append-AllBatches m.jobs m.dispatched (job.id ∷ []) a (single-IsBatch m.jobs job.id)
run_group-AllBatches m job (some key) here c a =
    let f = grow-Fits m.jobs m.cancels key (max_batch - 1) m.peeked m.queue in
    append-AllBatches m.jobs m.dispatched _ a (record {
      size = omega (arith, f.size);
      shared = inr (key, (find_job-keyed m.jobs job key here (c key refl), f.keyed));
    })
