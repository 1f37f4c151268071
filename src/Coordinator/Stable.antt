-- ===== src/Coordinator/Stable.antt =====
-- What every call of the history in `arun` keeps, `arun` keeps, on all its ways.
use traversal.Base.{
  ℕ, ◌≡◌, refl, String, Bool, true, false, Option, none, some, List, [], ◌∷◌, ◌++◌, if◌then◌else◌,
  insert, lookup, keep, not, ◌||◌, ◌==◌, Option-cases, inl, inr,
}
use traversal.Exceptions.{Result, return, raise, index_error, key_error}
use traversal.Cache.{Object}
use traversal.History.{
  Settings, Failure, Database, mark_running, mark_finished, reuse_note, end_run,
}
use traversal.History.Stored.{save_result}
use traversal.Values.{map_values, map_items}
use traversal.Graph.{Task}
use traversal.Plan.{native, name_at}
use traversal.Engine.Binding.{py_finish}
use traversal.Plan.Explain.{needs_store}
use traversal.Coordinator.{
  Outcome, was_cancelled, returned, raised, Progress, Setting, Statement, task_at, output_of,
  key_of, timed, stored, finish_at, take_reused, launch, look_up, dispatch, dispatch_all, save,
  record_end, complete, complete_all, ◌>>=◌, ◌>>◌, pure, modify, read, lift,
}

module _ (e : Setting) (P : Database → Type 0) where
  -- The calls of the history keep the property.
  pub record IsStable : Type 0 where
    pub running :
        (s : Settings) (name : String) (now : ℕ) (db : Database)
        → e.plan.store ≡ some s
        → P db
        → P (mark_running db e.run_id name now)
    pub finished :
        (s : Settings) (name state : String) (failure : Option Failure) (now : ℕ) (db : Database)
        → e.plan.store ≡ some s
        → P db
        → P (mark_finished s db e.run_id name state failure now)
    pub noted :
        (s : Settings) (name : String) (key : Option String) (reason : String) (db : Database)
        → e.plan.store ≡ some s
        → P db
        → P (reuse_note db e.run_id name key reason)
    pub saved :
        (s : Settings) (key : String) (v : Object) (db : Database)
        → e.plan.store ≡ some s
        → P db
        → P (save_result e.codec s e.frames db key v).0
    pub ending :
        (s : Settings) (states : List (String × String)) (status : String) (now : ℕ) (db : Database)
        → e.plan.store ≡ some s
        → P db
        → P (end_run db e.run_id states status now)

  -- The statement keeps the property of the database, also when it raises.
  pub record Keeps (A : Type 0) (m : Statement A) : Type 0 where
    pub keeps : (g : Progress) → P g.db → P (m g).1.db

  after :
      {A B : Type 0} (f : A → Statement B) (r : Result A) (g : Progress)
      → ((a : A) → Keeps B (f a))
      → P g.db
      → P (◌>>=◌ (λ _. (r, g)) f g).1.db
  after f (return a) g k p = (k a).keeps g p
  after f (raise x) g k p = p

  chain :
      {A B : Type 0} {m : Statement A} {f : A → Statement B}
      → Keeps A m
      → ((a : A) → Keeps B (f a))
      → Keeps B (m >>= f)
  chain {m = m} {f = f} k l = record { keeps = λ g p. after f (m g).0 (m g).1 l (k.keeps g p) }

  lift-Keeps : {A : Type 0} (r : Result A) → Keeps A (lift r)
  lift-Keeps r = record { keeps = λ g p. p }

  read-Keeps : {A : Type 0} (f : Progress → A) → Keeps A (read f)
  read-Keeps f = record { keeps = λ g p. p }

  pure-Keeps : {A : Type 0} (a : A) → Keeps A (pure a)
  pure-Keeps a = record { keeps = λ g p. p }

  modify-Keeps :
      (f : Progress → Progress) → ((g : Progress) → (f g).db ≡ g.db) → Keeps (Unit {0}) (modify f)
  modify-Keeps f same = record { keeps = λ g p. rw (same g) p }

  module _ (stable : IsStable) where
    timed-Keeps :
        (f : Settings → ℕ → Database → Database)
        → ((s : Settings) (now : ℕ) (db : Database) → e.plan.store ≡ some s → P db → P (f s now db))
        → Keeps (Unit {0}) (timed e f)
    timed-Keeps f k = record {
      keeps = λ g p. elim (Option-cases e.plan.store) [
        | inl unset ↦ rw unset p
        | inr (s, set) ↦ rw set (k s (e.clock g.readings) g.db set p)
      ];
    }

    stored-Keeps :
        (f : Settings → Database → Database)
        → ((s : Settings) (db : Database) → e.plan.store ≡ some s → P db → P (f s db))
        → Keeps (Unit {0}) (stored e f)
    stored-Keeps f k = record {
      keeps = λ g p. elim (Option-cases e.plan.store) [
        | inl unset ↦ rw unset p
        | inr (s, set) ↦ rw set (k s g.db set p)
      ];
    }

    finish_at-Keeps : (index : ℕ) (outcome : String) → Keeps (Unit {0}) (finish_at e index outcome)
    unfolding finish_at
    finish_at-Keeps index outcome = chain (read-Keeps (λ g. g.state)) (λ state.
        chain (lift-Keeps (native (py_finish state index outcome)))
          (λ next. modify-Keeps (λ g. record g { state = next }) (λ g. refl)))

    reuse_note-Keeps :
        (name : String) (key : Option String) (reason : String)
        → Keeps (Unit {0}) (stored e (λ s db. reuse_note db e.run_id name key reason))
    reuse_note-Keeps name key reason =
        stored-Keeps (λ s db. reuse_note db e.run_id name key reason)
          (λ s db. stable.noted s name key reason db)

    mark_finished-Keeps :
        (name state : String) (failure : Option Failure)
        → Keeps
            (Unit {0})
            (timed e (λ s now db. mark_finished s db e.run_id name state failure now))
    mark_finished-Keeps name state failure =
        timed-Keeps (λ s now db. mark_finished s db e.run_id name state failure now)
          (λ s now db. stable.finished s name state failure now db)

    take_reused-Keeps :
        (index : ℕ) (name : String) (value : Object) (reason : String)
        → Keeps (Unit {0}) (take_reused e index name value reason)
    unfolding take_reused
    take_reused-Keeps index name value reason =
        chain
          (modify-Keeps
            (λ g. record g {
              outputs = insert name value g.outputs;
              reuse = insert name reason g.reuse;
            })
            (λ g. refl))
          (λ _. chain (reuse_note-Keeps name (key_of e index) reason) (λ _.
            chain (mark_finished-Keeps name "reused" none) (λ _. finish_at-Keeps index "reused")))

    launch-Keeps : (index : ℕ) (t : Task) → Keeps (Unit {0}) (launch e index t)
    unfolding launch
    launch-Keeps index t =
        chain
          (timed-Keeps (λ s now db. mark_running db e.run_id t.reference.name now)
            (λ s now db. stable.running s t.reference.name now db))
          (λ _. chain (read-Keeps (λ g. g.outputs)) (λ outputs.
            chain (lift-Keeps (map_values t.args (output_of outputs) tt)) (λ _.
              chain (lift-Keeps (map_items t.kwargs (output_of outputs) tt)) (λ _.
                modify-Keeps
                  (λ g. record g { pending = g.pending ++ (index, t.function.is_async) ∷ [] })
                  (λ g. refl)))))

    dispatch-Keeps : (index : ℕ) → Keeps Bool (dispatch e index)
    unfolding dispatch
    dispatch-Keeps index = elim (Option-cases (task_at e.plan.tasks index)) [
      | inl missing ↦ rw (dispatch, missing) (lift-Keeps (raise index_error))
      | inr (t, found) ↦
          rw (dispatch, found)
            (chain (read-Keeps (λ g. look_up e index t.reference.name g.db)) (λ hit. by_hit hit t))
    ]
      where
        by_hit :
            (hit : Option (Object × String)) (t : Task)
            → Keeps Bool (elim hit [
              | none ↦ launch e index t >> pure false
              | some (v, reason) ↦ take_reused e index t.reference.name v reason >> pure true
            ])
        by_hit none t = chain (launch-Keeps index t) (λ _. pure-Keeps false)
        by_hit (some (v, reason)) t =
            chain (take_reused-Keeps index t.reference.name v reason) (λ _. pure-Keeps true)

    pub dispatch_all-Keeps : (indices : List ℕ) → Keeps Bool (dispatch_all e indices)
    unfolding dispatch_all
    dispatch_all-Keeps [] = pure-Keeps false
    dispatch_all-Keeps (index ∷ rest) =
        chain (dispatch-Keeps index)
          (λ here. chain (dispatch_all-Keeps rest) (λ later. pure-Keeps (here || later)))

    save-Keeps :
        (index : ℕ) (name : String) (value : Object) → Keeps (Unit {0}) (save e index name value)
    unfolding save
    save-Keeps index name value = record {
      keeps = λ g p. elim (Option-cases e.plan.store) [
        | inl unset ↦ rw (save, unset) p
        | inr (s, set) ↦ elim (Option-cases (key_of e index)) [
          | inl keyless ↦ rw (save, set, keyless) p
          | inr (key, keyed) ↦ rw (save, set, keyed) (stable.saved s key value g.db set p)
        ]
      ];
    }

    record_end-Keeps :
        (index : ℕ) (name state : String) (failure : Option Failure)
        → Keeps (Unit {0}) (record_end e index name state failure)
    unfolding record_end
    record_end-Keeps index name state failure = chain (read-Keeps (λ g. g.reuse)) (λ notes.
        chain
          (lift-Keeps
            (elim (lookup name notes) [ none ↦ raise (key_error name) | some n ↦ return n ]))
          (λ note.
            chain (reuse_note-Keeps name (key_of e index) note)
              (λ _. mark_finished-Keeps name state failure)))

    if-Keeps :
        (b : Bool) {A : Type 0} (m k : Statement A)
        → Keeps A m
        → Keeps A k
        → Keeps A (if b then m else k)
    if-Keeps true m k p q = p
    if-Keeps false m k p q = q

    complete-Keeps : (index : ℕ) (outcome : Outcome) → Keeps (Unit {0}) (complete e index outcome)
    unfolding complete
    complete-Keeps index was_cancelled =
        chain (finish_at-Keeps index "cancelled")
          (λ _. mark_finished-Keeps (name_at e.plan.tasks index) "cancelled" none)
    complete-Keeps index (returned value) =
        let name = name_at e.plan.tasks index in
        chain (modify-Keeps (λ g. record g { outputs = insert name value g.outputs }) (λ g. refl))
          (λ _. chain (save-Keeps index name value) (λ _.
            chain (finish_at-Keeps index "succeeded") (λ _.
              if-Keeps (needs_store e.plan.store) (pure tt)
                (record_end e index name "succeeded" none) (pure-Keeps tt)
                (record_end-Keeps index name "succeeded" none))))
    complete-Keeps index (raised truth failure) =
        let name = name_at e.plan.tasks index in
        chain
          (modify-Keeps (λ g. record g { failures = insert name failure g.failures }) (λ g. refl))
          (λ _. chain (finish_at-Keeps index "failed") (λ _.
            if-Keeps (needs_store e.plan.store) (pure tt)
              (record_end e index name (if truth then "failed" else "succeeded") (some failure))
              (pure-Keeps tt)
              (record_end-Keeps index name (if truth then "failed" else "succeeded")
                (some failure))))

    pub complete_all-Keeps : (batch : List (ℕ × Outcome)) → Keeps (Unit {0}) (complete_all e batch)
    unfolding complete_all
    complete_all-Keeps [] = pure-Keeps tt
    complete_all-Keeps ((index, outcome) ∷ rest) =
        chain
          (modify-Keeps (λ g. record g { pending = keep (λ f. not (f.0 == index)) g.pending })
            (λ g. refl))
          (λ _. chain (complete-Keeps index outcome) (λ _. complete_all-Keeps rest))
