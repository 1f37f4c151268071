-- ===== src/Coordinator.antt =====
-- `Plan.arun` of python/traversal/graph.py: the loop between the native scheduler, the functions and
-- the history. The event loop and the functions are the environment: a list of batches says which of
-- the pending futures each `asyncio.wait` returns, in the order of their indices, and how each ended.
pub mod Loop
pub mod Reuse
pub mod Prepare
pub mod Arguments
pub mod Good
pub mod Dispatch
pub mod Complete
pub mod Schedule
pub mod Ends
pub mod Begin
pub mod Arun
pub mod Kept
pub mod Stable
pub mod Always
pub mod Effects
pub mod Record
pub mod Interrupted
pub mod Runs
pub mod Samples
use traversal.Base.{
  ℕ, zero, suc, ◌+◌, String, Bool, true, false, not, ◌&&◌, ◌||◌, Option, none, some, List, [], ◌∷◌,
  ◌++◌, map, length, get_or, get_elem?, keep, some_of, every, ◌==◌, if◌then◌else◌, str_eq, mem_text,
  lookup, insert,
}
use traversal.Engine.Run.{RunState}
use traversal.Engine.Run
use traversal.Engine.Binding.{py_finish, py_states}
use traversal.Exceptions.{
  Exception, value_error, key_error, runtime_error, resume_decision, index_error, Result, return,
  raise,
}
use traversal.Cache.{Object, Codec}
use traversal.History.{
  Settings, Failure, Database, start, mark_running, mark_finished, end_run, reuse_note,
  release_lease,
}
use traversal.History.Stored.{cached, save_result}
use traversal.Values.{Node, Value, Values, Items, object, map_values, map_items}
use traversal.Graph.{Function, Task}
use traversal.Plan.{Plan, native, name_at, fingerprints}
use traversal.Plan.Explain.{Advice, Action, decision, explain_run, needs_store}
use traversal.Report.{RunReport, is_good}

-- How a future ends: `invoke` was cancelled, returned, or raised (wrapped in `_TaskException`); with
-- an exception goes its truth value.
pub data Outcome : Type 0 where
  was_cancelled : Outcome
  returned : Object → Outcome
  raised : (truth : Bool) → Failure → Outcome

-- The local variables of `arun`; `readings` counts the calls of `time.time()`.
pub record Progress : Type 0 where
  pub state : RunState
  pub db : Database
  pub outputs : List (String × Object)
  pub failures : List (String × Failure)
  pub reuse : List (String × String)
  pub pending : List (ℕ × Bool)
  pub readings : ℕ

-- The task at an index.
abbrev pub task_at : List Task → ℕ → Option Task
task_at tasks i = get_elem? tasks i

-- `outputs[n.name]`
abbrev pub output_of : List (String × Object) → Unit {0} → Node → Result (Unit {0} × Value Object)
output_of outputs s n = elim (lookup n.name outputs) [
  | none ↦ raise (key_error n.name)
  | some v ↦ return (s, object v)
]

-- What does not change during a run. `clock` gives the value of each call of `time.time()`, `run_id`
-- the new run's UUID.
pub record Setting : Type 0 where
  pub codec : Codec
  pub frames : ℕ
  pub plan : Plan
  pub previous : Option String
  pub force : List String
  pub keys : List (Option String)
  pub run_id : String
  pub clock : ℕ → ℕ

-- Statements of `arun`: the variables outlive an exception.
abbrev pub Statement : Type 0 → Type 0
Statement A = Progress → Result A × Progress

infixl 5 ◌>>=◌ ◌>>◌
abbrev pub ◌>>=◌ : {A B : Type 0} → Statement A → (A → Statement B) → Statement B
◌>>=◌ m f g = let (r, g') = m g in elim r [ return a ↦ f a g' | raise x ↦ (raise x, g') ]

abbrev pub ◌>>◌ : {A B : Type 0} → Statement A → Statement B → Statement B
m >> k = m >>= λ _. k

abbrev pub pure : {A : Type 0} → A → Statement A
pure a g = (return a, g)

abbrev pub modify : (Progress → Progress) → Statement (Unit {0})
modify f g = (return tt, f g)

abbrev pub read : {A : Type 0} → (Progress → A) → Statement A
read f g = (return (f g), g)

abbrev pub lift : {A : Type 0} → Result A → Statement A
lift r g = (r, g)

module _ (e : Setting) where
  -- A method of the history that reads the clock, if the plan has a store.
  abbrev pub timed : (Settings → ℕ → Database → Database) → Statement (Unit {0})
  timed f g = elim e.plan.store [
    | none ↦ (return tt, g)
    | some s ↦
        (return tt, record g { db = f s (e.clock g.readings) g.db; readings = g.readings + 1 })
  ]

  -- One that does not.
  abbrev pub stored : (Settings → Database → Database) → Statement (Unit {0})
  stored f g = elim e.plan.store [
    | none ↦ (return tt, g)
    | some s ↦ (return tt, record g { db = f s g.db })
  ]

  abbrev pub key_of : ℕ → Option String
  key_of index = get_or e.keys index none

  -- `state.finish(index, outcome)`; a ValueError of the native module passes through.
  unfoldable pub finish_at : ℕ → String → Statement (Unit {0})
  unfolding py_finish
  finish_at index outcome = do
    state ← read (λ g. g.state)
    after ← lift (native (py_finish state index outcome))
    modify (λ g. record g { state = after })

  -- A hit in the cache.
  unfoldable pub take_reused : ℕ → String → Object → String → Statement (Unit {0})
  unfolding finish_at reuse_note mark_finished insert
  take_reused index name value reason = do
    modify (λ g. record g {
      outputs = insert name value g.outputs;
      reuse = insert name reason g.reuse;
    })
    stored (λ s db. reuse_note db e.run_id name (key_of index) reason)
    timed (λ s now db. mark_finished s db e.run_id name "reused" none now)
    finish_at index "reused"

  -- The future is created: the arguments are read from the outputs.
  unfoldable pub launch : ℕ → Task → Statement (Unit {0})
  unfolding mark_running map_values map_items
  launch index t = do
    timed (λ s now db. mark_running db e.run_id t.reference.name now)
    outputs ← read (λ g. g.outputs)
    args ← lift (map_values t.args (output_of outputs) tt)
    kwargs ← lift (map_items t.kwargs (output_of outputs) tt)
    modify (λ g. record g { pending = g.pending ++ (index, t.function.is_async) ∷ [] })

  -- What the cache has for an admitted node: `none` if it may not or cannot be reused.
  unfoldable pub look_up : ℕ → String → Database → Option (Object × String)
  unfolding cached mem_text
  look_up index name db = elim e.plan.store [
    | none ↦ none
    | some settings ↦ elim (key_of index) [
      | none ↦ none
      | some key ↦
          if mem_text name e.force
          then none
          else (let hit = cached e.codec settings e.frames db key e.previous name in
              elim hit.value [ none ↦ none | some v ↦ some (v, hit.reason) ])
    ]
  ]

  -- The body of the loop over the admitted nodes; the result says whether the node was reused.
  unfoldable pub dispatch : ℕ → Statement Bool
  unfolding take_reused launch look_up
  dispatch index = elim (task_at e.plan.tasks index) [
    | none ↦ lift (raise index_error)
    | some t ↦ do
      hit ← read (λ g. look_up index t.reference.name g.db)
      elim hit [
        | none ↦ launch index t >> pure false
        | some (v, reason) ↦ take_reused index t.reference.name v reason >> pure true
      ]
  ]

  -- The loop over the admitted nodes: the value of `reused_any`.
  unfoldable pub dispatch_all : List ℕ → Statement Bool
  unfolding dispatch
  dispatch_all [] = pure false
  dispatch_all (index ∷ rest) = do
    here ← dispatch index
    later ← dispatch_all rest
    pure (here || later)

  -- The note of `_save_result`, or the old one: `reuse[name]`.
  unfoldable pub save : ℕ → String → Object → Statement (Unit {0})
  unfolding save_result insert
  save index name value g = elim e.plan.store [
    | none ↦ (return tt, g)
    | some settings ↦ elim (key_of index) [
      | none ↦ (return tt, g)
      | some key ↦
          let (db, note) = save_result e.codec settings e.frames g.db key value in
          (return tt, record g { db = db; reuse = insert name note g.reuse })
    ]
  ]

  -- The last two calls of `complete`.
  unfoldable pub record_end : ℕ → String → String → Option Failure → Statement (Unit {0})
  unfolding reuse_note mark_finished lookup
  record_end index name state failure = do
    notes ← read (λ g. g.reuse)
    note ← lift (elim (lookup name notes) [ none ↦ raise (key_error name) | some n ↦ return n ])
    stored (λ s db. reuse_note db e.run_id name (key_of index) note)
    timed (λ s now db. mark_finished s db e.run_id name state failure now)

  -- `complete(future, index)`
  unfoldable pub complete : ℕ → Outcome → Statement (Unit {0})
  unfolding finish_at save record_end mark_finished insert
  complete index was_cancelled = do
    finish_at index "cancelled"
    timed
        (λ s now db. mark_finished s db e.run_id (name_at e.plan.tasks index) "cancelled" none now)
  complete index (returned value) = do
    let name = name_at e.plan.tasks index
    modify (λ g. record g { outputs = insert name value g.outputs })
    save index name value
    finish_at index "succeeded"
    if needs_store e.plan.store then pure tt else record_end index name "succeeded" none
  complete index (raised truth failure) = do
    let name = name_at e.plan.tasks index
    modify (λ g. record g { failures = insert name failure g.failures })
    finish_at index "failed"
    if needs_store e.plan.store
        then pure tt
        else record_end index name (if truth then "failed" else "succeeded") (some failure)

  -- `for future in sorted(done, …): index, _ = pending.pop(future); complete(future, index)`
  unfoldable pub complete_all : List (ℕ × Outcome) → Statement (Unit {0})
  unfolding complete
  complete_all [] = pure tt
  complete_all ((index, outcome) ∷ rest) = do
    modify (λ g. record g { pending = keep (λ f. not (f.0 == index)) g.pending })
    complete index outcome
    complete_all rest

  abbrev pub is_empty {ℓ} : {A : Type ℓ} → List A → Bool
  is_empty [] = true
  is_empty (x ∷ xs) = false
