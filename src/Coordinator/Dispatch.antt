-- ===== src/Coordinator/Dispatch.antt =====
-- The loop of `arun` over the admitted nodes: it raises nothing and keeps the invariant.
use traversal.Base.{
  length-map, ℕ, zero, suc, ◌+◌, ◌≤◌, ◌<◌, ◌≡◌, refl, ◌∙◌, ap, String, Bool, true, false, ◌||◌,
  none, some, List, [], ◌∷◌, ◌++◌, length, get_or, get_elem?, get_elem?_of_lt, mem, occurs, insert,
  ◌==◌, if◌then◌else◌, every_at, Option-cases, inl, inr, arith,
}
use traversal.Engine.Topology.Shape.{deps_of}
use traversal.Engine.Run.{reused, is_running}
use traversal.Engine.Run.Counts.{lt_of_state}
use traversal.Engine.Run.Sound.{succeeds}
use traversal.Engine.Binding.{outcome_of}
use traversal.Exceptions.{Result, return}
use traversal.Cache.{Object}
use traversal.History.{Settings, Database, mark_running, mark_finished, reuse_note}
use traversal.Values.{map_values, map_items}
use traversal.Graph.{Task}
use traversal.Plan.{name_at}
use traversal.Plan.Walk.{Returns}
use traversal.Coordinator.{
  Progress, Setting, output_of, finish_at, key_of, look_up, launch, take_reused, dispatch,
  dispatch_all,
}
use traversal.Coordinator.Kept.{
  Kept, Kept-refl, Kept-trans, mark_running-Kept, mark_finished-Kept, reuse_note-Kept,
}
use traversal.Coordinator.Schedule.{indices}
use traversal.Coordinator.Arguments.{index-le-tasks, arguments_return}
use traversal.Coordinator.Good.{
  Fits, Good, has, has-insert, has-insert_self, represents, state-Inv, head_runs, finish_at-Good,
}

name_at-get_elem? :
    (tasks : List Task) (i : ℕ) (t : Task)
    → get_elem? tasks i ≡ some t
    → name_at tasks i ≡ t.reference.name
name_at-get_elem? [] i t h = cc
name_at-get_elem? (u ∷ tasks) zero t h = let e : u ≡ t = cc in rw e refl
name_at-get_elem? (u ∷ tasks) (suc i) t h = name_at-get_elem? tasks i t h

occurs_pending :
    (j index : ℕ) (is_async : Bool) (pending : List (ℕ × Bool))
    → occurs j (indices (pending ++ (index, is_async) ∷ []))
      ≡ occurs j (indices pending) + (if j == index then 1 else 0)
occurs_pending j index is_async [] = ground arith
occurs_pending j index is_async (f ∷ pending) =
    ground (arith, occurs_pending j index is_async pending)

module _ (e : Setting) (origin : Progress) where
  launch_calls :
      (index : ℕ) (t : Task) (g : Progress)
      → Returns (map_values t.args (output_of g.outputs) tt)
      → Returns (map_items t.kwargs (output_of g.outputs) tt)
      → (db : Database) × (n : ℕ) × (launch e index t g ≡ (
        return tt,
        record g {
          db = db;
          readings = n;
          pending = g.pending ++ (index, t.function.is_async) ∷ [];
        },
      ))
        × Kept e.run_id g.db db
  unfolding launch
  launch_calls index t g (args, read_args) (kwargs, read_kwargs) =
      elim (Option-cases e.plan.store) [
        | inl none_set ↦ (
          g.db,
          g.readings,
          rw (launch, none_set, read_args, read_kwargs) refl,
          Kept-refl e.run_id g.db,
        )
        | inr (s, set) ↦ (
          mark_running g.db e.run_id t.reference.name (e.clock g.readings),
          g.readings + 1,
          rw (launch, set, read_args, read_kwargs) refl,
          mark_running-Kept e.run_id t.reference.name (e.clock g.readings) g.db,
        )
      ]

  -- The variables after a hit, but for the state.
  unfoldable pub hit_variables : Settings → ℕ → String → Object → String → Progress → Progress
  hit_variables s index name value reason g = record g {
    outputs = insert name value g.outputs;
    reuse = insert name reason g.reuse;
    db =
        mark_finished s (reuse_note g.db e.run_id name (key_of e index) reason) e.run_id name
          "reused" none (e.clock g.readings);
    readings = g.readings + 1;
  }

  pub take_reused_calls :
      (s : Settings) (index : ℕ) (name : String) (value : Object) (reason : String) (g : Progress)
      (ending : Result (Unit {0}) × Progress)
      → e.plan.store ≡ some s
      → finish_at e index "reused" (hit_variables s index name value reason g) ≡ ending
      → take_reused e index name value reason g ≡ ending
  unfolding take_reused hit_variables
  take_reused_calls s index name value reason g ending set h = rw (take_reused, set) h

  pub dispatch-launch :
      (index : ℕ) (t : Task) (g g' : Progress)
      → get_elem? e.plan.tasks index ≡ some t
      → look_up e index t.reference.name g.db ≡ none
      → launch e index t g ≡ (return tt, g')
      → dispatch e index g ≡ (return false, g')
  unfolding dispatch
  dispatch-launch index t g g' found miss h = ground (arith, found, miss, h)

  pub dispatch_hit :
      (index : ℕ) (t : Task) (v : Object) (reason : String) (g g' : Progress)
      → get_elem? e.plan.tasks index ≡ some t
      → look_up e index t.reference.name g.db ≡ some (v, reason)
      → take_reused e index t.reference.name v reason g ≡ (return tt, g')
      → dispatch e index g ≡ (return true, g')
  unfolding dispatch
  dispatch_hit index t v reason g g' found hit h = ground (arith, found, hit, h)

  look_up-store :
      (index : ℕ) (name : String) (g : Progress)
      → e.plan.store ≡ none
      → look_up e index name g.db ≡ none
  unfolding look_up
  look_up-store index name g none_set = rw (look_up, none_set) refl

  dispatch_all_step :
      (index : ℕ) (rest : List ℕ) (here later : Bool) (g g₁ g₂ : Progress)
      → dispatch e index g ≡ (return here, g₁)
      → dispatch_all e rest g₁ ≡ (return later, g₂)
      → dispatch_all e (index ∷ rest) g ≡ (return (here || later), g₂)
  unfolding dispatch_all
  dispatch_all_step index rest here later g g₁ g₂ h k = ground (arith, h, k)

  module _ (fits : Fits e origin) where
    -- A running node has a task.
    pub running_task :
        (index : ℕ) (rest : List ℕ) (g : Progress)
        → Good e origin (index ∷ rest) g
        → (t : Task) × (get_elem? e.plan.tasks index ≡ some t)
    running_task index rest g w =
        let inv = state-Inv e origin fits g.state w.reach in
        let inside =
          lt_of_state is_running g.state.states index refl
            (head_runs e origin fits index rest g w) in
        get_elem?_of_lt e.plan.tasks index (
          omega (
            arith,
            inside,
            inv.sound.as_many_states,
            ap length (represents e origin fits).names_are,
            length-map (λ n. n.0) e.plan.index,
            index-le-tasks e.plan fits.owner fits.frozen,
          ))

    -- The dependencies of a running node have outputs.
    running_ready :
        (index : ℕ) (rest : List ℕ) (g : Progress) (d : ℕ)
        → Good e origin (index ∷ rest) g
        → mem d (get_or e.plan.dependencies index []) ≡ true
        → has (name_at e.plan.tasks d) g.outputs ≡ true
    running_ready index rest g d w m =
        let inv = state-Inv e origin fits g.state w.reach in
        let runs = head_runs e origin fits index rest g w in
        let met = inv.sound.met index (ground arith) in
        w.kept d (
          every_at (succeeds g.state.states) (deps_of e.plan.topology index) d met
            ((represents e origin fits).rows_are index d ∙ m))

    launch-Good :
        (index : ℕ) (rest : List ℕ) (g : Progress) (db : Database) (n : ℕ) (is_async : Bool)
        → Kept e.run_id g.db db
        → Good e origin (index ∷ rest) g
        → Good e origin rest
            (record g { db = db; readings = n; pending = g.pending ++ (index, is_async) ∷ [] })
    launch-Good index rest g db n is_async kept w = record {
      reach = w.reach;
      held = λ j. ground (arith, w.held j, occurs_pending j index is_async g.pending);
      kept = w.kept;
      recorded = Kept-trans e.run_id origin.db g.db db w.recorded kept;
      noted = w.noted;
    }

    hit-Good :
        (s : Settings) (index : ℕ) (name : String) (v : Object) (reason : String) (rest : List ℕ)
        (g : Progress)
        → Good e origin rest g
        → Good e origin rest (hit_variables s index name v reason g)
    unfolding hit_variables
    hit-Good s index name v reason rest g w = record {
      reach = w.reach;
      held = w.held;
      kept = λ j h. has-insert name (name_at e.plan.tasks j) v g.outputs (w.kept j h);
      recorded = Kept-trans e.run_id origin.db g.db _ w.recorded (
          Kept-trans e.run_id g.db (reuse_note g.db e.run_id name (key_of e index) reason) _
            (reuse_note-Kept e.run_id name (key_of e index) reason g.db)
            (mark_finished-Kept e.run_id s name "reused" none (e.clock g.readings)
              (reuse_note g.db e.run_id name (key_of e index) reason)));
      noted = λ j h. has-insert name (name_at e.plan.tasks j) reason g.reuse (w.noted j h);
    }

    -- What dispatching nodes does: the invariant stays, and a reused node leaves less work.
    abbrev pub Dispatches : List ℕ → Bool → Progress → Progress → Type 0
    Dispatches rest again g g' =
        Good e origin rest g'
        × (g'.state.unfinished ≤ g.state.unfinished)
        × (again ≡ true → g'.state.unfinished < g.state.unfinished)
        × (again ≡ false → g'.state ≡ g.state)

    dispatch-Good :
        (index : ℕ) (rest : List ℕ) (g : Progress)
        → Good e origin (index ∷ rest) g
        → (again : Bool) × (g' : Progress) × (dispatch e index g ≡ (return again, g'))
          × Dispatches rest again g g'
    unfolding hit_variables outcome_of
    dispatch-Good index rest g w =
        let (t, found) = running_task index rest g w in
        elim (Option-cases (look_up e index t.reference.name g.db)) [
          | inl miss ↦
              let (args, kwargs) =
                arguments_return e.plan fits.owner fits.frozen g.outputs index t found
                  (λ d. running_ready index rest g d w) in
              let (db, n, h, kept) = launch_calls index t g args kwargs in
              (
                false,
                _,
                dispatch-launch index t g _ found miss h,
                (
                  launch-Good index rest g db n t.function.is_async kept w,
                  omega arith,
                  λ f. cc,
                  λ _. refl,
                ),
              )
          | inr ((v, reason), hit) ↦ elim (Option-cases e.plan.store) [
            | inl none_set ↦ cc (look_up-store index t.reference.name g none_set)
            | inr (s, set) ↦
                let name = t.reference.name in
                let named : name_at e.plan.tasks index ≡ name =
                  name_at-get_elem? e.plan.tasks index t found in
                let (state, h, w', less, _) =
                  finish_at-Good e origin fits index rest "reused" reused
                    (hit_variables s index name v reason g) refl refl
                    (λ _. rw named (has-insert_self name v g.outputs))
                    (hit-Good s index name v reason (index ∷ rest) g w) in
                (
                  true,
                  _,
                  dispatch_hit index t v reason g _ found hit
                      (take_reused_calls s index name v reason g _ set h),
                  (w', omega (arith, less), λ _. less, λ f. cc),
                )
          ]
        ]

    -- The loop over the admitted nodes returns and keeps the invariant.
    pub dispatch_all-Good :
        (rest : List ℕ) (g : Progress)
        → Good e origin rest g
        → (again : Bool) × (g' : Progress) × (dispatch_all e rest g ≡ (return again, g'))
          × Dispatches [] again g g'
    unfolding dispatch_all
    dispatch_all-Good [] g w = (false, g, refl, (w, omega arith, λ f. cc, λ _. refl))
    dispatch_all-Good (index ∷ rest) g w =
        let (here, g₁, h, (w₁, less₁, first, kept₁)) = dispatch-Good index rest g w in
        let (later, g₂, k, (w₂, less₂, others, kept₂)) = dispatch_all-Good rest g₁ w₁ in
        (
          here || later,
          g₂,
          dispatch_all_step index rest here later g g₁ g₂ h k,
          (
            w₂,
            omega (arith, less₁, less₂),
            λ any. ground (arith, less₁, less₂, first, others),
            λ none. kept₂ (ground arith) ∙ kept₁ (ground arith),
          ),
        )
