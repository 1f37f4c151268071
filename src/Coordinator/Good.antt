-- ===== src/Coordinator/Good.antt =====
-- The invariant of `arun`: its local variables and the native state fit together.
use traversal.Base.{
  ℕ, ◌+◌, ◌<◌, ◌≡◌, refl, ◌∙◌, sym, ap, String, Bool, true, List, ◌∷◌, map, length, occurs, is_some,
  lookup, insert, lookup-insert, eq_iff, ◌==◌, ==_iff, if◌then◌else◌, Bool-cases, Option-cases, inl,
  inr, arith, index_of,
}
use traversal.Engine.Errors.{ok}
use traversal.Engine.Run.{
  State, RunState, is_running, is_success, is_outcome, state_at, start, finish,
}
use traversal.Engine.Run.Invariant.{Inv}
use traversal.Engine.Run.Reach.{Reach, here, next, finishes, run-Inv}
use traversal.Engine.Run.Work.{finish-Ends, finish-unfinished, finish_returns}
use traversal.Engine.Binding.{outcome_of, py_finish}
use traversal.Engine.Binding.Valid.{Represents, compile_topology-Represents}
use traversal.Exceptions.{Result, return}
use traversal.History.{Settings, Database}
use traversal.Plan.{native, name_at}
use traversal.Plan.Frozen.{IsFrozen}
use traversal.Coordinator.Kept.{Kept, Kept-refl}
use traversal.Coordinator.Schedule.{indices}
use traversal.Coordinator.{Progress, Setting, Statement, finish_at, timed, lift, modify, ◌>>=◌}

-- The plan is one that `Graph.compile` returned, and the run began with `start`.
pub record Fits (e : Setting) (origin : Progress) : Type 0 where
  pub owner : ℕ
  pub frozen : IsFrozen owner e.plan
  pub capacity : ℕ
  pub new : start e.plan.topology e.plan.targets capacity ≡ ok origin.state

abbrev pub has {ℓ} : {A : Type ℓ} → String → List (String × A) → Bool
has name m = is_some (lookup name m)

-- The running nodes are those of the pending futures and, inside a round, those of `rest`, each once.
-- A node that has succeeded has its output, and every node has a note for the report.
pub record Good (e : Setting) (origin : Progress) (rest : List ℕ) (g : Progress) : Type 0 where
  pub reach : Reach origin.state g.state
  pub held :
      (j : ℕ)
      → occurs j (indices g.pending) + occurs j rest
        ≡ (if is_running (state_at g.state.states j) then 1 else 0)
  pub kept :
      (j : ℕ)
      → is_success (state_at g.state.states j) ≡ true
      → has (name_at e.plan.tasks j) g.outputs ≡ true
  pub recorded : Kept e.run_id origin.db g.db
  pub noted : (j : ℕ) → j < length e.plan.tasks → has (name_at e.plan.tasks j) g.reuse ≡ true

pub has-insert {ℓ} :
    {A : Type ℓ} (name other : String) (v : A) (m : List (String × A))
    → has other m ≡ true
    → has other (insert name v m) ≡ true
has-insert name other v m h = ground (arith, lookup-insert name other v m)

pub has-insert_self {ℓ} :
    {A : Type ℓ} (name : String) (v : A) (m : List (String × A)) → has name (insert name v m) ≡ true
has-insert_self name v m = ground (arith, lookup-insert name name v m, eq_iff name name)

-- A call that returns, with what holds of the variables after it.
abbrev pub Runs : {A : Type 0} → Statement A → Progress → (A → Progress → Type 0) → Type 0
Runs {A} m g P = (a : A) × (g' : Progress) × (m g ≡ (return a, g')) × P a g'

py_finish_calls :
    (r r' : RunState) (index : ℕ) (text : String) (outcome : State)
    → outcome_of text ≡ ok outcome
    → finish r index outcome ≡ ok r'
    → py_finish r index text ≡ ok r'
unfolding py_finish
py_finish_calls r r' index text outcome reads h = rw (py_finish, reads) h

module _ (e : Setting) (origin : Progress) where
  -- What a call of the history that reads the clock leaves of the variables.
  pub timed_returns :
      (f : Settings → ℕ → Database → Database) (g : Progress)
      → ((s : Settings) (now : ℕ) → Kept e.run_id g.db (f s now g.db))
      → (db : Database) × (n : ℕ) × (timed e f g ≡ (return tt, record g { db = db; readings = n }))
        × Kept e.run_id g.db db
  timed_returns f g kept = elim (Option-cases e.plan.store) [
    | inl none_set ↦ (g.db, g.readings, rw none_set refl, Kept-refl e.run_id g.db)
    | inr (s, set) ↦
        (f s (e.clock g.readings) g.db, g.readings + 1, rw set refl, kept s (e.clock g.readings))
  ]

  module _ (fits : Fits e origin) where
    pub represents : Represents (map (λ n. n.0) e.plan.index) e.plan.dependencies e.plan.topology
    represents =
        compile_topology-Represents fits.owner (map (λ n. n.0) e.plan.index) e.plan.dependencies
          fits.frozen.made

    pub state-Inv : (r : RunState) → Reach origin.state r → Inv e.plan.topology r
    state-Inv r run =
        run-Inv represents.builder e.plan.topology e.plan.targets fits.capacity origin.state r
          represents.compiled represents.indexed fits.new run

    -- The next node to account for is running.
    pub head_runs :
        (index : ℕ) (rest : List ℕ) (g : Progress)
        → Good e origin (index ∷ rest) g
        → is_running (state_at g.state.states index) ≡ true
    head_runs index rest g w = ground (arith, w.held index, ==_iff index index)

    finished-Good :
        (index : ℕ) (rest : List ℕ) (outcome : State) (g : Progress) (state : RunState)
        → finish g.state index outcome ≡ ok state
        → is_outcome outcome ≡ true
        → (is_success outcome ≡ true → has (name_at e.plan.tasks index) g.outputs ≡ true)
        → Good e origin (index ∷ rest) g
        → Good e origin rest (record g { state = state })
    finished-Good index rest outcome g state h valid output w =
        let ends = λ (j : ℕ).
          finish-Ends e.plan.topology (λ i. index_of i e.plan.topology.order) g.state index outcome
            {r' = state} j represents.compiled.topology (state-Inv g.state w.reach) h in
        record {
          reach = next w.reach (finishes index outcome h);
          held = λ j. ground (arith, ends j, w.held j, head_runs index rest g w, ==_iff j index);
          kept = λ j s. elim (Bool-cases (j == index)) [
            | inl same ↦
                let here : index ≡ j = sym ((==_iff j index).0 same) in
                ap (λ i. has (name_at e.plan.tasks i) g.outputs) (sym here)
                ∙ output (ground (arith, ends j))
            | inr other ↦ ground (arith, ends j, w.kept j)
          ];
          recorded = w.recorded;
          noted = w.noted;
        }

    finish_at_calls :
        (index : ℕ) (text : String) (outcome : State) (g : Progress) (state : RunState)
        → outcome_of text ≡ ok outcome
        → finish g.state index outcome ≡ ok state
        → finish_at e index text g ≡ (return tt, record g { state = state })
    unfolding finish_at
    finish_at_calls index text outcome g state reads h =
        ap (λ m. finishing g (native m)) (py_finish_calls g.state state index text outcome reads h)
      where
        finishing : Progress → Result RunState → Result (Unit {0}) × Progress
        finishing g m = (lift m >>= λ after. modify (λ g. record g { state = after })) g

    -- `state.finish` returns for the next node to account for, and there is less work then.
    pub finish_at-Good :
        (index : ℕ) (rest : List ℕ) (text : String) (outcome : State) (g : Progress)
        → outcome_of text ≡ ok outcome
        → is_outcome outcome ≡ true
        → (is_success outcome ≡ true → has (name_at e.plan.tasks index) g.outputs ≡ true)
        → Good e origin (index ∷ rest) g
        → (state : RunState) × (finish_at e index text g ≡ (return tt, record g { state = state }))
          × Good e origin rest (record g { state = state })
          × (state.unfinished < g.state.unfinished)
          × Reach g.state state
    finish_at-Good index rest text outcome g reads valid output w =
        let (state, h) = finish_returns g.state index outcome (head_runs index rest g w) valid in
        (
          state,
          finish_at_calls index text outcome g state reads h,
          finished-Good index rest outcome g state h valid output w,
          finish-unfinished e.plan.topology g.state index outcome (state-Inv g.state w.reach) h,
          next here (finishes index outcome h),
        )
