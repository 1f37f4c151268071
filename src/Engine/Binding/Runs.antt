-- ===== src/Engine/Binding/Runs.antt =====
-- Runs of what Python hands to the native module: the topology comes from `compile_topology`, the run
-- from `start`, and then `admit`, `finish` and `cancel` are called in any order.
use traversal.Base.{
  ℕ, ◌≤◌, ◌<◌, ◌≡◌, ◌≢◌, ◌∙◌, ◌↔◌, [], Bool, true, false, String, List, length, get_or, mem, count,
  every_at, every_same_members, every, ◌&&◌, if◌then◌else◌, index_of,
}
use traversal.Engine.Errors.{ok}
use traversal.Engine.Topology.{Topology, select}
use traversal.Engine.Topology.Shape.{deps_of}
use traversal.Engine.Topology.Closure.{select-Needed}
use traversal.Engine.Topology.Closing.{Needed}
use traversal.Engine.Run.{
  State, is_running, is_pending, is_success, RunState, state_at, ready, blocked, done, start, admit,
  finish,
}
use traversal.Engine.Run.Counts.{is_live}
use traversal.Engine.Run.Sound.{is_started, succeeds}
use traversal.Engine.Run.Invariant.{Inv}
use traversal.Engine.Run.Reach.{Reach, run-Inv, run_counts, run_after_dependencies, run_progress}
use traversal.Engine.Run.Contract.{Behaves}
use traversal.Engine.Run.Refines.{Reach-Behaves, finish-Success}
use traversal.Engine.Run.Failure.{Depends, finish_blocks}
use traversal.Engine.Binding.{compile_topology}
use traversal.Engine.Binding.Valid.{Represents, compile_topology-Represents}

module _ (owner : ℕ) (names : List String) (rows : List (List ℕ)) (g : Topology)
    (made : compile_topology owner names rows ≡ ok g) where
  represents : Represents names rows g
  represents = compile_topology-Represents owner names rows made

  -- For a topology that `compile_topology` returns and the selection that `select` returns for
  -- targets: a node is selected exactly when it is a target or some needed node depends on it.
  pub selects-Needed :
      (targets : List String) (selected : List Bool) (i : ℕ)
      → select g targets ≡ ok selected
      → (get_or selected i false ≡ true) ↔ Needed g targets i
  selects-Needed targets selected i =
      select-Needed g targets (λ j. index_of j g.order) i represents.compiled.topology
        represents.indexed

  module _ (targets : List String) (capacity : ℕ) (r₀ r : RunState)
      (new : start g targets capacity ≡ ok r₀) (run : Reach r₀ r) where
    reached-Inv : Inv g r
    reached-Inv =
        run-Inv represents.builder g targets capacity r₀ r represents.compiled represents.indexed
          new run

    -- For a topology that `compile_topology` returns and a run that `start` returns: after any
    -- calls of `admit`, `finish` and `cancel`, the nodes' states are states that an abstract
    -- scheduler reaches, which has no counters and no queue: it begins with the needed nodes ready
    -- or pending; admission starts ready nodes until none is left or `capacity` nodes run; a
    -- success makes ready each pending node with no dependency left; another outcome blocks each
    -- pending node that depends on the node; cancellation cancels each pending or ready node.
    pub refines_abstract_scheduler : Behaves g targets capacity r.states
    refines_abstract_scheduler =
        Reach-Behaves represents.builder g targets capacity represents.compiled represents.indexed
          new run

    -- For a topology that `compile_topology` returns and a run that `start` returns: after any
    -- calls of `admit`, `finish` and `cancel`, at most `capacity` nodes are running, `active` is
    -- their number, and `unfinished` is the number of nodes that are pending, ready or running.
    pub bounded_concurrency :
        (count is_running r.states ≤ capacity)
        × (r.active ≡ count is_running r.states)
        × (r.unfinished ≡ count is_live r.states)
    bounded_concurrency =
        run_counts represents.builder g targets capacity r₀ r represents.compiled represents.indexed
          new run

    -- For a topology that `compile_topology` returns and a run that `start` returns: after any
    -- calls of `admit`, `finish` and `cancel`, if a node is ready, running, succeeded, reused or
    -- failed, then each node in its row of the given dependencies has succeeded or is reused.
    pub dependencies_first :
        (i d : ℕ)
        → is_started (state_at r.states i) ≡ true
        → mem d (get_or rows i []) ≡ true
        → is_success (state_at r.states d) ≡ true
    dependencies_first i d started listed =
        every_at (succeeds r.states) (deps_of g i) d
          (run_after_dependencies represents.builder g targets capacity r₀ r represents.compiled
            represents.indexed new run i started)
          (represents.rows_are i d ∙ listed)

    -- For a topology that `compile_topology` returns and a run that `start` returns: after any
    -- calls of `admit`, `finish` and `cancel`, if the run is not done and no node is running, then
    -- `admit` returns a node.
    pub never_stuck : done r ≡ false → count is_running r.states ≡ 0 → 0 < length (admit r).1
    never_stuck =
        run_progress represents.builder g targets capacity r₀ r represents.compiled
          represents.indexed new run

    -- For a topology that `compile_topology` returns and a run that `start` returns: at any point
    -- of the run, if `finish` accepts a success, then of the other nodes those become ready that
    -- were pending and of whose row of the given dependencies each has succeeded or is reused now;
    -- every other one keeps its state.
    pub success_releases :
        (node : ℕ) (outcome : State) (r' : RunState) (i : ℕ)
        → is_success outcome ≡ true
        → finish r node outcome ≡ ok r'
        → i ≢ node
        → state_at r'.states i ≡ (
            if is_pending (state_at r.states i) && every (succeeds r'.states) (get_or rows i [])
            then ready
            else state_at r.states i)
    success_releases node outcome r' i good h other =
        let step =
          finish-Success g (λ j. index_of j g.order) r node outcome {r' = r'}
            represents.compiled.topology reached-Inv good h in
        rw
          (← every_same_members (succeeds r'.states) (deps_of g i) (get_or rows i [])
            (represents.rows_are i))
          (step.releases i other)

    -- For a topology that `compile_topology` returns and a run that `start` returns: at any point
    -- of the run, if `finish` accepts an outcome that is no success, then every other pending node
    -- that depends on the node, directly or not, is blocked.
    pub failure_blocks :
        (node : ℕ) (outcome : State) (r' : RunState) (i : ℕ)
        → is_success outcome ≡ false
        → finish r node outcome ≡ ok r'
        → i ≢ node
        → is_pending (state_at r.states i) ≡ true
        → Depends g node i
        → state_at r'.states i ≡ blocked
    failure_blocks node outcome r' i bad h other =
        (finish_blocks g (λ j. index_of j g.order) r node outcome r' i represents.compiled.topology
          reached-Inv bad h other).0

    -- For a topology that `compile_topology` returns and a run that `start` returns: at any point
    -- of the run, if `finish` accepts an outcome that is no success, then every other node that
    -- does not depend on the node, directly or not, keeps its state.
    pub failure_spares :
        (node : ℕ) (outcome : State) (r' : RunState) (i : ℕ)
        → is_success outcome ≡ false
        → finish r node outcome ≡ ok r'
        → i ≢ node
        → (Depends g node i → ⊥)
        → state_at r'.states i ≡ state_at r.states i
    failure_spares node outcome r' i bad h other =
        (finish_blocks g (λ j. index_of j g.order) r node outcome r' i represents.compiled.topology
          reached-Inv bad h other).1
