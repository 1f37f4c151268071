-- ===== src/Engine/Witnesses.antt =====
-- The engine's guarantees at the graphs of `Samples`.
use traversal.Base.{
  ℕ, zero, suc, ◌≤◌, ◌<◌, ◌≡◌, ◌↔◌, refl, true, false, [], ◌∷◌, length, get_or, mem, count, arith,
}
use traversal.Engine.Errors.{ok}
use traversal.Engine.Builder.{NodeId, Builder, new}
use traversal.Engine.Builder.Valid.{IsBuilder, new-IsBuilder, add-IsBuilder, depends_on-IsBuilder}
use traversal.Engine.Topology.{Topology, compile}
use traversal.Engine.Topology.Loop.{row}
use traversal.Engine.Topology.Order.{IsCompiled, compile-IsCompiled, compile_acyclic}
use traversal.Engine.Topology.Closing.{Needed}
use traversal.Engine.Run.{
  unselected, pending, ready, running, succeeded, failed, blocked, is_running, is_success, RunState,
  state_at, admit, finish,
}
use traversal.Engine.Run.Counts.{is_live}
use traversal.Engine.Run.Reach.{Reach, here, next, admits, finishes}
use traversal.Engine.Run.Advance.{Advances, Reach-Advances}
use traversal.Engine.Run.Contract.{Behaves}
use traversal.Engine.Run.Failure.{Depends, direct, through}
use traversal.Engine.Binding.{compile_topology}
use traversal.Engine.Binding.Accepts.{IsGraph, compile_topology-IsGraph_iff}
use traversal.Engine.Binding.Valid.{Represents, compile_topology-Represents}
use traversal.Engine.Binding.Runs.{
  bounded_concurrency, dependencies_first, never_stuck, failure_blocks, failure_spares,
  refines_abstract_scheduler, success_releases, selects-Needed,
}
use traversal.Engine.Samples.{
  engine, join_names, join_rows, join_graph, compile_join, select_join, at_start, start_join,
  both_running,
}

admitted : Reach at_start both_running
unfolding engine
admitted = next here (admits at_start)

abbrev one_left : RunState
one_left = record both_running {
  states = succeeded ∷ running ∷ pending ∷ pending ∷ unselected ∷ [];
  remaining = 0 ∷ 0 ∷ 1 ∷ 1 ∷ 0 ∷ [];
  active = 1;
  unfinished = 3;
}

abbrev join_ready : RunState
join_ready = record both_running {
  states = succeeded ∷ succeeded ∷ ready ∷ pending ∷ unselected ∷ [];
  remaining = 0 ∷ 0 ∷ 0 ∷ 1 ∷ 0 ∷ [];
  queue = 2 ∷ [];
  active = 0;
  unfinished = 2;
}

one_succeeds : finish both_running 0 succeeded ≡ ok one_left
unfolding engine
one_succeeds = refl

then_all_succeed : finish one_left 1 succeeded ≡ ok join_ready
unfolding engine
then_all_succeed = refl

one_succeeded : Reach at_start one_left
one_succeeded = next admitted (finishes {r = both_running} {r' = one_left} 0 succeeded one_succeeds)

both_succeeded : Reach at_start join_ready
both_succeeded =
    next one_succeeded (finishes {r = one_left} {r' = join_ready} 1 succeeded then_all_succeed)

abbrev a_failed : RunState
a_failed = record both_running {
  states = failed ∷ running ∷ blocked ∷ blocked ∷ unselected ∷ [];
  active = 1;
  unfinished = 1;
}

a_fails : finish both_running 0 failed ≡ ok a_failed
unfolding engine
a_fails = refl

bounded_concurrency_example :
    (count is_running both_running.states ≤ 2)
    × (2 ≡ count is_running both_running.states)
    × (4 ≡ count is_live both_running.states)
bounded_concurrency_example =
    bounded_concurrency 7 join_names join_rows join_graph compile_join ("tail" ∷ []) 2 at_start
      both_running start_join admitted

dependencies_first_example : is_success (state_at join_ready.states 1) ≡ true
dependencies_first_example =
    dependencies_first 7 join_names join_rows join_graph compile_join ("tail" ∷ []) 2 at_start
      join_ready start_join both_succeeded 2 1 refl refl

refines_abstract_scheduler_example : Behaves join_graph ("tail" ∷ []) 2 join_ready.states
refines_abstract_scheduler_example =
    refines_abstract_scheduler 7 join_names join_rows join_graph compile_join ("tail" ∷ []) 2
      at_start join_ready start_join both_succeeded

success_releases_example : state_at join_ready.states 2 ≡ ready
success_releases_example =
    success_releases 7 join_names join_rows join_graph compile_join ("tail" ∷ []) 2 at_start
      one_left start_join one_succeeded 1 succeeded join_ready 2 refl then_all_succeed
      (λ e. ground arith)

never_stuck_example : 0 < length (admit join_ready).1
never_stuck_example =
    never_stuck 7 join_names join_rows join_graph compile_join ("tail" ∷ []) 2 at_start join_ready
      start_join both_succeeded refl refl

failure_blocks_example : state_at a_failed.states 3 ≡ blocked
failure_blocks_example =
    failure_blocks 7 join_names join_rows join_graph compile_join ("tail" ∷ []) 2 at_start
      both_running start_join admitted 0 failed a_failed 3 refl a_fails (λ e. ground arith) refl
      (through {i = 3} {d = 2} refl (direct {i = 2} refl))

-- The node 1 has no dependency.
free_of_a : Depends join_graph 0 1 → ⊥
free_of_a (direct m) = cc
free_of_a (through m p) = cc

failure_spares_example : state_at a_failed.states 1 ≡ state_at both_running.states 1
failure_spares_example =
    failure_spares 7 join_names join_rows join_graph compile_join ("tail" ∷ []) 2 at_start
      both_running start_join admitted 0 failed a_failed 1 refl a_fails (λ e. ground arith)
      free_of_a

selects-Needed_example :
    (get_or (true ∷ true ∷ true ∷ true ∷ false ∷ []) 1 false ≡ true)
    ↔ Needed join_graph ("tail" ∷ []) 1
selects-Needed_example =
    selects-Needed 7 join_names join_rows join_graph compile_join ("tail" ∷ [])
      (true ∷ true ∷ true ∷ true ∷ false ∷ []) 1 select_join

Represents_example : Represents join_names join_rows join_graph
Represents_example = compile_topology-Represents 7 join_names join_rows compile_join

Reach-Advances_example : Advances ready succeeded
Reach-Advances_example = Reach-Advances both_succeeded 0

-- a → c
abbrev id_of : ℕ → NodeId
id_of i = record { owner = 7; index = i }

abbrev only_a : Builder
only_a = record (new 7) { names = "a" ∷ []; by_name = ("a", 0) ∷ []; dependencies = [] ∷ [] }

abbrev two : Builder
two = record only_a {
  names = "a" ∷ "c" ∷ [];
  by_name = ("a", 0) ∷ ("c", 1) ∷ [];
  dependencies = [] ∷ [] ∷ [];
}

abbrev linked : Builder
linked = record two { dependencies = [] ∷ (0 ∷ []) ∷ []; edges = (1, 0) ∷ [] }

abbrev linked_graph : Topology
linked_graph = record {
  names = linked.names;
  by_name = linked.by_name;
  dependencies = linked.dependencies;
  dependents = (1 ∷ []) ∷ [] ∷ [];
  order = 0 ∷ 1 ∷ [];
}

only_a-IsBuilder : IsBuilder only_a
unfolding engine
only_a-IsBuilder = add-IsBuilder (new 7) "a" {b' = only_a} {id = id_of 0} (new-IsBuilder 7) refl

add-IsBuilder_example : IsBuilder two
unfolding engine
add-IsBuilder_example = add-IsBuilder only_a "c" {b' = two} {id = id_of 1} only_a-IsBuilder refl

two-IsBuilder : IsBuilder two
unfolding engine
two-IsBuilder = add-IsBuilder only_a "c" {b' = two} {id = id_of 1} only_a-IsBuilder refl

depends_on-IsBuilder_example : IsBuilder linked
unfolding engine
depends_on-IsBuilder_example =
    depends_on-IsBuilder two (id_of 1) (id_of 0) {b' = linked} two-IsBuilder refl

linked-IsBuilder : IsBuilder linked
unfolding engine
linked-IsBuilder = depends_on-IsBuilder two (id_of 1) (id_of 0) {b' = linked} two-IsBuilder refl

compile-IsCompiled_example : IsCompiled linked linked_graph
unfolding engine
compile-IsCompiled_example = compile-IsCompiled linked {g = linked_graph} linked-IsBuilder refl

linked_falls : (i d : ℕ) → mem d (row linked.dependencies i) ≡ true → d < i
linked_falls zero d m = ground arith
linked_falls (suc zero) d m = ground arith
linked_falls (suc (suc i)) d m = ground arith

compile_acyclic_example : (g : Topology) × (compile linked ≡ ok g)
compile_acyclic_example = compile_acyclic linked (λ i. i) linked-IsBuilder linked_falls

compile_topology-IsGraph_iff_example :
    ((g : Topology) × (compile_topology 7 join_names join_rows ≡ ok g))
    ↔ IsGraph join_names join_rows
compile_topology-IsGraph_iff_example = compile_topology-IsGraph_iff 7 join_names join_rows
