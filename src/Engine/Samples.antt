-- ===== src/Engine/Samples.antt =====
-- Small graphs, and what the engine does on them: the unit tests of graph.rs and run.rs.
use traversal.Base.{ℕ, String, true, false, List, [], ◌∷◌, ◌≡◌, refl, lookup, insert, all_chars}
use traversal.Engine.Errors.{ok, err, ◌>>=◌, cycle, not_running}
use traversal.Engine.Topology.{Topology, select}
use traversal.Engine.Run.{
  unselected, pending, ready, running, succeeded, failed, RunState, start, admit, finish, cancel,
}
use traversal.Engine.Binding.{compile_topology, py_finish, py_states}

unfoldable pub engine : Unit {0}
unfolding compile_topology select start admit finish cancel py_finish py_states lookup insert
    all_chars
engine = tt

-- a, b → join → tail, and another node.
abbrev pub join_names : List String
join_names = "a" ∷ "b" ∷ "join" ∷ "tail" ∷ "other" ∷ []

abbrev pub join_rows : List (List ℕ)
join_rows = [] ∷ [] ∷ (0 ∷ 1 ∷ []) ∷ (2 ∷ []) ∷ [] ∷ []

abbrev pub join_graph : Topology
join_graph = record {
  names = join_names;
  by_name = ("a", 0) ∷ ("b", 1) ∷ ("join", 2) ∷ ("tail", 3) ∷ ("other", 4) ∷ [];
  dependencies = join_rows;
  dependents = (2 ∷ []) ∷ (2 ∷ []) ∷ (3 ∷ []) ∷ [] ∷ [] ∷ [];
  order = 0 ∷ 1 ∷ 4 ∷ 2 ∷ 3 ∷ [];
}

pub compile_join : compile_topology 7 join_names join_rows ≡ ok join_graph
unfolding engine
compile_join = refl

pub select_join : select join_graph ("tail" ∷ []) ≡ ok (true ∷ true ∷ true ∷ true ∷ false ∷ [])
unfolding engine
select_join = refl

compile_cyclic :
    compile_topology 7 ("a" ∷ "c" ∷ "z" ∷ []) ((1 ∷ []) ∷ (0 ∷ []) ∷ [] ∷ [])
    ≡ err (cycle ("a" ∷ "c" ∷ []))
unfolding engine
compile_cyclic = refl

abbrev pub at_start : RunState
at_start = record {
  graph = join_graph;
  states = ready ∷ ready ∷ pending ∷ pending ∷ unselected ∷ [];
  remaining = 0 ∷ 0 ∷ 2 ∷ 1 ∷ 0 ∷ [];
  queue = 0 ∷ 1 ∷ [];
  active = 0;
  capacity = 2;
  unfinished = 4;
}

pub start_join : start join_graph ("tail" ∷ []) 2 ≡ ok at_start
unfolding engine
start_join = refl

abbrev pub both_running : RunState
both_running = record at_start {
  states = running ∷ running ∷ pending ∷ pending ∷ unselected ∷ [];
  queue = [];
  active = 2;
}

admit_both : admit at_start ≡ (both_running, 0 ∷ 1 ∷ [])
unfolding engine
admit_both = refl

-- A failure blocks the descendants, and a success after it changes no descendant.
fail_then_succeed :
    (finish both_running 0 failed >>= λ r. finish r 1 succeeded >>= λ r'. ok (py_states r'))
    ≡ ok ("failed" ∷ "succeeded" ∷ "blocked" ∷ "blocked" ∷ "unselected" ∷ [])
unfolding engine
fail_then_succeed = refl

finish_twice : finish at_start 0 succeeded ≡ err (not_running 0)
unfolding engine
finish_twice = refl

cancel_drains :
    (py_finish (cancel both_running) 0 "succeeded" >>= λ r. ok (py_states r))
    ≡ ok ("succeeded" ∷ "running" ∷ "cancelled" ∷ "cancelled" ∷ "unselected" ∷ [])
unfolding engine
cancel_drains = refl
