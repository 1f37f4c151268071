-- ===== src/Witnesses/Plans.antt =====
-- Theorems about plans at a graph with two nodes, of which the second takes the first's output.
use traversal.Base.{
  ◌≡◌, ◌↔◌, refl, true, false, Option, none, some, [], ◌∷◌, mem, some_of, mem_text, arith,
}
use traversal.Engine.Errors
use traversal.Engine.Topology.{Topology}
use traversal.Engine.Run.{pending, ready, running, succeeded, RunState, state_at, is_success}
use traversal.Engine.Run
use traversal.Engine.Run.Reach.{Reach, here, next, admits, finishes}
use traversal.Exceptions.{return}
use traversal.Cache.{Cache}
use traversal.History.{Settings, NodeRow, Database}
use traversal.Values.{Node, node, nil, cons, end}
use traversal.Graph.{Task, Graph, by_name, keyed}
use traversal.Plan.{Plan, compile, has_fingerprint, fingerprints}
use traversal.Plan.Explain.{decision, advise, was_started}
use traversal.Plan.Closed.{known}
use traversal.Plan.Growth.{IsClosed, add-IsClosed, depends_on-IsClosed}
use traversal.Plan.Keys.{Cacheable, fingerprints-Cacheable}
use traversal.Plan.Runs.{compile-rows, arguments_ready}
use traversal.Plan.Dependencies.{leads_to, nodes_of}
use traversal.Plan.Decide.{IsHit, advise-decision}
use traversal.Coordinator.Samples.{toy, program, function, empty_store}

abbrev pub settings : Settings
settings = record { max_cache_bytes = 100; formatter = none }

abbrev node_a : Node
node_a = record { name = "a"; owner = 1 }

abbrev pub task_a : Task
task_a = record {
  reference = node_a;
  function = function "f";
  args = nil;
  kwargs = end;
  after = [];
  cache = some (record { key = "1" });
}

abbrev task_c : Task
task_c = record {
  reference = record { name = "c"; owner = 1 };
  function = function "f";
  args = cons (node node_a) nil;
  kwargs = end;
  after = [];
  cache = some (record { key = "1" });
}

abbrev pub graph : Graph
graph = record {
  name = "g";
  version = "1";
  store = some settings;
  owner = 1;
  tasks = ("a", task_a) ∷ ("c", task_c) ∷ [];
}

abbrev pub topology : Topology
topology = record {
  names = "a" ∷ "c" ∷ [];
  by_name = ("a", 0) ∷ ("c", 1) ∷ [];
  dependencies = [] ∷ (0 ∷ []) ∷ [];
  dependents = (1 ∷ []) ∷ [] ∷ [];
  order = 0 ∷ 1 ∷ [];
}

abbrev pub plan : Plan
plan = record {
  store = some settings;
  name = "g";
  version = "1";
  targets = "c" ∷ [];
  tasks = task_a ∷ task_c ∷ [];
  index = ("a", 0) ∷ ("c", 1) ∷ [];
  dependencies = [] ∷ (0 ∷ []) ∷ [];
  topology = topology;
  selected = true ∷ true ∷ [];
}

pub compile_graph : compile graph (by_name "c" ∷ []) 7 ≡ return plan
unfolding program
compile_graph = refl

fingerprints-Cacheable_example :
    (has_fingerprint (fingerprints toy plan) 1 ≡ true) ↔ Cacheable plan 1
fingerprints-Cacheable_example =
    fingerprints-Cacheable toy graph (by_name "c" ∷ []) 7 plan 1 compile_graph (omega arith)

compile-rows_example : mem 0 (0 ∷ []) ≡ some_of (leads_to plan.index 0) (nodes_of task_c)
compile-rows_example = compile-rows graph (by_name "c" ∷ []) 7 plan 1 0 task_c compile_graph refl

abbrev at_first : RunState
at_first = record {
  graph = topology;
  states = ready ∷ pending ∷ [];
  remaining = 0 ∷ 1 ∷ [];
  queue = 0 ∷ [];
  active = 0;
  capacity = 1;
  unfinished = 2;
}

start_plan : Run.start topology ("c" ∷ []) 1 ≡ Errors.ok at_first
unfolding program
start_plan = refl

abbrev a_running : RunState
a_running = record at_first { states = running ∷ pending ∷ []; queue = []; active = 1 }

abbrev c_ready : RunState
c_ready = record at_first {
  states = succeeded ∷ ready ∷ [];
  remaining = 0 ∷ 0 ∷ [];
  queue = 1 ∷ [];
  unfinished = 1;
}

a_succeeded : Reach at_first c_ready
unfolding program
a_succeeded =
    next (next {r = at_first} {r' = a_running} here (admits at_first))
      (finishes {r = a_running} {r' = c_ready} 0 succeeded refl)

arguments_ready_example : is_success (state_at c_ready.states 0) ≡ true
unfolding program
arguments_ready_example =
    arguments_ready graph (by_name "c" ∷ []) 7 plan 1 at_first c_ready 1 0 task_c compile_graph
      start_plan a_succeeded refl refl refl

abbrev old_row : NodeRow
old_row = record {
  run_id = "r";
  name = "c";
  state = "failed";
  started_at = some 3;
  finished_at = none;
  error = none;
  cache_key = none;
  reuse_reason = none;
}

abbrev no_key : Option Cache
no_key = none

abbrev one_result : Database
one_result = record empty_store {
  results = record { fingerprint = "k"; payload = "true"; digest = "true" } ∷ [];
}

advise-decision_example :
    ((advise toy 5 plan empty_store (some "r") [] true "c" none none (some old_row)).action
      ≡ decision)
    ↔ (true ≡ true)
      × (mem_text "c" [] ≡ false)
      × (no_key ≡ none)
      × ((row : NodeRow) × (some old_row ≡ some row) × (was_started row ≡ true))
      × (IsHit toy 5 plan empty_store (some "r") [] true "c" none none (some old_row) → ⊥)
advise-decision_example =
    advise-decision toy 5 plan empty_store (some "r") [] true "c" none none (some old_row)

abbrev only_a : Graph
only_a = record graph { tasks = ("a", task_a) ∷ [] }

only_a-IsClosed : IsClosed only_a
unfolding program
only_a-IsClosed = record { named = refl; refs = refl }

add-IsClosed_example : IsClosed graph × (known graph (record { name = "c"; owner = 1 }) ≡ true)
unfolding program
add-IsClosed_example =
    add-IsClosed only_a (some "c") (function "f") (cons (node node_a) nil) end []
      (keyed (record { key = "1" })) graph (record { name = "c"; owner = 1 }) only_a-IsClosed refl

graph-IsClosed : IsClosed graph
unfolding program
graph-IsClosed = record { named = refl; refs = refl }

abbrev ordered : Graph
ordered = record graph {
  tasks =
      ("a", record task_a { after = record { name = "c"; owner = 1 } ∷ [] }) ∷ ("c", task_c) ∷ [];
}

depends_on-IsClosed_example : IsClosed ordered
unfolding program
depends_on-IsClosed_example =
    depends_on-IsClosed graph (node node_a) (node (record { name = "c"; owner = 1 }) ∷ []) ordered
      graph-IsClosed refl
