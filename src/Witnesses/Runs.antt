-- ===== src/Witnesses/Runs.antt =====
-- A run of a plan with a store, from its preparation to the end of its loop.
use traversal.Base.{ℕ, ◌≡◌, refl, String, true, false, none, some, List, [], ◌∷◌, arith}
use traversal.Exceptions.{return, runtime_error}
use traversal.Cache.{null, bool}
use traversal.Engine.Run.{ready, pending, is_success, state_at}
use traversal.Engine.Run.Counts.{is_live}
use traversal.Coordinator.{Outcome, returned, Progress, Setting}
use traversal.Coordinator.Prepare.{prepare}
use traversal.Coordinator.Loop.{ended, failing, waiting, loop, report}
use traversal.Coordinator.Good.{has}
use traversal.Coordinator.Schedule.{is_schedule}
use traversal.Coordinator.Runs.{loop-no_exception, loop_ends, report-outputs}
use traversal.Coordinator.Samples.{toy, program, empty_store, the_clock}
use traversal.History.Text.{is_run_id, char_count}
use traversal.History.{NodeRow}
use traversal.Graph.{by_name}
use traversal.Witnesses.Plans.{graph, plan, topology, compile_graph}

unfoldable pub the_run : Unit {0}
unfolding program is_run_id char_count is_schedule
the_run = tt

abbrev pub run_id : String
run_id = "00112233445566778899aabbccddeeff"

abbrev pub setting : Setting
setting = record {
  codec = toy;
  frames = 100;
  plan = plan;
  previous = none;
  force = [];
  keys = some "null" ∷ some "null" ∷ [];
  run_id = run_id;
  clock = the_clock;
}

abbrev fresh_row : String → NodeRow
fresh_row name = record {
  run_id = run_id;
  name = name;
  state = "pending";
  started_at = none;
  finished_at = none;
  error = none;
  cache_key = none;
  reuse_reason = none;
}

abbrev pub first : Progress
first = record {
  state = record {
    graph = topology;
    states = ready ∷ pending ∷ [];
    remaining = 0 ∷ 1 ∷ [];
    queue = 0 ∷ [];
    active = 0;
    capacity = 2;
    unfinished = 2;
  };
  db = record {
    runs =
        record {
          id = run_id;
          graph = "g";
          graph_version = "1";
          status = "running";
          started_at = 0;
          finished_at = none;
          source_run_id = none;
        }
        ∷ [];
    nodes = fresh_row "a" ∷ fresh_row "c" ∷ [];
    results = [];
    locks = run_id ∷ [];
  };
  outputs = [];
  failures = [];
  reuse =
      ("a", "result missing or exceeds byte limit")
      ∷ ("c", "result missing or exceeds byte limit")
      ∷ [];
  pending = [];
  readings = 1;
}

pub prepared :
    prepare toy 100 plan empty_store (some 2) none [] run_id the_clock ≡ return (setting, first)
unfolding the_run
prepared = refl

abbrev pub batches : List (List (ℕ × Outcome))
batches = ((0, returned (bool true)) ∷ []) ∷ ((1, returned null) ∷ []) ∷ []

pub fair : is_schedule setting 3 batches first ≡ true
unfolding the_run
fair = refl

last : Progress
unfolding the_run
last = elim (loop setting 3 batches first) [ ended g ↦ g | failing x g ↦ g | waiting g ↦ g ]

runs_to_last : loop setting 3 batches first ≡ ended last
unfolding the_run last
runs_to_last = refl

loop-no_exception_example : ¬ (
    loop setting 3 batches first
    ≡ failing (runtime_error "scheduler has unfinished work but no runnable nodes") first)
loop-no_exception_example =
    loop-no_exception graph (by_name "c" ∷ []) 7 toy 100 plan empty_store (some 2) none [] run_id
      the_clock setting first compile_graph prepared 3 batches fair
      (runtime_error "scheduler has unfinished work but no runnable nodes") first

loop_ends_example :
    (g' : Progress) × (loop setting 3 batches first ≡ ended g')
    × ((i : ℕ) → is_live (state_at g'.state.states i) ≡ false)
loop_ends_example =
    loop_ends graph (by_name "c" ∷ []) 7 toy 100 plan empty_store (some 2) none [] run_id the_clock
      setting first compile_graph prepared 3 batches fair (omega arith) (omega arith)

succeeds_last : is_success (state_at last.state.states 1) ≡ true
unfolding the_run last
succeeds_last = refl

report-outputs_example : has "c" (report setting last).outputs ≡ true
report-outputs_example =
    report-outputs graph (by_name "c" ∷ []) 7 toy 100 plan empty_store (some 2) none [] run_id
      the_clock setting first compile_graph prepared 3 batches fair last 1 runs_to_last
      succeeds_last
