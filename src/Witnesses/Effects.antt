-- ===== src/Witnesses/Effects.antt =====
-- A whole run of a plan, in a database that has an older run.
use traversal.Base.{
  every, all_different, false, ◌≡◌, ◌≢◌, refl, true, not, String, some, none, [], ◌∷◌, map, str_eq,
  if◌then◌else◌, arith, eq_iff,
}
use traversal.Exceptions.{return, raise, cancelled_error}
use traversal.History.{Database}
use traversal.History.Records.{RunRecord, get}
use traversal.History.Intact.{AreIntact}
use traversal.Coordinator.{Progress, was_cancelled}
use traversal.Coordinator.Loop.{ended, failing, waiting, loop}
use traversal.Coordinator.Schedule.{is_schedule, are_pending}
use traversal.Coordinator.Complete.{popped}
use traversal.Coordinator.Interrupted.{is_open, arun_interrupted}
use traversal.Report.{RunReport, succeeded}
use traversal.Coordinator.Arun.{Environment, arun}
use traversal.Coordinator.Record.{arun_records}
use traversal.Coordinator.Effects.{arun_others, arun-AreIntact, arun_leases}
use traversal.Coordinator.Samples.{toy, empty_store, the_clock}
use traversal.Graph.{by_name}
use traversal.Witnesses.Plans.{settings, graph, plan, compile_graph}
use traversal.Witnesses.Runs.{the_run, run_id, setting, first, batches, prepared, fair}

abbrev environment : Environment
environment = record {
  codec = toy;
  frames = 100;
  run_id = run_id;
  clock = the_clock;
  fuel = 3;
  batches = batches;
  drained = [];
}

arun_records_example :
    (r : RunReport) × (db' : Database) × (found : RunRecord) × (arun environment plan empty_store
        (some 2)
        none
        []
      ≡ (return r, db'))
    × (get db' run_id ≡ return found)
    × (found.run.status ≡ (if succeeded r then "succeeded" else "failed"))
    × (map (λ n. (n.name, n.state)) found.nodes ≡ r.states)
arun_records_example =
    arun_records environment graph (by_name "c" ∷ []) 7 plan settings empty_store (some 2) none []
      setting first compile_graph refl prepared refl fair (omega arith) (omega arith)

abbrev older : Database
older = record empty_store {
  runs =
      record {
        id = "00000000000000000000000000000000";
        graph = "g";
        graph_version = "1";
        status = "interrupted";
        started_at = 0;
        finished_at = some 1;
        source_run_id = none;
      }
      ∷ [];
}

texts_differ : (s t : String) → str_eq s t ≡ false → s ≢ t
texts_differ s t h = λ e. ground (arith, eq_iff s t)

arun_others_example :
    get (arun environment plan older (some 2) none []).1 "00000000000000000000000000000000"
    ≡ get older "00000000000000000000000000000000"
arun_others_example =
    arun_others environment plan older (some 2) none [] "00000000000000000000000000000000"
      (texts_differ "00000000000000000000000000000000" run_id refl)

arun-AreIntact_example :
    AreIntact toy settings (arun environment plan older (some 2) none []).1.results
unfolding all_different
arun-AreIntact_example =
    arun-AreIntact environment plan older (some 2) none [] settings refl
      (record { intact = refl; different = refl })

arun_leases_example : (arun environment plan older (some 2) none []).1.locks ≡ []
arun_leases_example = arun_leases environment plan older (some 2) none []

-- The same run, cancelled while its first node runs.
abbrev cut_short : Environment
cut_short = record environment { batches = []; drained = (0, was_cancelled) ∷ [] }

stopped_at : Progress
unfolding the_run
stopped_at = elim (loop setting 3 cut_short.batches first) [
  | ended g ↦ g
  | failing x g ↦ g
  | waiting g ↦ g
]

waits : loop setting 3 cut_short.batches first ≡ waiting stopped_at
unfolding the_run stopped_at
waits = refl

fair_too : is_schedule setting 3 cut_short.batches first ≡ true
unfolding the_run
fair_too = refl

pending_then :
    (are_pending stopped_at.pending cut_short.drained ≡ true)
    × (popped stopped_at.pending cut_short.drained ≡ [])
unfolding the_run stopped_at
pending_then = (refl, refl)

arun_interrupted_example :
    (db' : Database) × (found : RunRecord) × (arun cut_short plan empty_store (some 2) none []
      ≡ (raise cancelled_error, db'))
    × (get db' run_id ≡ return found)
    × (found.run.status ≡ "interrupted")
    × (every (λ n. not (is_open n.state)) found.nodes ≡ true)
arun_interrupted_example =
    arun_interrupted cut_short graph (by_name "c" ∷ []) 7 plan settings empty_store (some 2) none []
      setting first compile_graph prepared stopped_at refl refl fair_too waits pending_then.0
      pending_then.1
