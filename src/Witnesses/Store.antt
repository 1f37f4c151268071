-- ===== src/Witnesses/Store.antt =====
-- Theorems about the run history at a small database.
use traversal.Base.{
  ◌⊎◌, ◌<◌, ◌≡◌, ◌≢◌, refl, String, true, false, none, some, List, [], ◌∷◌, mem_text, str_eq,
  all_chars, eq_iff, arith,
}
use traversal.Exceptions.{Exception, return, raise, value_error, run_active}
use traversal.Cache.{Object, bool, other, encode}
use traversal.History.Text.{is_run_id}
use traversal.History.{Settings, RunRow, NodeRow, Database, new_rows, start}
use traversal.History.Stored.{cached, save_result}
use traversal.History.Records.{RunRecord, get, recover}
use traversal.History.Recovery.{recovered, recover_running, recover_settles, recover_others}
use traversal.History.Life.{start_records}
use traversal.History.Results.{persisted, save_result-cached, save_result-others, save_result_fails}
use traversal.History.Schema.{Schema, migrate}
use traversal.History.Schema.Migration.{is_accepted, IsMigrated, migrate-IsMigrated}
use traversal.Coordinator.Samples.{toy, program}

history : Unit {0}
unfolding start recover get save_result cached is_run_id all_chars mem_text
history = tt

abbrev an_id : String
an_id = "0123456789abcdef0123456789abcdef"

abbrev run_row : String → RunRow
run_row status = record {
  id = an_id;
  graph = "g";
  graph_version = "1";
  status = status;
  started_at = 5;
  finished_at = none;
  source_run_id = none;
}

abbrev node_row : String → String → NodeRow
node_row name state = record {
  run_id = an_id;
  name = name;
  state = state;
  started_at = none;
  finished_at = none;
  error = none;
  cache_key = none;
  reuse_reason = none;
}

abbrev crashed : Database
crashed = record {
  runs = run_row "running" ∷ [];
  nodes = node_row "a" "succeeded" ∷ node_row "b" "running" ∷ node_row "c" "pending" ∷ [];
  results = [];
  locks = [];
}

abbrev found : RunRecord
found = record { run = run_row "running"; nodes = crashed.nodes }

abbrev settled : RunRecord
settled = record {
  run = record (run_row "interrupted") { finished_at = some 9 };
  nodes = node_row "a" "succeeded" ∷ node_row "b" "unknown" ∷ node_row "c" "cancelled" ∷ [];
}

abbrev after : Database
after = record crashed { runs = settled.run ∷ []; nodes = settled.nodes }

recover-crashed : recover crashed an_id 9 ≡ return (after, settled)
unfolding history
recover-crashed = refl

recover_running_example : (settled ≡ recovered 9 found) × (get after an_id ≡ return settled)
unfolding history
recover_running_example =
    recover_running crashed after an_id 9 found settled refl refl recover-crashed

recover_settles_example :
    (get after an_id ≡ return settled)
    × (str_eq settled.run.status "running" ≡ false)
    × (after.locks ≡ crashed.locks)
    × (after.results ≡ crashed.results)
    × (recover after an_id 20 ≡ return (after, settled))
recover_settles_example = recover_settles crashed after an_id 9 20 settled recover-crashed

abbrev empty : Database
empty = record { runs = []; nodes = []; results = []; locks = [] }

abbrev first_rows : List NodeRow
first_rows = node_row "a" "pending" ∷ node_row "b" "unselected" ∷ []

abbrev started : Database
started = record empty { runs = run_row "running" ∷ []; nodes = first_rows; locks = an_id ∷ [] }

start-empty : start empty "g" "1" ("a" ∷ "b" ∷ []) (true ∷ false ∷ []) none an_id 5 ≡ return started
unfolding history
start-empty = refl

start_records_example :
    (rows : List NodeRow) × (new_rows an_id ("a" ∷ "b" ∷ []) (true ∷ false ∷ []) ≡ return rows)
    × (get started an_id ≡ return (record { run = run_row "running"; nodes = rows }))
    × (recover started an_id 6 ≡ raise (run_active "run has an active local owner"))
start_records_example =
    start_records empty started "g" "1" ("a" ∷ "b" ∷ []) (true ∷ false ∷ []) none an_id 5 6
      start-empty refl

texts_differ : (s t : String) → str_eq s t ≡ false → s ≢ t
texts_differ s t h = λ e. ground (arith, eq_iff s t)

abbrev first : Schema
first = record {
  version = 1;
  tables = "runs" ∷ "sqlite_sequence" ∷ "nodes" ∷ [];
  others = "sqlite_autoindex_runs_1" ∷ "runs_lookup" ∷ "sqlite_autoindex_nodes_1" ∷ [];
  node_columns = "run_id" ∷ "name" ∷ "state" ∷ [];
}

abbrev settings : Settings
settings = record { max_cache_bytes = 10; formatter = none }

encode-true : encode toy (bool true) 10 7 ≡ return ("true", "true")
unfolding program history
encode-true = refl

save_result-cached_example :
    (v' : Object) × (cached toy settings 7
        (save_result toy settings 7 empty "k" (bool true)).0
        "k"
        none
        "a"
      ≡ persisted toy settings 7 (some v'))
    × (toy.dumps v' ≡ return "true")
save_result-cached_example =
    save_result-cached toy settings 7 empty "k" "a" (bool true) "true" "true" encode-true

save_result-others_example :
    cached toy settings 7 (save_result toy settings 7 empty "k" (bool true)).0 "l" (some an_id) "a"
    ≡ cached toy settings 7 empty "l" (some an_id) "a"
save_result-others_example =
    save_result-others toy settings 7 empty "k" "l" "a" (some an_id) (bool true)
      (texts_differ "l" "k" refl)

recover_others_example : get after "x" ≡ get crashed "x"
recover_others_example =
    recover_others crashed after an_id "x" 9 settled recover-crashed (texts_differ "x" an_id refl)

migrate-IsMigrated_example :
    ((is_accepted first ≡ true)
      × ((s' : Schema) × (migrate first ≡ return s')
          × (((first.version ≡ 2) × (s' ≡ first)) ⊎ ((first.version < 2) × IsMigrated first s'))
          × (migrate s' ≡ return s')))
    ⊎ ((is_accepted first ≡ false) × ((x : Exception) × (migrate first ≡ raise x)))
migrate-IsMigrated_example = migrate-IsMigrated first

encode_other :
    encode toy (other 0) 10 7
    ≡ raise (value_error "result must contain only finite JSON-native values")
unfolding program history
encode_other = refl

save_result_fails_example :
    (cached toy settings 7
      (save_result toy settings 7 empty "k" (other 0)).0
      "k"
      (some an_id)
      "a").value
    ≡ none
save_result_fails_example =
    save_result_fails toy settings 7 empty "k" "a" (some an_id) (other 0)
      (value_error "result must contain only finite JSON-native values") encode_other
