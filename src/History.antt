-- ===== src/History.antt =====
-- python/traversal/history.py: the run history. The database is its three tables; `seq` and `rowid`
-- are positions, since rows are only appended. A method that raises rolls back, so that no state comes
-- with the exception. The clock and the new run's UUID are arguments, and `locks` are the run IDs
-- whose lease file some process holds.
pub mod Text
pub mod Schema
pub mod Life
pub mod Rows
pub mod Recovery
pub mod Results
pub mod Records
pub mod Stored
pub mod Ending
pub mod Others
pub mod Intact
use traversal.Base.{
  ℕ, zero, suc, ◌-◌, String, Bool, true, false, not, ◌&&◌, ◌||◌, Option, none, some, List, [], ◌∷◌,
  ◌++◌, map, reverse, ltb, leb, ◌==◌, if◌then◌else◌, str_eq, mem_text, keep, some_of, lookup,
}
use traversal.Exceptions.{
  Exception, value_error, index_error, key_error, integrity_error, run_active, Result, return,
  raise, message, ◌>>=◌, ◌>>◌, require,
}
use traversal.Cache.{Object, Codec, encode}
use traversal.History.Text.{is_run_id, take_chars, concat}

-- `Failure` of graph.py.
pub record Failure : Type 0 where
  pub exception_type : String
  pub message : String
  pub traceback : String

-- The constructor's settings. A formatter that raises gives `none`.
pub record Settings : Type 0 where
  pub max_cache_bytes : ℕ
  pub formatter : Option (Failure → Option String)

pub record RunRow : Type 0 where
  pub id : String
  pub graph : String
  pub graph_version : String
  pub status : String
  pub started_at : ℕ
  pub finished_at : Option ℕ
  pub source_run_id : Option String

pub record NodeRow : Type 0 where
  pub run_id : String
  pub name : String
  pub state : String
  pub started_at : Option ℕ
  pub finished_at : Option ℕ
  pub error : Option String
  pub cache_key : Option String
  pub reuse_reason : Option String

pub record ResultRow : Type 0 where
  pub fingerprint : String
  pub payload : String
  pub digest : String

pub record Database : Type 0 where
  pub runs : List RunRow
  pub nodes : List NodeRow
  pub results : List ResultRow
  pub locks : List String

-- `WHERE run_id=? AND name=?`
abbrev pub is_row : String → String → NodeRow → Bool
is_row run_id name n = str_eq n.run_id run_id && str_eq n.name name

-- `UPDATE nodes SET … WHERE …`
unfoldable pub update_rows {ℓ} : {A : Type ℓ} → (A → Bool) → (A → A) → List A → List A
update_rows test f [] = []
update_rows test f (n ∷ ns) = (if test n then f n else n) ∷ update_rows test f ns

-- `_Lease(path)` and `close`.
unfoldable pub acquire : Database → String → Result Database
acquire db run_id =
    if mem_text run_id db.locks
    then raise (run_active "run has an active local owner")
    else return (record db { locks = run_id ∷ db.locks })

unfoldable pub release_lease : Database → String → Database
release_lease db run_id = record db { locks = keep (λ l. not (str_eq l run_id)) db.locks }

-- `_lease`; `none` is an ID that is no `str`.
unfoldable pub lease : Database → Option String → Result Database
unfolding acquire
lease db none = raise (value_error "invalid run ID")
lease db (some run_id) =
    if is_run_id run_id then acquire db run_id else raise (value_error "invalid run ID")

-- The rows that `_start` inserts, with the flags in `selected` beside the names.
unfoldable pub new_rows : String → List String → List Bool → Result (List NodeRow)
new_rows run_id [] selected = return []
new_rows run_id (name ∷ names) [] = raise index_error
new_rows run_id (name ∷ names) (flag ∷ flags) = do
  rows ← new_rows run_id names flags
  return (
      record {
        run_id = run_id;
        name = name;
        state = if flag then "pending" else "unselected";
        started_at = none;
        finished_at = none;
        error = none;
        cache_key = none;
        reuse_reason = none;
      }
      ∷ rows)

-- `executemany("INSERT INTO nodes …")` under PRIMARY KEY(run_id,name).
unfoldable pub insert_nodes : List NodeRow → List NodeRow → Result (List NodeRow)
insert_nodes table [] = return table
insert_nodes table (n ∷ ns) =
    if some_of (is_row n.run_id n.name) table
    then raise (integrity_error "UNIQUE constraint failed: nodes.run_id, nodes.name")
    else insert_nodes (table ++ n ∷ []) ns

-- `_start`: `run_id` is the new UUID. If an insertion fails the lease is closed again.
unfoldable pub start :
    Database
    → (graph version : String) → List String
    → List Bool
    → (source : Option String) → (run_id : String) (now : ℕ) → Result Database
unfolding lease new_rows insert_nodes
start db graph version names selected source run_id now = do
  db' ← lease db (some run_id)
  require (not (some_of (λ r. str_eq r.id run_id) db'.runs))
      (integrity_error "UNIQUE constraint failed: runs.id")
  rows ← new_rows run_id names selected
  nodes ← insert_nodes db'.nodes rows
  return (record db' {
    runs =
        db'.runs
        ++ (record {
          id = run_id;
          graph = graph;
          graph_version = version;
          status = "running";
          started_at = now;
          finished_at = none;
          source_run_id = source;
        })
          ∷ [];
    nodes = nodes;
  })

-- `_running`
unfoldable pub mark_running : Database → (run_id name : String) (now : ℕ) → Database
unfolding update_rows
mark_running db run_id name now = record db {
  nodes =
      update_rows (is_row run_id name) (λ n. record n { state = "running"; started_at = some now })
        db.nodes;
}

-- The error text of `_finished`, cut at 4096 characters.
unfoldable pub error_text : Settings → Option Failure → Option String
error_text settings none = none
error_text settings (some failure) = elim settings.formatter [
  | none ↦ some failure.exception_type
  | some format ↦ elim (format failure) [
    | some text ↦ some (take_chars 4096 text)
    | none ↦ some (concat failure.exception_type " (error formatter failed)")
  ]
]

-- `_finished`
unfoldable pub mark_finished :
    Settings → Database → (run_id name state : String) → Option Failure → (now : ℕ) → Database
unfolding update_rows error_text
mark_finished settings db run_id name state failure now =
    let error = error_text settings failure in
    record db {
      nodes =
          update_rows (is_row run_id name)
            (λ n. record n { state = state; finished_at = some now; error = error }) db.nodes;
    }

-- The loop of `_end` over the states.
unfoldable pub write_states : String → List (String × String) → List NodeRow → List NodeRow
unfolding update_rows
write_states run_id [] nodes = nodes
write_states run_id ((name, state) ∷ states) nodes =
    write_states run_id states
      (update_rows (is_row run_id name) (λ n. record n { state = state }) nodes)

-- `_end`
unfoldable pub end_run :
    Database → (run_id : String) → List (String × String) → (status : String) (now : ℕ) → Database
unfolding write_states
end_run db run_id states status now = record db {
  nodes = write_states run_id states db.nodes;
  runs =
      update_rows (λ r. str_eq r.id run_id)
        (λ r. record r { status = status; finished_at = some now }) db.runs;
}

-- `_reuse_note`
unfoldable pub reuse_note :
    Database → (run_id name : String) (key : Option String) (reason : String) → Database
unfolding update_rows
reuse_note db run_id name key reason = record db {
  nodes =
      update_rows (is_row run_id name)
        (λ n. record n { cache_key = key; reuse_reason = some reason }) db.nodes;
}
