-- ===== src/History/Schema.antt =====
-- `History.__init__`: the settings, and the database's schema as it is found and left. A statement that
-- raises rolls the transaction back, so that the schema is as it was.
pub mod Steps
pub mod Migration
use traversal.Base.{
  ℕ, String, Bool, not, ◌&&◌, ◌||◌, Option, none, some, List, [], ◌∷◌, ◌++◌, ◌==◌, if◌then◌else◌,
  mem_text,
}
use traversal.Exceptions.{
  value_error, operational_error, Result, return, raise, ◌>>=◌, ◌>>◌, require,
}

-- `PRAGMA user_version`, the names in sqlite_master of the tables and of the views and indexes, and
-- the columns of the table `nodes`, in lower case, since SQLite compares names so.
pub record Schema : Type 0 where
  pub version : ℕ
  pub tables : List String
  pub others : List String
  pub node_columns : List String

abbrev pub is_taken : Schema → String → Bool
is_taken s name = mem_text name s.tables || mem_text name s.others

-- `CREATE TABLE name …` and `CREATE INDEX name …`, with the index that SQLite makes for the keys of a
-- table.
unfoldable pub create_table : (name : String) → (indexes : List String) → Schema → Result Schema
unfolding mem_text
create_table name indexes s = do
  require (not (is_taken s name)) (operational_error name)
  return (record s { tables = s.tables ++ name ∷ []; others = s.others ++ indexes })

unfoldable pub create_index : (name : String) → Schema → Result Schema
unfolding mem_text
create_index name s = do
  require (not (is_taken s name)) (operational_error name)
  return (record s { others = s.others ++ name ∷ [] })

-- `ALTER TABLE nodes ADD COLUMN name …`
unfoldable pub add_column : (name : String) → Schema → Result Schema
unfolding mem_text
add_column name s = do
  require (mem_text "nodes" s.tables && not (mem_text name s.node_columns)) (operational_error name)
  return (record s { node_columns = s.node_columns ++ name ∷ [] })

abbrev pub first_columns : List String
first_columns = "run_id" ∷ "name" ∷ "state" ∷ "started_at" ∷ "finished_at" ∷ "error" ∷ []

-- The block under `if version == 0`. The first table with AUTOINCREMENT makes `sqlite_sequence`.
unfoldable pub create_first : Schema → Result Schema
unfolding create_table create_index
create_first s = elim s.tables [
  | [] ↦ do
    runs ← create_table "runs" ("sqlite_autoindex_runs_1" ∷ []) s
    let counted = record runs { tables = runs.tables ++ "sqlite_sequence" ∷ [] }
    indexed ← create_index "runs_lookup" counted
    nodes ← create_table "nodes" ("sqlite_autoindex_nodes_1" ∷ []) indexed
    return (record nodes { version = 1; node_columns = first_columns })
  | _ ∷ _ ↦ raise (value_error "refusing to initialize an unrelated database")
]

-- The block under `if version in (0, 1)`.
unfoldable pub add_results : Schema → Result Schema
unfolding add_column create_table
add_results s = do
  keyed ← add_column "cache_key" s
  noted ← add_column "reuse_reason" keyed
  made ← create_table "results" ("sqlite_autoindex_results_1" ∷ []) noted
  return (record made { version = 2 })

unfoldable pub migrate : Schema → Result Schema
unfolding create_first add_results
migrate s = do
  require (s.version == 0 || s.version == 1 || s.version == 2)
      (value_error "unsupported Traversal history schema")
  first ← (if s.version == 0 then create_first s else return s)
  if s.version == 0 || s.version == 1 then add_results first else return first

-- The check of `max_cache_bytes`, which is `none` if it is no positive `int`; then the migration.
unfoldable pub init : (max_cache_bytes : Option ℕ) → Schema → Result (ℕ × Schema)
unfolding migrate
init none s = raise (value_error "max_cache_bytes must be positive")
init (some n) s = do
  require (not (n == 0)) (value_error "max_cache_bytes must be positive")
  s' ← migrate s
  return (n, s')
