-- ===== src/History/Records.antt =====
-- The queries of python/traversal/history.py: `runs`, `latest`, `get` and `recover`.
use traversal.Base.{
  ℕ, zero, suc, String, Bool, true, not, ◌&&◌, Option, none, some, List, [], ◌∷◌, reverse, leb,
  if◌then◌else◌, str_eq, mem_text, keep,
}
use traversal.Exceptions.{value_error, key_error, Result, return, raise, ◌>>=◌}
use traversal.History.{RunRow, NodeRow, Database, update_rows, release_lease, lease}

-- `runs`: the filters that are given, the latest first. `limit` is `none` if it is no positive `int`.
abbrev pub matches : Option String → String → Bool
matches none value = true
matches (some wanted) value = str_eq value wanted

unfoldable pub take_rows : ℕ → List RunRow → List RunRow
take_rows zero rows = []
take_rows (suc n) [] = []
take_rows (suc n) (r ∷ rows) = r ∷ take_rows n rows

unfoldable pub runs :
    Database → (graph status : Option String) → (limit : Option ℕ) → Result (List RunRow)
unfolding take_rows
runs db graph status none = raise (value_error "limit must be between 1 and 1000")
runs db graph status (some limit) =
    if leb 1 limit && leb limit 1000
    then return (
        take_rows limit
          (reverse (keep (λ r. matches graph r.graph && matches status r.status) db.runs)))
    else raise (value_error "limit must be between 1 and 1000")

unfoldable pub latest :
    Database → (graph : String) → (status : Option String) → Result (Option RunRow)
unfolding runs
latest db graph status = do
  rows ← runs db (some graph) status (some 1)
  return (elim rows [ [] ↦ none | r ∷ _ ↦ some r ])

-- A record that `get` returns: the row and the rows of its nodes.
pub record RunRecord : Type 0 where
  pub run : RunRow
  pub nodes : List NodeRow

unfoldable pub find_run : String → List RunRow → Option RunRow
find_run run_id [] = none
find_run run_id (r ∷ rows) = if str_eq r.id run_id then some r else find_run run_id rows

unfoldable pub get : Database → String → Result RunRecord
unfolding find_run
get db run_id = elim (find_run run_id db.runs) [
  | none ↦ raise (key_error run_id)
  | some r ↦ return (record { run = r; nodes = keep (λ n. str_eq n.run_id run_id) db.nodes })
]

-- The two updates of `recover`.
unfoldable pub abandon : Database → (run_id : String) (now : ℕ) → Database
unfolding update_rows
abandon db run_id now = record db {
  nodes =
      update_rows
        (λ n. str_eq n.run_id run_id && mem_text n.state ("running" ∷ "pending" ∷ "ready" ∷ []))
        (λ n. record n { state = if str_eq n.state "running" then "unknown" else "cancelled" })
        db.nodes;
  runs =
      update_rows (λ r. str_eq r.id run_id && str_eq r.status "running")
        (λ r. record r { status = "interrupted"; finished_at = some now }) db.runs;
}

-- `recover`: the database afterwards and the record. The lease is closed whatever happens.
unfoldable pub recover : Database → (run_id : String) (now : ℕ) → Result (Database × RunRecord)
unfolding get lease abandon release_lease
recover db run_id now = do
  found ← get db run_id
  if not (str_eq found.run.status "running") then return (db, found) else (do
    held ← lease db (some run_id)
    let after = release_lease (abandon held run_id now) run_id
    again ← get after run_id
    return (after, again))
