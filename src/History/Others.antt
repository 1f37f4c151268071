-- ===== src/History/Others.antt =====
-- What the calls of the history for a run leave of the records of other runs.
use traversal.Base.{
  ℕ, ◌≡◌, ◌≢◌, ◌∙◌, refl, String, false, some, Option, List, [], ◌∷◌, str_eq, keep, eq_iff,
  Option-cases, inl, inr, arith,
}
use traversal.Cache.{Object, Codec}
use traversal.History.{
  Settings, Failure, RunRow, NodeRow, Database, is_row, update_rows, mark_running, mark_finished,
  reuse_note, write_states, end_run, release_lease, error_text,
}
use traversal.History.Records.{find_run, get}
use traversal.History.Rows.{
  find_run-update, keep-update_same, find_run-id, update-none, others_keyless,
}
use traversal.History.Stored.{save_result}

module _ (run_id other : String) (differ : other ≢ run_id) where
  -- An update of a row of the run.
  keep-update_other :
      (name : String) (f : NodeRow → NodeRow) (nodes : List NodeRow)
      → ((n : NodeRow) → (f n).run_id ≡ n.run_id)
      → keep (λ n. str_eq n.run_id other) (update_rows (is_row run_id name) f nodes)
        ≡ keep (λ n. str_eq n.run_id other) nodes
  keep-update_other name f nodes same =
      keep-update_same other (is_row run_id name) f nodes same
      ∙ update-none (λ n. str_eq n.run_id run_id) (λ n. str_eq n.name name) f
          (keep (λ n. str_eq n.run_id other) nodes) (others_keyless run_id other nodes differ)

  keep-write_states_other :
      (states : List (String × String)) (nodes : List NodeRow)
      → keep (λ n. str_eq n.run_id other) (write_states run_id states nodes)
        ≡ keep (λ n. str_eq n.run_id other) nodes
  unfolding write_states
  keep-write_states_other [] nodes = refl
  keep-write_states_other ((name, state) ∷ states) nodes =
      keep-write_states_other states
        (update_rows (is_row run_id name) (λ n. record n { state = state }) nodes)
      ∙ keep-update_other name (λ n. record n { state = state }) nodes (λ n. refl)

  find_run-update_other :
      (f : RunRow → RunRow) (runs : List RunRow)
      → ((r : RunRow) → (f r).id ≡ r.id)
      → find_run other (update_rows (λ r. str_eq r.id run_id) f runs) ≡ find_run other runs
  find_run-update_other f runs same = elim (Option-cases (find_run other runs)) [
    | inl missing ↦ rw (find_run-update other (λ r. str_eq r.id run_id) f runs same, missing) refl
    | inr (r, found) ↦
        let no : str_eq r.id run_id ≡ false =
          ground (arith, find_run-id other runs r found, eq_iff r.id run_id) in
        rw (find_run-update other (λ r. str_eq r.id run_id) f runs same, found, no) refl
  ]

  get_same :
      (db db' : Database)
      → find_run other db'.runs ≡ find_run other db.runs
      → keep (λ n. str_eq n.run_id other) db'.nodes ≡ keep (λ n. str_eq n.run_id other) db.nodes
      → get db' other ≡ get db other
  unfolding get
  get_same db db' runs nodes = elim (Option-cases (find_run other db.runs)) [
    | inl missing ↦ rw (get, runs, missing) refl
    | inr (r, found) ↦ rw (get, runs, found, nodes) refl
  ]

  pub mark_running_others :
      (name : String) (now : ℕ) (db : Database)
      → get (mark_running db run_id name now) other ≡ get db other
  unfolding mark_running
  mark_running_others name now db = get_same db (mark_running db run_id name now) refl (
      keep-update_other name (λ n. record n { state = "running"; started_at = some now }) db.nodes
        (λ n. refl))

  pub mark_finished_others :
      (s : Settings) (name state : String) (failure : Option Failure) (now : ℕ) (db : Database)
      → get (mark_finished s db run_id name state failure now) other ≡ get db other
  unfolding mark_finished
  mark_finished_others s name state failure now db =
      get_same db (mark_finished s db run_id name state failure now) refl (
        keep-update_other name
          (λ n. record n { state = state; finished_at = some now; error = error_text s failure })
          db.nodes (λ n. refl))

  pub reuse_note_others :
      (name : String) (key : Option String) (reason : String) (db : Database)
      → get (reuse_note db run_id name key reason) other ≡ get db other
  unfolding reuse_note
  reuse_note_others name key reason db = get_same db (reuse_note db run_id name key reason) refl (
      keep-update_other name (λ n. record n { cache_key = key; reuse_reason = some reason })
        db.nodes (λ n. refl))

  pub end_run_others :
      (states : List (String × String)) (status : String) (now : ℕ) (db : Database)
      → get (end_run db run_id states status now) other ≡ get db other
  unfolding end_run
  end_run_others states status now db =
      get_same db (end_run db run_id states status now)
        (find_run-update_other (λ r. record r { status = status; finished_at = some now }) db.runs
          (λ r. refl))
        (keep-write_states_other states db.nodes)

-- The result rows and the leases are no part of a record.
pub save_result-get :
    (c : Codec) (s : Settings) (frames : ℕ) (db : Database) (key : String) (v : Object)
    (other : String)
    → get (save_result c s frames db key v).0 other ≡ get db other
unfolding get save_result
save_result-get c s frames db key v other = ground arith

pub save_result-locks :
    (c : Codec) (s : Settings) (frames : ℕ) (db : Database) (key : String) (v : Object)
    → (save_result c s frames db key v).0.locks ≡ db.locks
unfolding save_result
save_result-locks c s frames db key v = ground arith

pub release_lease-get :
    (db : Database) (run_id other : String) → get (release_lease db run_id) other ≡ get db other
unfolding get release_lease
release_lease-get db run_id other = refl
