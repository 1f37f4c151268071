-- ===== src/Coordinator/Kept.antt =====
-- What no call of the history in `arun` touches: the table of runs and the names of the run's rows.
use traversal.Base.{ℕ, ◌≡◌, refl, ◌∙◌, ap, String, Bool, Option, some, List, [], ◌∷◌, arith}
use traversal.Cache.{Object, Codec}
use traversal.History.{
  Settings, Failure, NodeRow, Database, update_rows, is_row, mark_running, mark_finished,
  reuse_note, error_text,
}
use traversal.History.Ending.{row_names}
use traversal.History.Stored.{save_result}

pub row_names-update :
    (run_id : String) (test : NodeRow → Bool) (f : NodeRow → NodeRow) (nodes : List NodeRow)
    → ((n : NodeRow) → ((f n).run_id ≡ n.run_id) × ((f n).name ≡ n.name))
    → row_names run_id (update_rows test f nodes) ≡ row_names run_id nodes
unfolding update_rows
row_names-update run_id test f [] same = refl
row_names-update run_id test f (n ∷ nodes) same =
    ground (arith, same n, row_names-update run_id test f nodes same)

pub record Kept (run_id : String) (db db' : Database) : Type 0 where
  pub runs : db'.runs ≡ db.runs
  pub rows : row_names run_id db'.nodes ≡ row_names run_id db.nodes

module _ (run_id : String) where
  pub Kept-refl : (db : Database) → Kept run_id db db
  Kept-refl db = record { runs = refl; rows = refl }

  pub Kept-trans : (a b c : Database) → Kept run_id a b → Kept run_id b c → Kept run_id a c
  Kept-trans a b c p q = record { runs = q.runs ∙ p.runs; rows = q.rows ∙ p.rows }

  pub mark_running-Kept :
      (name : String) (now : ℕ) (db : Database) → Kept run_id db (mark_running db run_id name now)
  unfolding mark_running
  mark_running-Kept name now db = record {
    runs = refl;
    rows =
        row_names-update run_id (is_row run_id name)
          (λ n. record n { state = "running"; started_at = some now }) db.nodes (λ n. (refl, refl));
  }

  pub mark_finished-Kept :
      (s : Settings) (name state : String) (failure : Option Failure) (now : ℕ) (db : Database)
      → Kept run_id db (mark_finished s db run_id name state failure now)
  unfolding mark_finished
  mark_finished-Kept s name state failure now db = record {
    runs = refl;
    rows =
        row_names-update run_id (is_row run_id name)
          (λ n. record n { state = state; finished_at = some now; error = error_text s failure })
          db.nodes (λ n. (refl, refl));
  }

  pub reuse_note-Kept :
      (name : String) (key : Option String) (reason : String) (db : Database)
      → Kept run_id db (reuse_note db run_id name key reason)
  unfolding reuse_note
  reuse_note-Kept name key reason db = record {
    runs = refl;
    rows =
        row_names-update run_id (is_row run_id name)
          (λ n. record n { cache_key = key; reuse_reason = some reason }) db.nodes
          (λ n. (refl, refl));
  }

  pub save_result-Kept :
      (c : Codec) (s : Settings) (frames : ℕ) (db : Database) (key : String) (value : Object)
      → Kept run_id db (save_result c s frames db key value).0
  unfolding save_result
  save_result-Kept c s frames db key value = record {
    runs = ground arith;
    rows = ap (row_names run_id) same;
  }
    where
      same : (save_result c s frames db key value).0.nodes ≡ db.nodes
      same = ground arith
