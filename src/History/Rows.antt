-- ===== src/History/Rows.antt =====
-- Updates of the tables of runs and nodes, seen by run.
use traversal.Base.{
  ◌≡◌, ◌≢◌, refl, String, Bool, true, false, not, ◌&&◌, none, some, List, [], ◌∷◌, if◌then◌else◌,
  str_eq, mem_text, map, keep, every, eq_iff, arith,
}
use traversal.History.{RunRow, NodeRow, update_rows}
use traversal.History.Records.{find_run}

-- Updates of rows that keep their keys.
pub find_run-update :
    (run_id : String) (test : RunRow → Bool) (f : RunRow → RunRow) (rows : List RunRow)
    → ((r : RunRow) → (f r).id ≡ r.id)
    → find_run run_id (update_rows test f rows)
      ≡ elim (find_run run_id rows) [ none ↦ none | some r ↦ some (if test r then f r else r) ]
unfolding find_run update_rows
find_run-update run_id test f [] same = refl
find_run-update run_id test f (r ∷ rows) same =
    ground (arith, same r, find_run-update run_id test f rows same)

pub keep-update_same :
    (run_id : String) (test : NodeRow → Bool) (f : NodeRow → NodeRow) (rows : List NodeRow)
    → ((n : NodeRow) → (f n).run_id ≡ n.run_id)
    → keep (λ n. str_eq n.run_id run_id) (update_rows test f rows)
      ≡ update_rows test f (keep (λ n. str_eq n.run_id run_id) rows)
unfolding update_rows
keep-update_same run_id test f [] same = refl
keep-update_same run_id test f (n ∷ rows) same =
    ground (arith, same n, keep-update_same run_id test f rows same)

pub find_run-id :
    (run_id : String) (rows : List RunRow) (r : RunRow)
    → find_run run_id rows ≡ some r
    → r.id ≡ run_id
unfolding find_run
find_run-id run_id [] r h = cc
find_run-id run_id (s ∷ rows) r h = ground (arith, eq_iff s.id run_id, find_run-id run_id rows r)

pub keep_absent :
    (run_id : String) (locks : List String)
    → mem_text run_id locks ≡ false
    → keep (λ l. not (str_eq l run_id)) locks ≡ locks
unfolding mem_text
keep_absent run_id [] h = refl
keep_absent run_id (l ∷ locks) h = ground (arith, keep_absent run_id locks)

-- An update of rows with a key, seen on these rows and on others.
pub update-kept :
    (key test : NodeRow → Bool) (f : NodeRow → NodeRow) (rows : List NodeRow)
    → update_rows (λ n. key n && test n) f (keep key rows)
      ≡ map (λ n. if test n then f n else n) (keep key rows)
unfolding update_rows
update-kept key test f [] = refl
update-kept key test f (n ∷ rows) = ground (arith, update-kept key test f rows)

pub update-none :
    (key test : NodeRow → Bool) (f : NodeRow → NodeRow) (rows : List NodeRow)
    → every (λ n. not (key n)) rows ≡ true
    → update_rows (λ n. key n && test n) f rows ≡ rows
unfolding update_rows
update-none key test f [] h = refl
update-none key test f (n ∷ rows) h = ground (arith, update-none key test f rows)

pub others_keyless :
    (run_id other : String) (rows : List NodeRow)
    → other ≢ run_id
    → every (λ n. not (str_eq n.run_id run_id)) (keep (λ n. str_eq n.run_id other) rows) ≡ true
others_keyless run_id other [] differ = refl
others_keyless run_id other (n ∷ rows) differ =
    ground (arith, others_keyless run_id other rows, eq_iff n.run_id run_id, eq_iff n.run_id other)

-- What becomes of a node of a run whose process is gone: one that was running may have had effects,
-- one that had not started is cancelled.
abbrev pub after_crash : NodeRow → NodeRow
after_crash n =
    if mem_text n.state ("running" ∷ "pending" ∷ "ready" ∷ [])
    then record n { state = if str_eq n.state "running" then "unknown" else "cancelled" }
    else n
