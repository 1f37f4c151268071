-- ===== src/History/Life.antt =====
-- A run from its start: what `_start` records, and the lease that protects it.
use traversal.Base.{
  ℕ, ◌≡◌, ◌≢◌, ◌∙◌, refl, String, Bool, true, false, Option, none, some, List, [], ◌∷◌, ◌++◌,
  str_eq, mem_text, keep, some_of, append_assoc, append-nil, ap, eq_iff, eq_refl, Bool-cases,
  Option-cases, inl, inr, arith,
}
use traversal.Exceptions.{run_active, return, raise, >>=-eq-return}
use traversal.History.Text.{is_run_id}
use traversal.History.{
  RunRow, NodeRow, Database, is_row, acquire, lease, new_rows, insert_nodes, start,
}
use traversal.History.Records.{RunRecord, find_run, get, recover}

-- The rows that pass the insertions are appended.
insert_nodes-append :
    (table rows result : List NodeRow)
    → insert_nodes table rows ≡ return result
    → result ≡ table ++ rows
unfolding insert_nodes
insert_nodes-append table [] result h = ground (arith, append-nil table)
insert_nodes-append table (n ∷ rows) result h =
    elim (Bool-cases (some_of (is_row n.run_id n.name) table)) [
      | inl taken ↦ absurd (ground arith)
      | inr free ↦
          insert_nodes-append (table ++ n ∷ []) rows result (rw (insert_nodes, free) at h)
          ∙ append_assoc table (n ∷ []) rows
    ]

keep-append {ℓ} :
    {A : Type ℓ} (p : A → Bool) (xs ys : List A) → keep p (xs ++ ys) ≡ keep p xs ++ keep p ys
keep-append p [] ys = refl
keep-append p (x ∷ xs) ys = ground (arith, keep-append p xs ys)

keep-none {ℓ} : {A : Type ℓ} (p : A → Bool) (xs : List A) → some_of p xs ≡ false → keep p xs ≡ []
keep-none p [] h = refl
keep-none p (x ∷ xs) h = ground (arith, keep-none p xs)

-- The new rows belong to the run.
new_rows-own :
    (run_id : String) (names : List String) (selected : List Bool) (rows : List NodeRow)
    → new_rows run_id names selected ≡ return rows
    → keep (λ n. str_eq n.run_id run_id) rows ≡ rows
unfolding new_rows
new_rows-own run_id [] selected rows h = let e : rows ≡ [] = cc in rw e refl
new_rows-own run_id (name ∷ names) [] rows h = cc
new_rows-own run_id (name ∷ names) (flag ∷ flags) rows h =
    let (rest, made, last) = >>=-eq-return (new_rows run_id names flags) _ h in
    let own = new_rows-own run_id names flags rest made in ground (arith, own, eq_refl run_id)

find_run-append :
    (run_id : String) (rows : List RunRow) (r : RunRow)
    → some_of (λ s. str_eq s.id run_id) rows ≡ false
    → r.id ≡ run_id
    → find_run run_id (rows ++ r ∷ []) ≡ some r
unfolding find_run
find_run-append run_id [] r h e = rw (e, eq_refl run_id) refl
find_run-append run_id (s ∷ rows) r h e = ground (arith, find_run-append run_id rows r)

pub start_cases :
    (db db' : Database) (graph version : String) (names : List String) (selected : List Bool)
    (source : Option String) (run_id : String) (now : ℕ)
    → start db graph version names selected source run_id now ≡ return db'
    → (rows : List NodeRow) × (new_rows run_id names selected ≡ return rows)
      × (is_run_id run_id ≡ true)
      × (mem_text run_id db.locks ≡ false)
      × (some_of (λ r. str_eq r.id run_id) db.runs ≡ false)
      × (db' ≡ record {
        runs =
            db.runs
            ++ (record {
              id = run_id;
              graph = graph;
              graph_version = version;
              status = "running";
              started_at = now;
              finished_at = none;
              source_run_id = source;
            })
              ∷ [];
        nodes = db.nodes ++ rows;
        results = db.results;
        locks = run_id ∷ db.locks;
      })
unfolding start lease acquire
start_cases db db' graph version names selected source run_id now h =
    let (valid, free, fresh) : (is_run_id run_id ≡ true)
        × (mem_text run_id db.locks ≡ false)
        × (some_of (λ r. str_eq r.id run_id) db.runs ≡ false) =
      ground arith in
    let (rows, made, rest) =
      >>=-eq-return (new_rows run_id names selected) _
        (rw (start, lease, acquire, valid, free, fresh) at h) in
    let (nodes, inserted, last) = >>=-eq-return (insert_nodes db.nodes rows) _ rest in
    let appended : nodes ≡ db.nodes ++ rows = insert_nodes-append db.nodes rows nodes inserted in
    (rows, made, valid, free, fresh, rw (← appended) (ground arith))

new_rows-other :
    (run_id other : String) (names : List String) (selected : List Bool) (rows : List NodeRow)
    → other ≢ run_id
    → new_rows run_id names selected ≡ return rows
    → keep (λ n. str_eq n.run_id other) rows ≡ []
unfolding new_rows
new_rows-other run_id other [] selected rows differ h = let e : rows ≡ [] = cc in rw e refl
new_rows-other run_id other (name ∷ names) [] rows differ h = cc
new_rows-other run_id other (name ∷ names) (flag ∷ flags) rows differ h =
    let (rest, made, last) = >>=-eq-return (new_rows run_id names flags) _ h in
    let none_of = new_rows-other run_id other names flags rest differ made in
    ground (arith, none_of, eq_iff run_id other)

find_run-append_other :
    (other : String) (rows : List RunRow) (r : RunRow)
    → str_eq r.id other ≡ false
    → find_run other (rows ++ r ∷ []) ≡ find_run other rows
unfolding find_run
find_run-append_other other [] r h = rw h refl
find_run-append_other other (s ∷ rows) r h = ground (arith, find_run-append_other other rows r h)

-- The database with a new run and its rows, whose lease is held.
abbrev begun : Database → RunRow → List NodeRow → Database
begun db run rows = record {
  runs = db.runs ++ run ∷ [];
  nodes = db.nodes ++ rows;
  results = db.results;
  locks = run.id ∷ db.locks;
}

get-begun :
    (db : Database) (run : RunRow) (rows : List NodeRow)
    → some_of (λ r. str_eq r.id run.id) db.runs ≡ false
    → some_of (λ n. str_eq n.run_id run.id) db.nodes ≡ false
    → keep (λ n. str_eq n.run_id run.id) rows ≡ rows
    → get (begun db run rows) run.id ≡ return (record { run = run; nodes = rows })
unfolding get
get-begun db run rows fresh free own =
    rw
      (
        get,
        find_run-append run.id db.runs run fresh refl,
        keep-append (λ n. str_eq n.run_id run.id) db.nodes rows,
        keep-none (λ n. str_eq n.run_id run.id) db.nodes free,
        own,
      )
      refl

get-begun_other :
    (db : Database) (run : RunRow) (rows : List NodeRow) (other : String)
    → str_eq run.id other ≡ false
    → keep (λ n. str_eq n.run_id other) rows ≡ []
    → get (begun db run rows) other ≡ get db other
unfolding get
get-begun_other db run rows other differ none_of = elim (Option-cases (find_run other db.runs)) [
  | inl missing ↦ rw (get, find_run-append_other other db.runs run differ, missing) refl
  | inr (r, found) ↦
      rw
        (
          get,
          find_run-append_other other db.runs run differ,
          found,
          keep-append (λ n. str_eq n.run_id other) db.nodes rows,
          none_of,
          append-nil (keep (λ n. str_eq n.run_id other) db.nodes),
        )
        refl
]

-- A running run whose lease is held is not recovered.
recover-held :
    (db : Database) (run_id : String) (now : ℕ) (r : RunRecord)
    → get db run_id ≡ return r
    → str_eq r.run.status "running" ≡ true
    → is_run_id run_id ≡ true
    → mem_text run_id db.locks ≡ true
    → recover db run_id now ≡ raise (run_active "run has an active local owner")
unfolding recover lease acquire
recover-held db run_id now r read running valid held =
    rw (recover, read, running, lease, valid, acquire, held) refl

-- When `_start` returns, and no node of an older run has the new ID: `get` returns the new run, as
-- running, with the rows of its nodes; and in this database, where its lease is held, `recover`
-- raises at any time.
pub start_records :
    (db db' : Database) (graph version : String) (names : List String) (selected : List Bool)
    (source : Option String) (run_id : String) (now later : ℕ)
    → start db graph version names selected source run_id now ≡ return db'
    → some_of (λ n. str_eq n.run_id run_id) db.nodes ≡ false
    → (rows : List NodeRow) × (new_rows run_id names selected ≡ return rows)
      × (get db' run_id
          ≡ return (record {
            run = record {
              id = run_id;
              graph = graph;
              graph_version = version;
              status = "running";
              started_at = now;
              finished_at = none;
              source_run_id = source;
            };
            nodes = rows;
          }))
      × (recover db' run_id later ≡ raise (run_active "run has an active local owner"))
unfolding mem_text
start_records db db' graph version names selected source run_id now later h free =
    let (rows, made, valid, unlocked, fresh, e) =
      start_cases db db' graph version names selected source run_id now h in
    let run : RunRow = record {
      id = run_id;
      graph = graph;
      graph_version = version;
      status = "running";
      started_at = now;
      finished_at = none;
      source_run_id = source;
    } in
    let read = get-begun db run rows fresh free (new_rows-own run_id names selected rows made) in
    let held : mem_text run_id (run_id ∷ db.locks) ≡ true = ground (arith, eq_refl run_id) in
    (
      rows,
      made,
      ap (λ d. get d run_id) e ∙ read,
      ap (λ d. recover d run_id later) e
          ∙ recover-held (begun db run rows) run_id later (record { run = run; nodes = rows }) read
              (eq_refl "running") valid held,
    )

-- When `_start` returns, `get` returns for every other run what it returned before.
pub start_others :
    (db db' : Database) (graph version : String) (names : List String) (selected : List Bool)
    (source : Option String) (run_id other : String) (now : ℕ)
    → start db graph version names selected source run_id now ≡ return db'
    → other ≢ run_id
    → get db' other ≡ get db other
start_others db db' graph version names selected source run_id other now h differ =
    let (rows, made, valid, unlocked, fresh, e) =
      start_cases db db' graph version names selected source run_id now h in
    ap (λ d. get d other) e
    ∙ get-begun_other db _ rows other (ground (arith, eq_iff run_id other))
        (new_rows-other run_id other names selected rows differ made)
