-- ===== src/History/Recovery.antt =====
-- What `History.recover` does to the runs and nodes.
use traversal.Base.{
  ℕ, ◌≡◌, ◌≢◌, ◌∙◌, refl, sym, ap, String, Bool, true, false, ◌&&◌, none, some, [], ◌∷◌,
  if◌then◌else◌, str_eq, mem_text, map, ◌⊎◌, keep, eq_iff, eq_refl, Bool-cases, Option-cases, inl,
  inr, arith,
}
use traversal.Exceptions.{return, >>=-eq-return}
use traversal.History.{NodeRow, Database, update_rows, acquire, release_lease, lease}
use traversal.History.Records.{RunRecord, find_run, get, abandon, recover}
use traversal.History.Rows.{
  find_run-update, keep-update_same, find_run-id, keep_absent, update-kept, update-none,
  others_keyless, after_crash,
}

lease_cases :
    (db held : Database) (run_id : String)
    → lease db (some run_id) ≡ return held
    → (mem_text run_id db.locks ≡ false) × (held ≡ record db { locks = run_id ∷ db.locks })
unfolding lease acquire
lease_cases db held run_id h = ground arith

-- Taking the lease, the updates and closing the lease change the rows only.
released :
    (db held : Database) (run_id : String) (now : ℕ)
    → lease db (some run_id) ≡ return held
    → release_lease (abandon held run_id now) run_id ≡ abandon db run_id now
unfolding release_lease abandon
released db held run_id now h =
    let (free, e) = lease_cases db held run_id h in
    let self : str_eq run_id run_id ≡ true = eq_refl run_id in
    rw (e, self, keep_absent run_id db.locks free) refl

-- The cases of `recover`: the run is settled already, or its process is gone.
recover_cases :
    (db db' : Database) (run_id : String) (now : ℕ) (found r : RunRecord)
    → get db run_id ≡ return found
    → recover db run_id now ≡ return (db', r)
    → ((str_eq found.run.status "running" ≡ false) × (db' ≡ db) × (r ≡ found))
      ⊎ ((str_eq found.run.status "running" ≡ true)
          × (db' ≡ abandon db run_id now)
          × (get db' run_id ≡ return r))
unfolding recover
recover_cases db db' run_id now found r g h =
    elim (Bool-cases (str_eq found.run.status "running")) [
      | inr settled ↦ inl (settled, ground arith, ground arith)
      | inl running ↦
          let (held, taken, rest) =
            >>=-eq-return (lease db (some run_id)) _ (rw (recover, g, running) at h) in
          let e = released db held run_id now taken in
          let (again, got, last) =
            >>=-eq-return (get (release_lease (abandon held run_id now) run_id) run_id) _ rest in
          let same : db' ≡ abandon db run_id now = cc in
          let read : again ≡ r = cc in
          inr (running, same, ap (λ d. get d run_id) (same ∙ sym e) ∙ got ∙ ap return read)
    ]

-- The updates of `abandon`.
abbrev is_started : NodeRow → Bool
is_started n = mem_text n.state ("running" ∷ "pending" ∷ "ready" ∷ [])

abbrev give_up : NodeRow → NodeRow
give_up n = record n { state = if str_eq n.state "running" then "unknown" else "cancelled" }

find_run-abandon :
    (db : Database) (run_id other : String) (now : ℕ)
    → find_run other (abandon db run_id now).runs ≡ elim (find_run other db.runs) [
      | none ↦ none
      | some r ↦ some (
          if str_eq r.id run_id && str_eq r.status "running"
          then record r { status = "interrupted"; finished_at = some now }
          else r)
    ]
unfolding abandon
find_run-abandon db run_id other now =
    find_run-update other (λ r. str_eq r.id run_id && str_eq r.status "running")
      (λ r. record r { status = "interrupted"; finished_at = some now }) db.runs (λ r. refl)

keep-abandon :
    (db : Database) (run_id other : String) (now : ℕ)
    → keep (λ n. str_eq n.run_id other) (abandon db run_id now).nodes
      ≡ update_rows
          (λ n. str_eq n.run_id run_id && is_started n)
          give_up
          (keep (λ n. str_eq n.run_id other) db.nodes)
unfolding abandon
keep-abandon db run_id other now =
    keep-update_same other (λ n. str_eq n.run_id run_id && is_started n) give_up db.nodes
      (λ n. refl)

pub get_cases :
    (db : Database) (run_id : String) (found : RunRecord)
    → get db run_id ≡ return found
    → (find_run run_id db.runs ≡ some found.run)
      × (found.nodes ≡ keep (λ n. str_eq n.run_id run_id) db.nodes)
unfolding get
get_cases db run_id found h = ground arith

-- The record that `recover` should make of one of a run whose process is gone.
abbrev pub recovered : ℕ → RunRecord → RunRecord
recovered now found = record {
  run = record found.run { status = "interrupted"; finished_at = some now };
  nodes = map after_crash found.nodes;
}

get-abandon :
    (db : Database) (run_id : String) (now : ℕ) (found : RunRecord)
    → get db run_id ≡ return found
    → str_eq found.run.status "running" ≡ true
    → get (abandon db run_id now) run_id ≡ return (recovered now found)
unfolding get abandon
get-abandon db run_id now found g running =
    let (run, nodes) = get_cases db run_id found g in
    let same : str_eq found.run.id run_id ≡ true =
      ground (arith, find_run-id run_id db.runs found.run run, eq_iff found.run.id run_id) in
    rw
      (
        get,
        find_run-abandon db run_id run_id now,
        run,
        same,
        running,
        nodes,
        keep-abandon db run_id run_id now,
        update-kept (λ n. str_eq n.run_id run_id) is_started give_up db.nodes,
      )
      refl

other-abandon :
    (db : Database) (run_id other : String) (now : ℕ)
    → other ≢ run_id
    → get (abandon db run_id now) other ≡ get db other
unfolding get
other-abandon db run_id other now differ = elim (Option-cases (find_run other db.runs)) [
  | inl missing ↦ rw (get, find_run-abandon db run_id other now, missing) refl
  | inr (r, found) ↦
      let no : str_eq r.id run_id ≡ false =
        ground (arith, find_run-id other db.runs r found, eq_iff r.id run_id) in
      rw
        (
          get,
          find_run-abandon db run_id other now,
          found,
          no,
          keep-abandon db run_id other now,
          update-none (λ n. str_eq n.run_id run_id) is_started give_up
              (keep (λ n. str_eq n.run_id other) db.nodes)
              (others_keyless run_id other db.nodes differ),
        )
        refl
]

-- When `recover` returns for a run whose record says that it is running: the record that it
-- returns, which `get` reads in the new database too, is interrupted, its running nodes are
-- unknown, its pending and ready nodes are cancelled, and its other nodes are as they were.
pub recover_running :
    (db db' : Database) (run_id : String) (now : ℕ) (found r : RunRecord)
    → get db run_id ≡ return found
    → str_eq found.run.status "running" ≡ true
    → recover db run_id now ≡ return (db', r)
    → (r ≡ recovered now found) × (get db' run_id ≡ return r)
recover_running db db' run_id now found r g running h =
    elim (recover_cases db db' run_id now found r g h) [
      | inl (settled, _, _) ↦ absurd (ground arith)
      | inr (_, same, read) ↦
          let new = get-abandon db run_id now found g running in
          let e : return r ≡ return (recovered now found) =
            sym read ∙ ap (λ d. get d run_id) same ∙ new in
          (cc, read)
    ]

recover_again :
    (db : Database) (run_id : String) (later : ℕ) (r : RunRecord)
    → get db run_id ≡ return r
    → str_eq r.run.status "running" ≡ false
    → recover db run_id later ≡ return (db, r)
unfolding recover
recover_again db run_id later r g settled = rw (recover, g, settled) refl

recovered_from :
    (db db' : Database) (run_id : String) (now later : ℕ) (found r : RunRecord)
    → get db run_id ≡ return found
    → recover db run_id now ≡ return (db', r)
    → (get db' run_id ≡ return r)
      × (str_eq r.run.status "running" ≡ false)
      × (db'.locks ≡ db.locks)
      × (db'.results ≡ db.results)
      × (recover db' run_id later ≡ return (db', r))
unfolding abandon
recovered_from db db' run_id now later found r g h =
    elim (recover_cases db db' run_id now found r g h) [
      | inl (settled, same, e) ↦
          rw (same, e) (g, settled, refl, refl, recover_again db run_id later found g settled)
      | inr (running, same, read) ↦
          let interrupted : str_eq r.run.status "running" ≡ false =
            rw (recover_running db db' run_id now found r g running h).0 refl in
          (
            read,
            interrupted,
            rw same refl,
            rw same refl,
            recover_again db' run_id later r read interrupted,
          )
    ]

-- When `recover` returns, its record is the one that `get` then returns, the run is not running,
-- the leases and the results are as they were, and calling `recover` again, at any time, changes
-- nothing and returns the same record.
pub recover_settles :
    (db db' : Database) (run_id : String) (now later : ℕ) (r : RunRecord)
    → recover db run_id now ≡ return (db', r)
    → (get db' run_id ≡ return r)
      × (str_eq r.run.status "running" ≡ false)
      × (db'.locks ≡ db.locks)
      × (db'.results ≡ db.results)
      × (recover db' run_id later ≡ return (db', r))
unfolding recover
recover_settles db db' run_id now later r h =
    let (found, g, _) = >>=-eq-return (get db run_id) _ h in
    recovered_from db db' run_id now later found r g h

other-recovered :
    (db db' : Database) (run_id other : String) (now : ℕ) (found r : RunRecord)
    → get db run_id ≡ return found
    → recover db run_id now ≡ return (db', r)
    → other ≢ run_id
    → get db' other ≡ get db other
other-recovered db db' run_id other now found r g h differ =
    elim (recover_cases db db' run_id now found r g h) [
      | inl (settled, same, e) ↦ ap (λ d. get d other) same
      | inr (running, same, read) ↦
          ap (λ d. get d other) same ∙ other-abandon db run_id other now differ
    ]

-- When `recover` returns, `get` returns the same as before for every other run.
pub recover_others :
    (db db' : Database) (run_id other : String) (now : ℕ) (r : RunRecord)
    → recover db run_id now ≡ return (db', r)
    → other ≢ run_id
    → get db' other ≡ get db other
unfolding recover
recover_others db db' run_id other now r h =
    let (found, g, _) = >>=-eq-return (get db run_id) _ h in
    other-recovered db db' run_id other now found r g h
