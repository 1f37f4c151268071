-- ===== src/Coordinator/Record.antt =====
-- What the history says of a run after its end, and what `arun` reports.
use traversal.Base.{
  length-map, all_different, ℕ, ◌≤◌, ◌<◌, ◌≡◌, refl, subst, ◌∙◌, sym, ap, String, Bool, true, false,
  Option, some, List, [], ◌∷◌, map, length, some_of, str_eq, if◌then◌else◌, inl, inr, arith,
}
use traversal.Engine.Binding.{py_states}
use traversal.Engine.Binding.Accepts.{compile_topology-IsGraph}
use traversal.Exceptions.{return, >>=-eq-return}
use traversal.Cache.{Codec}
use traversal.History.{Settings, NodeRow, RunRow, Database, new_rows, end_run, release_lease}
use traversal.History.Records.{RunRecord, find_run, get}
use traversal.History.Recovery.{get_cases}
use traversal.History.Life.{start_records}
use traversal.History.Ending.{row_names, end_run-get}
use traversal.Graph.{Graph, Target}
use traversal.Plan.{Plan, compile}
use traversal.Report.{RunReport, succeeded}
use traversal.Coordinator.{Outcome, Progress, Setting}
use traversal.Coordinator.Prepare.{prepare, open_run}
use traversal.Coordinator.Good.{Fits, Good, state-Inv, represents}
use traversal.Coordinator.Loop.{ended, loop, zip_names, named_states, close_ended, report}
use traversal.Coordinator.Schedule.{is_schedule}
use traversal.Coordinator.Ends.{Leaves, loop-Leaves}
use traversal.Coordinator.Begin.{prepare-Good, prepare_cases}
use traversal.Coordinator.Arun.{Environment, arun}
use traversal.Coordinator.Runs.{loop_ends}

pub zip_names-names :
    (index : List (String × ℕ)) (states : List String)
    → length states ≡ length index
    → map (λ s. s.0) (zip_names index states) ≡ map (λ n. n.0) index
zip_names-names [] states h = refl
zip_names-names (n ∷ index) [] h = absurd (omega arith)
zip_names-names (n ∷ index) (s ∷ states) h =
    ap (λ names. n.0 ∷ names) (zip_names-names index states (omega arith))

new_rows-names :
    (run_id : String) (names : List String) (selected : List Bool) (rows : List NodeRow)
    → new_rows run_id names selected ≡ return rows
    → map (λ n. n.name) rows ≡ names
unfolding new_rows
new_rows-names run_id [] selected rows h = let e : rows ≡ [] = cc in rw e refl
new_rows-names run_id (name ∷ names) [] rows h = cc
new_rows-names run_id (name ∷ names) (flag ∷ flags) rows h =
    let (others, made, last) = >>=-eq-return (new_rows run_id names flags) _ h in
    ground (arith, new_rows-names run_id names flags others made)

-- What opening the run leaves in the tables.
pub opened_rows :
    (p : Plan) (s : Settings) (db db' : Database) (previous : Option String) (run_id : String)
    (now : ℕ)
    → p.store ≡ some s
    → some_of (λ n. str_eq n.run_id run_id) db.nodes ≡ false
    → open_run p db previous run_id now ≡ return db'
    → (run : RunRow) × (find_run run_id db'.runs ≡ some run)
      × (row_names run_id db'.nodes ≡ map (λ n. n.0) p.index)
unfolding open_run
opened_rows p s db db' previous run_id now set free h =
    let (rows, made, read, _) =
      start_records db db' p.name p.version (map (λ n. n.0) p.index) p.selected previous run_id now
        now (rw set at h) free in
    let (run, kept) = get_cases db' run_id _ read in
    (
      _,
      run,
      ap (map (λ n. n.name)) (sym kept)
          ∙ new_rows-names run_id (map (λ n. n.0) p.index) p.selected rows made,
    )

-- `_end` and the release of the lease, when there is a store.
closes :
    (e : Setting) (g : Progress) (s : Settings)
    → e.plan.store ≡ some s
    → (close_ended e g).db
      ≡ release_lease
          (end_run g.db e.run_id
            (named_states e.plan g.state)
            (if succeeded (report e g) then "succeeded" else "failed")
            (e.clock g.readings))
          e.run_id
unfolding close_ended report succeeded
closes e g s set = rw set refl

module _ (graph : Graph) (targets : List Target) (owner : ℕ) (codec : Codec) (frames : ℕ) (p : Plan)
    (db : Database) (capacity : Option ℕ) (previous : Option String) (force : List String)
    (run_id : String) (clock : ℕ → ℕ) (e : Setting) (g : Progress)
    (made : compile graph targets owner ≡ return p)
    (prepared : prepare codec frames p db capacity previous force run_id clock
      ≡ return (e, g)) where
  begun : Fits e g × Good e g [] g
  begun =
      prepare-Good graph targets owner codec frames p db capacity previous force run_id clock e g
        made prepared

  -- The report names the nodes of the plan, each once.
  module _ (g' : Progress) (good : Good e g [] g') where
    pub reported_names : map (λ s. s.0) (named_states e.plan g'.state) ≡ map (λ n. n.0) e.plan.index
    unfolding named_states py_states
    reported_names =
        let rep = represents e g begun.0 in
        let inv = state-Inv e g begun.0 g'.state good.reach in
        zip_names-names e.plan.index (py_states g'.state) (
          length-map _ g'.state.states
          ∙ inv.sound.as_many_states
          ∙ ap length rep.names_are
          ∙ length-map (λ n. n.0) e.plan.index)

    pub names_differ : all_different (map (λ s. s.0) (named_states e.plan g'.state)) ≡ true
    names_differ =
        rw reported_names
          (compile_topology-IsGraph begun.0.owner (map (λ n. n.0) e.plan.index) e.plan.dependencies
            begun.0.frozen.made).different

    -- What the tables have of the run before it is closed.
    pub tables :
        (s : Settings)
        → p.store ≡ some s
        → some_of (λ n. str_eq n.run_id run_id) db.nodes ≡ false
        → (run : RunRow) × (find_run e.run_id g'.db.runs ≡ some run)
          × (row_names e.run_id g'.db.nodes ≡ map (λ s. s.0) (named_states e.plan g'.state))
          × (e.run_id ≡ run_id)
          × (e.plan.store ≡ some s)
    tables s set free =
        let ready =
          prepare_cases codec frames p db capacity previous force run_id clock e g prepared in
        let (run, found, rows) =
          opened_rows p s db g.db previous run_id (clock 0) set free ready.opened in
        (
          run,
          rw (ready.run_id_is, good.recorded.runs) found,
          good.recorded.rows
              ∙ ap (λ i. row_names i g.db.nodes) ready.run_id_is
              ∙ rows
              ∙ ap (λ (q : Plan). map (λ n. n.0) q.index) (sym ready.plan_is)
              ∙ sym reported_names,
          ready.run_id_is,
          ap (λ (q : Plan). q.store) ready.plan_is ∙ set,
        )

    closed_record :
        (s : Settings)
        → p.store ≡ some s
        → some_of (λ n. str_eq n.run_id run_id) db.nodes ≡ false
        → (found : RunRecord) × (get (close_ended e g').db run_id ≡ return found)
          × (found.run.status ≡ (if succeeded (report e g') then "succeeded" else "failed"))
          × (map (λ n. (n.name, n.state)) found.nodes ≡ (report e g').states)
    unfolding report
    closed_record s set free =
        let (run, found, rows, run_id_is, given) = tables s set free in
        let (record_found, read, status, states) =
          end_run-get g'.db e.run_id (if succeeded (report e g') then "succeeded" else "failed")
            (named_states e.plan g'.state) (e.clock g'.readings) run found names_differ rows in
        (
          record_found,
          ap (λ i. get (close_ended e g').db i) (sym run_id_is)
              ∙ ap (λ d. get d e.run_id) (closes e g' s given)
              ∙ read,
          status,
          states,
        )

  module _ (fuel : ℕ) (batches : List (List (ℕ × Outcome)))
      (fair : is_schedule e fuel batches g ≡ true) where
    leaves : Leaves e g begun.0 fuel (length batches) g.state.unfinished (loop e fuel batches g)
    leaves = loop-Leaves e g begun.0 fuel batches g begun.1 fair

    report_recorded :
        (s : Settings) (g' : Progress)
        → p.store ≡ some s
        → some_of (λ n. str_eq n.run_id run_id) db.nodes ≡ false
        → loop e fuel batches g ≡ ended g'
        → (found : RunRecord) × (get (close_ended e g').db run_id ≡ return found)
          × (found.run.status ≡ (if succeeded (report e g') then "succeeded" else "failed"))
          × (map (λ n. (n.name, n.state)) found.nodes ≡ (report e g').states)
    report_recorded s g' set free h = elim leaves [
      | inl (g'', k, good, over) ↦
          let same : g'' ≡ g' = cc in
          closed_record g' (subst (λ (x : Progress). Good e g [] x) same good) s set free
      | inr (g'', k, _, short) ↦ cc
    ]

-- The report does not depend on the closing of the run.
closed_report :
    (e : Setting) (g : Progress) (s : Settings)
    → e.plan.store ≡ some s
    → report e (close_ended e g) ≡ report e g
unfolding report close_ended
closed_report e g s set = rw set refl

arun_ended :
    (env : Environment) (p : Plan) (db : Database) (capacity : Option ℕ) (previous : Option String)
    (force : List String) (e : Setting) (g g' : Progress)
    → prepare env.codec env.frames p db capacity previous force env.run_id env.clock ≡ return (e, g)
    → loop e env.fuel env.batches g ≡ ended g'
    → arun env p db capacity previous force
      ≡ (return (report e (close_ended e g')), (close_ended e g').db)
unfolding arun
arun_ended env p db capacity previous force e g g' prepared h = ground (arith, prepared, h)

module _ (env : Environment) (graph : Graph) (targets : List Target) (owner : ℕ) (p : Plan)
    (s : Settings) (db : Database) (capacity : Option ℕ) (previous : Option String)
    (force : List String) (e : Setting) (g : Progress) where
  -- For a plan with a store that `compile` returns, when `prepare` returns and no node of an older
  -- run has the new ID; for batches that each complete at least one future, only futures that are
  -- pending at the moment, and each once; if the fuel is more than the number of unfinished nodes
  -- and the batches are not fewer: `arun` returns a report, and then `get` returns a record of the
  -- run that has the report's names and states as its nodes, in the same order, and as its status
  -- whether the report succeeded.
  pub arun_records :
      compile graph targets owner ≡ return p
      → p.store ≡ some s
      → prepare env.codec env.frames p db capacity previous force env.run_id env.clock
        ≡ return (e, g)
      → some_of (λ n. str_eq n.run_id env.run_id) db.nodes ≡ false
      → is_schedule e env.fuel env.batches g ≡ true
      → g.state.unfinished < env.fuel
      → g.state.unfinished ≤ length env.batches
      → (r : RunReport) × (db' : Database) × (found : RunRecord) × (arun env p db capacity previous
            force
          ≡ (return r, db'))
        × (get db' env.run_id ≡ return found)
        × (found.run.status ≡ (if succeeded r then "succeeded" else "failed"))
        × (map (λ n. (n.name, n.state)) found.nodes ≡ r.states)
  arun_records made set prepared free fair fuel_left batches_left =
      let (g', over, idle) =
        loop_ends graph targets owner env.codec env.frames p db capacity previous force env.run_id
          env.clock e g made prepared env.fuel env.batches fair fuel_left batches_left in
      let (found, read, status, states) =
        report_recorded graph targets owner env.codec env.frames p db capacity previous force
          env.run_id env.clock e g made prepared env.fuel env.batches fair s g' set free over in
      let ready =
        prepare_cases env.codec env.frames p db capacity previous force env.run_id env.clock e g
          prepared in
      let same = closed_report e g' s (ap (λ (q : Plan). q.store) ready.plan_is ∙ set) in
      (
        report e g',
        (close_ended e g').db,
        found,
        arun_ended env p db capacity previous force e g g' prepared over
            ∙ ap (λ (r : RunReport). (return r, (close_ended e g').db)) same,
        read,
        status,
        states,
      )
