-- ===== src/Coordinator/Always.antt =====
-- What holds of the database after `arun`, however it ends.
use traversal.Base.{
  ℕ, zero, suc, ◌≡◌, refl, ◌∙◌, ap, String, Bool, true, false, Option, List, [], ◌∷◌, map, every,
  if◌then◌else◌, Bool-cases, Option-cases, ◌⊎◌, inl, inr, arith,
}
use traversal.Engine.Run.{done, admit, cancel}
use traversal.Exceptions.{
  Result-cases, Exception, cancelled_error, runtime_error, Result, return, raise,
}
use traversal.History.{Database, end_run, release_lease}
use traversal.Plan.{Plan}
use traversal.Plan.Explain.{needs_store}
use traversal.Report.{RunReport, is_good}
use traversal.Coordinator.{Outcome, Progress, Setting, complete_all, is_empty}
use traversal.Coordinator.Prepare.{prepare, open_run}
use traversal.Coordinator.Loop.{
  Ending, ended, failing, waiting, admit_round, loop, named_states, unknown_if_running, close_run,
  close_ended, interrupt, raised_again, report,
}
use traversal.Coordinator.Stable.{IsStable, dispatch_all-Keeps, complete_all-Keeps}
use traversal.Coordinator.Begin.{prepare_cases}
use traversal.Coordinator.Arun.{Environment, arun}

Ending-cases :
    (last : Ending)
    → ((g : Progress) × (last ≡ ended g))
      ⊎ (((x : Exception) × (g : Progress) × (last ≡ failing x g))
          ⊎ ((g : Progress) × (last ≡ waiting g)))
Ending-cases (ended g) = inl (g, refl)
Ending-cases (failing x g) = inr (inl (x, g, refl))
Ending-cases (waiting g) = inr (inr (g, refl))

-- The variables when the loop is left.
abbrev variables : Ending → Progress
variables (ended g) = g
variables (failing x g) = g
variables (waiting g) = g

module _ (e : Setting) (P : Database → Type 0) (stable : IsStable e P) where
  admit_round-kept : (g : Progress) → P g.db → P (admit_round e g).1.db
  unfolding admit_round
  admit_round-kept g p =
      (dispatch_all-Keeps e P stable (admit g.state).1).keeps
        (record g { state = (admit g.state).0 }) p

  -- What the loop does after a round, by the results of its tests.
  module _ (next : List (List (ℕ × Outcome)) → Progress → Ending)
      (kept : (batches : List (List (ℕ × Outcome))) (g : Progress)
        → P g.db
        → P (variables (next batches g)).db) where
    after_batch :
        (r : Result (Unit {0})) (rest : List (List (ℕ × Outcome))) (g : Progress)
        → P g.db
        → P (variables (elim r [ raise x ↦ failing x g | return u ↦ next rest g ])).db
    after_batch (raise x) rest g p = p
    after_batch (return u) rest g p = kept rest g p

    wait :
        (batches : List (List (ℕ × Outcome))) (g : Progress)
        → P g.db
        → P
            (variables (elim batches [
              | [] ↦ waiting g
              | batch ∷ rest ↦ elim (complete_all e batch g).0 [
                | raise x ↦ failing x (complete_all e batch g).1
                | return u ↦ next rest (complete_all e batch g).1
              ]
            ])).db
    wait [] g p = p
    wait (batch ∷ rest) g p =
        after_batch (complete_all e batch g).0 rest (complete_all e batch g).1
          ((complete_all-Keeps e P stable batch).keeps g p)

    idle :
        (any over : Bool) (x : Exception) (batches : List (List (ℕ × Outcome))) (g : Progress)
        → P g.db
        → P (variables (if any then next batches g else if over then ended g else failing x g)).db
    idle true over x batches g p = kept batches g p
    idle false true x batches g p = p
    idle false false x batches g p = p

  loop-kept :
      (fuel : ℕ) (batches : List (List (ℕ × Outcome))) (g : Progress)
      → P g.db
      → P (variables (loop e fuel batches g)).db
  unfolding loop
  loop-kept zero batches g p = p
  loop-kept (suc fuel) batches g p = elim (Bool-cases (done g.state)) [
    | inl over ↦ rw (loop, over) p
    | inr more ↦ elim (Result-cases (admit_round e g).0) [
      | inl (x, failed) ↦ rw (loop, more, failed) (admit_round-kept g p)
      | inr (any, goes) ↦ elim (Bool-cases (is_empty e (admit_round e g).1.pending)) [
        | inl empty ↦
            rw (loop, more, goes, empty)
              (idle (loop e fuel) (loop-kept fuel) any (done (admit_round e g).1.state)
                (runtime_error "scheduler has unfinished work but no runnable nodes") batches
                (admit_round e g).1 (admit_round-kept g p))
        | inr busy ↦
            rw (loop, more, goes, busy)
              (wait (loop e fuel) (loop-kept fuel) batches (admit_round e g).1
                (admit_round-kept g p))
      ]
    ]
  ]

  -- The database is one with the property, and with the lease closed if there is a store.
  abbrev Closed : Database → Type 0
  Closed after =
      (d : Database) × P d
      × (after ≡ (if needs_store e.plan.store then d else release_lease d e.run_id))

  close_run-Closed :
      (g : Progress) (states : List (String × String)) (status : String)
      → P g.db
      → Closed (close_run e g states status).db
  close_run-Closed g states status p = elim (Option-cases e.plan.store) [
    | inl unset ↦ (g.db, p, rw unset refl)
    | inr (s, set) ↦ (
      end_run g.db e.run_id states status (e.clock g.readings),
      stable.ending s states status (e.clock g.readings) g.db set p,
      rw set refl,
    )
  ]

  close_ended-Closed : (g : Progress) → P g.db → Closed (close_ended e g).db
  unfolding close_ended
  close_ended-Closed g p =
      let states = named_states e.plan g.state in
      close_run-Closed g states (if every (λ s. is_good s.1) states then "succeeded" else "failed")
        p

  interrupt-Closed :
      (g : Progress) (drained : List (ℕ × Outcome)) → P g.db → Closed (interrupt e g drained).db
  unfolding interrupt
  interrupt-Closed g drained p = by_result (complete_all e drained g').0
    where
      g' : Progress
      g' = record g { state = cancel g.state }

      after : Progress
      after = (complete_all e drained (record g { state = cancel g.state })).1

      kept : P after.db
      kept = (complete_all-Keeps e P stable drained).keeps g' p

      shut : Progress → Result (Unit {0}) → Progress
      shut g (raise x) =
          if needs_store e.plan.store then g else record g { db = release_lease g.db e.run_id }
      shut g (return u) =
          close_run e g (map (unknown_if_running e) (named_states e.plan g.state)) "interrupted"

      by_result : (r : Result (Unit {0})) → Closed (shut after r).db
      by_result (return u) =
          close_run-Closed after (map (unknown_if_running e) (named_states e.plan after.state))
            "interrupted" kept
      by_result (raise x) = elim (Option-cases e.plan.store) [
        | inl unset ↦ (after.db, kept, rw unset refl)
        | inr (s, set) ↦ (after.db, kept, rw set refl)
      ]

  -- What `arun` does behind the loop.
  abbrev leave : Ending → List (ℕ × Outcome) → Result RunReport × Database
  leave (ended g) drained = let closed = close_ended e g in (return (report e closed), closed.db)
  leave (failing x g) drained = (raise (raised_again e x g drained), (interrupt e g drained).db)
  leave (waiting g) drained =
      (raise (raised_again e cancelled_error g drained), (interrupt e g drained).db)

  leave-Closed :
      (last : Ending) (drained : List (ℕ × Outcome))
      → P (variables last).db
      → Closed (leave last drained).1
  leave-Closed (ended g) drained p = close_ended-Closed g p
  leave-Closed (failing x g) drained p = interrupt-Closed g drained p
  leave-Closed (waiting g) drained p = interrupt-Closed g drained p

closings :
    (q q' : Plan) (i i' : String) (d : Database)
    → q ≡ q'
    → i ≡ i'
    → ◌≡◌ {A = Database}
        (if needs_store q.store then d else release_lease d i)
        (if needs_store q'.store then d else release_lease d i')
closings q q' i i' d same equal = rw (same, equal) refl

arun_leaves :
    (env : Environment) (p : Plan) (db : Database) (capacity : Option ℕ) (previous : Option String)
    (force : List String) (e : Setting) (g : Progress) (P : Database → Type 0)
    (stable : IsStable e P)
    → prepare env.codec env.frames p db capacity previous force env.run_id env.clock ≡ return (e, g)
    → arun env p db capacity previous force
      ≡ leave e P stable (loop e env.fuel env.batches g) env.drained
unfolding arun
arun_leaves env p db capacity previous force e g P stable prepared =
    elim (Ending-cases (loop e env.fuel env.batches g)) [
      | inl (g', h) ↦ ground (arith, prepared, h)
      | inr (inl (x, g', h)) ↦ ground (arith, prepared, h)
      | inr (inr (g', h)) ↦ ground (arith, prepared, h)
    ]

module _ (env : Environment) (p : Plan) (db : Database) (capacity : Option ℕ)
    (previous : Option String) (force : List String) (P : Database → Type 0) where
  -- What the property has to satisfy: `open_run` establishes it, and the calls of the history keep
  -- it in any setting of this run.
  pub record IsEstablished : Type 0 where
    pub opens :
        (db' : Database) → open_run p db previous env.run_id (env.clock 0) ≡ return db' → P db'
    pub stable :
        (e : Setting) → e.run_id ≡ env.run_id → e.plan ≡ p → e.codec ≡ env.codec → IsStable e P

  -- `arun` raises before it opens the run and leaves the database as it was, or the property holds
  -- when the lease is closed.
  pub arun_cases :
      IsEstablished
      → (((x : Exception) × (arun env p db capacity previous force ≡ (raise x, db)))
          ⊎ ((d : Database) × P d
              × ((arun env p db capacity previous force).1
                  ≡ (if needs_store p.store then d else release_lease d env.run_id))))
  unfolding arun
  arun_cases established =
      elim (Result-cases
        (prepare env.codec env.frames p db capacity previous force env.run_id env.clock)) [
          | inl (x, failed) ↦ inl (x, rw (arun, failed) refl)
          | inr ((e, g), prepared) ↦
              let ready =
                prepare_cases env.codec env.frames p db capacity previous force env.run_id env.clock
                  e g prepared in
              let stable = established.stable e ready.run_id_is ready.plan_is ready.codec_is in
              let left =
                loop-kept e P stable env.fuel env.batches g (established.opens g.db ready.opened) in
              let (d, held, same) =
                leave-Closed e P stable (loop e env.fuel env.batches g) env.drained left in
              inr (
                d,
                held,
                ap (λ (r : Result RunReport × Database). r.1)
                      (arun_leaves env p db capacity previous force e g P stable prepared)
                    ∙ same
                    ∙ closings e.plan p e.run_id env.run_id d ready.plan_is ready.run_id_is,
              )
        ]
