-- ===== src/Coordinator/Interrupted.antt =====
-- What the history says of a run that is cancelled while its loop waits.
use traversal.Base.{
  ℕ, suc, ◌≡◌, refl, ◌∙◌, sym, ap, subst, String, Bool, true, false, not, Option, some, List, [],
  ◌∷◌, map, every, some_of, str_eq, mem_text, if◌then◌else◌, occurs, inl, inr, arith,
}
use traversal.Engine.Run.{
  State, unselected, pending, ready, running, succeeded, failed, blocked, cancelled, reused,
  is_running, as_str, RunState, state_at, cancel,
}
use traversal.Engine.Run.Counts.{is_live}
use traversal.Engine.Run.Queue.{state_at-cancel_all}
use traversal.Engine.Run.Reach.{Reach, next, cancels}
use traversal.Engine.Run.Advance.{Reach-Advances}
use traversal.Engine.Binding.{py_states}
use traversal.Exceptions.{return, raise, cancelled_error}
use traversal.History.{Settings, NodeRow, Database, end_run, release_lease}
use traversal.History.Records.{RunRecord, get}
use traversal.History.Ending.{end_run-get}
use traversal.Graph.{Graph, Target}
use traversal.Plan.{Plan, compile}
use traversal.Coordinator.{Outcome, Progress, Setting, complete_all}
use traversal.Coordinator.Prepare.{prepare}
use traversal.Coordinator.Good.{Fits, Good}
use traversal.Coordinator.Loop.{
  waiting, loop, zip_names, named_states, unknown_if_running, interrupt, raised_again,
}
use traversal.Coordinator.Schedule.{indices, are_pending, is_schedule}
use traversal.Coordinator.Complete.{popped, complete_all-Good}
use traversal.Coordinator.Ends.{loop-Leaves}
use traversal.Coordinator.Begin.{prepare-Good}
use traversal.Coordinator.Arun.{Environment, arun}
use traversal.Coordinator.Record.{tables, names_differ}

-- The texts of the states of nodes that may still do something, or may have done.
abbrev pub is_open : String → Bool
is_open s = mem_text s ("pending" ∷ "ready" ∷ "running" ∷ "unknown" ∷ [])

settled_text :
    (s : State)
    → is_live s ≡ false
    → is_open (if str_eq (as_str s) "running" then "unknown" else as_str s) ≡ false
unfolding as_str mem_text
settled_text unselected h = refl
settled_text pending h = cc
settled_text ready h = cc
settled_text running h = cc
settled_text succeeded h = refl
settled_text failed h = refl
settled_text blocked h = refl
settled_text cancelled h = refl
settled_text reused h = refl

-- The state of a node after a cancellation, and any further calls, if it does not run then.
settled :
    (r r' : RunState) (j : ℕ)
    → Reach (cancel r) r'
    → is_running (state_at r'.states j) ≡ false
    → is_live (state_at r'.states j) ≡ false
unfolding cancel
settled r r' j run idle =
    ground (arith, Reach-Advances run j, state_at-cancel_all r.states r.unfinished j)

settled_names :
    (e : Setting) (index : List (String × ℕ)) (states : List State)
    → ((j : ℕ) → is_live (state_at states j) ≡ false)
    → every
        (λ s. not (is_open s.1))
        (map (unknown_if_running e) (zip_names index (map as_str states)))
      ≡ true
settled_names e [] states h = refl
settled_names e (n ∷ index) [] h = refl
settled_names e (n ∷ index) (s ∷ states) h =
    ground (arith, settled_text s (h 0), settled_names e index states (λ j. h (suc j)))

named_again :
    (e : Setting) (states : List (String × String))
    → map (λ s. s.0) (map (unknown_if_running e) states) ≡ map (λ s. s.0) states
named_again e [] = refl
named_again e (s ∷ states) = ap (λ names. s.0 ∷ names) (named_again e states)

cancelled-Good :
    (e : Setting) (origin g : Progress)
    → Good e origin [] g
    → Good e origin [] (record g { state = cancel g.state })
unfolding cancel
cancelled-Good e origin g w = record {
  reach = next w.reach (cancels g.state);
  held = λ j. ground (arith, w.held j, state_at-cancel_all g.state.states g.state.unfinished j);
  kept = λ j s. ground (arith, w.kept j, state_at-cancel_all g.state.states g.state.unfinished j);
  recorded = w.recorded;
  noted = w.noted;
}

-- The `except` block when the drained futures are all that are pending.
interrupt_drained :
    (e : Setting) (g g'' : Progress) (drained : List (ℕ × Outcome)) (s : Settings)
    → e.plan.store ≡ some s
    → complete_all e drained (record g { state = cancel g.state }) ≡ (return tt, g'')
    → (interrupt e g drained).db
      ≡ release_lease
          (end_run g''.db e.run_id
            (map (unknown_if_running e) (named_states e.plan g''.state))
            "interrupted"
            (e.clock g''.readings))
          e.run_id
unfolding interrupt
interrupt_drained e g g'' drained s set h = ground (arith, set, h)

arun_waits :
    (env : Environment) (p : Plan) (db : Database) (capacity : Option ℕ) (previous : Option String)
    (force : List String) (e : Setting) (g g' g'' : Progress)
    → prepare env.codec env.frames p db capacity previous force env.run_id env.clock ≡ return (e, g)
    → loop e env.fuel env.batches g ≡ waiting g'
    → complete_all e env.drained (record g' { state = cancel g'.state }) ≡ (return tt, g'')
    → arun env p db capacity previous force
      ≡ (raise cancelled_error, (interrupt e g' env.drained).db)
unfolding arun raised_again
arun_waits env p db capacity previous force e g g' g'' prepared h drained =
    ground (arith, prepared, h, drained)

rows_settled :
    (nodes : List NodeRow)
    → every {A = String × String} (λ s. not (is_open s.1)) (map (λ n. (n.name, n.state)) nodes)
      ≡ every (λ n. not (is_open n.state)) nodes
rows_settled [] = refl
rows_settled (n ∷ nodes) = ground (arith, rows_settled nodes)

module _ (env : Environment) (graph : Graph) (targets : List Target) (owner : ℕ) (p : Plan)
    (s : Settings) (db : Database) (capacity : Option ℕ) (previous : Option String)
    (force : List String) (e : Setting) (g : Progress)
    (made : compile graph targets owner ≡ return p)
    (prepared : prepare env.codec env.frames p db capacity previous force env.run_id env.clock
      ≡ return (e, g)) where
  begun : Fits e g × Good e g [] g
  begun =
      prepare-Good graph targets owner env.codec env.frames p db capacity previous force env.run_id
        env.clock e g made prepared

  -- The record after the block.
  interrupted_record :
      (g' : Progress)
      → Good e g [] g'
      → p.store ≡ some s
      → some_of (λ n. str_eq n.run_id env.run_id) db.nodes ≡ false
      → are_pending g'.pending env.drained ≡ true
      → popped g'.pending env.drained ≡ []
      → (found : RunRecord) × (get (interrupt e g' env.drained).db env.run_id ≡ return found)
        × (found.run.status ≡ "interrupted")
        × (every (λ n. not (is_open n.state)) found.nodes ≡ true)
  unfolding named_states py_states
  interrupted_record g' w set free all none_left =
      let (g'', completed, w'', _, _, ran, left) =
        complete_all-Good e g begun.0 env.drained (record g' { state = cancel g'.state }) all
          (cancelled-Good e g g' w) in
      let (run, found, rows, run_id_is, given) =
        tables graph targets owner env.codec env.frames p db capacity previous force env.run_id
          env.clock e g made prepared g'' w'' s set free in
      let again = named_again e (named_states e.plan g''.state) in
      let different =
        names_differ graph targets owner env.codec env.frames p db capacity previous force
          env.run_id env.clock e g made prepared g'' w'' in
      let idle : (j : ℕ) → is_running (state_at g''.state.states j) ≡ false =
        λ j. ground (arith, w''.held j, ap (λ fs. occurs j (indices fs)) (left ∙ none_left)) in
      let closed : every (λ s. not (is_open s.1))
            (map (unknown_if_running e) (named_states e.plan g''.state))
          ≡ true =
        settled_names e e.plan.index g''.state.states
          (λ j. settled g'.state g''.state j ran (idle j)) in
      let (record_found, read, status, states) =
        end_run-get g''.db e.run_id "interrupted"
          (map (unknown_if_running e) (named_states e.plan g''.state)) (e.clock g''.readings) run
          found (rw again different) (rows ∙ sym again) in
      (
        record_found,
        ap (λ i. get (interrupt e g' env.drained).db i) (sym run_id_is)
            ∙ ap (λ d. get d e.run_id) (interrupt_drained e g' g'' env.drained s given completed)
            ∙ read,
        status,
        sym (rows_settled record_found.nodes)
            ∙ ap (λ ss. every {A = String × String} (λ s. not (is_open s.1)) ss) states
            ∙ closed,
      )

  -- For a plan with a store that `compile` returns, when `prepare` returns and no node of an older
  -- run has the new ID; for batches that each complete at least one future, only futures that are
  -- pending at the moment, and each once; if the loop is left while it waits, and then the futures
  -- that end are those that are pending, each once: `arun` raises CancelledError, and then `get`
  -- returns a record of the run that is interrupted and in which no node is pending, ready, running
  -- or unknown.
  pub arun_interrupted :
      (g' : Progress)
      → p.store ≡ some s
      → some_of (λ n. str_eq n.run_id env.run_id) db.nodes ≡ false
      → is_schedule e env.fuel env.batches g ≡ true
      → loop e env.fuel env.batches g ≡ waiting g'
      → are_pending g'.pending env.drained ≡ true
      → popped g'.pending env.drained ≡ []
      → (db' : Database) × (found : RunRecord) × (arun env p db capacity previous force
          ≡ (raise cancelled_error, db'))
        × (get db' env.run_id ≡ return found)
        × (found.run.status ≡ "interrupted")
        × (every (λ n. not (is_open n.state)) found.nodes ≡ true)
  arun_interrupted g' set free fair waits all none_left =
      elim (loop-Leaves e g begun.0 env.fuel env.batches g begun.1 fair) [
        | inl (g'', k, good, over) ↦ cc
        | inr (g'', k, good, short) ↦
            let same : g'' ≡ g' = cc in
            let whole = subst (λ (x : Progress). Good e g [] x) same good in
            let (last, drained, _, _, _, _, _) =
              complete_all-Good e g begun.0 env.drained (record g' { state = cancel g'.state }) all
                (cancelled-Good e g g' whole) in
            let (found, read, status, states) =
              interrupted_record g' whole set free all none_left in
            (
              (interrupt e g' env.drained).db,
              found,
              arun_waits env p db capacity previous force e g g' last prepared waits drained,
              read,
              status,
              states,
            )
      ]
