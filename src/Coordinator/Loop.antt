-- ===== src/Coordinator/Loop.antt =====
-- The `while` loop of `Plan.arun`, its exceptional end and the report.
use traversal.Base.{
  ℕ, zero, suc, String, Bool, none, some, List, [], ◌∷◌, map, every, if◌then◌else◌, str_eq,
}
use traversal.Engine.Run.{RunState, done, admit, cancel}
use traversal.Engine.Binding.{py_states}
use traversal.Exceptions.{Exception, runtime_error, return, raise}
use traversal.History.{end_run, release_lease}
use traversal.Plan.{Plan}
use traversal.Plan.Explain.{needs_store}
use traversal.Report.{RunReport, is_good}
use traversal.Coordinator.{
  Outcome, Progress, Setting, Statement, dispatch_all, complete_all, is_empty,
}

-- How the loop leaves: at its end, by an exception, or still waiting when the batches are used up.
pub data Ending : Type 0 where
  ended : Progress → Ending
  failing : Exception → Progress → Ending
  waiting : Progress → Ending

-- The names with the states, `dict(zip(self._index, state.states()))`.
abbrev pub zip_names : List (String × ℕ) → List String → List (String × String)
zip_names [] states = []
zip_names (n ∷ names) [] = []
zip_names (n ∷ names) (s ∷ states) = (n.0, s) ∷ zip_names names states

unfoldable pub named_states : Plan → RunState → List (String × String)
unfolding py_states
named_states p r = zip_names p.index (py_states r)

module _ (e : Setting) where
  -- `state.admit()` and the loop over what it returns.
  unfoldable pub admit_round : Statement Bool
  unfolding dispatch_all admit
  admit_round g =
      let (after, admitted) = admit g.state in dispatch_all e admitted (record g { state = after })

  -- The `while` loop. A round without a pending future reuses a node and uses fuel; any other takes a
  -- batch.
  unfoldable pub loop : (fuel : ℕ) → List (List (ℕ × Outcome)) → Progress → Ending
  unfolding admit_round complete_all
  loop zero batches g = waiting g
  loop (suc fuel) batches g =
      let (reused_any, g') = admit_round g in
      let again = loop fuel batches g' in
      if done g.state then ended g else elim reused_any [
        | raise x ↦ failing x g'
        | return any ↦
            if is_empty e g'.pending
            then (if any
                then again
                else if done g'.state
                then ended g'
                else failing (runtime_error "scheduler has unfinished work but no runnable nodes")
                    g')
            else elim batches [
              | [] ↦ waiting g'
              | batch ∷ rest ↦
                  let (completed, g'') = complete_all e batch g' in
                  elim completed [ raise x ↦ failing x g'' | return u ↦ loop fuel rest g'' ]
            ]
      ]

  -- `_end` with the status, and the lease is closed.
  abbrev pub close_run : Progress → List (String × String) → String → Progress
  close_run g states status = if needs_store e.plan.store then g else record g {
    db = release_lease (end_run g.db e.run_id states status (e.clock g.readings)) e.run_id;
    readings = suc g.readings;
  }

  -- After the loop.
  unfoldable pub close_ended : Progress → Progress
  unfolding named_states end_run release_lease is_good
  close_ended g =
      let states = named_states e.plan g.state in
      close_run g states (if every (λ s. is_good s.1) states then "succeeded" else "failed")

  -- `"unknown" if s == "running" else s`
  abbrev pub unknown_if_running : String × String → String × String
  unknown_if_running (name, s) = (name, if str_eq s "running" then "unknown" else s)

  -- The `except BaseException` block, for a cancellation while the loop waits or for an exception: no
  -- more admission, the pending futures end as `drained` says, and the run is interrupted. The lease
  -- is closed in any case.
  unfoldable pub interrupt : Progress → List (ℕ × Outcome) → Progress
  unfolding cancel complete_all named_states end_run release_lease
  interrupt g drained =
      let (completed, g') = complete_all e drained (record g { state = cancel g.state }) in
      elim completed [
        | raise x ↦
            if needs_store e.plan.store then g' else record g' { db = release_lease g'.db e.run_id }
        | return u ↦
            close_run g' (map unknown_if_running (named_states e.plan g'.state)) "interrupted"
      ]

  -- What the block raises in the end: the exception that it caught, unless a completion raises itself.
  unfoldable pub raised_again : Exception → Progress → List (ℕ × Outcome) → Exception
  unfolding cancel complete_all
  raised_again x g drained = elim (complete_all e drained (record g { state = cancel g.state })).0 [
    | raise y ↦ y
    | return u ↦ x
  ]

  -- The `RunReport` at the end.
  unfoldable pub report : Progress → RunReport
  unfolding named_states
  report g = record {
    graph = e.plan.name;
    run_id = if needs_store e.plan.store then none else some e.run_id;
    states = named_states e.plan g.state;
    outputs = g.outputs;
    failures = g.failures;
    reuse = g.reuse;
  }
