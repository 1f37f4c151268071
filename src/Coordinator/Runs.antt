-- ===== src/Coordinator/Runs.antt =====
-- `arun` from `prepare` to the end of its loop, for a plan that `Graph.compile` returned and batches
-- that `asyncio.wait` may return.
use traversal.Base.{
  ℕ, ◌≤◌, ◌<◌, ◌≡◌, refl, subst, String, true, false, Option, List, [], length, none_of_count, inl,
  inr, arith,
}
use traversal.Engine.Run.{unselected, is_success, state_at}
use traversal.Engine.Run.Counts.{is_live}
use traversal.Exceptions.{Exception, return}
use traversal.Cache.{Codec}
use traversal.History.{Database}
use traversal.Graph.{Graph, Target}
use traversal.Plan.{Plan, compile, name_at}
use traversal.Coordinator.{Outcome, Progress, Setting}
use traversal.Coordinator.Prepare.{prepare}
use traversal.Coordinator.Good.{Fits, Good, has, state-Inv}
use traversal.Coordinator.Loop.{ended, failing, loop, report}
use traversal.Coordinator.Schedule.{is_schedule}
use traversal.Coordinator.Ends.{Leaves, loop-Leaves}
use traversal.Coordinator.Begin.{prepare-Good}

module _ (graph : Graph) (targets : List Target) (owner : ℕ) (codec : Codec) (frames : ℕ) (p : Plan)
    (db : Database) (capacity : Option ℕ) (previous : Option String) (force : List String)
    (run_id : String) (clock : ℕ → ℕ) (e : Setting) (g : Progress)
    (made : compile graph targets owner ≡ return p)
    (prepared : prepare codec frames p db capacity previous force run_id clock ≡ return (e, g))
    (fuel : ℕ) (batches : List (List (ℕ × Outcome)))
    (fair : is_schedule e fuel batches g ≡ true) where
  begun : Fits e g × Good e g [] g
  begun =
      prepare-Good graph targets owner codec frames p db capacity previous force run_id clock e g
        made prepared

  leaves : Leaves e g begun.0 fuel (length batches) g.state.unfinished (loop e fuel batches g)
  leaves = loop-Leaves e g begun.0 fuel batches g begun.1 fair

  -- For a plan that `compile` returns, what `prepare` returns for it, and batches that each
  -- complete at least one future, only futures that are pending at the moment, and each once: the
  -- loop of `arun` never leaves by an exception, neither by the RuntimeError on a scheduler without
  -- runnable nodes nor by one of the native module, the outputs or the notes.
  pub loop-no_exception : (x : Exception) (g' : Progress) → ¬ (loop e fuel batches g ≡ failing x g')
  loop-no_exception x g' h = elim leaves [ inl (g'', e, _, _) ↦ cc | inr (g'', e, _, _) ↦ cc ]

  -- For a plan that `compile` returns, what `prepare` returns for it, and batches that each
  -- complete at least one future, only futures that are pending at the moment, and each once: if
  -- the fuel is more than the number of unfinished nodes and the batches are not fewer, then the
  -- loop of `arun` comes to its end, and no node is pending, ready or running then.
  pub loop_ends :
      g.state.unfinished < fuel
      → g.state.unfinished ≤ length batches
      → (g' : Progress) × (loop e fuel batches g ≡ ended g')
        × ((i : ℕ) → is_live (state_at g'.state.states i) ≡ false)
  loop_ends fuel_left batches_left = elim leaves [
    | inl (g', h, good, over) ↦ (
      g',
      h,
      λ i.
          none_of_count is_live unselected g'.state.states i refl
            (ground (arith, over, (state-Inv e g begun.0 g'.state good.reach).counted.live)),
    )
    | inr (g', h, _, short) ↦ absurd (ground (arith, short))
  ]

  -- For a plan that `compile` returns, what `prepare` returns for it, and batches that each
  -- complete at least one future, only futures that are pending at the moment, and each once: if
  -- the loop of `arun` comes to its end, then the report has an output for each node that has
  -- succeeded or is reused.
  pub report-outputs :
      (g' : Progress) (i : ℕ)
      → loop e fuel batches g ≡ ended g'
      → is_success (state_at g'.state.states i) ≡ true
      → has (name_at e.plan.tasks i) (report e g').outputs ≡ true
  unfolding report
  report-outputs g' i h success = elim leaves [
    | inl (g'', k, good, over) ↦
        let same : g'' ≡ g' = cc in
        subst
          (λ (x : Progress).
            is_success (state_at x.state.states i) ≡ true
            → has (name_at e.plan.tasks i) x.outputs ≡ true)
          same (good.kept i) success
    | inr (g'', k, _, short) ↦ cc
  ]
