-- ===== src/Coordinator/Arun.antt =====
-- `invoke`, `Plan.arun`, `Plan.run`, `Plan.resume` and `Graph.run` of python/traversal/graph.py, put
-- together from their parts.
use traversal.Base.{ℕ, String, Bool, true, false, Option, none, List, []}
use traversal.Exceptions.{cancelled_error, runtime_error, Result, return, raise}
use traversal.Cache.{Object, Codec}
use traversal.History.{Failure, Database}
use traversal.Graph.{Graph, Target}
use traversal.Plan.{Plan, compile}
use traversal.Report.{RunReport}
use traversal.Coordinator.{Outcome, was_cancelled, returned, raised}
use traversal.Coordinator.Prepare.{prepare}
use traversal.Coordinator.Loop.{
  ended, failing, waiting, loop, close_ended, interrupt, raised_again, report,
}

-- How the call of a task's function ends: with a value, with an awaitable that is not awaited, with an
-- exception and its truth value, or with `CancelledError`.
pub data Call : Type 0 where
  gave : Object → Call
  gave_awaitable : Object → Call
  threw : (truth : Bool) → Failure → Call
  stopped : Call

-- `invoke(task, args, kwargs, is_async)`; `trace` is the formatted traceback of its own TypeError.
unfoldable pub invoke : (trace : String) → (is_async : Bool) → Call → Outcome
invoke trace is_async stopped = was_cancelled
invoke trace is_async (threw truth failure) = raised truth failure
invoke trace is_async (gave v) = returned v
invoke trace true (gave_awaitable v) = returned v
invoke trace false (gave_awaitable v) = raised true (record {
  exception_type = "TypeError";
  message = "A blocking callable returned an awaitable; wrap it in an async function";
  traceback = trace;
})

-- What does not depend on the plan: the codec, the room on the stack, the new run's ID, the clock, the
-- bound on the rounds, the batches that the event loop returns, and how the futures end that are
-- pending at an interruption. When the fuel or the batches are used up, `arun` is cancelled.
pub record Environment : Type 0 where
  pub codec : Codec
  pub frames : ℕ
  pub run_id : String
  pub clock : ℕ → ℕ
  pub fuel : ℕ
  pub batches : List (List (ℕ × Outcome))
  pub drained : List (ℕ × Outcome)

module _ (env : Environment) where
  -- `Plan.arun`: the result and the database after it.
  unfoldable pub arun :
      Plan
      → Database
      → (max_concurrency : Option ℕ) → (previous : Option String) → (rerun : List String)
      → Result RunReport × Database
  unfolding prepare loop close_ended interrupt raised_again report
  arun p db max_concurrency previous rerun =
      elim (prepare env.codec env.frames p db max_concurrency previous rerun env.run_id env.clock) [
        | raise x ↦ (raise x, db)
        | return (e, start) ↦ elim (loop e env.fuel env.batches start) [
          | ended g ↦ let closed = close_ended e g in (return (report e closed), closed.db)
          | failing x g ↦ (raise (raised_again e x g env.drained), (interrupt e g env.drained).db)
          | waiting g ↦
              (raise (raised_again e cancelled_error g env.drained), (interrupt e g env.drained).db)
        ]
      ]

  -- `Plan.run`; `loop_running` says whether `asyncio.get_running_loop` returns.
  unfoldable pub run :
      (loop_running : Bool)
      → Plan
      → Database
      → (max_concurrency : Option ℕ) → (previous : Option String) → (rerun : List String)
      → Result RunReport × Database
  unfolding arun
  run false p db max_concurrency previous rerun = arun p db max_concurrency previous rerun
  run true p db max_concurrency previous rerun =
      (raise (runtime_error "An event loop is running; use await plan.arun()"), db)

  -- `Plan.resume`
  unfoldable pub resume :
      (loop_running : Bool)
      → Plan
      → Database
      → (previous : Option String) → (rerun : List String) → (max_concurrency : Option ℕ)
      → Result RunReport × Database
  unfolding run
  resume loop_running p db previous rerun max_concurrency =
      run loop_running p db max_concurrency previous rerun

  -- `Graph.run`
  unfoldable pub run_graph :
      (loop_running : Bool)
      → Graph
      → Database
      → List Target
      → (owner : ℕ) → (max_concurrency : Option ℕ) → Result RunReport × Database
  unfolding compile run
  run_graph loop_running g db targets owner max_concurrency = elim (compile g targets owner) [
    | raise x ↦ (raise x, db)
    | return p ↦ run loop_running p db max_concurrency none []
  ]
