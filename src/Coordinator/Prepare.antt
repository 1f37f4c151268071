-- ===== src/Coordinator/Prepare.antt =====
-- `Plan.arun` up to its loop.
use traversal.Base.{ℕ, String, Bool, true, false, not, Option, none, some, List, [], ◌∷◌, map, ◌==◌}
use traversal.Engine.Run
use traversal.Engine.Run.{RunState}
use traversal.Exceptions.{value_error, resume_decision, Result, return, raise, ◌>>=◌, ◌>>◌, require}
use traversal.Cache.{Codec}
use traversal.History.{Settings, Database}
use traversal.History
use traversal.Plan.{Plan, native, fingerprints}
use traversal.Plan.Explain.{Advice, decision, explain_run}
use traversal.Coordinator.{Progress, Setting}

-- The names of the nodes that need a decision.
unfoldable pub decisions : List Advice → List String
decisions [] = []
decisions (a ∷ advice) =
    let rest = decisions advice in elim a.action [ decision ↦ a.name ∷ rest | _ ↦ rest ]

-- `{n["name"]: n["reason"] for n in explanation["nodes"]}`
unfoldable pub reasons : List Advice → List (String × String)
reasons [] = []
reasons (a ∷ advice) = (a.name, a.reason) ∷ reasons advice

abbrev pub is_nil : List String → Bool
is_nil [] = true
is_nil (s ∷ ss) = false

-- `self.store._start(…)` if the plan has a store.
unfoldable pub open_run :
    Plan → Database → (previous : Option String) → (run_id : String) (now : ℕ) → Result Database
unfolding History.start
open_run plan db previous run_id now = elim plan.store [
  | none ↦ return db
  | some s ↦
      History.start db plan.name plan.version (map (λ e. e.0) plan.index) plan.selected previous
        run_id now
]

-- The statements before the `try`. `max_concurrency` is `none` if it is no `int` that is at least 0;
-- `readings` counts the calls of the clock, of which `_start` makes the first.
unfoldable pub prepare :
    Codec
    → (frames : ℕ) → Plan
    → Database
    → (max_concurrency : Option ℕ) → (previous : Option String) → (force : List String)
    → (run_id : String) → (clock : ℕ → ℕ) → Result (Setting × Progress)
unfolding explain_run decisions reasons fingerprints Run.start open_run
prepare codec frames plan db none previous force run_id clock =
    raise (value_error "max_concurrency must be a positive integer")
prepare codec frames plan db (some n) previous force run_id clock = do
  require (not (n == 0)) (value_error "max_concurrency must be a positive integer")
  advice ← explain_run codec frames plan db previous force
  require (is_nil (decisions advice)) (resume_decision (decisions advice))
  state ← native (Run.start plan.topology plan.targets n)
  db' ← open_run plan db previous run_id (clock 0)
  return (
    record {
      codec = codec;
      frames = frames;
      plan = plan;
      previous = previous;
      force = force;
      keys = fingerprints codec plan;
      run_id = run_id;
      clock = clock;
    },
    record {
      state = state;
      db = db';
      outputs = [];
      failures = [];
      reuse = reasons advice;
      pending = [];
      readings = elim plan.store [ none ↦ 0 | some s ↦ 1 ];
    },
  )
