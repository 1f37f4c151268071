-- ===== src/Engine/Run/Reach.antt =====
-- Runs as sequences of calls of `admit`, `finish` and `cancel` in any order, and what holds after each.
use traversal.Base.{
  ℕ, ◌≤◌, ◌<◌, ◌≡◌, refl, ◌∙◌, sym, true, false, String, List, length, count, every, index_of,
  arith,
}
use traversal.Engine.Errors.{ok}
use traversal.Engine.Builder.{Builder}
use traversal.Engine.Topology.{Topology}
use traversal.Engine.Topology.Shape.{IsTopology, deps_of}
use traversal.Engine.Topology.Order.{IsCompiled}
use traversal.Engine.Topology.Closing.{IsIndexed}
use traversal.Engine.Run.{State, is_running, RunState, state_at, done, start, admit, finish, cancel}
use traversal.Engine.Run.Counts.{is_live}
use traversal.Engine.Run.Sound.{is_started, succeeds}
use traversal.Engine.Run.Invariant.{
  Inv, admit-Inv, finish-Inv, cancel-Inv, admit-Keeps, finish-Keeps, cancel-Keeps,
}
use traversal.Engine.Run.Initial.{start-Inv, start-capacity}
use traversal.Engine.Run.Progress.{admit_progress}

-- A call that returns.
pub data Step : RunState → RunState → Type 0 where
  admits : (r : RunState) → Step r (admit r).0
  finishes :
      {r r' : RunState} (node : ℕ) (outcome : State) → finish r node outcome ≡ ok r' → Step r r'
  cancels : (r : RunState) → Step r (cancel r)

-- The states of the runs that begin at `r₀`.
pub data Reach (r₀ : RunState) : RunState → Type 0 where
  here : Reach r₀ r₀
  next : {r r' : RunState} → Reach r₀ r → Step r r' → Reach r₀ r'

pub Reach-trans : {a b c : RunState} → Reach a b → Reach b c → Reach a c
Reach-trans p here = p
Reach-trans p (next q s) = next (Reach-trans p q) s

-- Reaching, with the ends replaced by equal ones.
pub Reach-same : {a b c d : RunState} → b ≡ a → Reach b c → d ≡ c → Reach a d
Reach-same {a} {b} {c} {d} p r q = rw (sym p, q) r

Step-Inv :
    (g : Topology) (rank : ℕ → ℕ) {r r' : RunState}
    → IsTopology g rank
    → Step r r'
    → Inv g r
    → Inv g r'
Step-Inv g rank t (admits r) inv = admit-Inv g r inv
Step-Inv g rank t (finishes {r} node outcome h) inv = finish-Inv g rank r node outcome t inv h
Step-Inv g rank t (cancels r) inv = cancel-Inv g r inv

Step-capacity : {r r' : RunState} → Step r r' → r'.capacity ≡ r.capacity
Step-capacity (admits r) = admit-Keeps r
Step-capacity (finishes {r} node outcome h) = finish-Keeps r node outcome h
Step-capacity (cancels r) = cancel-Keeps r

pub Reach-capacity : {r₀ r : RunState} → Reach r₀ r → r.capacity ≡ r₀.capacity
Reach-capacity here = refl
Reach-capacity (next p s) = Step-capacity s ∙ Reach-capacity p

pub Reach-Inv :
    (g : Topology) (rank : ℕ → ℕ) {r₀ r : RunState}
    → IsTopology g rank
    → Inv g r₀
    → Reach r₀ r
    → Inv g r
Reach-Inv g rank t inv here = inv
Reach-Inv g rank t inv (next p s) = Step-Inv g rank t s (Reach-Inv g rank t inv p)

module _ (b : Builder) (g : Topology) (targets : List String) (capacity : ℕ) (r₀ r : RunState)
    (w : IsCompiled b g) (indexed : IsIndexed g) (new : start g targets capacity ≡ ok r₀)
    (run : Reach r₀ r) where
  pub run-Inv : Inv g r
  run-Inv =
      Reach-Inv g (λ i. index_of i g.order) w.topology
        (start-Inv b g targets capacity w indexed new) run

  -- At every point of a run at most `capacity` nodes are running, `active` is their number, and
  -- `unfinished` is the number of nodes that are pending, ready or running.
  pub run_counts :
      (count is_running r.states ≤ capacity)
      × (r.active ≡ count is_running r.states)
      × (r.unfinished ≡ count is_live r.states)
  run_counts =
      let inv = run-Inv in
      let same = Reach-capacity run in
      (
        omega (
          arith,
          inv.counted.at_work,
          inv.counted.within,
          same,
          start-capacity g targets capacity new,
        ),
        inv.counted.at_work,
        inv.counted.live,
      )

  -- At every point of a run a node that is ready or running, or has run, has all of its dependencies
  -- succeeded or reused.
  pub run_after_dependencies :
      (i : ℕ)
      → is_started (state_at r.states i) ≡ true
      → every (succeeds r.states) (deps_of g i) ≡ true
  run_after_dependencies = run-Inv.sound.met

  -- At every point of a run with work left and no node running, `admit` returns a node.
  pub run_progress : done r ≡ false → count is_running r.states ≡ 0 → 0 < length (admit r).1
  run_progress more idle =
      admit_progress g (λ i. index_of i g.order) r w.topology run-Inv more
        (run-Inv.counted.at_work ∙ idle)
