-- ===== src/Engine/Run.antt =====
-- `State` and `RunState` of crates/traversal-core/src/run.rs.
pub mod Counts
pub mod Sound
pub mod Release
pub mod Block
pub mod Queue
pub mod Invariant
pub mod Start
pub mod Initial
pub mod Reach
pub mod Advance
pub mod Failure
pub mod Progress
pub mod Contract
pub mod Refines
pub mod Work
use traversal.Base.{
  ℕ, zero, suc, ◌+◌, ◌-◌, String, Bool, true, false, not, List, [], ◌∷◌, ◌++◌, map, foldl, length,
  get_or, set, count, replicate, ltb, ◌==◌, if◌then◌else◌,
}
use traversal.Engine.Errors.{no_concurrency, not_running, invalid_outcome, Result, ok, err, ◌>>=◌}
use traversal.Engine.Topology.{Topology, select}

pub data State : Type 0 where
  unselected pending ready running succeeded reused failed blocked cancelled : State

unfoldable pub as_str : State → String
as_str unselected = "unselected"
as_str pending = "pending"
as_str ready = "ready"
as_str running = "running"
as_str succeeded = "succeeded"
as_str reused = "reused"
as_str failed = "failed"
as_str blocked = "blocked"
as_str cancelled = "cancelled"

abbrev pub is_pending : State → Bool
is_pending pending = true
is_pending _ = false

abbrev pub is_ready : State → Bool
is_ready ready = true
is_ready _ = false

abbrev pub is_running : State → Bool
is_running running = true
is_running _ = false

-- `matches!(state, State::Pending | State::Ready)`
abbrev pub is_waiting : State → Bool
is_waiting pending = true
is_waiting ready = true
is_waiting _ = false

-- `matches!(outcome, State::Succeeded | State::Reused)`
abbrev pub is_success : State → Bool
is_success succeeded = true
is_success reused = true
is_success _ = false

-- The outcomes that `finish` accepts.
abbrev pub is_outcome : State → Bool
is_outcome succeeded = true
is_outcome reused = true
is_outcome failed = true
is_outcome cancelled = true
is_outcome _ = false

-- `queue` is the field `ready`.
pub record RunState : Type 0 where
  pub graph : Topology
  pub states : List State
  pub remaining : List ℕ
  pub queue : List ℕ
  pub active : ℕ
  pub capacity : ℕ
  pub unfinished : ℕ

-- `states.get(i)`: out of range it is no state that any test looks for.
abbrev pub state_at : List State → ℕ → State
state_at states i = get_or states i unselected

-- The body of the loop over the order in `new`.
unfoldable pub seed : List Bool → List (List ℕ) → List State × List ℕ → ℕ → List State × List ℕ
seed selected deps (states, queue) i =
    if get_or selected i false
    then elim (get_or deps i []) [
      | [] ↦ (set states i ready, queue ++ i ∷ [])
      | _ ∷ _ ↦ (set states i pending, queue)
    ]
    else (states, queue)

unfoldable pub start : Topology → List String → ℕ → Result RunState
unfolding seed
start g targets zero = err no_concurrency
start g targets (suc c) = do
  selected ← select g targets
  let seeded =
      foldl (seed selected g.dependencies) (replicate (length selected) unselected, []) g.order
  ok (record {
    graph = g;
    states = seeded.0;
    remaining = map length g.dependencies;
    queue = seeded.1;
    active = 0;
    capacity = suc c;
    unfinished = count (λ s. s) selected;
  })

abbrev pub done : RunState → Bool
done r = r.unfinished == 0

-- The body of the loop of `admit`, for a ready node.
abbrev pub claim : RunState → ℕ → RunState
claim r i = record r { states = set r.states i running; active = r.active + 1 }

-- The `while` loop of `admit`, over the queue; the last argument is `admitted`.
unfoldable pub admit_from : RunState → List ℕ → List ℕ → RunState × List ℕ
admit_from r [] admitted = (record r { queue = [] }, admitted)
admit_from r (i ∷ rest) admitted =
    let taken = admit_from (claim r i) rest (admitted ++ i ∷ []) in
    let skipped = admit_from r rest admitted in
    if ltb r.active r.capacity
    then (if is_ready (state_at r.states i) then taken else skipped)
    else (record r { queue = i ∷ rest }, admitted)

unfoldable pub admit : RunState → RunState × List ℕ
unfolding admit_from
admit r = admit_from r r.queue []

-- A success: the body of the loop over the dependents.
unfoldable pub release : RunState → ℕ → RunState
release r next =
    let left = get_or r.remaining next 0 - 1 in
    if is_pending (state_at r.states next)
    then (if left == 0
        then record r {
          remaining = set r.remaining next left;
          states = set r.states next ready;
          queue = r.queue ++ next ∷ [];
        }
        else record r { remaining = set r.remaining next left })
    else r

-- The body of the loop over the descendants, for a pending or ready node.
abbrev pub mark_blocked : RunState → ℕ → RunState
mark_blocked r next = record r { states = set r.states next blocked; unfinished = r.unfinished - 1 }

-- A failure: the `while let` loop over the descendants. Only a round that blocks a node uses fuel,
-- and a node is blocked once; any other round shortens the queue.
unfoldable pub block : ℕ → RunState → List ℕ → RunState
block fuel r [] = r
block zero r (next ∷ rest) = block zero r rest
block (suc fuel) r (next ∷ rest) =
    let blocks = block fuel (mark_blocked r next) (rest ++ get_or r.graph.dependents next []) in
    let skips = block (suc fuel) r rest in
    if is_waiting (state_at r.states next) then blocks else skips

-- The state after the node's own entry and the counters are written.
abbrev pub settle : RunState → ℕ → State → RunState
settle r node outcome = record r {
  states = set r.states node outcome;
  active = r.active - 1;
  unfinished = r.unfinished - 1;
}

-- What a settled outcome does to the dependents.
unfoldable pub propagate : RunState → ℕ → Bool → RunState
unfolding release block
propagate r node true = foldl release r (get_or r.graph.dependents node [])
propagate r node false = block (length r.states) r (get_or r.graph.dependents node [])

unfoldable pub finish : RunState → ℕ → State → Result RunState
unfolding propagate
finish r node outcome =
    if not (is_running (state_at r.states node))
    then err (not_running node)
    else if not (is_outcome outcome)
    then err invalid_outcome
    else ok (propagate (settle r node outcome) node (is_success outcome))

-- The loop of `cancel`: the states and the counter `unfinished`.
unfoldable pub cancel_all : List State → ℕ → List State × ℕ
cancel_all [] unfinished = ([], unfinished)
cancel_all (s ∷ states) unfinished =
    let rest = cancel_all states (if is_waiting s then unfinished - 1 else unfinished) in
    ((if is_waiting s then cancelled else s) ∷ rest.0, rest.1)

unfoldable pub cancel : RunState → RunState
unfolding cancel_all
cancel r =
    let swept = cancel_all r.states r.unfinished in
    record r { states = swept.0; unfinished = swept.1; queue = [] }
