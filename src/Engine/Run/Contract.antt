-- ===== src/Engine/Run/Contract.antt =====
-- What a run promises of its nodes' states, without the counters, the remaining dependency counts and
-- the ready queue of `RunState`: an abstract scheduler, whose only state is the list of states.
use traversal.Base.{
  ℕ, ◌≤◌, ◌<◌, ◌≡◌, ◌≢◌, ◌⊎◌, true, false, ◌&&◌, String, List, [], length, count, every,
  if◌then◌else◌,
}
use traversal.Engine.Topology.{Topology}
use traversal.Engine.Topology.Shape.{deps_of}
use traversal.Engine.Topology.Closing.{Needed}
use traversal.Engine.Run.{
  State, unselected, pending, ready, running, blocked, cancelled, is_pending, is_running,
  is_waiting, is_success, is_outcome, state_at,
}
use traversal.Engine.Run.Sound.{succeeds}
use traversal.Engine.Run.Failure.{Depends}

-- A new run: a needed node is ready if it has no dependencies, and pending if it has some.
pub record Begins (g : Topology) (targets : List String) (s : List State) : Type 0 where
  pub source : (i : ℕ) → Needed g targets i → deps_of g i ≡ [] → state_at s i ≡ ready
  pub waiter : (i : ℕ) → Needed g targets i → 0 < length (deps_of g i) → state_at s i ≡ pending
  pub outsider : (i : ℕ) → (Needed g targets i → ⊥) → state_at s i ≡ unselected

-- Admission: some ready nodes run, until none is ready or `capacity` nodes run.
pub record Admission (capacity : ℕ) (s t : List State) : Type 0 where
  pub moves :
      (i : ℕ) → (state_at t i ≡ state_at s i) ⊎ (state_at s i ≡ ready) × (state_at t i ≡ running)
  pub within : count is_running t ≤ capacity
  pub full : (i : ℕ) → state_at t i ≡ ready → count is_running t ≡ capacity

-- A success: each pending node with no dependency left becomes ready.
pub record Success (g : Topology) (node : ℕ) (outcome : State) (s t : List State) : Type 0 where
  pub was_running : is_running (state_at s node) ≡ true
  pub success : is_success outcome ≡ true
  pub written : state_at t node ≡ outcome
  pub releases :
      (i : ℕ)
      → i ≢ node
      → state_at t i ≡ (
          if is_pending (state_at s i) && every (succeeds t) (deps_of g i)
          then ready
          else state_at s i)

-- A failure or a cancellation of one node: each pending node that depends on it is blocked.
pub record Failure (g : Topology) (node : ℕ) (outcome : State) (s t : List State) : Type 0 where
  pub was_running : is_running (state_at s node) ≡ true
  pub failure : is_success outcome ≡ false
  pub an_outcome : is_outcome outcome ≡ true
  pub written : state_at t node ≡ outcome
  pub blocks :
      (i : ℕ)
      → i ≢ node
      → is_pending (state_at s i) ≡ true
      → Depends g node i
      → state_at t i ≡ blocked
  pub spares : (i : ℕ) → i ≢ node → (Depends g node i → ⊥) → state_at t i ≡ state_at s i
  pub keeps : (i : ℕ) → i ≢ node → is_pending (state_at s i) ≡ false → state_at t i ≡ state_at s i

-- The abstract scheduler's steps.
pub data Allowed (g : Topology) (capacity : ℕ) (s t : List State) : Type 0 where
  admitting : Admission capacity s t → Allowed g capacity s t
  succeeding : (node : ℕ) (outcome : State) → Success g node outcome s t → Allowed g capacity s t
  failing : (node : ℕ) (outcome : State) → Failure g node outcome s t → Allowed g capacity s t
  cancelling :
      ((i : ℕ) → state_at t i ≡ (if is_waiting (state_at s i) then cancelled else state_at s i))
      → Allowed g capacity s t

-- The states that the abstract scheduler reaches.
pub data Behaves (g : Topology) (targets : List String) (capacity : ℕ) : List State → Type 0 where
  begun : {s : List State} → Begins g targets s → Behaves g targets capacity s
  continued :
      {s t : List State}
      → Behaves g targets capacity s
      → Allowed g capacity s t
      → Behaves g targets capacity t
