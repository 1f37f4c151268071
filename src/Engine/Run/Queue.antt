-- ===== src/Engine/Run/Queue.antt =====
-- The ready queue holds every ready node, and `cancel` leaves no node waiting.
use traversal.Base.{
  ℕ, zero, suc, ◌-◌, ◌<◌, ◌≡◌, refl, ap, true, false, List, [], ◌∷◌, ◌++◌, foldl, length, get_or,
  set, ltb, ==_iff, if◌then◌else◌, mem, Bool-cases, mem-append, inl, inr, arith,
}
use traversal.Engine.Topology.{Topology}
use traversal.Engine.Run.{
  State, ready, running, blocked, cancelled, is_pending, is_ready, is_waiting, RunState, state_at,
  claim, admit_from, release, block, mark_blocked, cancel_all,
}
use traversal.Engine.Run.Counts.{lt_of_state}
use traversal.Engine.Run.Sound.{IsSound, state_at-set, write-IsSound}

abbrev pub IsQueued : List State → List ℕ → Type 0
IsQueued states queue = (i : ℕ) → is_ready (state_at states i) ≡ true → mem i queue ≡ true

-- A write of a state that is not ready leaves no new ready node.
pub write-IsQueued :
    (states : List State) (queue : List ℕ) (n : ℕ) (v : State)
    → n < length states
    → is_ready v ≡ false
    → IsQueued states queue
    → IsQueued (set states n v) queue
write-IsQueued states queue n v inside other q i h =
    ground (arith, state_at-set states n i v inside, q i)

claim-IsQueued :
    (states : List State) (n : ℕ) (rest : List ℕ)
    → n < length states
    → IsQueued states (n ∷ rest)
    → IsQueued (set states n running) rest
claim-IsQueued states n rest inside q i h =
    ground (arith, state_at-set states n i running inside, q i, ==_iff i n, ==_iff n i)

skip-IsQueued :
    (states : List State) (n : ℕ) (rest : List ℕ)
    → is_ready (state_at states n) ≡ false
    → IsQueued states (n ∷ rest)
    → IsQueued states rest
skip-IsQueued states n rest stale q i h = ground (arith, q i, ==_iff i n)

claim-IsSound :
    (g : Topology) (states : List State) (remaining : List ℕ) (n : ℕ)
    → is_ready (state_at states n) ≡ true
    → IsSound g states remaining [] []
    → IsSound g (set states n running) remaining [] []
claim-IsSound g states remaining n free s =
    write-IsSound states n running (lt_of_state is_ready states n refl free) (ground arith) refl g
      remaining [] [] [] refl (λ _. ground arith) (λ i m other. m) (λ lost. cc) s

-- What admission keeps: the invariant, and the queue for the nodes that stay ready.
pub record Admits (g : Topology) (r : RunState) : Type 0 where
  pub graph_is : r.graph ≡ g
  pub sound : IsSound g r.states r.remaining [] []
  pub queued : IsQueued r.states r.queue

pub admit_from-Admits :
    (g : Topology) (r : RunState) (queue admitted : List ℕ)
    → r.graph ≡ g
    → IsSound g r.states r.remaining [] []
    → IsQueued r.states queue
    → Admits g (admit_from r queue admitted).0
unfolding admit_from
admit_from-Admits g r [] admitted e s q = record { graph_is = e; sound = s; queued = q }
admit_from-Admits g r (i ∷ rest) admitted e s q = elim (Bool-cases (ltb r.active r.capacity)) [
  | inr full ↦ rw full (record { graph_is = e; sound = s; queued = q })
  | inl room ↦ elim (Bool-cases (is_ready (state_at r.states i))) [
    | inr stale ↦
        rw (room, stale)
          (admit_from-Admits g r rest admitted e s (skip-IsQueued r.states i rest stale q))
    | inl free ↦
        rw (room, free)
          (admit_from-Admits g (claim r i) rest (admitted ++ i ∷ []) e
            (claim-IsSound g r.states r.remaining i free s)
            (claim-IsQueued r.states i rest (lt_of_state is_ready r.states i refl free) q))
  ]
]

release-IsQueued :
    (r : RunState) (next : ℕ)
    → IsQueued r.states r.queue
    → IsQueued (release r next).states (release r next).queue
unfolding release
release-IsQueued r next q i h = ground (
  arith,
  lt_of_state is_pending r.states next,
  state_at-set r.states next i ready,
  q i,
  ==_iff next i,
  mem-append i r.queue (next ∷ []),
  ==_iff i next,
)

pub release_all-IsQueued :
    (r : RunState) (todo : List ℕ)
    → IsQueued r.states r.queue
    → IsQueued (foldl release r todo).states (foldl release r todo).queue
release_all-IsQueued r [] q = q
release_all-IsQueued r (next ∷ todo) q =
    release_all-IsQueued (release r next) todo (release-IsQueued r next q)

pub block-IsQueued :
    (fuel : ℕ) (r : RunState) (queue : List ℕ)
    → IsQueued r.states r.queue
    → IsQueued (block fuel r queue).states (block fuel r queue).queue
unfolding block
block-IsQueued zero r [] q = q
block-IsQueued (suc fuel) r [] q = q
block-IsQueued zero r (next ∷ rest) q = block-IsQueued zero r rest q
block-IsQueued (suc fuel) r (next ∷ rest) q =
    elim (Bool-cases (is_waiting (state_at r.states next))) [
      | inr settled ↦ rw settled (block-IsQueued (suc fuel) r rest q)
      | inl waits ↦ rw waits (
          block-IsQueued fuel (mark_blocked r next) (rest ++ get_or r.graph.dependents next []) (
            write-IsQueued r.states r.queue next blocked
              (lt_of_state is_waiting r.states next refl waits) refl q))
    ]

-- What `cancel` does to each node.
pub state_at-cancel_all :
    (states : List State) (n i : ℕ)
    → state_at (cancel_all states n).0 i
      ≡ (if is_waiting (state_at states i) then cancelled else state_at states i)
unfolding cancel_all
state_at-cancel_all [] n i = refl
state_at-cancel_all (s ∷ states) n zero = refl
state_at-cancel_all (s ∷ states) n (suc i) =
    state_at-cancel_all states (if is_waiting s then n - 1 else n) i

pub length-cancel_all :
    (states : List State) (n : ℕ) → length (cancel_all states n).0 ≡ length states
unfolding cancel_all
length-cancel_all [] n = refl
length-cancel_all (s ∷ states) n = ap suc (length-cancel_all states _)
