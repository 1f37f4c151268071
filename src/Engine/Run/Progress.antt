-- ===== src/Engine/Run/Progress.antt =====
-- A run never gets stuck: with unfinished work and nothing running, admission takes a node.
use traversal.Base.{
  ℕ, zero, suc, ◌≤◌, ◌<◌, ◌≡◌, refl, true, false, List, [], ◌∷◌, ◌++◌, length, count, lt→ltb,
  ==_iff, mem, length-append, fails_at, found_of_count, none_of_count, Bool-cases, inl, inr, arith,
}
use traversal.Engine.Topology.{Topology}
use traversal.Engine.Topology.Shape.{IsTopology, deps_of}
use traversal.Engine.Run.{
  unselected, is_pending, is_ready, is_running, RunState, state_at, claim, done, admit_from, admit,
}
use traversal.Engine.Run.Counts.{is_live}
use traversal.Engine.Run.Sound.{IsSound, succeeds}
use traversal.Engine.Run.Invariant.{Inv}

-- A pending node waits for a node that may still succeed.
unmet_dependency :
    (g : Topology) (r : RunState) (i : ℕ)
    → IsSound g r.states r.remaining [] []
    → is_pending (state_at r.states i) ≡ true
    → (d : ℕ) × (mem d (deps_of g i) ≡ true) × (is_live (state_at r.states d) ≡ true)
unmet_dependency g r i s p =
    let (d, m, f) =
      fails_at (succeeds r.states) (deps_of g i) (omega (arith, s.tally i p, s.unmet i p)) in
    (d, m, ground (arith, s.hopes i d p m))

-- Down the dependencies of a waiting node there is a ready one.
find_ready :
    (g : Topology) (rank : ℕ → ℕ) (r : RunState) (k i : ℕ)
    → IsTopology g rank
    → IsSound g r.states r.remaining [] []
    → count is_running r.states ≤ 0
    → rank i < k
    → is_live (state_at r.states i) ≡ true
    → (j : ℕ) × (is_ready (state_at r.states j) ≡ true)
find_ready g rank r zero i t s idle h live = absurd (omega arith)
find_ready g rank r (suc k) i t s idle h live =
    elim (Bool-cases (is_pending (state_at r.states i))) [
      | inl waits ↦
          let (d, m, l) = unmet_dependency g r i s waits in
          find_ready g rank r k d t s idle (omega (arith, t.falls i d m)) l
      | inr other ↦ (i, ground (arith, none_of_count is_running unselected r.states i refl idle))
    ]

-- `admitted` only grows.
admitted_grows :
    (r : RunState) (queue admitted : List ℕ)
    → length admitted ≤ length (admit_from r queue admitted).1
unfolding admit_from
admitted_grows r [] admitted = omega arith
admitted_grows r (i ∷ rest) admitted = ground (
  arith,
  admitted_grows r rest admitted,
  admitted_grows (claim r i) rest (admitted ++ i ∷ []),
  length-append admitted (i ∷ []),
)

admits_ready :
    (r : RunState) (queue : List ℕ) (j : ℕ)
    → r.active < r.capacity
    → is_ready (state_at r.states j) ≡ true
    → mem j queue ≡ true
    → 0 < length (admit_from r queue []).1
unfolding admit_from
admits_ready r [] j room free m = cc
admits_ready r (i ∷ rest) j room free m = elim (Bool-cases (is_ready (state_at r.states i))) [
  | inl head ↦ rw (lt→ltb r.active r.capacity room, head) (admitted_grows (claim r i) rest (i ∷ []))
  | inr stale ↦
      rw (lt→ltb r.active r.capacity room, stale)
        (admits_ready r rest j room free (ground (arith, ==_iff j i)))
]

-- With work left and nothing running, `admit` returns at least one node: the scheduler's "unfinished
-- work but no runnable nodes" cannot happen.
pub admit_progress :
    (g : Topology) (rank : ℕ → ℕ) (r : RunState)
    → IsTopology g rank
    → Inv g r
    → done r ≡ false
    → r.active ≡ 0
    → 0 < length (admit r).1
unfolding admit
admit_progress g rank r t inv more idle =
    let (i, _, live) =
      found_of_count is_live unselected r.states (ground (arith, inv.counted.live)) in
    let (j, free) =
      find_ready g rank r (suc (rank i)) i t inv.sound (omega (arith, inv.counted.at_work))
        (omega arith) live in
    admits_ready r r.queue j (omega (arith, inv.positive)) free (inv.queued j free)
