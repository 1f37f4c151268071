-- ===== src/Engine/Run/Block.antt =====
-- A failure blocks every node that waits for the failed one, directly or through others.
use traversal.Base.{
  ℕ, zero, suc, ◌+◌, ◌≤◌, ◌<◌, ◌≡◌, refl, true, false, List, [], ◌∷◌, ◌++◌, length, get_or, set,
  count, ==_iff, if◌then◌else◌, mem, occurs_pos_of_mem, mem_of_occurs_pos, Bool-cases, count-set,
  none_of_count, mem-append, inl, inr, arith,
}
use traversal.Engine.Topology.{Topology}
use traversal.Engine.Topology.Shape.{IsTopology, deps_of, dependents_of}
use traversal.Engine.Run.{
  State, unselected, blocked, is_pending, is_running, is_waiting, is_success, is_outcome, RunState,
  state_at, block, mark_blocked,
}
use traversal.Engine.Run.Counts.{lt_of_state}
use traversal.Engine.Run.Sound.{IsSound, write-IsSound}

-- The two views of an edge.
pub mem_dependents :
    (g : Topology) (rank : ℕ → ℕ) (i d : ℕ)
    → IsTopology g rank
    → mem d (deps_of g i) ≡ true
    → mem i (dependents_of g d) ≡ true
mem_dependents g rank i d t m =
    mem_of_occurs_pos i (dependents_of g d)
      (omega (arith, t.transpose i d, occurs_pos_of_mem d (deps_of g i) m))

pub waiting-set :
    (states : List State) (i : ℕ) (v : State)
    → i < length states
    → count is_waiting (set states i v) + (if is_waiting (state_at states i) then 1 else 0)
      ≡ count is_waiting states + (if is_waiting v then 1 else 0)
waiting-set states i v h = count-set is_waiting states i v unselected h

-- No waiting node, no pending one.
not-pending_of_count :
    (states : List State) (i : ℕ)
    → count is_waiting states ≤ 0
    → is_pending (state_at states i) ≡ false
not-pending_of_count states i h =
    ground (arith, none_of_count is_waiting unselected states i refl h)

drop-IsSound :
    (g : Topology) (states : List State) (remaining : List ℕ) (next : ℕ) (rest : List ℕ)
    → is_waiting (state_at states next) ≡ false
    → IsSound g states remaining [] (next ∷ rest)
    → IsSound g states remaining [] rest
drop-IsSound g states remaining next rest settled s = record {
  as_many_states = s.as_many_states;
  as_many_counts = s.as_many_counts;
  tally = s.tally;
  unmet = s.unmet;
  met = s.met;
  hopes = λ i d p m f. ground (arith, s.hopes i d, ==_iff i next);
}

blocked-IsSound :
    (g : Topology) (rank : ℕ → ℕ) (states : List State) (remaining : List ℕ) (next : ℕ)
    (rest : List ℕ)
    → IsTopology g rank
    → is_waiting (state_at states next) ≡ true
    → IsSound g states remaining [] (next ∷ rest)
    → IsSound g (set states next blocked) remaining [] (rest ++ dependents_of g next)
blocked-IsSound g rank states remaining next rest t waits s =
    write-IsSound states next blocked (lt_of_state is_waiting states next refl waits) (ground arith)
      refl g remaining [] (next ∷ rest) (rest ++ dependents_of g next) refl (λ p. cc)
      (λ i m other. ground (arith, ==_iff i next, mem-append i rest (dependents_of g next)))
      (λ _ i m.
        ground (arith, mem-append i rest (dependents_of g next), mem_dependents g rank i next t m))
      s

-- The fuel counts the waiting nodes, so the loop empties its queue.
pub block-IsSound :
    (g : Topology) (rank : ℕ → ℕ) (fuel : ℕ) (r : RunState) (queue : List ℕ)
    → IsTopology g rank
    → r.graph ≡ g
    → count is_waiting r.states ≤ fuel
    → IsSound g r.states r.remaining [] queue
    → IsSound g (block fuel r queue).states (block fuel r queue).remaining [] []
unfolding block
block-IsSound g rank zero r [] t e h s = s
block-IsSound g rank (suc fuel) r [] t e h s = s
block-IsSound g rank zero r (next ∷ rest) t e h s = block-IsSound g rank zero r rest t e h (record {
  as_many_states = s.as_many_states;
  as_many_counts = s.as_many_counts;
  tally = s.tally;
  unmet = s.unmet;
  met = s.met;
  hopes = λ i d p m f. cc (not-pending_of_count r.states i h);
})
block-IsSound g rank (suc fuel) r (next ∷ rest) t e h s =
    elim (Bool-cases (is_waiting (state_at r.states next))) [
      | inr settled ↦ rw settled (
          block-IsSound g rank (suc fuel) r rest t e h
            (drop-IsSound g r.states r.remaining next rest settled s))
      | inl waits ↦ rw waits (
          block-IsSound g rank fuel (mark_blocked r next)
            (rest ++ get_or r.graph.dependents next []) t e
            (ground
              (arith, waiting-set r.states next blocked, lt_of_state is_waiting r.states next))
            (rw e (blocked-IsSound g rank r.states r.remaining next rest t waits s)))
    ]

-- A running node that fails or is cancelled: its dependents are still to be blocked.
pub settle_failure-IsSound :
    (g : Topology) (rank : ℕ → ℕ) (r : RunState) (node : ℕ) (outcome : State)
    → IsTopology g rank
    → is_running (state_at r.states node) ≡ true
    → is_outcome outcome ≡ true
    → is_success outcome ≡ false
    → IsSound g r.states r.remaining [] []
    → IsSound g (set r.states node outcome) r.remaining [] (dependents_of g node)
settle_failure-IsSound g rank r node outcome t runs valid bad s =
    write-IsSound r.states node outcome (lt_of_state is_running r.states node refl runs)
      (ground arith) bad g r.remaining [] [] (dependents_of g node) (ground arith)
      (λ p. ground arith) (λ i m other. cc) (λ _ i m. mem_dependents g rank i node t m) s
