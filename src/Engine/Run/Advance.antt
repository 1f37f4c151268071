-- ===== src/Engine/Run/Advance.antt =====
-- Nodes only move forward: waiting, ready, running, settled. A settled node never changes.
use traversal.Base.{
  ℕ, zero, suc, ◌<◌, ◌≡◌, refl, Bool, true, false, ◌||◌, ◌⊎◌, inl, inr, List, [], ◌∷◌, ◌++◌, foldl,
  length, get_or, set, ltb, ◌==◌, Bool-cases, ==_iff, arith,
}
use traversal.Engine.Errors.{ok}
use traversal.Engine.Run.{
  State, pending, ready, running, blocked, is_pending, is_ready, is_running, is_waiting, is_success,
  is_outcome, RunState, state_at, claim, admit_from, admit, release, mark_blocked, block, settle,
  propagate, finish, cancel,
}
use traversal.Engine.Run.Counts.{lt_of_state}
use traversal.Engine.Run.Sound.{state_at-set}
use traversal.Engine.Run.Queue.{state_at-cancel_all}
use traversal.Engine.Run.Invariant.{finish_cases}
use traversal.Engine.Run.Reach.{Step, admits, finishes, cancels, Reach, here, next}

-- The ends: `blocked`, and the outcomes that `finish` accepts (`unselected` is none).
abbrev pub is_settled : State → Bool
is_settled blocked = true
is_settled s = is_outcome s

-- Where a node can go, in one step or more: a pending node to ready, running and every end, a ready
-- one to running and every end, a running one to an outcome, and any other nowhere.
abbrev pub can_move : State → State → Bool
can_move pending t = is_ready t || is_running t || is_settled t
can_move ready t = is_running t || is_settled t
can_move running t = is_outcome t
can_move _ t = false

-- A node stays as it is or moves on.
abbrev pub Advances : State → State → Type 0
Advances s t = (t ≡ s) ⊎ (can_move s t ≡ true)

can_move_trans : (s t u : State) → can_move s t ≡ true → can_move t u ≡ true → can_move s u ≡ true
can_move_trans pending t u p q = ground arith
can_move_trans ready t u p q = ground arith
can_move_trans running t u p q = ground arith
can_move_trans _ t u p q = cc

Advances-trans : (s t u : State) → Advances s t → Advances t u → Advances s u
Advances-trans s t u p q = ground (arith, can_move_trans s t u)

abbrev Moves : RunState → RunState → Type 0
Moves r r' = (i : ℕ) → Advances (state_at r.states i) (state_at r'.states i)

Moves-trans : (r s t : RunState) → Moves r s → Moves s t → Moves r t
Moves-trans r s t p q i =
    Advances-trans (state_at r.states i) (state_at s.states i) (state_at t.states i) (p i) (q i)

write-Advances :
    (states : List State) (n : ℕ) (v : State)
    → n < length states
    → can_move (state_at states n) v ≡ true
    → (i : ℕ) → Advances (state_at states i) (state_at (set states n v) i)
write-Advances states n v inside up i = elim (Bool-cases (n == i)) [
  | inl e ↦ inr (ground (arith, state_at-set states n i v inside, ==_iff n i))
  | inr e ↦ inl (ground (arith, state_at-set states n i v inside))
]

admit_from-Moves :
    (r : RunState) (queue admitted : List ℕ) → Moves r (admit_from r queue admitted).0
unfolding admit_from
admit_from-Moves r [] admitted = λ i. inl refl
admit_from-Moves r (n ∷ rest) admitted = elim (Bool-cases (ltb r.active r.capacity)) [
  | inr full ↦ rw full (λ i. inl refl)
  | inl room ↦ elim (Bool-cases (is_ready (state_at r.states n))) [
    | inr stale ↦ rw (room, stale) (admit_from-Moves r rest admitted)
    | inl free ↦
        rw (room, free)
          (Moves-trans r (claim r n) (admit_from (claim r n) rest (admitted ++ n ∷ [])).0
            (write-Advances r.states n running (lt_of_state is_ready r.states n refl free)
              (ground arith))
            (admit_from-Moves (claim r n) rest (admitted ++ n ∷ [])))
  ]
]

release-Moves : (r : RunState) (n : ℕ) → Moves r (release r n)
unfolding release
release-Moves r n i =
    ground (arith, lt_of_state is_pending r.states n, state_at-set r.states n i ready, ==_iff n i)

release_all-Moves : (r : RunState) (ns : List ℕ) → Moves r (foldl release r ns)
release_all-Moves r [] = λ i. inl refl
release_all-Moves r (n ∷ ns) =
    Moves-trans r (release r n) (foldl release (release r n) ns) (release-Moves r n)
      (release_all-Moves (release r n) ns)

block-Moves : (fuel : ℕ) (r : RunState) (queue : List ℕ) → Moves r (block fuel r queue)
unfolding block
block-Moves zero r [] = λ i. inl refl
block-Moves (suc fuel) r [] = λ i. inl refl
block-Moves zero r (n ∷ rest) = block-Moves zero r rest
block-Moves (suc fuel) r (n ∷ rest) = elim (Bool-cases (is_waiting (state_at r.states n))) [
  | inr settled ↦ rw settled (block-Moves (suc fuel) r rest)
  | inl waits ↦ rw waits (
      Moves-trans r (mark_blocked r n)
        (block fuel (mark_blocked r n) (rest ++ get_or r.graph.dependents n []))
        (write-Advances r.states n blocked (lt_of_state is_waiting r.states n refl waits)
          (ground arith))
        (block-Moves fuel (mark_blocked r n) (rest ++ get_or r.graph.dependents n [])))
]

propagate-Moves : (r : RunState) (node : ℕ) (success : Bool) → Moves r (propagate r node success)
unfolding propagate
propagate-Moves r node true = release_all-Moves r (get_or r.graph.dependents node [])
propagate-Moves r node false = block-Moves (length r.states) r (get_or r.graph.dependents node [])

finish-Moves :
    (r : RunState) (node : ℕ) (outcome : State) {r' : RunState}
    → finish r node outcome ≡ ok r'
    → Moves r r'
finish-Moves r node outcome h =
    let (runs, valid, e) = finish_cases r node outcome h in
    rw e (
      Moves-trans r (settle r node outcome)
        (propagate (settle r node outcome) node (is_success outcome))
        (write-Advances r.states node outcome (lt_of_state is_running r.states node refl runs)
          (ground arith))
        (propagate-Moves (settle r node outcome) node (is_success outcome)))

admit-Moves : (r : RunState) → Moves r (admit r).0
unfolding admit
admit-Moves r = admit_from-Moves r r.queue []

cancel-Moves : (r : RunState) → Moves r (cancel r)
unfolding cancel
cancel-Moves r i = ground (arith, state_at-cancel_all r.states r.unfinished i)

Step-Moves : {r r' : RunState} → Step r r' → Moves r r'
Step-Moves (admits r) = admit-Moves r
Step-Moves (finishes {r} node outcome h) = finish-Moves r node outcome h
Step-Moves (cancels r) = cancel-Moves r

-- Along any calls of `admit`, `finish` and `cancel`, from any state of a run, each node stays as it
-- is or moves on: from pending to ready, running or an end, from ready to running or an end, and
-- from running to succeeded, reused, failed or cancelled, where the ends are these four and
-- blocked. A node at an end and an unselected node stay as they are, and no node becomes
-- unselected.
pub Reach-Advances :
    {r r' : RunState} → Reach r r' → (i : ℕ) → Advances (state_at r.states i) (state_at r'.states i)
Reach-Advances here i = inl refl
Reach-Advances {r} (next {r = m} {r' = r'} p s) i =
    Advances-trans (state_at r.states i) (state_at m.states i) (state_at r'.states i)
      (Reach-Advances p i) (Step-Moves s i)
