-- ===== src/Engine/Run/Work.antt =====
-- Which nodes run, and how much work is left, after each call: what the coordinator relies on.
use traversal.Base.{
  ℕ, zero, suc, ◌≤◌, ◌<◌, ◌≡◌, refl, ◌∙◌, ◌⊎◌, Bool, true, false, ◌||◌, List, [], ◌∷◌, ◌++◌, length,
  foldl, get_or, mem, occurs, mem_of_occurs_pos, append_assoc, append-nil, ltb, ◌==◌, Bool-cases,
  ==_iff, inl, inr, arith, ap, sym,
}
use traversal.Engine.Errors.{ok}
use traversal.Engine.Topology.Shape.{IsTopology}
use traversal.Engine.Topology.{Topology}
use traversal.Engine.Run.{
  State, ready, running, blocked, is_ready, is_running, is_waiting, is_success, is_outcome,
  RunState, state_at, claim, mark_blocked, admit_from, admit, release, block, settle, propagate,
  finish,
}
use traversal.Engine.Run.Counts.{lt_of_state, live-set}
use traversal.Engine.Run.Sound.{state_at-set}
use traversal.Engine.Run.Invariant.{Inv, finish_cases}
use traversal.Engine.Run.Failure.{finish-Effect}
use traversal.Engine.Run.Refines.{release_all-moves}

-- The nodes `new` go from ready to running, each once, and no other node's state changes.
pub record Takes (r r' : RunState) (new : List ℕ) : Type 0 where
  pub run :
      (j : ℕ) → is_running (state_at r'.states j) ≡ (is_running (state_at r.states j) || mem j new)
  pub were_ready : (j : ℕ) → mem j new ≡ true → is_ready (state_at r.states j) ≡ true
  pub once : (j : ℕ) → occurs j new ≤ 1
  pub success : (j : ℕ) → is_success (state_at r'.states j) ≡ is_success (state_at r.states j)
  pub unfinished : r'.unfinished ≡ r.unfinished

none-Takes : (r : RunState) (queue : List ℕ) → Takes r (record r { queue = queue }) []
none-Takes r queue = record {
  run = λ j. ground arith;
  were_ready = λ j m. cc;
  once = λ j. omega arith;
  success = λ j. refl;
  unfinished = refl;
}

claim-Takes :
    (r r' : RunState) (i : ℕ) (new : List ℕ)
    → is_ready (state_at r.states i) ≡ true
    → Takes (claim r i) r' new
    → Takes r r' (i ∷ new)
claim-Takes r r' i new free t =
    let inside = lt_of_state is_ready r.states i refl free in
    let after = λ (j : ℕ). state_at-set r.states i j running inside in
    record {
      run = λ j. ground (arith, t.run j, after j, ==_iff i j, ==_iff j i);
      were_ready = λ j m. ground (arith, t.were_ready j, after j, ==_iff i j, ==_iff j i);
      once = λ j. ground (
        arith,
        t.once j,
        t.were_ready j,
        after j,
        ==_iff i j,
        ==_iff j i,
        mem_of_occurs_pos j new,
      );
      success = λ j. ground (arith, t.success j, after j, ==_iff i j);
      unfinished = t.unfinished;
    }

admit_from-Takes :
    (r : RunState) (queue admitted : List ℕ)
    → (new : List ℕ) × ((admit_from r queue admitted).1 ≡ admitted ++ new)
      × Takes r (admit_from r queue admitted).0 new
unfolding admit_from
admit_from-Takes r [] admitted = ([], sym (append-nil admitted), none-Takes r [])
admit_from-Takes r (i ∷ rest) admitted = elim (Bool-cases (ltb r.active r.capacity)) [
  | inr full ↦ rw full ([], sym (append-nil admitted), none-Takes r (i ∷ rest))
  | inl room ↦ elim (Bool-cases (is_ready (state_at r.states i))) [
    | inr stale ↦ rw (room, stale) (admit_from-Takes r rest admitted)
    | inl free ↦
        let (new, e, t) = admit_from-Takes (claim r i) rest (admitted ++ i ∷ []) in
        rw (room, free)
          (i ∷ new, e ∙ append_assoc admitted (i ∷ []) new, claim-Takes r _ i new free t)
  ]
]

-- What `admit` returns are the nodes that it starts.
pub admit-Takes : (r : RunState) → Takes r (admit r).0 (admit r).1
unfolding admit
admit-Takes r = let (new, e, t) = admit_from-Takes r r.queue [] in rw e t

-- A completion ends its node; another node keeps its state, or waited and is ready or blocked now.
abbrev pub Ends : RunState → RunState → ℕ → State → ℕ → Type 0
Ends r r' node outcome j =
    ((j == node) ≡ true) × (state_at r'.states j ≡ outcome)
    ⊎ ((j == node) ≡ false) × (state_at r'.states j ≡ state_at r.states j)
    ⊎ ((j == node) ≡ false)
      × (is_waiting (state_at r.states j) ≡ true)
      × ((state_at r'.states j ≡ ready) ⊎ (state_at r'.states j ≡ blocked))

pub finish-Ends :
    (g : Topology) (rank : ℕ → ℕ) (r : RunState) (node : ℕ) (outcome : State) {r' : RunState}
    (j : ℕ)
    → IsTopology g rank
    → Inv g r
    → finish r node outcome ≡ ok r'
    → Ends r r' node outcome j
unfolding propagate
finish-Ends g rank r node outcome {r'} j t inv h =
    let (runs, valid, e) = finish_cases r node outcome h in
    let inside = lt_of_state is_running r.states node refl runs in
    let after = state_at-set r.states node j outcome inside in
    elim (Bool-cases (is_success outcome)) [
      | inl good ↦
          let moves =
            release_all-moves (settle r node outcome) (get_or r.graph.dependents node []) j in
          rw (e, good) (ground (arith, moves, after, ==_iff node j, ==_iff j node))
      | inr bad ↦ ground (
        arith,
        finish-Effect g rank r node outcome {r' = r'} j t inv bad h,
        after,
        ==_iff node j,
        ==_iff j node,
      )
    ]

release_all-unfinished :
    (r : RunState) (ns : List ℕ) → (foldl release r ns).unfinished ≡ r.unfinished
unfolding release
release_all-unfinished r [] = refl
release_all-unfinished r (n ∷ ns) = release_all-unfinished (release r n) ns ∙ ground arith

block-unfinished :
    (fuel : ℕ) (r : RunState) (queue : List ℕ) → (block fuel r queue).unfinished ≤ r.unfinished
unfolding block
block-unfinished zero r [] = omega arith
block-unfinished (suc fuel) r [] = omega arith
block-unfinished zero r (n ∷ rest) = block-unfinished zero r rest
block-unfinished (suc fuel) r (n ∷ rest) = ground (
  arith,
  block-unfinished fuel (mark_blocked r n) (rest ++ get_or r.graph.dependents n []),
  block-unfinished (suc fuel) r rest,
)

propagate-unfinished :
    (r : RunState) (node : ℕ) (success : Bool)
    → (propagate r node success).unfinished ≤ r.unfinished
unfolding propagate
propagate-unfinished r node true =
    omega (arith, release_all-unfinished r (get_or r.graph.dependents node []))
propagate-unfinished r node false =
    block-unfinished (length r.states) r (get_or r.graph.dependents node [])

-- A completion leaves less work.
pub finish-unfinished :
    (g : Topology) (r : RunState) (node : ℕ) (outcome : State) {r' : RunState}
    → Inv g r
    → finish r node outcome ≡ ok r'
    → r'.unfinished < r.unfinished
finish-unfinished g r node outcome inv h =
    let (runs, valid, e) = finish_cases r node outcome h in
    let inside = lt_of_state is_running r.states node refl runs in
    let left = propagate-unfinished (settle r node outcome) node (is_success outcome) in
    let live = live-set r.states node outcome inside in
    ground (arith, inv.counted.live, live, left, ap (λ (s : RunState). s.unfinished) e)

-- A running node may end, and any outcome is accepted.
pub finish_returns :
    (r : RunState) (node : ℕ) (outcome : State)
    → is_running (state_at r.states node) ≡ true
    → is_outcome outcome ≡ true
    → (r' : RunState) × (finish r node outcome ≡ ok r')
unfolding finish
finish_returns r node outcome runs valid =
    (propagate (settle r node outcome) node (is_success outcome), rw (runs, valid) refl)
