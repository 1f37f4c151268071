-- ===== src/Engine/Run/Failure.antt =====
-- A failed or cancelled node blocks its descendants, and nothing else.
use traversal.Base.{
  ℕ, zero, suc, ◌<◌, ◌≡◌, ◌≢◌, refl, ◌∙◌, true, false, ◌⊎◌, inl, inr, List, [], ◌∷◌, ◌++◌, length,
  get_or, every_at, mem, mem-append, occurs_pos_of_mem, mem_of_occurs_pos, ◌==◌, ==_iff, Bool-cases,
  subst, arith,
}
use traversal.Engine.Errors.{ok}
use traversal.Engine.Topology.{Topology}
use traversal.Engine.Topology.Shape.{IsTopology, deps_of, dependents_of}
use traversal.Engine.Run.{
  State, blocked, is_pending, is_running, is_waiting, is_success, RunState, state_at, mark_blocked,
  block, settle, propagate, finish,
}
use traversal.Engine.Run.Counts.{lt_of_state}
use traversal.Engine.Run.Sound.{IsSound, is_started, is_hopeful, succeeds, state_at-set}
use traversal.Engine.Run.Invariant.{Inv, finish_cases, finish-Inv}

-- `i` depends on `node`, directly or through others.
pub data Depends (g : Topology) (node : ℕ) : ℕ → Type 0 where
  direct : {i : ℕ} → mem node (deps_of g i) ≡ true → Depends g node i
  through : {i d : ℕ} → mem d (deps_of g i) ≡ true → Depends g node d → Depends g node i

-- A dependency of a started node has succeeded, so a started node depends on no running one.
pub not-started_of_Depends :
    (g : Topology) (r : RunState) (node : ℕ) {i : ℕ}
    → IsSound g r.states r.remaining [] []
    → is_success (state_at r.states node) ≡ false
    → Depends g node i
    → is_started (state_at r.states i) ≡ true
    → ⊥
not-started_of_Depends g r node s f (direct {i} m) h =
    cc (every_at (succeeds r.states) (deps_of g i) node (s.met i h) m)
not-started_of_Depends g r node s f (through {i} {d} m p) h =
    not-started_of_Depends g r node s f p
      (ground (arith, every_at (succeeds r.states) (deps_of g i) d (s.met i h) m))

-- What the loop over the descendants does to a node.
abbrev pub Effect : (Topology) → ℕ → RunState → RunState → ℕ → Type 0
Effect g node r r' i =
    (state_at r'.states i ≡ state_at r.states i)
    ⊎ (is_waiting (state_at r.states i) ≡ true)
      × (state_at r'.states i ≡ blocked)
      × Depends g node i

mark_blocked-Effect :
    (g : Topology) (node : ℕ) (r : RunState) (n i : ℕ)
    → is_waiting (state_at r.states n) ≡ true
    → Depends g node n
    → Effect g node r (mark_blocked r n) i
mark_blocked-Effect g node r n i waits p = elim (Bool-cases (n == i)) [
  | inr other ↦ inl (ground (arith, state_at-set r.states n i blocked inside))
  | inl same ↦
      let e : n ≡ i = (==_iff n i).0 same in
      inr (
        rw (← e) waits,
        ground (arith, state_at-set r.states n i blocked inside),
        subst (Depends g node) e p,
      )
]
  where
    inside : n < length r.states
    inside = lt_of_state is_waiting r.states n refl waits

Effect-trans :
    (g : Topology) (node : ℕ) (r s t : RunState) (i : ℕ)
    → Effect g node r s i
    → Effect g node s t i
    → Effect g node r t i
Effect-trans g node r s t i (inl p) (inl q) = inl (q ∙ p)
Effect-trans g node r s t i (inl p) (inr (w, e, d)) = inr (rw (← p) w, e, d)
Effect-trans g node r s t i (inr (w, e, d)) (inl q) = inr (w, q ∙ e, d)
Effect-trans g node r s t i (inr (w, e, d)) (inr (w', e', d')) = inr (w, e', d)

mem_deps :
    (g : Topology) (rank : ℕ → ℕ) (i d : ℕ)
    → IsTopology g rank
    → mem i (dependents_of g d) ≡ true
    → mem d (deps_of g i) ≡ true
mem_deps g rank i d t m =
    mem_of_occurs_pos d (deps_of g i)
      (omega (arith, t.transpose i d, occurs_pos_of_mem i (dependents_of g d) m))

block-Effect :
    (g : Topology) (rank : ℕ → ℕ) (node fuel : ℕ) (r : RunState) (queue : List ℕ)
    → IsTopology g rank
    → r.graph ≡ g
    → ((x : ℕ) → mem x queue ≡ true → Depends g node x)
    → (i : ℕ) → Effect g node r (block fuel r queue) i
unfolding block
block-Effect g rank node zero r [] t e q i = inl refl
block-Effect g rank node (suc fuel) r [] t e q i = inl refl
block-Effect g rank node zero r (n ∷ rest) t e q i =
    block-Effect g rank node zero r rest t e (λ x m. q x (ground arith)) i
block-Effect g rank node (suc fuel) r (n ∷ rest) t e q i =
    elim (Bool-cases (is_waiting (state_at r.states n))) [
      | inr settled ↦
          rw settled (block-Effect g rank node (suc fuel) r rest t e (λ x m. q x (ground arith)) i)
      | inl waits ↦
          let here : Depends g node n = q n (ground (arith, ==_iff n n)) in
          rw waits (
            Effect-trans g node r (mark_blocked r n)
              (block fuel (mark_blocked r n) (rest ++ get_or r.graph.dependents n [])) i
              (mark_blocked-Effect g node r n i waits here)
              (block-Effect g rank node fuel (mark_blocked r n)
                (rest ++ get_or r.graph.dependents n []) t e (longer here) i))
    ]
  where
    longer :
        Depends g node n
        → (x : ℕ) → mem x (rest ++ get_or r.graph.dependents n []) ≡ true
        → Depends g node x
    longer here x m = elim (Bool-cases (mem x rest)) [
      | inl old ↦ q x (ground arith)
      | inr new ↦
          through {d = n}
            (mem_deps g rank x n t (
              subst (λ (h : Topology). mem x (dependents_of h n) ≡ true) e
                (ground (arith, mem-append x rest (get_or r.graph.dependents n [])))))
            here
    ]

-- What a failing completion does to a node other than the failed one.
pub finish-Effect :
    (g : Topology) (rank : ℕ → ℕ) (r : RunState) (node : ℕ) (outcome : State) {r' : RunState}
    (i : ℕ)
    → IsTopology g rank
    → Inv g r
    → is_success outcome ≡ false
    → finish r node outcome ≡ ok r'
    → Effect g node (settle r node outcome) r' i
unfolding propagate
finish-Effect g rank r node outcome i t inv bad h =
    let (runs, valid, e) = finish_cases r node outcome h in
    rw (e, bad)
      (block-Effect g rank node (length (settle r node outcome).states) (settle r node outcome)
        (get_or r.graph.dependents node []) t inv.graph_is
        (λ x m. direct (
          mem_deps g rank x node t
            (subst (λ (h : Topology). mem x (dependents_of h node) ≡ true) inv.graph_is m)))
        i)

-- The failed node itself.
failed_state :
    (g : Topology) (rank : ℕ → ℕ) (r : RunState) (node : ℕ) (outcome : State) {r' : RunState}
    → IsTopology g rank
    → Inv g r
    → is_success outcome ≡ false
    → finish r node outcome ≡ ok r'
    → is_hopeful (state_at r'.states node) ≡ false
failed_state g rank r node outcome t inv bad h =
    let (runs, valid, e) = finish_cases r node outcome h in
    let inside = lt_of_state is_running r.states node refl runs in
    ground (
      arith,
      finish-Effect g rank r node outcome node t inv bad h,
      state_at-set r.states node node outcome inside,
      ==_iff node node,
    )

-- A node that depends on the failed one stays pending only if a dependency of it does.
not-pending_of_Depends :
    (g : Topology) (rank : ℕ → ℕ) (r : RunState) (node : ℕ) (outcome : State) {r' : RunState}
    {i : ℕ}
    → IsTopology g rank
    → Inv g r
    → is_success outcome ≡ false
    → finish r node outcome ≡ ok r'
    → Depends g node i
    → is_pending (state_at r'.states i) ≡ true
    → ⊥
not-pending_of_Depends g rank r node outcome {r'} t inv bad h (direct {i} m) p =
    let after = finish-Inv g rank r node outcome t inv h in
    cc (after.sound.hopes i node p m (failed_state g rank r node outcome t inv bad h))
not-pending_of_Depends g rank r node outcome {r'} t inv bad h (through {i} {d} m q) p =
    let after = finish-Inv g rank r node outcome t inv h in
    let (runs, valid, _) = finish_cases r node outcome h in
    let deeper = not-pending_of_Depends g rank r node outcome {r' = r'} t inv bad h q in
    let idle = not-started_of_Depends g r node inv.sound (ground arith) q in
    let inside = lt_of_state is_running r.states node refl runs in
    ground (
      arith,
      after.sound.hopes i d p m,
      finish-Effect g rank r node outcome d t inv bad h,
      state_at-set r.states node d outcome inside,
      deeper,
      idle,
    )

-- After a node fails or is cancelled, every pending node that depends on it, directly or through
-- others, is blocked, and the state of every other node that does not depend on it is what it was.
pub finish_blocks :
    (g : Topology) (rank : ℕ → ℕ) (r : RunState) (node : ℕ) (outcome : State) (r' : RunState)
    (i : ℕ)
    → IsTopology g rank
    → Inv g r
    → is_success outcome ≡ false
    → finish r node outcome ≡ ok r'
    → i ≢ node
    → (is_pending (state_at r.states i) ≡ true → Depends g node i → state_at r'.states i ≡ blocked)
      × ((Depends g node i → ⊥) → state_at r'.states i ≡ state_at r.states i)
finish_blocks g rank r node outcome r' i t inv bad h other =
    let (runs, valid, _) = finish_cases r node outcome h in
    let inside = lt_of_state is_running r.states node refl runs in
    let effect = finish-Effect g rank r node outcome i t inv bad h in
    let kept = state_at-set r.states node i outcome inside in
    (
      λ waits p.
          let moved = not-pending_of_Depends g rank r node outcome {r' = r'} t inv bad h p in
          ground (arith, effect, kept, moved, ==_iff node i),
      λ free.
          let never : Depends g node i → ⊥ = free in
          ground (arith, effect, kept, never, ==_iff node i),
    )
