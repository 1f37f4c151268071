-- ===== src/Engine/Run/Invariant.antt =====
-- The invariant of a run, which `admit`, `finish` and `cancel` keep.
use traversal.Base.{
  ℕ, zero, suc, ◌<◌, ◌≡◌, refl, ◌∙◌, Bool, true, false, List, [], ◌∷◌, ◌++◌, foldl, length, get_or,
  set, ltb, count-le-length, Bool-cases, inl, inr, every_mono, arith,
}
use traversal.Engine.Errors.{ok}
use traversal.Engine.Topology.{Topology}
use traversal.Engine.Topology.Shape.{IsTopology, deps_of}
use traversal.Engine.Run.{
  State, is_ready, is_running, is_waiting, is_success, is_outcome, RunState, state_at, claim,
  mark_blocked, admit_from, admit, release, block, settle, propagate, finish, cancel_all, cancel,
}
use traversal.Engine.Run.Counts.{
  IsCounted, lt_of_state, admit-IsCounted, finish-IsCounted, cancel-IsCounted,
}
use traversal.Engine.Run.Sound.{IsSound, succeeds}
use traversal.Engine.Run.Release.{release_all-IsSound, settle_success-IsSound}
use traversal.Engine.Run.Block.{block-IsSound, settle_failure-IsSound}
use traversal.Engine.Run.Queue.{
  IsQueued, admit_from-Admits, write-IsQueued, release_all-IsQueued, block-IsQueued,
  state_at-cancel_all, length-cancel_all,
}

pub record Inv (g : Topology) (r : RunState) : Type 0 where
  pub graph_is : r.graph ≡ g
  pub positive : 0 < r.capacity
  pub counted : IsCounted r
  pub sound : IsSound g r.states r.remaining [] []
  pub queued : IsQueued r.states r.queue

-- Neither the graph nor the capacity ever changes.
abbrev Keeps : RunState → RunState → Type 0
Keeps r r' = (r'.graph ≡ r.graph) × (r'.capacity ≡ r.capacity)

admit_from-Keeps :
    (r : RunState) (queue admitted : List ℕ) → Keeps r (admit_from r queue admitted).0
unfolding admit_from
admit_from-Keeps r [] admitted = (refl, refl)
admit_from-Keeps r (i ∷ rest) admitted = elim (Bool-cases (ltb r.active r.capacity)) [
  | inr full ↦ rw full (refl, refl)
  | inl room ↦ elim (Bool-cases (is_ready (state_at r.states i))) [
    | inr stale ↦ rw (room, stale) (admit_from-Keeps r rest admitted)
    | inl free ↦ rw (room, free) (admit_from-Keeps (claim r i) rest (admitted ++ i ∷ []))
  ]
]

release-Keeps : (r : RunState) (next : ℕ) → Keeps r (release r next)
unfolding release
release-Keeps r next = ground arith

release_all-Keeps : (r : RunState) (nexts : List ℕ) → Keeps r (foldl release r nexts)
release_all-Keeps r [] = (refl, refl)
release_all-Keeps r (next ∷ nexts) =
    ground (arith, release-Keeps r next, release_all-Keeps (release r next) nexts)

block-Keeps : (fuel : ℕ) (r : RunState) (queue : List ℕ) → Keeps r (block fuel r queue)
unfolding block
block-Keeps zero r [] = (refl, refl)
block-Keeps (suc fuel) r [] = (refl, refl)
block-Keeps zero r (next ∷ rest) = block-Keeps zero r rest
block-Keeps (suc fuel) r (next ∷ rest) = elim (Bool-cases (is_waiting (state_at r.states next))) [
  | inr settled ↦ rw settled (block-Keeps (suc fuel) r rest)
  | inl waits ↦
      rw waits (block-Keeps fuel (mark_blocked r next) (rest ++ get_or r.graph.dependents next []))
]

-- Admission keeps the invariant.
pub admit-Inv : (g : Topology) (r : RunState) → Inv g r → Inv g (admit r).0
unfolding admit
admit-Inv g r inv =
    let after = admit_from-Admits g r r.queue [] inv.graph_is inv.sound inv.queued in
    record {
      graph_is = after.graph_is;
      positive = omega (arith, admit_from-Keeps r r.queue [], inv.positive);
      counted = admit-IsCounted r inv.counted;
      sound = after.sound;
      queued = after.queued;
    }

settle-IsQueued :
    (r : RunState) (node : ℕ) (outcome : State)
    → is_running (state_at r.states node) ≡ true
    → is_outcome outcome ≡ true
    → IsQueued r.states r.queue
    → IsQueued (set r.states node outcome) r.queue
settle-IsQueued r node outcome runs valid q =
    write-IsQueued r.states r.queue node outcome (lt_of_state is_running r.states node refl runs)
      (ground arith) q

-- What the propagation of a settled outcome establishes, but for the counters.
record Settled (g : Topology) (r r' : RunState) : Type 0 where
  graph_is : r'.graph ≡ r.graph
  capacity_is : r'.capacity ≡ r.capacity
  sound : IsSound g r'.states r'.remaining [] []
  queued : IsQueued r'.states r'.queue

propagate-Settled :
    (g : Topology) (rank : ℕ → ℕ) (r : RunState) (node : ℕ) (outcome : State)
    → IsTopology g rank
    → Inv g r
    → is_running (state_at r.states node) ≡ true
    → is_outcome outcome ≡ true
    → (success : Bool) → is_success outcome ≡ success
    → Settled g r (propagate (settle r node outcome) node success)
unfolding propagate
propagate-Settled g rank r node outcome t inv runs valid true e =
    let nexts = get_or r.graph.dependents node [] in
    let keeps = release_all-Keeps (settle r node outcome) nexts in
    record {
      graph_is = keeps.0;
      capacity_is = keeps.1;
      sound =
          release_all-IsSound g (settle r node outcome) nexts
            (rw inv.graph_is (settle_success-IsSound g rank r node outcome t runs e inv.sound));
      queued =
          release_all-IsQueued (settle r node outcome) nexts
            (settle-IsQueued r node outcome runs valid inv.queued);
    }
propagate-Settled g rank r node outcome t inv runs valid false e =
    let nexts = get_or r.graph.dependents node [] in
    let s = settle r node outcome in
    let keeps = block-Keeps (length s.states) s nexts in
    record {
      graph_is = keeps.0;
      capacity_is = keeps.1;
      sound =
          block-IsSound g rank (length s.states) s nexts t inv.graph_is
            (count-le-length is_waiting s.states)
            (rw inv.graph_is
              (settle_failure-IsSound g rank r node outcome t runs valid e inv.sound));
      queued =
          block-IsQueued (length s.states) s nexts
            (settle-IsQueued r node outcome runs valid inv.queued);
    }

-- `finish` succeeds exactly on a running node with an outcome.
pub finish_cases :
    (r : RunState) (node : ℕ) (outcome : State) {r' : RunState}
    → finish r node outcome ≡ ok r'
    → (is_running (state_at r.states node) ≡ true)
      × (is_outcome outcome ≡ true)
      × (r' ≡ propagate (settle r node outcome) node (is_success outcome))
unfolding finish
finish_cases r node outcome h = ground arith

-- An accepted completion keeps the invariant.
pub finish-Inv :
    (g : Topology) (rank : ℕ → ℕ) (r : RunState) (node : ℕ) (outcome : State) {r' : RunState}
    → IsTopology g rank
    → Inv g r
    → finish r node outcome ≡ ok r'
    → Inv g r'
finish-Inv g rank r node outcome {r'} t inv h =
    let (runs, valid, e) = finish_cases r node outcome h in
    let after =
      propagate-Settled g rank r node outcome t inv runs valid (is_success outcome) refl in
    record {
      graph_is = rw e (after.graph_is ∙ inv.graph_is);
      positive = rw e (rw after.capacity_is inv.positive);
      counted = finish-IsCounted r node outcome inv.counted h;
      sound = rw e after.sound;
      queued = rw e after.queued;
    }

-- Cancellation keeps the invariant.
pub cancel-Inv : (g : Topology) (r : RunState) → Inv g r → Inv g (cancel r)
unfolding cancel
cancel-Inv g r inv = record {
  graph_is = inv.graph_is;
  positive = inv.positive;
  counted = cancel-IsCounted r inv.counted;
  sound = record {
    as_many_states = length-cancel_all r.states r.unfinished ∙ inv.sound.as_many_states;
    as_many_counts = inv.sound.as_many_counts;
    tally = λ i p. ground (arith, state_at-cancel_all r.states r.unfinished i);
    unmet = λ i p. ground (arith, state_at-cancel_all r.states r.unfinished i);
    met = λ i p.
        every_mono (succeeds r.states) (succeeds (cancel_all r.states r.unfinished).0) (deps_of g i)
          (λ d e. ground (arith, state_at-cancel_all r.states r.unfinished d))
          (ground (arith, inv.sound.met i, state_at-cancel_all r.states r.unfinished i));
    hopes = λ i d p m f. ground (arith, state_at-cancel_all r.states r.unfinished i);
  };
  queued = λ i p. ground (arith, state_at-cancel_all r.states r.unfinished i);
}

pub admit-Keeps : (r : RunState) → (admit r).0.capacity ≡ r.capacity
unfolding admit
admit-Keeps r = (admit_from-Keeps r r.queue []).1

propagate-Keeps :
    (r : RunState) (node : ℕ) (success : Bool) → (propagate r node success).capacity ≡ r.capacity
unfolding propagate
propagate-Keeps r node true = (release_all-Keeps r (get_or r.graph.dependents node [])).1
propagate-Keeps r node false =
    (block-Keeps (length r.states) r (get_or r.graph.dependents node [])).1

pub finish-Keeps :
    (r : RunState) (node : ℕ) (outcome : State) {r' : RunState}
    → finish r node outcome ≡ ok r'
    → r'.capacity ≡ r.capacity
finish-Keeps r node outcome h =
    let (runs, valid, e) = finish_cases r node outcome h in
    rw e (propagate-Keeps (settle r node outcome) node (is_success outcome))

pub cancel-Keeps : (r : RunState) → (cancel r).capacity ≡ r.capacity
unfolding cancel
cancel-Keeps r = refl
