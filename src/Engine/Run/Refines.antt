-- ===== src/Engine/Run/Refines.antt =====
-- `RunState` implements the abstract scheduler of Contract: each call is one of its steps.
use traversal.Base.{
  ℕ, ◌≡◌, ◌≢◌, refl, ◌∙◌, ◌⊎◌, true, false, String, List, [], ◌∷◌, ◌++◌, length, foldl, get_or, set,
  mem, count, every, ltb, ap, index_of, subst, fails_at, every_at, Bool-cases, ==_iff, inl, inr,
  arith,
}
use traversal.Engine.Errors.{ok}
use traversal.Engine.Builder.{Builder}
use traversal.Engine.Topology.{Topology}
use traversal.Engine.Topology.Order.{IsCompiled}
use traversal.Engine.Topology.Shape.{IsTopology, deps_of}
use traversal.Engine.Topology.Closure.{select-Needed}
use traversal.Engine.Topology.Closing.{IsIndexed}
use traversal.Engine.Run.{
  State, ready, running, is_pending, is_ready, is_running, is_success, state_at, RunState, start,
  admit, admit_from, claim, release, settle, propagate, finish, cancel,
}
use traversal.Engine.Run.Counts.{IsCounted, lt_of_state}
use traversal.Engine.Run.Sound.{IsSound, succeeds, state_at-set}
use traversal.Engine.Run.Queue.{IsQueued, state_at-cancel_all}
use traversal.Engine.Run.Invariant.{Inv, admit-Inv, admit-Keeps, finish_cases, finish-Inv}
use traversal.Engine.Run.Failure.{Depends, finish_blocks, finish-Effect, not-started_of_Depends}
use traversal.Engine.Run.Initial.{start_cases, first_cases, start-capacity}
use traversal.Engine.Run.Reach.{
  Step, admits, finishes, cancels, Reach, here, next, Reach-capacity, run-Inv,
}
use traversal.Engine.Run.Contract.{
  Begins, Admission, Success, Failure, Allowed, Behaves, begun, continued, admitting, succeeding,
  failing, cancelling,
}

-- A new run begins as the contract says.
pub start-Begins :
    (b : Builder) (g : Topology) (targets : List String) (capacity : ℕ) {r : RunState}
    → IsCompiled b g
    → IsIndexed g
    → start g targets capacity ≡ ok r
    → Begins g targets r.states
start-Begins b g targets capacity w indexed h =
    let (selected, positive, marks, e) = start_cases g targets capacity h in
    let cases = first_cases b g targets selected w indexed marks in
    let needed =
      λ (i : ℕ). select-Needed g targets (λ j. index_of j g.order) i w.topology indexed marks in
    rw e (record {
      source = λ i n none. ground (arith, cases i, (needed i).1 n, ap length none);
      waiter = λ i n some. ground (arith, cases i, (needed i).1 n);
      outsider = λ i free. ground (arith, cases i, (needed i).0, free);
    })

-- What admission does to each node.
admit_from-moves :
    (r : RunState) (queue admitted : List ℕ) (i : ℕ)
    → (state_at (admit_from r queue admitted).0.states i ≡ state_at r.states i)
      ⊎ (state_at r.states i ≡ ready)
        × (state_at (admit_from r queue admitted).0.states i ≡ running)
unfolding admit_from
admit_from-moves r [] admitted i = inl refl
admit_from-moves r (n ∷ rest) admitted i = elim (Bool-cases (ltb r.active r.capacity)) [
  | inr full ↦ rw full (inl refl)
  | inl room ↦ elim (Bool-cases (is_ready (state_at r.states n))) [
    | inr stale ↦ rw (room, stale) (admit_from-moves r rest admitted i)
    | inl free ↦
        rw (room, free)
          (ground (
            arith,
            admit_from-moves (claim r n) rest (admitted ++ n ∷ []) i,
            state_at-set r.states n i running (lt_of_state is_ready r.states n refl free),
            ==_iff n i,
          ))
  ]
]

-- Admission stops early only at capacity.
admit_from-full :
    (r : RunState) (queue admitted : List ℕ)
    → ((admit_from r queue admitted).0.queue ≡ [])
      ⊎ (ltb (admit_from r queue admitted).0.active (admit_from r queue admitted).0.capacity
          ≡ false)
unfolding admit_from
admit_from-full r [] admitted = inl refl
admit_from-full r (n ∷ rest) admitted = elim (Bool-cases (ltb r.active r.capacity)) [
  | inr full ↦ rw full (inr full)
  | inl room ↦ elim (Bool-cases (is_ready (state_at r.states n))) [
    | inr stale ↦ rw (room, stale) (admit_from-full r rest admitted)
    | inl free ↦ rw (room, free) (admit_from-full (claim r n) rest (admitted ++ n ∷ []))
  ]
]

full_of_queue :
    (r : RunState) (i : ℕ)
    → IsCounted r
    → IsQueued r.states r.queue
    → (r.queue ≡ []) ⊎ (ltb r.active r.capacity ≡ false)
    → state_at r.states i ≡ ready
    → count is_running r.states ≡ r.capacity
full_of_queue r i c q (inl none) free = absurd (ground (arith, q i, ap (mem i) none))
full_of_queue r i c q (inr full) free = ground (arith, c.at_work, c.within)

pub admit-Admission :
    (g : Topology) (r : RunState) → Inv g r → Admission r.capacity r.states (admit r).0.states
unfolding admit
admit-Admission g r inv =
    let after = admit-Inv g r inv in
    record {
      moves = admit_from-moves r r.queue [];
      within = omega (arith, after.counted.at_work, after.counted.within, admit-Keeps r);
      full = λ i free.
          full_of_queue (admit r).0 i after.counted after.queued (admit_from-full r r.queue []) free
          ∙ admit-Keeps r;
    }

-- What the release of the dependents does to each node.
release-moves :
    (r : RunState) (n i : ℕ)
    → (state_at (release r n).states i ≡ state_at r.states i)
      ⊎ (is_pending (state_at r.states i) ≡ true) × (state_at (release r n).states i ≡ ready)
unfolding release
release-moves r n i =
    ground (arith, lt_of_state is_pending r.states n, state_at-set r.states n i ready, ==_iff n i)

pub release_all-moves :
    (r : RunState) (ns : List ℕ) (i : ℕ)
    → (state_at (foldl release r ns).states i ≡ state_at r.states i)
      ⊎ (is_pending (state_at r.states i) ≡ true) × (state_at (foldl release r ns).states i ≡ ready)
release_all-moves r [] i = inl refl
release_all-moves r (n ∷ ns) i =
    ground (arith, release-moves r n i, release_all-moves (release r n) ns i)

-- A pending node has a dependency without success.
every_of_pending :
    (g : Topology) (r : RunState) (i : ℕ)
    → IsSound g r.states r.remaining [] []
    → is_pending (state_at r.states i) ≡ true
    → every (succeeds r.states) (deps_of g i) ≡ false
every_of_pending g r i s p =
    let (d, m, f) =
      fails_at (succeeds r.states) (deps_of g i) (omega (arith, s.tally i p, s.unmet i p)) in
    ground (arith, every_at (succeeds r.states) (deps_of g i) d)

pub finish-Success :
    (g : Topology) (rank : ℕ → ℕ) (r : RunState) (node : ℕ) (outcome : State) {r' : RunState}
    → IsTopology g rank
    → Inv g r
    → is_success outcome ≡ true
    → finish r node outcome ≡ ok r'
    → Success g node outcome r.states r'.states
unfolding propagate
finish-Success g rank r node outcome {r'} t inv good h =
    let (runs, valid, e) = finish_cases r node outcome h in
    let after = (finish-Inv g rank r node outcome t inv h).sound in
    let inside = lt_of_state is_running r.states node refl runs in
    let moves : (i : ℕ)
        → (state_at r'.states i ≡ state_at (set r.states node outcome) i)
          ⊎ (is_pending (state_at (set r.states node outcome) i) ≡ true)
            × (state_at r'.states i ≡ ready) =
      λ i.
        rw (e, good)
          (release_all-moves (settle r node outcome) (get_or r.graph.dependents node []) i) in
    record {
      was_running = runs;
      success = good;
      written =
          ground
            (arith, moves node, state_at-set r.states node node outcome inside, ==_iff node node);
      releases = λ i other. ground (
        arith,
        moves i,
        state_at-set r.states node i outcome inside,
        ==_iff node i,
        every_of_pending g r' i after,
        after.met i,
      );
    }

pub finish-Failure :
    (g : Topology) (rank : ℕ → ℕ) (r : RunState) (node : ℕ) (outcome : State) {r' : RunState}
    → IsTopology g rank
    → Inv g r
    → is_success outcome ≡ false
    → finish r node outcome ≡ ok r'
    → Failure g node outcome r.states r'.states
finish-Failure g rank r node outcome {r'} t inv bad h =
    let (runs, valid, e) = finish_cases r node outcome h in
    let inside = lt_of_state is_running r.states node refl runs in
    let effect = λ (i : ℕ). finish-Effect g rank r node outcome {r' = r'} i t inv bad h in
    let parts =
      λ (i : ℕ) (other : i ≢ node). finish_blocks g rank r node outcome r' i t inv bad h other in
    record {
      was_running = runs;
      failure = bad;
      an_outcome = valid;
      written =
          ground
            (arith, effect node, state_at-set r.states node node outcome inside, ==_iff node node);
      blocks = λ i other. (parts i other).0;
      spares = λ i other. (parts i other).1;
      keeps = λ i other idle. ground (
        arith,
        effect i,
        state_at-set r.states node i outcome inside,
        ==_iff node i,
        λ (d : Depends g node i). not-started_of_Depends g r node inv.sound (ground arith) d,
      );
    }

pub cancel-Allowed : (g : Topology) (r : RunState) → Allowed g r.capacity r.states (cancel r).states
unfolding cancel
cancel-Allowed g r = cancelling (state_at-cancel_all r.states r.unfinished)

-- Each call of a run is a step of the abstract scheduler.
pub Step-Allowed :
    (g : Topology) (rank : ℕ → ℕ) {r r' : RunState}
    → IsTopology g rank
    → Inv g r
    → Step r r'
    → Allowed g r.capacity r.states r'.states
Step-Allowed g rank t inv (admits r) = admitting (admit-Admission g r inv)
Step-Allowed g rank {r' = r'} t inv (finishes {r} node outcome h) =
    elim (Bool-cases (is_success outcome)) [
      | inl good ↦
          succeeding node outcome (finish-Success g rank r node outcome {r' = r'} t inv good h)
      | inr bad ↦ failing node outcome (finish-Failure g rank r node outcome {r' = r'} t inv bad h)
    ]
Step-Allowed g rank t inv (cancels r) = cancel-Allowed g r

pub Reach-Behaves :
    (b : Builder) (g : Topology) (targets : List String) (capacity : ℕ) {r₀ r : RunState}
    → IsCompiled b g
    → IsIndexed g
    → start g targets capacity ≡ ok r₀
    → Reach r₀ r
    → Behaves g targets capacity r.states
Reach-Behaves b g targets capacity w indexed new here =
    begun (start-Begins b g targets capacity w indexed new)
Reach-Behaves b g targets capacity {r₀} w indexed new (next {r = m} {r' = r'} p s) =
    let inv = run-Inv b g targets capacity r₀ m w indexed new p in
    let same = Reach-capacity p ∙ start-capacity g targets capacity new in
    continued (Reach-Behaves b g targets capacity w indexed new p) (
      subst (λ c. Allowed g c m.states r'.states) same
        (Step-Allowed g (λ i. index_of i g.order) w.topology inv s))
