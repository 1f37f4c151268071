-- ===== src/Engine/Run/Initial.antt =====
-- `RunState::new` establishes the invariant.
use traversal.Base.{
  length-map, ℕ, zero, suc, ◌<◌, ◌≡◌, refl, ap, ◌∙◌, String, Bool, true, false, List, [], map,
  length, length-replicate, count, count_pointwise, count_never, replicate, if◌then◌else◌,
  List-cases, inl, inr, ◌⊎◌, index_of, fun_ext, sym, arith,
}
use traversal.Engine.Errors.{ok, >>=-eq-ok}
use traversal.Engine.Builder.{Builder}
use traversal.Engine.Topology.{Topology, select}
use traversal.Engine.Topology.Shape.{size, deps_of}
use traversal.Engine.Topology.Rounds.{get_or-map-length}
use traversal.Engine.Topology.Order.{IsCompiled}
use traversal.Engine.Topology.Closure.{select_closed, length-select}
use traversal.Engine.Topology.Closing.{IsIndexed}
use traversal.Engine.Run.{State, unselected, pending, ready, is_running, RunState, state_at, start}
use traversal.Engine.Run.Counts.{is_live}
use traversal.Engine.Run.Sound.{IsSound, succeeds}
use traversal.Engine.Run.Queue.{IsQueued}
use traversal.Engine.Run.Start.{
  chosen, lt_of_chosen, first_state, seeded, length-seeded, state_at-seeded, seeded-IsQueued,
}
use traversal.Engine.Run.Invariant.{Inv}

abbrev blank : ℕ → List State × List ℕ
blank n = (replicate n unselected, [])

state_at-blank : (n i : ℕ) → state_at (replicate n unselected) i ≡ unselected
state_at-blank zero i = refl
state_at-blank (suc n) zero = refl
state_at-blank (suc n) (suc i) = state_at-blank n i

abbrev pub started : Topology → List Bool → ℕ → RunState
started g selected capacity =
    let s = seeded selected g.dependencies (blank (length selected)) g.order in
    record {
      graph = g;
      states = s.0;
      remaining = map length g.dependencies;
      queue = s.1;
      active = 0;
      capacity = capacity;
      unfinished = count (λ s. s) selected;
    }

pub start_cases :
    (g : Topology) (targets : List String) (capacity : ℕ) {r : RunState}
    → start g targets capacity ≡ ok r
    → (selected : List Bool) × (0 < capacity)
      × (select g targets ≡ ok selected)
      × (r ≡ started g selected capacity)
unfolding start
start_cases g targets zero h = cc
start_cases g targets (suc c) h =
    let (selected, e, f) = >>=-eq-ok (select g targets) _ h in (selected, omega arith, e, cc)

module _ (b : Builder) (g : Topology) (targets : List String) (selected : List Bool)
    (w : IsCompiled b g) (indexed : IsIndexed g) (marks : select g targets ≡ ok selected) where
  as_many_marks : length selected ≡ size g
  as_many_marks = length-select g targets (λ i. index_of i g.order) w.topology indexed marks

  -- Where every node starts.
  first :
      (i : ℕ)
      → state_at (started g selected 0).states i
        ≡ (if chosen selected i then first_state (deps_of g i) else unselected)
  first i = ground (
    arith,
    state_at-seeded selected g.dependencies g.order (blank (length selected)) i (λ x m.
        omega (arith, w.inside x m, as_many_marks, length-replicate (length selected) unselected)),
    state_at-blank (length selected) i,
    w.covers i,
    lt_of_chosen selected i,
    as_many_marks,
  )

  pub first_cases :
      (i : ℕ)
      → (chosen selected i ≡ true)
          × (deps_of g i ≡ [])
          × (state_at (started g selected 0).states i ≡ ready)
        ⊎ (chosen selected i ≡ true)
          × (0 < length (deps_of g i))
          × (state_at (started g selected 0).states i ≡ pending)
        ⊎ (chosen selected i ≡ false) × (state_at (started g selected 0).states i ≡ unselected)
  unfolding first_state
  first_cases i = elim (List-cases (deps_of g i)) [
    | inl e ↦ ground (arith, first i)
    | inr (d, ds, e) ↦ ground (arith, first i, ap length e)
  ]

  no_success : (i : ℕ) → succeeds (started g selected 0).states i ≡ false
  no_success i = ground (arith, first_cases i)

  count_no_success : (ds : List ℕ) → count (succeeds (started g selected 0).states) ds ≡ 0
  count_no_success ds = ap (λ (p : ℕ → Bool). count p ds) (fun_ext no_success) ∙ count_never ds

  as_many : length (started g selected 0).states ≡ size g
  as_many =
      length-seeded selected g.dependencies g.order (blank (length selected))
      ∙ length-replicate (length selected) unselected
      ∙ as_many_marks

  started-IsSound : IsSound g (started g selected 0).states (map length g.dependencies) [] []
  started-IsSound = record {
    as_many_states = as_many;
    as_many_counts = length-map length g.dependencies ∙ w.topology.rows;
    tally =
        λ i p. ground (arith, count_no_success (deps_of g i), get_or-map-length g.dependencies i);
    unmet = λ i p. ground (arith, first_cases i, get_or-map-length g.dependencies i);
    met = λ i p. ground (arith, first_cases i);
    hopes = λ i d p m f. ground (
      arith,
      first_cases i,
      first_cases d,
      select_closed g targets (λ (x : ℕ). index_of x g.order) {selected = selected} i d w.topology
          indexed marks,
    );
  }

  started-IsQueued : IsQueued (started g selected 0).states (started g selected 0).queue
  started-IsQueued =
      seeded-IsQueued selected g.dependencies g.order (blank (length selected))
        (λ x m.
          omega (arith, w.inside x m, as_many_marks, length-replicate (length selected) unselected))
        (λ i h. cc (state_at-blank (length selected) i))

  live_count : count (λ s. s) selected ≡ count is_live (started g selected 0).states
  live_count =
      count_pointwise (λ s. s) is_live false unselected selected (started g selected 0).states
        (as_many_marks ∙ sym as_many) (λ i inside. ground (arith, first_cases i))

  idle_count : 0 ≡ count is_running (started g selected 0).states
  idle_count = sym (
      count_pointwise is_running (λ _. false) unselected unselected (started g selected 0).states
        (started g selected 0).states refl (λ i inside. ground (arith, first_cases i))
      ∙ count_never (started g selected 0).states)

  started-Inv : (capacity : ℕ) → 0 < capacity → Inv g (started g selected capacity)
  started-Inv capacity positive = record {
    graph_is = refl;
    positive = positive;
    counted = record { live = live_count; at_work = idle_count; within = omega arith };
    sound = started-IsSound;
    queued = started-IsQueued;
  }

-- A run of a compiled graph starts in the invariant.
pub start-Inv :
    (b : Builder) (g : Topology) (targets : List String) (capacity : ℕ) {r : RunState}
    → IsCompiled b g
    → IsIndexed g
    → start g targets capacity ≡ ok r
    → Inv g r
start-Inv b g targets capacity w indexed h =
    let (selected, positive, marks, e) = start_cases g targets capacity h in
    rw e (started-Inv b g targets selected w indexed marks capacity positive)

pub start-capacity :
    (g : Topology) (targets : List String) (capacity : ℕ) {r : RunState}
    → start g targets capacity ≡ ok r
    → r.capacity ≡ capacity
start-capacity g targets capacity h =
    let (selected, positive, marks, e) = start_cases g targets capacity h in rw e refl
