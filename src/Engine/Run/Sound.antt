-- ===== src/Engine/Run/Sound.antt =====
-- The dependency counts and the readiness of nodes: the invariant of the scheduler.
use traversal.Base.{
  ℕ, ◌+◌, ◌<◌, ◌≡◌, ◌≢◌, ap, Bool, true, false, inl, inr, List, length, get_or, set, count, every,
  ◌==◌, fun_ext, ◌∙◌, if◌then◌else◌, length-set, get_or-set_self, get_or-set_ne, mem, occurs,
  Bool-cases, arith, ==_iff,
}
use traversal.Engine.Topology.{Topology}
use traversal.Engine.Topology.Shape.{size, deps_of}
use traversal.Engine.Run.{
  State, unselected, pending, ready, running, succeeded, reused, failed, is_pending, is_success,
  state_at,
}

-- A node that its dependencies have released.
abbrev pub is_started : State → Bool
is_started ready = true
is_started running = true
is_started succeeded = true
is_started reused = true
is_started failed = true
is_started _ = false

-- A node that may still succeed, or has.
abbrev pub is_hopeful : State → Bool
is_hopeful pending = true
is_hopeful ready = true
is_hopeful running = true
is_hopeful succeeded = true
is_hopeful reused = true
is_hopeful _ = false

abbrev pub succeeds : List State → ℕ → Bool
succeeds states d = is_success (state_at states d)

-- `todo` are the dependents that a success has still to release, and `wave` those that a failure
-- has still to block: both are empty between the operations.
pub record IsSound (g : Topology) (states : List State) (remaining : List ℕ) (todo wave : List ℕ)
    : Type 0 where
  pub as_many_states : length states ≡ size g
  pub as_many_counts : length remaining ≡ size g
  pub tally :
      (i : ℕ)
      → is_pending (state_at states i) ≡ true
      → get_or remaining i 0 + count (succeeds states) (deps_of g i)
        ≡ length (deps_of g i) + occurs i todo
  pub unmet : (i : ℕ) → is_pending (state_at states i) ≡ true → 0 < get_or remaining i 0
  pub met :
      (i : ℕ) → is_started (state_at states i) ≡ true → every (succeeds states) (deps_of g i) ≡ true
  pub hopes :
      (i d : ℕ)
      → is_pending (state_at states i) ≡ true
      → mem d (deps_of g i) ≡ true
      → is_hopeful (state_at states d) ≡ false
      → mem i wave ≡ true

-- A read after a write.
pub state_at-set :
    (states : List State) (i j : ℕ) (v : State)
    → i < length states
    → state_at (set states i v) j ≡ (if i == j then v else state_at states j)
state_at-set states i j v h = elim (Bool-cases (i == j)) [
  | inl e ↦ rw (e, ← (==_iff i j).0 e) (get_or-set_self states i v unselected h)
  | inr e ↦ rw e (get_or-set_ne states i j v unselected (λ p. ground arith))
]

module _ (states : List State) (n : ℕ) (v : State) (inside : n < length states)
    (before : is_success (state_at states n) ≡ false) (after : is_success v ≡ false) where
  -- A write between two states without success changes no node's success.
  pub succeeds-set : (d : ℕ) → succeeds (set states n v) d ≡ succeeds states d
  succeeds-set d = ground (arith, state_at-set states n d v inside)

  pub count-succeeds-set :
      (ds : List ℕ) → count (succeeds (set states n v)) ds ≡ count (succeeds states) ds
  count-succeeds-set ds = ap (λ p. count p ds) (fun_ext succeeds-set)

  pub every-succeeds-set :
      (ds : List ℕ) → every (succeeds (set states n v)) ds ≡ every (succeeds states) ds
  every-succeeds-set ds = ap (λ p. every p ds) (fun_ext succeeds-set)

  -- Such a write, to a state that is not pending, keeps the invariant, if a new failure is added to
  -- the wave.
  pub write-IsSound :
      (g : Topology) (remaining : List ℕ) (todo wave wave' : List ℕ)
      → is_pending v ≡ false
      → (is_started v ≡ true → is_started (state_at states n) ≡ true)
      → ((i : ℕ) → mem i wave ≡ true → i ≢ n → mem i wave' ≡ true)
      → (is_hopeful v ≡ false → (i : ℕ) → mem n (deps_of g i) ≡ true → mem i wave' ≡ true)
      → IsSound g states remaining todo wave
      → IsSound g (set states n v) remaining todo wave'
  write-IsSound g remaining todo wave wave' moved kept widen spread s = record {
    as_many_states = length-set states n v ∙ s.as_many_states;
    as_many_counts = s.as_many_counts;
    tally = λ i p.
        ground
          (arith, state_at-set states n i v inside, s.tally i, count-succeeds-set (deps_of g i));
    unmet = λ i p. ground (arith, state_at-set states n i v inside, s.unmet i);
    met = λ i p.
        ground (
          arith,
          state_at-set states n i v inside,
          s.met i,
          kept,
          every-succeeds-set (deps_of g i),
        );
    hopes = λ i d p m f. ground (
      arith,
      state_at-set states n i v inside,
      state_at-set states n d v inside,
      s.hopes i d,
      widen i,
      λ (lost : is_hopeful v ≡ false). spread lost i,
    );
  }
