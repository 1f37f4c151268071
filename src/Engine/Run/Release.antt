-- ===== src/Engine/Run/Release.antt =====
-- A success releases the dependents that wait for nothing else.
use traversal.Base.{
  ℕ, ◌+◌, ◌-◌, ◌<◌, ◌≡◌, refl, ◌∙◌, true, false, List, [], ◌∷◌, foldl, length, get_or, set, count,
  every, ◌==◌, ==_iff, if◌then◌else◌, length-set, get_or-set_self, get_or-set_ne, occurs,
  Bool-cases, every_mono, every_of_count, count-le-length, count_add_occurs, inl, inr, arith,
}
use traversal.Engine.Topology.{Topology}
use traversal.Engine.Topology.Shape.{IsTopology, deps_of, dependents_of}
use traversal.Engine.Run.{
  State, ready, is_pending, is_running, is_success, RunState, state_at, release,
}
use traversal.Engine.Run.Counts.{lt_of_state}
use traversal.Engine.Run.Sound.{
  IsSound, succeeds, state_at-set, count-succeeds-set, every-succeeds-set,
}

-- A read after a write.
remaining-set :
    (remaining : List ℕ) (i j v : ℕ)
    → i < length remaining
    → get_or (set remaining i v) j 0 ≡ (if i == j then v else get_or remaining j 0)
remaining-set remaining i j v h = elim (Bool-cases (i == j)) [
  | inl e ↦ rw (e, ← (==_iff i j).0 e) (get_or-set_self remaining i v 0 h)
  | inr e ↦ rw e (get_or-set_ne remaining i j v 0 (λ p. ground arith))
]

-- The dependent is not pending: nothing is written.
skip-IsSound :
    (g : Topology) (states : List State) (remaining : List ℕ) (next : ℕ) (todo : List ℕ)
    → is_pending (state_at states next) ≡ false
    → IsSound g states remaining (next ∷ todo) []
    → IsSound g states remaining todo []
skip-IsSound g states remaining next todo settled s = record {
  as_many_states = s.as_many_states;
  as_many_counts = s.as_many_counts;
  tally = λ i p. ground (arith, s.tally i, ==_iff i next);
  unmet = s.unmet;
  met = s.met;
  hopes = s.hopes;
}

-- It waits for more: its count falls.
fall-IsSound :
    (g : Topology) (states : List State) (remaining : List ℕ) (next : ℕ) (todo : List ℕ)
    → next < length remaining
    → (get_or remaining next 0 - 1 == 0) ≡ false
    → IsSound g states remaining (next ∷ todo) []
    → IsSound g states (set remaining next (get_or remaining next 0 - 1)) todo []
fall-IsSound g states remaining next todo inside more s = record {
  as_many_states = s.as_many_states;
  as_many_counts = length-set remaining next (get_or remaining next 0 - 1) ∙ s.as_many_counts;
  tally = λ i p. ground (
    arith,
    s.tally i,
    s.unmet i,
    ==_iff i next,
    remaining-set remaining next i (get_or remaining next 0 - 1) inside,
  );
  unmet = λ i p.
      ground
        (arith, s.unmet i, remaining-set remaining next i (get_or remaining next 0 - 1) inside);
  met = s.met;
  hopes = s.hopes;
}

-- It waits for nothing else: it is ready.
free-IsSound :
    (g : Topology) (states : List State) (remaining : List ℕ) (next : ℕ) (todo : List ℕ)
    → next < length states
    → next < length remaining
    → is_pending (state_at states next) ≡ true
    → (get_or remaining next 0 - 1 == 0) ≡ true
    → IsSound g states remaining (next ∷ todo) []
    → IsSound g (set states next ready) (set remaining next (get_or remaining next 0 - 1)) todo []
free-IsSound g states remaining next todo inside inside' waits last s = record {
  as_many_states = length-set states next ready ∙ s.as_many_states;
  as_many_counts = length-set remaining next (get_or remaining next 0 - 1) ∙ s.as_many_counts;
  tally = λ i p. ground (
    arith,
    s.tally i,
    ==_iff i next,
    state_at-set states next i ready inside,
    count_same (deps_of g i),
    remaining-set remaining next i (get_or remaining next 0 - 1) inside',
  );
  unmet = λ i p. ground (
    arith,
    s.unmet i,
    state_at-set states next i ready inside,
    remaining-set remaining next i (get_or remaining next 0 - 1) inside',
  );
  met = λ i p. ground (
    arith,
    s.met i,
    state_at-set states next i ready inside,
    every_same (deps_of g i),
    all_met,
    ==_iff next i,
  );
  hopes = λ i d p m f. ground (
    arith,
    s.hopes i d,
    state_at-set states next i ready inside,
    state_at-set states next d ready inside,
  );
}
  where
    no_success : is_success (state_at states next) ≡ false
    no_success = ground arith

    count_same :
        (ds : List ℕ) → count (succeeds (set states next ready)) ds ≡ count (succeeds states) ds
    count_same = count-succeeds-set states next ready inside no_success refl

    every_same :
        (ds : List ℕ) → every (succeeds (set states next ready)) ds ≡ every (succeeds states) ds
    every_same = every-succeeds-set states next ready inside no_success refl

    all_met : every (succeeds states) (deps_of g next) ≡ true
    all_met = every_of_count (succeeds states) (deps_of g next) (
        ground (
          arith,
          s.tally next,
          s.unmet next,
          ==_iff next next,
          count-le-length (succeeds states) (deps_of g next),
        ))

release-IsSound :
    (g : Topology) (r : RunState) (next : ℕ) (todo : List ℕ)
    → IsSound g r.states r.remaining (next ∷ todo) []
    → IsSound g (release r next).states (release r next).remaining todo []
unfolding release
release-IsSound g r next todo s = elim (Bool-cases (is_pending (state_at r.states next))) [
  | inr settled ↦ rw settled (skip-IsSound g r.states r.remaining next todo settled s)
  | inl waits ↦
      let inside = lt_of_state is_pending r.states next refl waits in
      let inside' : next < length r.remaining = omega (arith, s.as_many_states, s.as_many_counts) in
      elim (Bool-cases (get_or r.remaining next 0 - 1 == 0)) [
        | inl last ↦
            rw (waits, last)
              (free-IsSound g r.states r.remaining next todo inside inside' waits last s)
        | inr more ↦ rw (waits, more) (fall-IsSound g r.states r.remaining next todo inside' more s)
      ]
]

pub release_all-IsSound :
    (g : Topology) (r : RunState) (todo : List ℕ)
    → IsSound g r.states r.remaining todo []
    → IsSound g (foldl release r todo).states (foldl release r todo).remaining [] []
release_all-IsSound g r [] s = s
release_all-IsSound g r (next ∷ todo) s =
    release_all-IsSound g (release r next) todo (release-IsSound g r next todo s)

-- A running node that succeeds: its dependents are still to be released.
pub settle_success-IsSound :
    (g : Topology) (rank : ℕ → ℕ) (r : RunState) (node : ℕ) (outcome : State)
    → IsTopology g rank
    → is_running (state_at r.states node) ≡ true
    → is_success outcome ≡ true
    → IsSound g r.states r.remaining [] []
    → IsSound g (set r.states node outcome) r.remaining (dependents_of g node) []
settle_success-IsSound g rank r node outcome t runs good s = record {
  as_many_states = length-set r.states node outcome ∙ s.as_many_states;
  as_many_counts = s.as_many_counts;
  tally = λ i p. ground (
    arith,
    s.tally i,
    state_at-set r.states node i outcome inside,
    counts (deps_of g i),
    t.transpose i node,
  );
  unmet = λ i p. ground (arith, s.unmet i, state_at-set r.states node i outcome inside);
  met = λ i p.
      every_mono (succeeds r.states) (succeeds (set r.states node outcome)) (deps_of g i)
        (λ d e. ground (arith, state_at-set r.states node d outcome inside))
        (ground
          (arith, s.met i, s.met node, ==_iff node i, state_at-set r.states node i outcome inside));
  hopes = λ i d p m f. ground (
    arith,
    s.hopes i d,
    state_at-set r.states node i outcome inside,
    state_at-set r.states node d outcome inside,
  );
}
  where
    inside : node < length r.states
    inside = lt_of_state is_running r.states node refl runs

    counts :
        (ds : List ℕ)
        → count (succeeds (set r.states node outcome)) ds
          ≡ count (succeeds r.states) ds + occurs node ds
    counts ds =
        count_add_occurs (succeeds r.states) (succeeds (set r.states node outcome)) node ds
          (ground arith)
          (ground (arith, state_at-set r.states node node outcome inside, ==_iff node node))
          (λ d other. ground (arith, state_at-set r.states node d outcome inside, ==_iff node d))
