-- ===== src/Engine/Topology/Shape.antt =====
-- What the scheduler relies on in a compiled topology.
use traversal.Base.{ℕ, ◌<◌, ◌≡◌, true, List, [], length, get_or, mem, occurs}
use traversal.Engine.Topology.{Topology}

abbrev pub size : Topology → ℕ
size g = length g.names

abbrev pub deps_of : Topology → ℕ → List ℕ
deps_of g i = get_or g.dependencies i []

abbrev pub dependents_of : Topology → ℕ → List ℕ
dependents_of g d = get_or g.dependents d []

-- The rows are as many as the names, they hold indices of nodes, `dependents` is the transpose of
-- `dependencies`, and along a dependency the rank falls, so that there is no cycle.
pub record IsTopology (g : Topology) (rank : ℕ → ℕ) : Type 0 where
  pub rows : length g.dependencies ≡ size g
  pub columns : length g.dependents ≡ size g
  pub below : (i d : ℕ) → mem d (deps_of g i) ≡ true → d < size g
  pub transpose : (i d : ℕ) → occurs i (dependents_of g d) ≡ occurs d (deps_of g i)
  pub falls : (i d : ℕ) → mem d (deps_of g i) ≡ true → rank d < rank i
