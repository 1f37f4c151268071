-- ===== src/Engine/Binding.antt =====
-- The PyO3 layer, crates/traversal-python/src/lib.rs: how lists that Python hands over become a
-- topology, and how an outcome's text becomes a state. A `ValueError` carries the engine's error.
pub mod Valid
pub mod Runs
pub mod Accepts
use traversal.Base.{
  ℕ, String, none, some, List, [], ◌∷◌, ◌++◌, map, length, get_elem?, ◌==◌, not, if◌then◌else◌,
  str_eq,
}
use traversal.Engine.Errors.{
  invalid_outcome, length_mismatch, unknown_index, Result, ok, err, ◌>>=◌,
}
use traversal.Engine.Builder.{NodeId, Builder, new, add, depends_on}
use traversal.Engine.Topology.{Topology, compile}
use traversal.Engine.Run.{RunState, State, succeeded, reused, failed, cancelled, finish, as_str}

-- `names.iter().map(|n| b.add(n)).collect()`
unfoldable pub add_all : Builder → List NodeId → List String → Result (Builder × List NodeId)
unfolding add
add_all b ids [] = ok (b, ids)
add_all b ids (name ∷ names) = do (b', id) ← add b name; add_all b' (ids ++ id ∷ []) names

-- The inner loop: the dependencies of the node `id`.
unfoldable pub add_edges : List NodeId → NodeId → Builder → List ℕ → Result Builder
unfolding depends_on
add_edges ids id b [] = ok b
add_edges ids id b (dep ∷ deps) = elim (get_elem? ids dep) [
  | none ↦ err unknown_index
  | some d ↦ depends_on b id d >>= λ b'. add_edges ids id b' deps
]

-- The outer loop; `todo` are the identifiers that go with the rows that are left.
unfoldable pub add_rows : List NodeId → List NodeId → Builder → List (List ℕ) → Result Builder
unfolding add_edges
add_rows ids (id ∷ todo) b (deps ∷ rows) = do
  b' ← add_edges ids id b deps
  add_rows ids todo b' rows
add_rows ids _ b _ = ok b

unfoldable pub compile_topology : ℕ → List String → List (List ℕ) → Result Topology
unfolding add_all add_rows compile
compile_topology owner names dependencies =
    if not (length names == length dependencies) then err length_mismatch else (do
      (b, ids) ← add_all (new owner) [] names
      b' ← add_rows ids ids b dependencies
      compile b')

-- `PyRun::finish`
unfoldable pub outcome_of : String → Result State
outcome_of text =
    if str_eq text "succeeded"
    then ok succeeded
    else if str_eq text "reused"
    then ok reused
    else if str_eq text "failed"
    then ok failed
    else if str_eq text "cancelled"
    then ok cancelled
    else err invalid_outcome

unfoldable pub py_finish : RunState → ℕ → String → Result RunState
unfolding outcome_of finish
py_finish r node text = do outcome ← outcome_of text; finish r node outcome

unfoldable pub py_states : RunState → List String
unfolding as_str
py_states r = map as_str r.states
