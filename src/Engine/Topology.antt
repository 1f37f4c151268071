-- ===== src/Engine/Topology.antt =====
-- `Builder::compile` and `Topology` of crates/traversal-core/src/graph.rs. Indices read through
-- `get_or` and written through `update` are in range for every builder that the operations make.
pub mod Shape
pub mod Loop
pub mod Rounds
pub mod Order
pub mod Closing
pub mod Closure
pub mod Transpose
use traversal.Base.{
  ℕ, zero, suc, ◌-◌, String, Bool, true, false, not, none, some, List, [], ◌∷◌, ◌++◌, map, foldl,
  length, get_or, set, update, replicate, ◌==◌, if◌then◌else◌, lookup,
}
use traversal.Engine.Errors.{cycle, no_target, unknown_target, Result, ok, err, ◌>>=◌}
use traversal.Engine.Builder.{Builder}

pub record Topology : Type 0 where
  pub names : List String
  pub by_name : List (String × ℕ)
  pub dependencies : List (List ℕ)
  pub dependents : List (List ℕ)
  pub order : List ℕ

-- `for &dep in dependencies { dependents[dep].push(node) }`
unfoldable pub push_all : ℕ → List (List ℕ) → List ℕ → List (List ℕ)
push_all node dependents [] = dependents
push_all node dependents (dep ∷ deps) =
    push_all node (update dependents dep (λ ns. ns ++ node ∷ [])) deps

-- The outer loop, from `node` on.
unfoldable pub invert_from : ℕ → List (List ℕ) → List (List ℕ) → List (List ℕ)
unfolding push_all
invert_from node dependents [] = dependents
invert_from node dependents (deps ∷ rest) =
    invert_from (suc node) (push_all node dependents deps) rest

unfoldable pub invert : List (List ℕ) → List (List ℕ)
unfolding invert_from
invert dependencies = invert_from 0 (replicate (length dependencies) []) dependencies

-- The indices, from `i` on, of the entries that pass a test.
unfoldable pub positions {ℓ} : {A : Type ℓ} → (A → Bool) → ℕ → List A → List ℕ
positions p i [] = []
positions p i (x ∷ xs) = if p x then i ∷ positions p (suc i) xs else positions p (suc i) xs

-- The variables of the ordering loop.
pub record Kahn : Type 0 where
  pub remaining : List ℕ
  pub ready : List ℕ
  pub order : List ℕ

-- The body of the loop over the dependents of the node that left the queue.
unfoldable pub relax : Kahn → ℕ → Kahn
relax k next =
    let left = get_or k.remaining next 0 - 1 in
    record k {
      remaining = set k.remaining next left;
      ready = if left == 0 then k.ready ++ next ∷ [] else k.ready;
    }

-- One round of the `while let` loop, after `node` left the queue.
unfoldable pub visit : List (List ℕ) → Kahn → ℕ → List ℕ → Kahn
unfolding relax
visit dependents k node rest =
    foldl relax (record k { ready = rest; order = k.order ++ node ∷ [] })
      (get_or dependents node [])

-- The loop, a round for each unit of fuel. `Order` shows that one round for each node is enough.
unfoldable pub kahn : List (List ℕ) → ℕ → Kahn → Kahn
unfolding visit
kahn dependents zero k = k
kahn dependents (suc fuel) k = elim k.ready [
  | [] ↦ k
  | node ∷ rest ↦ kahn dependents fuel (visit dependents k node rest)
]

abbrev pub kahn_start : List (List ℕ) → Kahn
kahn_start dependencies =
    let remaining = map length dependencies in
    record { remaining = remaining; ready = positions (λ n. n == 0) 0 remaining; order = [] }

unfoldable pub compile : Builder → Result Topology
unfolding invert positions kahn
compile b =
    let dependents = invert b.dependencies in
    let k = kahn dependents (length b.names) (kahn_start b.dependencies) in
    if length k.order == length b.names
    then ok (record {
      names = b.names;
      by_name = b.by_name;
      dependencies = b.dependencies;
      dependents = dependents;
      order = k.order;
    })
    else err (cycle (map (λ i. get_or b.names i "") (positions (λ n. not (n == 0)) 0 k.remaining)))

-- `stack.extend(deps)`: the last one pushed is the first one popped.
abbrev pub extend : List ℕ → List ℕ → List ℕ
extend stack [] = stack
extend stack (d ∷ ds) = extend (d ∷ stack) ds

-- The `while let Some(node) = stack.pop()` loop. Only a round that selects a node uses fuel, and a
-- node is selected once; any other round shortens the stack.
unfoldable pub close : List (List ℕ) → ℕ → List Bool → List ℕ → List Bool
close deps fuel selected [] = selected
close deps zero selected (node ∷ stack) = close deps zero selected stack
close deps (suc fuel) selected (node ∷ stack) =
    let passes = close deps (suc fuel) selected stack in
    let selects = close deps fuel (set selected node true) (extend stack (get_or deps node [])) in
    if get_or selected node false then passes else selects

-- The `for` loop that turns names into indices.
unfoldable pub resolve : Topology → List ℕ → List String → Result (List ℕ)
resolve g stack [] = ok stack
resolve g stack (name ∷ names) = elim (lookup name g.by_name) [
  | none ↦ err (unknown_target name)
  | some i ↦ resolve g (i ∷ stack) names
]

unfoldable pub select : Topology → List String → Result (List Bool)
unfolding resolve close
select g [] = err no_target
select g (target ∷ targets) = do
  stack ← resolve g [] (target ∷ targets)
  ok (close g.dependencies (length g.names) (replicate (length g.names) false) stack)
