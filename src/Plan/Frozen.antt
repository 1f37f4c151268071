-- ===== src/Plan/Frozen.antt =====
-- What a plan that `Graph.compile` returns consists of.
use traversal.Base.{ℕ, ◌≡◌, refl, String, Option, List, [], map}
use traversal.Engine.Errors
use traversal.Engine.Topology.{Topology, select}
use traversal.Engine.Binding.{compile_topology}
use traversal.Exceptions.{return, >>=-eq-return}
use traversal.History.{Settings}
use traversal.Graph.{Task, Graph, Target, target_names, distinct}
use traversal.Plan.{Plan, native, index_from, all_deps, init, compile}

pub native-eq-return :
    {A : Type 0} (m : Errors.Result A) {a : A} → native m ≡ return a → m ≡ Errors.ok a
native-eq-return (Errors.ok a) h = cc
native-eq-return (Errors.err e) h = cc

abbrev names_of : List (String × ℕ) → List String
names_of index = map (λ e. e.0) index

-- The parts of a plan, where `owner` is the number of its native builder.
pub record IsFrozen (owner : ℕ) (p : Plan) : Type 0 where
  pub indexed : p.index ≡ index_from 0 p.tasks []
  pub rows : all_deps p.index p.tasks ≡ return p.dependencies
  pub made : compile_topology owner (names_of p.index) p.dependencies ≡ Errors.ok p.topology
  pub chosen : select p.topology p.targets ≡ Errors.ok p.selected

pub init-IsFrozen :
    (name version : String) (tasks : List Task) (targets : List String) (store : Option Settings)
    (owner : ℕ) (p : Plan)
    → init name version tasks targets store owner ≡ return p
    → IsFrozen owner p × (p.tasks ≡ tasks) × (p.targets ≡ targets)
unfolding init
init-IsFrozen name version tasks targets store owner p h =
    let (rows, listed, rest) = >>=-eq-return (all_deps (index_from 0 tasks []) tasks) _ h in
    let (topology, made, rest₁) =
      >>=-eq-return (native (compile_topology owner (names_of (index_from 0 tasks [])) rows)) _
        rest in
    let (selected, chosen, last) = >>=-eq-return (native (select topology targets)) _ rest₁ in
    frozen rows topology selected listed
      (native-eq-return (compile_topology owner (names_of (index_from 0 tasks [])) rows) made)
      (native-eq-return (select topology targets) chosen) last
  where
    frozen :
        (rows : List (List ℕ)) (topology : Topology) (selected : List _)
        → all_deps (index_from 0 tasks []) tasks ≡ return rows
        → compile_topology owner (names_of (index_from 0 tasks [])) rows ≡ Errors.ok topology
        → select topology targets ≡ Errors.ok selected
        → return (record {
          store = store;
          name = name;
          version = version;
          targets = targets;
          tasks = tasks;
          index = index_from 0 tasks [];
          dependencies = rows;
          topology = topology;
          selected = selected;
        })
          ≡ return p
        → IsFrozen owner p × (p.tasks ≡ tasks) × (p.targets ≡ targets)
    frozen rows topology selected listed made chosen e =
        let same : p ≡ (record {
          store = store;
          name = name;
          version = version;
          targets = targets;
          tasks = tasks;
          index = index_from 0 tasks [];
          dependencies = rows;
          topology = topology;
          selected = selected;
        }) =
          cc in
        rw same (record { indexed = refl; rows = listed; made = made; chosen = chosen }, refl, refl)

pub compile-IsFrozen :
    (g : Graph) (targets : List Target) (owner : ℕ) (p : Plan)
    → compile g targets owner ≡ return p
    → IsFrozen owner p
unfolding compile
compile-IsFrozen g targets owner p h =
    let (names, checked, rest) = >>=-eq-return (target_names g targets) _ h in
    (init-IsFrozen g.name g.version (map (λ e. e.1) g.tasks) (distinct [] names) g.store owner p
      rest).0
