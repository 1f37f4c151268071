-- ===== src/Plan.antt =====
-- `Plan` of python/traversal/graph.py: the frozen graph, its fingerprints, and what a run would do.
pub mod Decide
pub mod Closed
pub mod Growth
pub mod Total
pub mod Dependencies
pub mod Walk
pub mod Frozen
pub mod Keys
pub mod Runs
pub mod Description
pub mod Explain
use traversal.Base.{
  ℕ, zero, suc, String, Bool, true, false, not, ◌&&◌, ◌||◌, Option, none, some, List, [], ◌∷◌, ◌++◌,
  map, foldl, length, get_or, set, replicate, every, keep, ltb, ◌==◌, if◌then◌else◌, str_eq,
  mem_text, lookup, insert, is_some,
}
use traversal.Engine.Errors
use traversal.Engine.Topology.{Topology, select}
use traversal.Engine.Binding.{compile_topology}
use traversal.Exceptions.{
  Exception, value_error, key_error, run_active, engine_error, Result, return, raise, ◌>>=◌, ◌>>◌,
  require,
}
use traversal.Cache.{Object, Codec, Cache, str, list, Objects, texts, fingerprint}
use traversal.Cache
use traversal.History.{Settings, NodeRow, Database}
use traversal.History.Stored.{Cached, cached}
use traversal.History.Records.{get}
use traversal.Values.{Node, Value, Values, Items, node, map_values, map_items}
use traversal.Graph.{Function, Task, Graph, Target, target_names, distinct}

pub record Plan : Type 0 where
  pub store : Option Settings
  pub name : String
  pub version : String
  pub targets : List String
  pub tasks : List Task
  pub index : List (String × ℕ)
  pub dependencies : List (List ℕ)
  pub topology : Topology
  pub selected : List Bool

-- A `ValueError` of the native module.
abbrev pub native : {A : Type 0} → Errors.Result A → Result A
native (Errors.ok a) = return a
native (Errors.err e) = raise (engine_error e)

-- `{t.node.name: i for i, t in enumerate(tasks)}`
unfoldable pub index_from : ℕ → List Task → List (String × ℕ) → List (String × ℕ)
unfolding insert
index_from i [] m = m
index_from i (t ∷ ts) m = index_from (suc i) ts (insert t.reference.name i m)

-- A set of indices as the sorted list that `sorted(deps)` makes of it.
unfoldable pub insert_sorted : ℕ → List ℕ → List ℕ
insert_sorted i [] = i ∷ []
insert_sorted i (j ∷ js) =
    if ltb i j then i ∷ j ∷ js else if i == j then j ∷ js else j ∷ insert_sorted i js

-- The local function `collect`.
unfoldable pub collect : List (String × ℕ) → List ℕ → Node → Result (List ℕ × Value Object)
unfolding lookup insert_sorted
collect index deps n = elim (lookup n.name index) [
  | none ↦ raise (key_error n.name)
  | some i ↦ return (insert_sorted i deps, node n)
]

-- `for n in task.after: collect(n)`
unfoldable pub collect_after : List (String × ℕ) → List ℕ → List Node → Result (List ℕ)
unfolding collect
collect_after index deps [] = return deps
collect_after index deps (n ∷ ns) = collect index deps n >>= λ (d, _). collect_after index d ns

-- The dependencies of one task: those of its arguments, its keywords and `after`.
unfoldable pub task_deps : List (String × ℕ) → Task → Result (List ℕ)
unfolding map_values map_items collect_after
task_deps index t = do
  in_args ← map_values t.args (collect index) []
  in_kwargs ← map_items t.kwargs (collect index) in_args.0
  collect_after index in_kwargs.0 t.after

unfoldable pub all_deps : List (String × ℕ) → List Task → Result (List (List ℕ))
unfolding task_deps
all_deps index [] = return []
all_deps index (t ∷ ts) = task_deps index t >>= λ d. all_deps index ts >>= λ ds. return (d ∷ ds)

-- `Plan(name, version, tasks, targets, store)`. The containers are rebuilt, which the model need not
-- do: its values never change. `owner` is the number of the native builder.
unfoldable pub init :
    (name version : String)
    → List Task
    → (targets : List String) → Option Settings
    → (owner : ℕ) → Result Plan
unfolding index_from all_deps compile_topology select
init name version tasks targets store owner = do
  let index = index_from 0 tasks []
  dependencies ← all_deps index tasks
  topology ← native (compile_topology owner (map (λ e. e.0) index) dependencies)
  selected ← native (select topology targets)
  return (record {
    store = store;
    name = name;
    version = version;
    targets = targets;
    tasks = tasks;
    index = index;
    dependencies = dependencies;
    topology = topology;
    selected = selected;
  })

-- `Graph.compile(*targets)`
unfoldable pub compile : Graph → List Target → (owner : ℕ) → Result Plan
unfolding target_names distinct init
compile g targets owner = do
  names ← target_names g targets
  init g.name g.version (map (λ e. e.1) g.tasks) (distinct [] names) g.store owner

-- Names of nodes by index. Indices that a plan holds are in range.
abbrev pub name_at : List Task → ℕ → String
name_at [] i = ""
name_at (t ∷ ts) zero = t.reference.name
name_at (t ∷ ts) (suc i) = name_at ts i

abbrev pub cache_at : List Task → ℕ → Option Cache
cache_at [] i = none
cache_at (t ∷ ts) zero = t.cache
cache_at (t ∷ ts) (suc i) = cache_at ts i

-- `[[self._tasks[d].node.name, keys[d]] for d in deps]`; a key that is missing is never read.
unfoldable pub key_pairs : List Task → List (Option String) → List ℕ → Objects
key_pairs tasks keys [] = Cache.nil
key_pairs tasks keys (d ∷ ds) =
    Cache.cons
      (list 0 (
        Cache.cons (str (name_at tasks d)) (
          Cache.cons (elim (get_or keys d none) [ none ↦ Cache.null | some k ↦ str k ]) Cache.nil)))
      (key_pairs tasks keys ds)

-- `keys[d] is not None`
abbrev pub has_fingerprint : List (Option String) → ℕ → Bool
has_fingerprint keys d = is_some (get_or keys d none)

module _ (c : Codec) where
  -- The body of the loop of `_fingerprints`.
  unfoldable pub fingerprint_one : Plan → List (Option String) → ℕ → List (Option String)
  unfolding key_pairs fingerprint
  fingerprint_one p keys i = elim (cache_at p.tasks i) [
    | none ↦ keys
    | some cache ↦
        let deps = get_or p.dependencies i [] in
        if every (has_fingerprint keys) deps
        then set keys i (
            some (
              fingerprint c (
                list 0 (
                  Cache.cons (str p.name) (
                    Cache.cons (str p.version) (
                      Cache.cons (str (name_at p.tasks i)) (
                        Cache.cons (str cache.key)
                          (Cache.cons (list 0 (key_pairs p.tasks keys deps)) Cache.nil))))))))
        else keys
  ]

  unfoldable pub fingerprints : Plan → List (Option String)
  unfolding fingerprint_one
  fingerprints p = foldl (fingerprint_one p) (replicate (length p.tasks) none) p.topology.order
