-- ===== src/Plan/Runs.antt =====
-- What the engine's guarantees say of the plans and functions of the Python package.
use traversal.Base.{
  ℕ, zero, suc, ◌≡◌, ◌∙◌, sym, ap, String, true, some, List, [], ◌∷◌, map, mem, get_or, get_elem?,
  some_of,
}
use traversal.Engine.Errors
use traversal.Engine.Topology.{select}
use traversal.Engine.Run.{State, RunState, is_running, is_success, state_at, done, admit}
use traversal.Engine.Run
use traversal.Engine.Run.Sound.{is_started}
use traversal.Engine.Run.Reach.{Reach}
use traversal.Engine.Binding.Runs.{dependencies_first}
use traversal.Exceptions.{return, >>=-eq-return}
use traversal.Graph.{Task, Graph, Target, target_names, distinct}
use traversal.Plan.{Plan, all_deps, task_deps, compile}
use traversal.Plan.Frozen.{compile-IsFrozen, init-IsFrozen}
use traversal.Plan.Dependencies.{nodes_of, leads_to, task_deps-row}

pub all_deps-row :
    (index : List (String × ℕ)) (tasks : List Task) (rows : List (List ℕ)) (i : ℕ) (t : Task)
    → all_deps index tasks ≡ return rows
    → get_elem? tasks i ≡ some t
    → task_deps index t ≡ return (get_or rows i [])
unfolding all_deps
all_deps-row index [] rows i t h e = cc
all_deps-row index (u ∷ tasks) rows zero t h e =
    let (d, first, rest) = >>=-eq-return (task_deps index u) _ h in
    let (ds, others, last) = >>=-eq-return (all_deps index tasks) _ rest in
    let same : rows ≡ d ∷ ds = cc in let it : u ≡ t = cc in rw (same, ← it) first
all_deps-row index (u ∷ tasks) rows (suc i) t h e =
    let (d, first, rest) = >>=-eq-return (task_deps index u) _ h in
    let (ds, others, last) = >>=-eq-return (all_deps index tasks) _ rest in
    let same : rows ≡ d ∷ ds = cc in rw same (all_deps-row index tasks ds i t others e)

-- Of a plan that `compile` returns: in the row of a task stand exactly the indices to which the
-- references in its arguments, its keywords and `after` lead.
pub compile-rows :
    (g : Graph) (targets : List Target) (owner : ℕ) (p : Plan) (i d : ℕ) (t : Task)
    → compile g targets owner ≡ return p
    → get_elem? p.tasks i ≡ some t
    → mem d (get_or p.dependencies i []) ≡ some_of (leads_to p.index d) (nodes_of t)
compile-rows g targets owner p i d t h e =
    (task_deps-row p.index t (get_or p.dependencies i []) (
        all_deps-row p.index p.tasks p.dependencies i t (compile-IsFrozen g targets owner p h).rows
          e)).1
      d

-- Of a plan that `compile` returns and a run of it that `start` returns: after any calls of
-- `admit`, `finish` and `cancel`, if a node is ready, running, succeeded, reused or failed, then
-- each node that a reference in its task's arguments, keywords or `after` leads to has succeeded or
-- is reused.
pub arguments_ready :
    (g : Graph) (targets : List Target) (owner : ℕ) (p : Plan) (capacity : ℕ) (r₀ r : RunState)
    (i d : ℕ) (t : Task)
    → compile g targets owner ≡ return p
    → Run.start p.topology p.targets capacity ≡ Errors.ok r₀
    → Reach r₀ r
    → get_elem? p.tasks i ≡ some t
    → some_of (leads_to p.index d) (nodes_of t) ≡ true
    → is_started (state_at r.states i) ≡ true
    → is_success (state_at r.states d) ≡ true
arguments_ready g targets owner p capacity r₀ r i d t h new run e refers started =
    let f = compile-IsFrozen g targets owner p h in
    dependencies_first owner (map (λ n. n.0) p.index) p.dependencies p.topology f.made p.targets
      capacity r₀ r new run i d started (compile-rows g targets owner p i d t h e ∙ refers)

-- `compile` without a target never returns a plan.
compile-no_target : (g : Graph) (owner : ℕ) → ¬ ((p : Plan) × (compile g [] owner ≡ return p))
unfolding compile target_names distinct select
compile-no_target g owner (p, h) =
    let (f, tasks, targets) =
      init-IsFrozen g.name g.version (map (λ e. e.1) g.tasks) [] g.store owner p h in
    let chosen : select p.topology [] ≡ Errors.ok p.selected =
      ap (select p.topology) (sym targets) ∙ f.chosen in
    cc
