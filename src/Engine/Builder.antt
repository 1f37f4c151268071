-- ===== src/Engine/Builder.antt =====
-- `Builder` of crates/traversal-core/src/graph.rs. The hash map `by_name` is an association list and
-- the hash set `edges` a list without repetitions; `owner` is the number that the process-wide
-- counter NEXT_GRAPH handed out, an argument of `new`.
pub mod Valid
use traversal.Base.{
  ℕ, String, Bool, true, false, not, ◌&&◌, ◌||◌, none, some, List, [], ◌∷◌, ◌++◌, length, get_or,
  update, ltb, ◌==◌, if◌then◌else◌, trims_to_empty, lookup, insert,
}
use traversal.Engine.Errors.{bad_name, foreign_node, self_dependency, Result, ok, err, ◌>>=◌}

pub record NodeId : Type 0 where
  pub owner : ℕ
  pub index : ℕ

pub record Builder : Type 0 where
  pub owner : ℕ
  pub names : List String
  pub by_name : List (String × ℕ)
  pub dependencies : List (List ℕ)
  pub edges : List (ℕ × ℕ)

abbrev pub new : ℕ → Builder
new owner = record { owner = owner; names = []; by_name = []; dependencies = []; edges = [] }

-- `by_name.contains_key(name)`
abbrev pub is_known : Builder → String → Bool
is_known b name = elim (lookup name b.by_name) [ none ↦ false | some _ ↦ true ]

abbrev pub mem_edge : ℕ → ℕ → List (ℕ × ℕ) → Bool
mem_edge n d [] = false
mem_edge n d ((a, b) ∷ es) = a == n && b == d || mem_edge n d es

unfoldable pub add : Builder → String → Result (Builder × NodeId)
add b name =
    if trims_to_empty name || is_known b name
    then err (bad_name name)
    else ok (
      record b {
        names = b.names ++ name ∷ [];
        by_name = insert name (length b.names) b.by_name;
        dependencies = b.dependencies ++ [] ∷ [];
      },
      record { owner = b.owner; index = length b.names },
    )

unfoldable pub check : Builder → NodeId → Result ℕ
check b node =
    if not (node.owner == b.owner) || not (ltb node.index (length b.names))
    then err foreign_node
    else ok node.index

-- `edges.insert` says whether the edge is new.
unfoldable pub insert_edge : Builder → ℕ → ℕ → Builder
insert_edge b node dependency = if mem_edge node dependency b.edges then b else record b {
  edges = b.edges ++ (node, dependency) ∷ [];
  dependencies = update b.dependencies node (λ ds. ds ++ dependency ∷ []);
}

unfoldable pub depends_on : Builder → NodeId → NodeId → Result Builder
unfolding check insert_edge
depends_on b node dependency = do
  n ← check b node
  d ← check b dependency
  if n == d then err (self_dependency (get_or b.names n "")) else ok (insert_edge b n d)
