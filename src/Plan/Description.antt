-- ===== src/Plan/Description.antt =====
-- `Plan.describe` of python/traversal/graph.py.
use traversal.Base.{ℕ, suc, String, Bool, false, Option, List, [], ◌∷◌, map, get_or, keep, is_some}
use traversal.Graph.{Task}
use traversal.Plan.{Plan, name_at}

-- `describe()`
pub record NodeInfo : Type 0 where
  pub name : String
  pub dependencies : List String
  pub selected : Bool
  pub callable : String
  pub in_module : Option String
  pub repeat_safe : Bool
  pub ordering_dependencies : List String

pub record Description : Type 0 where
  pub graph : String
  pub version : String
  pub targets : List String
  pub nodes : List NodeInfo
  pub order : List String

unfoldable pub describe_from : Plan → ℕ → List Task → List NodeInfo
describe_from p i [] = []
describe_from p i (t ∷ ts) =
    record {
      name = t.reference.name;
      dependencies = map (name_at p.tasks) (get_or p.dependencies i []);
      selected = get_or p.selected i false;
      callable = t.function.qualname;
      in_module = t.function.in_module;
      repeat_safe = is_some t.cache;
      ordering_dependencies = map (λ n. n.name) t.after;
    }
    ∷ describe_from p (suc i) ts

unfoldable pub describe : Plan → Description
unfolding describe_from
describe p = record {
  graph = p.name;
  version = p.version;
  targets = p.targets;
  nodes = describe_from p 0 p.tasks;
  order = map (name_at p.tasks) (keep (λ i. get_or p.selected i false) p.topology.order);
}
