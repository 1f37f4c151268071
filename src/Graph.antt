-- ===== src/Graph.antt =====
-- `Graph` of python/traversal/graph.py. The dictionary `_tasks` is an association list in the order of
-- insertion; `owner` is the identity of the token `_owner` that the constructor makes.
use traversal.Base.{
  ℕ, String, Bool, true, false, not, ◌||◌, Option, none, some, List, [], ◌∷◌, ◌++◌, ◌==◌,
  if◌then◌else◌, str_eq, strips_to_empty, mem_text, lookup, insert,
}
use traversal.Exceptions.{value_error, type_error, Result, return, raise, ◌>>=◌, ◌>>◌, require}
use traversal.Cache.{Object, Cache}
use traversal.History.{Settings}
use traversal.Values.{Node, Value, Values, Items, node, map_values, map_items}

-- A function as the package looks at it: what `callable`, the two `iscoroutinefunction` tests and
-- `__qualname__` and `__module__` say.
pub record Function : Type 0 where
  pub ident : ℕ
  pub callable : Bool
  pub is_async : Bool
  pub qualname : String
  pub in_module : Option String

-- The argument `cache`: None, a `Cache`, or anything else.
pub data CacheArgument : Type 0 where
  no_cache : CacheArgument
  keyed : Cache → CacheArgument
  no_key : CacheArgument

-- `_Task`
pub record Task : Type 0 where
  pub reference : Node
  pub function : Function
  pub args : Values Object
  pub kwargs : Items Object
  pub after : List Node
  pub cache : Option Cache

pub record Graph : Type 0 where
  pub name : String
  pub version : String
  pub store : Option Settings
  pub owner : ℕ
  pub tasks : List (String × Task)

abbrev pub has_task : Graph → String → Bool
has_task g name = elim (lookup name g.tasks) [ none ↦ false | some _ ↦ true ]

-- `Graph(name, version=…, store=…)`; `none` is a name or version that is no `str`.
unfoldable pub init : (name version : Option String) → Option Settings → (owner : ℕ) → Result Graph
init none version store owner = raise (value_error "graph name must be a nonempty string")
init (some name) version store owner =
    if strips_to_empty name
    then raise (value_error "graph name must be a nonempty string")
    else elim version [
      | none ↦ raise (value_error "graph version must be a nonempty string")
      | some v ↦
          if str_eq v ""
          then raise (value_error "graph version must be a nonempty string")
          else return
              (record { name = name; version = v; store = store; owner = owner; tasks = [] })
    ]

-- `_check_node` of a `Node`.
unfoldable pub check_node : Graph → Node → Result Node
check_node g n =
    if not (n.owner == g.owner) || not (has_task g n.name)
    then raise (value_error "node does not belong to this graph")
    else return n

-- `_check_node` of any value.
unfoldable pub check_any : Graph → Value Object → Result Node
unfolding check_node
check_any g (node n) = check_node g n
check_any g _ = raise (value_error "node does not belong to this graph")

-- `tuple(self._check_node(n) for n in …)`
unfoldable pub check_each : Graph → List (Value Object) → Result (List Node)
unfolding check_any
check_each g [] = return []
check_each g (v ∷ vs) = check_any g v >>= λ n. check_each g vs >>= λ ns. return (n ∷ ns)

-- `_check_node` as the `node_fn` of `_map_value`.
abbrev pub checking : Graph → Unit {0} → Node → Result (Unit {0} × Value Object)
checking g s n = check_node g n >>= λ m. return (s, node m)

abbrev pub cache_of : CacheArgument → Result (Option Cache)
cache_of no_cache = return none
cache_of (keyed c) = return (some c)
cache_of no_key = raise (type_error "cache must be Cache(key) or None")

-- `_map_value(args, …)` of the tuple of arguments, and of the dictionary of keywords, whose keys are
-- texts.
unfoldable pub add :
    Graph
    → (name : Option String) → Function
    → Values Object
    → Items Object
    → (after : List (Value Object)) → CacheArgument
    → Result (Graph × Node)
unfolding map_values map_items check_node check_each
add g none function args kwargs after argument =
    raise (value_error "node name must be a nonempty unique string")
add g (some name) function args kwargs after argument = do
  require (not (strips_to_empty name || has_task g name))
      (value_error "node name must be a nonempty unique string")
  require function.callable (type_error "node function must be callable")
  cache ← cache_of argument
  args' ← map_values args (checking g) tt
  kwargs' ← map_items kwargs (checking g) tt
  after' ← check_each g after
  let reference : Node = record { name = name; owner = g.owner }
  let task : Task = record {
    reference = reference;
    function = function;
    args = args'.1;
    kwargs = kwargs'.1;
    after = after';
    cache = cache;
  }
  return (record g { tasks = insert name task g.tasks }, reference)

-- `depends_on(node, *dependencies)`
unfoldable pub depends_on : Graph → Value Object → List (Value Object) → Result Graph
unfolding check_any check_each
depends_on g v dependencies = do
  n ← check_any g v
  deps ← check_each g dependencies
  elim (lookup n.name g.tasks) [
    | none ↦ raise (value_error "node does not belong to this graph")
    | some old ↦
        return
          (record g { tasks = insert n.name (record old { after = old.after ++ deps }) g.tasks })
  ]

-- A target of `compile`.
pub data Target : Type 0 where
  by_node : Node → Target
  by_name : String → Target
  by_other : Target

-- The loop of `compile` over the targets.
unfoldable pub target_names : Graph → List Target → Result (List String)
unfolding check_node
target_names g [] = return []
target_names g (by_node n ∷ ts) =
    check_node g n >>= λ m. target_names g ts >>= λ names. return (m.name ∷ names)
target_names g (by_name s ∷ ts) = target_names g ts >>= λ names. return (s ∷ names)
target_names g (by_other ∷ ts) = raise (type_error "targets must be Node references or node names")

-- `tuple(dict.fromkeys(names))`: the first of each. `seen` are the names taken before.
unfoldable pub distinct : List String → List String → List String
unfolding mem_text
distinct seen [] = []
distinct seen (n ∷ names) =
    let repeated = distinct seen names in
    let fresh = n ∷ distinct (n ∷ seen) names in if mem_text n seen then repeated else fresh
