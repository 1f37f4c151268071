-- ===== src/Values.antt =====
-- Values in a binding, and `_map_value` of python/traversal/graph.py.
use traversal.Base.{ℕ, String, Bool, true, false, if◌then◌else◌}
use traversal.Exceptions.{type_error, Result, return, raise, ◌>>=◌}

-- A reference to a node. `owner` is the identity of the graph's token `_owner`.
pub record Node : Type 0 where
  pub name : String
  pub owner : ℕ

-- An argument as the caller wrote it. `object` is anything that is no `Node` and no `list`, `tuple` or
-- `dict`; `A` is the type of such objects. A dictionary's key is a text, a node or another object.
pub data Key (A : Type 0) : Type 0 where
  text : String → Key A
  ref : Node → Key A
  thing : A → Key A

mutual
  pub data Value (A : Type 0) : Type 0 where
    node : Node → Value A
    list : Values A → Value A
    tuple : Values A → Value A
    dict : Items A → Value A
    object : A → Value A

  pub data Values (A : Type 0) : Type 0 where
    nil : Values A
    cons : Value A → Values A → Values A

  pub data Items (A : Type 0) : Type 0 where
    end : Items A
    item : Key A → Value A → Items A → Items A

-- `any(isinstance(k, Node) for k in value)`
abbrev pub has_node_key : {A : Type 0} → Items A → Bool
has_node_key end = false
has_node_key (item (ref n) v rest) = true
has_node_key (item (text t) v rest) = has_node_key rest
has_node_key (item (thing a) v rest) = has_node_key rest

-- `_map_value(value, node_fn)`: `node_fn` may raise, and what it changes outside is the state `S`.
unfoldable mutual
  pub map_value :
      {A S : Type 0} → Value A → (S → Node → Result (S × Value A)) → S → Result (S × Value A)
  map_value (node n) f s = f s n
  map_value (list vs) f s = map_values vs f s >>= λ (s', vs'). return (s', list vs')
  map_value (tuple vs) f s = map_values vs f s >>= λ (s', vs'). return (s', tuple vs')
  map_value (dict items) f s =
      if has_node_key items
      then raise (type_error "Node references are supported in dictionary values, not keys")
      else (map_items items f s >>= λ (s', items'). return (s', dict items'))
  map_value (object a) f s = return (s, object a)

  pub map_values :
      {A S : Type 0} → Values A → (S → Node → Result (S × Value A)) → S → Result (S × Values A)
  map_values nil f s = return (s, nil)
  map_values (cons v vs) f s =
      map_value v f s >>= λ (s', v'). map_values vs f s' >>= λ (s'', vs'). return (s'', cons v' vs')

  pub map_items :
      {A S : Type 0} → Items A → (S → Node → Result (S × Value A)) → S → Result (S × Items A)
  map_items end f s = return (s, end)
  map_items (item k v rest) f s = map_value v f s >>= λ (s', v').
      map_items rest f s' >>= λ (s'', rest'). return (s'', item k v' rest')
