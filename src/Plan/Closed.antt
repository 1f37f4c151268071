-- ===== src/Plan/Closed.antt =====
-- Graphs whose references all lead to nodes of the graph: what `add` and `depends_on` make, and what
-- `Plan.__init__` relies on.
use traversal.Base.{
  ◌≡◌, refl, Bool, true, not, ◌&&◌, List, [], ◌∷◌, ◌==◌, every, Bool-cases, inl, inr, arith,
}
use traversal.Exceptions.{Result, return, >>=-eq-return}
use traversal.Cache.{Object}
use traversal.Values.{
  Node, Value, Values, Items, Key, text, ref, thing, node, list, tuple, dict, object, nil, cons,
  end, item, has_node_key, map_value, map_values, map_items,
}
use traversal.Graph.{Task, Graph, has_task, check_node, check_any, check_each, checking}

-- All references pass a test, and no dictionary has a reference as a key.
abbrev mutual
  pub fine : (Node → Bool) → Value Object → Bool
  fine p (node n) = p n
  fine p (list vs) = fine_all p vs
  fine p (tuple vs) = fine_all p vs
  fine p (dict items) = not (has_node_key items) && fine_items p items
  fine p (object a) = true

  pub fine_all : (Node → Bool) → Values Object → Bool
  fine_all p nil = true
  fine_all p (cons v vs) = fine p v && fine_all p vs

  pub fine_items : (Node → Bool) → Items Object → Bool
  fine_items p end = true
  fine_items p (item k v rest) = fine p v && fine_items p rest

abbrev pub known : Graph → Node → Bool
known g n = n.owner == g.owner && has_task g n.name

abbrev pub is_fine : (Node → Bool) → Task → Bool
is_fine p t = fine_all p t.args && (fine_items p t.kwargs && every p t.after)

pub check_node-known : (g : Graph) (n m : Node) → check_node g n ≡ return m → known g m ≡ true
unfolding check_node
check_node-known g n m h = ground arith

-- The keys of a dictionary stay.
map_items-keys :
    (f : Unit {0} → Node → Result (Unit {0} × Value Object)) (items : Items Object) (s : Unit {0})
    (s' : Unit {0}) (items' : Items Object)
    → map_items items f s ≡ return (s', items')
    → has_node_key items' ≡ has_node_key items
unfolding map_items
map_items-keys f end s s' items' h = let e : items' ≡ end = cc in rw e refl
map_items-keys f (item k v rest) s s' items' h =
    let ((t, w), first, more) = >>=-eq-return (map_value v f s) _ h in
    let ((u, ws), others, last) = >>=-eq-return (map_items rest f t) _ more in
    let e : items' ≡ item k w ws = cc in
    rw e (same_key k w ws (map_items-keys f rest t u ws others))
  where
    same_key :
        (k : Key Object) (w : Value Object) (ws : Items Object)
        → has_node_key ws ≡ has_node_key rest
        → has_node_key (item k w ws) ≡ has_node_key (item k v rest)
    same_key (text t) w ws h = h
    same_key (ref n) w ws h = refl
    same_key (thing a) w ws h = h

mutual
  unfolding map_value

  value-fine :
      (g : Graph) (v v' : Value Object) (s s' : Unit {0})
      → map_value v (checking g) s ≡ return (s', v')
      → fine (known g) v' ≡ true
  value-fine g (node n) v' s s' h =
      let (m, checked, last) = >>=-eq-return (check_node g n) _ h in
      let e : v' ≡ node m = cc in rw e (check_node-known g n m checked)
  value-fine g (list vs) v' s s' h =
      let ((t, ws), inner, last) = >>=-eq-return (map_values vs (checking g) s) _ h in
      let e : v' ≡ list ws = cc in rw e (values-fine g vs ws s t inner)
  value-fine g (tuple vs) v' s s' h =
      let ((t, ws), inner, last) = >>=-eq-return (map_values vs (checking g) s) _ h in
      let e : v' ≡ tuple ws = cc in rw e (values-fine g vs ws s t inner)
  value-fine g (dict items) v' s s' h = elim (Bool-cases (has_node_key items)) [
    | inl bad ↦ absurd (ground arith)
    | inr good ↦
        let ((t, ws), inner, last) =
          >>=-eq-return (map_items items (checking g) s) _ (rw (map_value, good) at h) in
        let e : v' ≡ dict ws = cc in
        rw e (
          ground (
            arith,
            map_items-keys (checking g) items s t ws inner,
            good,
            items-fine g items ws s t inner,
          ))
  ]
  value-fine g (object a) v' s s' h = let e : v' ≡ object a = cc in rw e refl

  pub values-fine :
      (g : Graph) (vs vs' : Values Object) (s s' : Unit {0})
      → map_values vs (checking g) s ≡ return (s', vs')
      → fine_all (known g) vs' ≡ true
  values-fine g nil vs' s s' h = let e : vs' ≡ nil = cc in rw e refl
  values-fine g (cons v vs) vs' s s' h =
      let ((t, w), first, more) = >>=-eq-return (map_value v (checking g) s) _ h in
      let ((u, ws), others, last) = >>=-eq-return (map_values vs (checking g) t) _ more in
      let e : vs' ≡ cons w ws = cc in
      rw e (ground (arith, value-fine g v w s t first, values-fine g vs ws t u others))

  pub items-fine :
      (g : Graph) (items items' : Items Object) (s s' : Unit {0})
      → map_items items (checking g) s ≡ return (s', items')
      → fine_items (known g) items' ≡ true
  items-fine g end items' s s' h = let e : items' ≡ end = cc in rw e refl
  items-fine g (item k v rest) items' s s' h =
      let ((t, w), first, more) = >>=-eq-return (map_value v (checking g) s) _ h in
      let ((u, ws), others, last) = >>=-eq-return (map_items rest (checking g) t) _ more in
      let e : items' ≡ item k w ws = cc in
      rw e (ground (arith, value-fine g v w s t first, items-fine g rest ws t u others))

pub check_each-known :
    (g : Graph) (vs : List (Value Object)) (ns : List Node)
    → check_each g vs ≡ return ns
    → every (known g) ns ≡ true
unfolding check_each check_any
check_each-known g [] ns h = let e : ns ≡ [] = cc in rw e refl
check_each-known g (node m ∷ vs) ns h =
    let (n, first, more) = >>=-eq-return (check_node g m) _ h in
    let (rest, others, last) = >>=-eq-return (check_each g vs) _ more in
    let e : ns ≡ n ∷ rest = cc in
    rw e (ground (arith, check_node-known g m n first, check_each-known g vs rest others))
check_each-known g (_ ∷ vs) ns h = cc
