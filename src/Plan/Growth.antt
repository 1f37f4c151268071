-- ===== src/Plan/Growth.antt =====
-- `Graph.add` and `Graph.depends_on` keep a graph closed.
use traversal.Base.{
  ◌≡◌, refl, String, Bool, true, not, ◌&&◌, ◌||◌, Option, none, some, List, [], ◌∷◌, ◌++◌, str_eq,
  eq_iff, eq_refl, ==_iff, every, every_mono, lookup, insert, lookup-insert, Bool-cases,
  Option-cases, inl, inr, strips_to_empty, arith,
}
use traversal.Exceptions.{Result, value_error, return, raise, >>=-eq-return, require}
use traversal.Cache.{Object, Cache}
use traversal.Values.{
  Node, Value, Values, Items, node, list, tuple, dict, object, nil, cons, end, item, map_values,
  map_items,
}
use traversal.Graph.{
  Function, CacheArgument, Task, Graph, has_task, check_any, check_each, checking, cache_of, add,
  depends_on,
}
use traversal.Plan.Closed.{
  fine, fine_all, fine_items, known, is_fine, values-fine, items-fine, check_each-known,
}

-- Every task stands under its own name, and its references lead to nodes of the graph.
pub record IsClosed (g : Graph) : Type 0 where
  pub named : every (λ e. str_eq e.1.reference.name e.0) g.tasks ≡ true
  pub refs : every (λ e. is_fine (known g) e.1) g.tasks ≡ true

module _ (p q : Node → Bool) (wider : (n : Node) → p n ≡ true → q n ≡ true) where
  mutual
    fine_mono : (v : Value Object) → fine p v ≡ true → fine q v ≡ true
    fine_mono (node n) h = wider n h
    fine_mono (list vs) h = fine_all_mono vs h
    fine_mono (tuple vs) h = fine_all_mono vs h
    fine_mono (dict items) h = ground (arith, fine_items_mono items)
    fine_mono (object a) h = refl

    fine_all_mono : (vs : Values Object) → fine_all p vs ≡ true → fine_all q vs ≡ true
    fine_all_mono nil h = refl
    fine_all_mono (cons v vs) h = ground (arith, fine_mono v, fine_all_mono vs)

    fine_items_mono : (items : Items Object) → fine_items p items ≡ true → fine_items q items ≡ true
    fine_items_mono end h = refl
    fine_items_mono (item k v rest) h = ground (arith, fine_mono v, fine_items_mono rest)

  is_fine_mono : (t : Task) → is_fine p t ≡ true → is_fine q t ≡ true
  is_fine_mono t h =
      ground (arith, fine_all_mono t.args, fine_items_mono t.kwargs, every_mono p q t.after wider)

-- A test of entries that holds of the new one survives an insertion.
every-insert {ℓ} :
    {V : Type ℓ} (p : String × V → Bool) (k : String) (v : V) (m : List (String × V))
    → p (k, v) ≡ true
    → every p m ≡ true
    → every p (insert k v m) ≡ true
unfolding insert
every-insert p k v [] new h = ground arith
every-insert p k v ((j, w) ∷ m) new h = elim (Bool-cases (str_eq j k)) [
  | inl same ↦ let e : j ≡ k = (eq_iff j k).0 same in rw (insert, same, e) (ground (arith, new))
  | inr other ↦ rw (insert, other) (ground (arith, every-insert p k v m new))
]

-- Inserting a task keeps the known nodes known.
known-insert :
    (g : Graph) (k : String) (t : Task) (n : Node)
    → known g n ≡ true
    → known (record g { tasks = insert k t g.tasks }) n ≡ true
known-insert g k t n h = ground (arith, lookup-insert k n.name t g.tasks)

insert-IsClosed :
    (g : Graph) (k : String) (t : Task)
    → IsClosed g
    → str_eq t.reference.name k ≡ true
    → is_fine (known g) t ≡ true
    → IsClosed (record g { tasks = insert k t g.tasks })
insert-IsClosed g k t c own good =
    let wider =
      is_fine_mono (known g) (known (record g { tasks = insert k t g.tasks }))
        (known-insert g k t) in
    record {
      named = every-insert (λ e. str_eq e.1.reference.name e.0) k t g.tasks own c.named;
      refs =
          every-insert (λ e. is_fine (known (record g { tasks = insert k t g.tasks })) e.1) k t
            g.tasks (wider t good)
            (every_mono (λ e. is_fine (known g) e.1)
              (λ e. is_fine (known (record g { tasks = insert k t g.tasks })) e.1) g.tasks
              (λ e. wider e.1) c.refs);
    }

-- When `add` returns, it has kept the invariant that every task stands under its own name and every
-- reference leads to a node of the graph, and the new reference leads to a node of the new graph.
pub add-IsClosed :
    (g : Graph) (name : Option String) (function : Function) (args : Values Object)
    (kwargs : Items Object) (after : List (Value Object)) (argument : CacheArgument) (g' : Graph)
    (n : Node)
    → IsClosed g
    → add g name function args kwargs after argument ≡ return (g', n)
    → IsClosed g' × (known g' n ≡ true)
unfolding add
add-IsClosed g none function args kwargs after argument g' n c h = cc
add-IsClosed g (some name) function args kwargs after argument g' n c h =
    let (u, fresh, h₁) =
      >>=-eq-return (require (not (strips_to_empty name || has_task g name)) _) _ h in
    let (u', callable, h₂) = >>=-eq-return (require function.callable _) _ h₁ in
    let (cache, cached, h₃) = >>=-eq-return (cache_of argument) _ h₂ in
    let ((s, args'), in_args, h₄) = >>=-eq-return (map_values args (checking g) tt) _ h₃ in
    let ((s', kwargs'), in_kwargs, h₅) = >>=-eq-return (map_items kwargs (checking g) tt) _ h₄ in
    let (after', in_after, last) = >>=-eq-return (check_each g after) _ h₅ in
    added cache args' kwargs' after' (values-fine g args args' tt s in_args)
      (items-fine g kwargs kwargs' tt s' in_kwargs) (check_each-known g after after' in_after) last
  where
    added :
        (cache : Option Cache) (args' : Values Object) (kwargs' : Items Object) (after' : List Node)
        → fine_all (known g) args' ≡ true
        → fine_items (known g) kwargs' ≡ true
        → every (known g) after' ≡ true
        → ◌≡◌ {A = Result (Graph × Node)}
            (return (
              record g {
                tasks =
                    insert name
                      (record {
                        reference = record { name = name; owner = g.owner };
                        function = function;
                        args = args';
                        kwargs = kwargs';
                        after = after';
                        cache = cache;
                      })
                      g.tasks;
              },
              record { name = name; owner = g.owner },
            ))
            (return (g', n))
        → IsClosed g' × (known g' n ≡ true)
    added cache args' kwargs' after' a k f e =
        let task : Task = record {
          reference = record { name = name; owner = g.owner };
          function = function;
          args = args';
          kwargs = kwargs';
          after = after';
          cache = cache;
        } in
        let same : g' ≡ record g { tasks = insert name task g.tasks } = cc in
        let own : n ≡ record { name = name; owner = g.owner } = cc in
        rw (same, own)
          (
            insert-IsClosed g name task c (eq_refl name) (ground (arith, a, k, f)),
            ground
                (arith, lookup-insert name name task g.tasks, eq_refl name, ==_iff g.owner g.owner),
          )

every-lookup {ℓ} :
    {V : Type ℓ} (p : V → Bool) (k : String) (m : List (String × V)) (v : V)
    → every (λ e. p e.1) m ≡ true
    → lookup k m ≡ some v
    → p v ≡ true
unfolding lookup
every-lookup p k [] v h found = cc
every-lookup p k ((j, w) ∷ m) v h found = ground (arith, every-lookup p k m v)

named-lookup :
    (k : String) (m : List (String × Task)) (t : Task)
    → every (λ e. str_eq e.1.reference.name e.0) m ≡ true
    → lookup k m ≡ some t
    → str_eq t.reference.name k ≡ true
unfolding lookup
named-lookup k [] t h found = cc
named-lookup k ((j, w) ∷ m) t h found = ground (arith, named-lookup k m t, eq_iff j k)

every-append {ℓ} :
    {A : Type ℓ} (p : A → Bool) (xs ys : List A) → every p (xs ++ ys) ≡ (every p xs && every p ys)
every-append p [] ys = refl
every-append p (x ∷ xs) ys = ground (arith, every-append p xs ys)

-- When `depends_on` returns, it has kept the invariant that every task stands under its own name
-- and every reference leads to a node of the graph.
pub depends_on-IsClosed :
    (g : Graph) (v : Value Object) (dependencies : List (Value Object)) (g' : Graph)
    → IsClosed g
    → depends_on g v dependencies ≡ return g'
    → IsClosed g'
unfolding depends_on
depends_on-IsClosed g v dependencies g' c h =
    let (n, checked, h₁) = >>=-eq-return (check_any g v) _ h in
    let (deps, in_deps, h₂) = >>=-eq-return (check_each g dependencies) _ h₁ in
    changed n deps (check_each-known g dependencies deps in_deps) h₂
  where
    changed :
        (n : Node) (deps : List Node)
        → every (known g) deps ≡ true
        → elim (lookup n.name g.tasks) [
          | none ↦ raise (value_error "node does not belong to this graph")
          | some old ↦ return (record g {
            tasks = insert n.name (record old { after = old.after ++ deps }) g.tasks;
          })
        ]
          ≡ return g'
        → IsClosed g'
    changed n deps good e = elim (Option-cases (lookup n.name g.tasks)) [
      | inl missing ↦ absurd (ground arith)
      | inr (old, found) ↦
          let task : Task = record old { after = old.after ++ deps } in
          let same : g' ≡ record g { tasks = insert n.name task g.tasks } = ground arith in
          let was = every-lookup (is_fine (known g)) n.name g.tasks old c.refs found in
          rw same (
            insert-IsClosed g n.name task c (named-lookup n.name g.tasks old c.named found)
              (ground (arith, was, good, every-append (known g) old.after deps)))
    ]
