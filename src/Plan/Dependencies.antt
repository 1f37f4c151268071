-- ===== src/Plan/Dependencies.antt =====
-- The dependency rows of a plan, which the local function `collect` fills, against the references that
-- stand in a task's arguments.
use traversal.Base.{
  ℕ, ◌≡◌, refl, subst, String, Bool, true, false, ◌&&◌, ◌||◌, none, some, List, [], ◌∷◌, ◌++◌, ltb,
  ◌==◌, mem, some_of, lookup, Bool-cases, Option-cases, inl, inr, arith,
}
use traversal.Exceptions.{return, >>=-eq-return}
use traversal.Cache.{Object}
use traversal.Values.{
  Node, Value, Values, Items, node, list, tuple, dict, object, nil, cons, end, item, has_node_key,
  map_value, map_values, map_items,
}
use traversal.Graph.{Task}
use traversal.Plan.{insert_sorted, collect, collect_after, task_deps}

-- The references in a value, in order.
abbrev mutual
  pub nodes_in : Value Object → List Node
  nodes_in (node n) = n ∷ []
  nodes_in (list vs) = nodes_in_all vs
  nodes_in (tuple vs) = nodes_in_all vs
  nodes_in (dict items) = nodes_in_items items
  nodes_in (object a) = []

  pub nodes_in_all : Values Object → List Node
  nodes_in_all nil = []
  nodes_in_all (cons v vs) = nodes_in v ++ nodes_in_all vs

  pub nodes_in_items : Items Object → List Node
  nodes_in_items end = []
  nodes_in_items (item k v rest) = nodes_in v ++ nodes_in_items rest

-- The references of a task: its arguments, its keywords and `after`.
abbrev pub nodes_of : Task → List Node
nodes_of t = (nodes_in_all t.args ++ nodes_in_items t.kwargs) ++ t.after

-- Whether a reference leads to the index `i`.
abbrev pub leads_to : List (String × ℕ) → ℕ → Node → Bool
leads_to index i n = elim (lookup n.name index) [ none ↦ false | some j ↦ i == j ]

abbrev pub is_ascending : List ℕ → Bool
is_ascending [] = true
is_ascending (i ∷ []) = true
is_ascending (i ∷ j ∷ js) = ltb i j && is_ascending (j ∷ js)

mem-insert_sorted : (i j : ℕ) (js : List ℕ) → mem i (insert_sorted j js) ≡ (i == j || mem i js)
unfolding insert_sorted
mem-insert_sorted i j [] = refl
mem-insert_sorted i j (k ∷ js) = ground (arith, mem-insert_sorted i j js)

insert_sorted-ascends :
    (j : ℕ) (js : List ℕ) → is_ascending js ≡ true → is_ascending (insert_sorted j js) ≡ true
unfolding insert_sorted
insert_sorted-ascends j [] h = refl
insert_sorted-ascends j (k ∷ []) h = ground arith
insert_sorted-ascends j (k ∷ l ∷ js) h = ground (arith, insert_sorted-ascends j (l ∷ js))

pub some_of-append {ℓ} :
    {A : Type ℓ} (p : A → Bool) (xs ys : List A)
    → some_of p (xs ++ ys) ≡ (some_of p xs || some_of p ys)
some_of-append p [] ys = refl
some_of-append p (x ∷ xs) ys = ground (arith, some_of-append p xs ys)

module _ (index : List (String × ℕ)) where
  -- What collecting the references of `ns` does to a set.
  record Collects (ns : List Node) (before after : List ℕ) : Type 0 where
    members : (i : ℕ) → mem i after ≡ (mem i before || some_of (leads_to index i) ns)
    ascends : is_ascending before ≡ true → is_ascending after ≡ true

  none-Collects : (s : List ℕ) → Collects [] s s
  none-Collects s = record { members = λ i. ground arith; ascends = λ h. h }

  then-Collects :
      {ns ms : List Node} {s s' s'' : List ℕ}
      → Collects ns s s'
      → Collects ms s' s''
      → Collects (ns ++ ms) s s''
  then-Collects {ns} {ms} a b = record {
    members =
        λ i. ground (arith, a.members i, b.members i, some_of-append (leads_to index i) ns ms);
    ascends = λ h. b.ascends (a.ascends h);
  }

  one-Collects :
      (s : List ℕ) (n : Node) {s' : List ℕ} {v : Value Object}
      → collect index s n ≡ return (s', v)
      → Collects (n ∷ []) s s'
  unfolding collect
  one-Collects s n h = elim (Option-cases (lookup n.name index)) [
    | inl missing ↦ absurd (ground arith)
    | inr (j, found) ↦ record {
      members = λ i. ground (arith, mem-insert_sorted i j s);
      ascends = λ a. ground (arith, insert_sorted-ascends j s a);
    }
  ]

  mutual
    unfolding map_value

    value-Collects :
        (v : Value Object) (s s' : List ℕ) (v' : Value Object)
        → map_value v (collect index) s ≡ return (s', v')
        → Collects (nodes_in v) s s'
    value-Collects (node n) s s' v' h = one-Collects s n h
    value-Collects (list vs) s s' v' h =
        let ((t, ws), e, last) = >>=-eq-return (map_values vs (collect index) s) _ h in
        let same : t ≡ s' = cc in
        subst (Collects (nodes_in_all vs) s) same (values-Collects vs s t ws e)
    value-Collects (tuple vs) s s' v' h =
        let ((t, ws), e, last) = >>=-eq-return (map_values vs (collect index) s) _ h in
        let same : t ≡ s' = cc in
        subst (Collects (nodes_in_all vs) s) same (values-Collects vs s t ws e)
    value-Collects (dict items) s s' v' h = elim (Bool-cases (has_node_key items)) [
      | inl bad ↦ absurd (ground arith)
      | inr fine ↦
          let ((t, ws), e, last) =
            >>=-eq-return (map_items items (collect index) s) _ (rw (map_value, fine) at h) in
          let same : t ≡ s' = cc in
          subst (Collects (nodes_in_items items) s) same (items-Collects items s t ws e)
    ]
    value-Collects (object a) s s' v' h =
        let same : s ≡ s' = cc in subst (Collects [] s) same (none-Collects s)

    values-Collects :
        (vs : Values Object) (s s' : List ℕ) (vs' : Values Object)
        → map_values vs (collect index) s ≡ return (s', vs')
        → Collects (nodes_in_all vs) s s'
    values-Collects nil s s' vs' h =
        let same : s ≡ s' = cc in subst (Collects [] s) same (none-Collects s)
    values-Collects (cons v vs) s s' vs' h =
        let ((t, w), e, rest) = >>=-eq-return (map_value v (collect index) s) _ h in
        let ((u, ws), e', last) = >>=-eq-return (map_values vs (collect index) t) _ rest in
        let same : u ≡ s' = cc in
        subst (Collects (nodes_in_all (cons v vs)) s) same
          (then-Collects (value-Collects v s t w e) (values-Collects vs t u ws e'))

    items-Collects :
        (items : Items Object) (s s' : List ℕ) (items' : Items Object)
        → map_items items (collect index) s ≡ return (s', items')
        → Collects (nodes_in_items items) s s'
    items-Collects end s s' items' h =
        let same : s ≡ s' = cc in subst (Collects [] s) same (none-Collects s)
    items-Collects (item k v rest) s s' items' h =
        let ((t, w), e, more) = >>=-eq-return (map_value v (collect index) s) _ h in
        let ((u, ws), e', last) = >>=-eq-return (map_items rest (collect index) t) _ more in
        let same : u ≡ s' = cc in
        subst (Collects (nodes_in_items (item k v rest)) s) same
          (then-Collects (value-Collects v s t w e) (items-Collects rest t u ws e'))

  after-Collects :
      (ns : List Node) (s s' : List ℕ) → collect_after index s ns ≡ return s' → Collects ns s s'
  unfolding collect_after
  after-Collects [] s s' h = let same : s ≡ s' = cc in subst (Collects [] s) same (none-Collects s)
  after-Collects (n ∷ ns) s s' h =
      let ((t, v), e, rest) = >>=-eq-return (collect index s n) _ h in
      then-Collects {ns = n ∷ []} {ms = ns} (one-Collects s n e) (after-Collects ns t s' rest)

  -- The row that is made for a task ascends and holds exactly the indices to which the references in
  -- its arguments, its keywords and `after` lead.
  pub task_deps-row :
      (t : Task) (deps : List ℕ)
      → task_deps index t ≡ return deps
      → (is_ascending deps ≡ true)
        × ((i : ℕ) → mem i deps ≡ some_of (leads_to index i) (nodes_of t))
  unfolding task_deps
  task_deps-row t deps h =
      let ((s, args), in_args, rest) = >>=-eq-return (map_values t.args (collect index) []) _ h in
      let ((s', kwargs), in_kwargs, last) =
        >>=-eq-return (map_items t.kwargs (collect index) s) _ rest in
      let all =
        then-Collects
          (then-Collects (values-Collects t.args [] s args in_args)
            (items-Collects t.kwargs s s' kwargs in_kwargs))
          (after-Collects t.after s' deps last) in
      (all.ascends refl, all.members)
