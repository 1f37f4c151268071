-- ===== src/Coordinator/Arguments.antt =====
-- The arguments of an admitted node: each reference has an output, so that `_map_value` returns.
use traversal.Base.{
  ℕ, suc, ◌+◌, ◌-◌, ◌≤◌, ◌≡◌, refl, ◌⊎◌, ap, String, Bool, true, some, List, [], ◌∷◌, ◌++◌, length,
  get_or, get_elem?, mem, every, some_of, is_some, lookup, insert, lookup-insert, str_eq, eq_iff,
  ==_iff, Bool-cases, Option-cases, inl, inr, arith,
}
use traversal.Exceptions.{>>=-eq-return}
use traversal.Cache.{Object}
use traversal.Values.{Node, object, map_values, map_items}
use traversal.Graph.{Task}
use traversal.Plan.{Plan, collect, task_deps, index_from, name_at}
use traversal.Plan.Dependencies.{
  nodes_in_all, nodes_in_items, leads_to, some_of-append, task_deps-row,
}
use traversal.Plan.Walk.{
  Returns, values_total, items_total, values_only, items_only, values_again, items_again,
  values_each, items_each,
}
use traversal.Plan.Runs.{all_deps-row}
use traversal.Plan.Frozen.{IsFrozen}
use traversal.Coordinator.{output_of}

-- The entry of a name is the index of a task with that name.
index_from-name :
    (name : String) (d i : ℕ) (ts : List Task) (m : List (String × ℕ))
    → lookup name (index_from i ts m) ≡ some d
    → (lookup name m ≡ some d) ⊎ (i ≤ d) × (name_at ts (d - i) ≡ name)
unfolding index_from
index_from-name name d i [] m h = inl h
index_from-name name d i (t ∷ ts) m h =
    elim (index_from-name name d (suc i) ts (insert t.reference.name i m) h) [
      | inl old ↦ elim (Bool-cases (str_eq t.reference.name name)) [
        | inl same ↦
            let here : i ≡ d = ground (arith, lookup-insert t.reference.name name i m) in
            let first : d - i ≡ 0 = omega (arith, here) in
            inr (omega (arith, here), rw first ((eq_iff t.reference.name name).0 same))
        | inr other ↦ inl (ground (arith, lookup-insert t.reference.name name i m))
      ]
      | inr (above, named) ↦
          let later : d - i ≡ suc (d - suc i) = omega (arith, above) in
          inr (omega (arith, above), rw later named)
    ]

length-insert :
    (name : String) (i : ℕ) (m : List (String × ℕ)) → length (insert name i m) ≤ suc (length m)
unfolding insert
length-insert name i [] = omega arith
length-insert name i ((k, v) ∷ m) = ground (arith, length-insert name i m)

length-index_from :
    (i : ℕ) (ts : List Task) (m : List (String × ℕ))
    → length (index_from i ts m) ≤ length m + length ts
unfolding index_from
length-index_from i [] m = omega arith
length-index_from i (t ∷ ts) m = omega (
  arith,
  length-index_from (suc i) ts (insert t.reference.name i m),
  length-insert t.reference.name i m,
)

abbrev has_entry : List (String × ℕ) → Node → Bool
has_entry index n = is_some (lookup n.name index)

abbrev has_output : List (String × Object) → Node → Bool
has_output outputs n = is_some (lookup n.name outputs)

collect_only :
    (index : List (String × ℕ)) (s : List ℕ) (n : Node)
    → Returns (collect index s n)
    → has_entry index n ≡ true
unfolding collect
collect_only index s n (r, h) = elim (Option-cases (lookup n.name index)) [
  | inl missing ↦ absurd (ground arith)
  | inr (i, found) ↦ rw found refl
]

output_of-Returns :
    (outputs : List (String × Object)) (s : Unit {0}) (n : Node)
    → has_output outputs n ≡ true
    → Returns (output_of outputs s n)
output_of-Returns outputs s n h = elim (Option-cases (lookup n.name outputs)) [
  | inl missing ↦ absurd (ground arith)
  | inr (v, found) ↦ rw (output_of, found) ((s, object v), refl)
]

module _ (p : Plan) (owner : ℕ) (frozen : IsFrozen owner p) where
  entry_name : (name : String) (d : ℕ) → lookup name p.index ≡ some d → name_at p.tasks d ≡ name
  unfolding lookup
  entry_name name d h = elim (index_from-name name d 0 p.tasks [] (rw frozen.indexed at h)) [
    | inl none_yet ↦ absurd cc
    | inr (_, named) ↦ let e : d - 0 ≡ d = omega arith in rw e at named
  ]

  -- The entries of the index are at most as many as the tasks.
  pub index-le-tasks : length p.index ≤ length p.tasks
  index-le-tasks = rw frozen.indexed (omega (arith, length-index_from 0 p.tasks []))

  outputs_of_entries :
      (outputs : List (String × Object)) (ns : List Node)
      → every (has_entry p.index) ns ≡ true
      → ((d : ℕ)
          → some_of (leads_to p.index d) ns ≡ true
          → is_some (lookup (name_at p.tasks d) outputs) ≡ true)
      → every (has_output outputs) ns ≡ true
  outputs_of_entries outputs [] h ready = refl
  outputs_of_entries outputs (n ∷ ns) h ready = elim (Option-cases (lookup n.name p.index)) [
    | inl missing ↦ absurd (ground arith)
    | inr (d, found) ↦ ground (
      arith,
      ready d,
      ap (λ (s : String). is_some (lookup s outputs)) (entry_name n.name d found),
      ==_iff d d,
      outputs_of_entries outputs ns (ground arith) (λ x m. ready x (ground arith)),
    )
  ]

  -- The arguments and keywords of a task are read if each dependency has an output.
  pub arguments_return :
      (outputs : List (String × Object)) (i : ℕ) (t : Task)
      → get_elem? p.tasks i ≡ some t
      → ((d : ℕ)
          → mem d (get_or p.dependencies i []) ≡ true
          → is_some (lookup (name_at p.tasks d) outputs) ≡ true)
      → Returns (map_values t.args (output_of outputs) tt)
        × Returns (map_items t.kwargs (output_of outputs) tt)
  unfolding task_deps
  arguments_return outputs i t e ready =
      let row = all_deps-row p.index p.tasks p.dependencies i t frozen.rows e in
      let ((s, args), in_args, rest) =
        >>=-eq-return (map_values t.args (collect p.index) []) _ row in
      let (in_kwargs, keywords, last) =
        >>=-eq-return (map_items t.kwargs (collect p.index) s) _ rest in
      let args_fine =
        values_only (collect p.index) (has_entry p.index) (collect_only p.index) t.args []
          ((s, args), in_args) in
      let kwargs_fine =
        items_only (collect p.index) (has_entry p.index) (collect_only p.index) t.kwargs s
          (in_kwargs, keywords) in
      let members = (task_deps-row p.index t (get_or p.dependencies i []) row).1 in
      let leads = λ (d : ℕ).
        some_of-append (leads_to p.index d) (nodes_in_all t.args) (nodes_in_items t.kwargs) in
      let leads' = λ (d : ℕ).
        some_of-append (leads_to p.index d) (nodes_in_all t.args ++ nodes_in_items t.kwargs)
          t.after in
      (
        values_total (output_of outputs) (has_output outputs) (output_of-Returns outputs) t.args tt
            (values_again (has_entry p.index) (has_output outputs) t.args args_fine (
              outputs_of_entries outputs (nodes_in_all t.args)
                (values_each (has_entry p.index) t.args args_fine)
                (λ d m. ready d (ground (arith, members d, leads d, leads' d))))),
        items_total (output_of outputs) (has_output outputs) (output_of-Returns outputs) t.kwargs tt
            (items_again (has_entry p.index) (has_output outputs) t.kwargs kwargs_fine (
              outputs_of_entries outputs (nodes_in_items t.kwargs)
                (items_each (has_entry p.index) t.kwargs kwargs_fine)
                (λ d m. ready d (ground (arith, members d, leads d, leads' d))))),
      )
