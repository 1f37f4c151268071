-- ===== src/Engine/Binding/Accepts.antt =====
-- What `compile_topology` accepts: it returns a topology exactly for names and rows that a graph has.
pub mod Names
pub mod Rows
use traversal.Base.{
  all_different, ℕ, zero, suc, ◌+◌, ◌-◌, ◌<◌, ◌≡◌, ◌≢◌, ◌↔◌, refl, ap, sym, ◌∙◌, String, Bool, true,
  false, not, ◌&&◌, ◌||◌, none, some, List, [], ◌∷◌, ◌++◌, length, get_or, get_elem?,
  get_elem?_of_lt, ◌==◌, ==_iff, if◌then◌else◌, mem, mem_text, str_eq, lookup, insert,
  lookup-insert, trims_to_empty, every, eq_iff, index_of, Bool-cases, Option-cases, inl, inr, arith,
}
use traversal.Engine.Errors.{Result, ok, err, >>=-eq-ok}
use traversal.Engine.Builder.{NodeId, Builder, new, is_known, add, check, insert_edge, depends_on}
use traversal.Engine.Builder.Valid.{IsBuilder, add_cases}
use traversal.Engine.Topology.{Topology, compile}
use traversal.Engine.Topology.Shape.{deps_of}
use traversal.Engine.Topology.Order.{compile_acyclic}
use traversal.Engine.Binding.{add_all, add_edges, add_rows, compile_topology}
use traversal.Engine.Binding.Valid.{
  Numbers, Owned, Named, new-Named, add_all-Named, add_edges-rows, add_rows-rows, Represents,
  compile_topology-Represents,
}
use traversal.Engine.Binding.Accepts.Names.{
  is_visible, Fresh, add_all-visible, add_all_accepts, new-Fresh,
}
use traversal.Engine.Binding.Accepts.Rows.{Identifies, add_rows_accepts}

-- Names and dependency rows of a graph: a row for each name, no name blank or repeated, each
-- dependency a node, and along the dependencies some rank falls, so that there is no cycle.
pub record IsGraph (names : List String) (rows : List (List ℕ)) : Type 0 where
  pub as_many : length names ≡ length rows
  pub visible : every is_visible names ≡ true
  pub different : all_different names ≡ true
  pub inside : (i d : ℕ) → mem d (get_or rows i []) ≡ true → d < length names
  pub rank : ℕ → ℕ
  pub falls : (i d : ℕ) → mem d (get_or rows i []) ≡ true → rank d < rank i

-- The chain of calls in `compile_topology`.
compile_topology_chain :
    (owner : ℕ) (names : List String) (rows : List (List ℕ)) (b b' : Builder) (ids : List NodeId)
    → (length names == length rows) ≡ true
    → add_all (new owner) [] names ≡ ok (b, ids)
    → add_rows ids ids b rows ≡ ok b'
    → compile_topology owner names rows ≡ compile b'
unfolding compile_topology
compile_topology_chain owner names rows b b' ids same added entered =
    ground (arith, same, added, entered)

module _ (owner : ℕ) (names : List String) (rows : List (List ℕ)) where
  pub compile_topology-IsGraph :
      {g : Topology} → compile_topology owner names rows ≡ ok g → IsGraph names rows
  unfolding compile_topology
  compile_topology-IsGraph {g} h = elim (Bool-cases (length names == length rows)) [
    | inr differ ↦ absurd (ground arith)
    | inl same ↦
        let (_, added, _) = >>=-eq-ok (add_all (new owner) [] names) _ (rw same at h) in
        let (visible, different, _) = add_all-visible (new owner) [] names added in
        let t = compile_topology-Represents owner names rows h in
        record {
          as_many = (==_iff (length names) (length rows)).0 same;
          visible = visible;
          different = different;
          inside = λ i d m. rw (← t.names_are) (t.compiled.topology.below i d (t.rows_are i d ∙ m));
          rank = λ i. index_of i g.order;
          falls = λ i d m. t.compiled.topology.falls i d (t.rows_are i d ∙ m);
        }
  ]

  compile_topology_accepts :
      IsGraph names rows → (g : Topology) × (compile_topology owner names rows ≡ ok g)
  compile_topology_accepts w =
      let (b, ids, added) =
        add_all_accepts (new owner) [] names w.visible w.different (new-Fresh owner names) in
      let n = add_all-Named [] (new owner) [] names (new-Named owner) added in
      let many : length ids ≡ length b.names = n.as_many ∙ sym (ap length n.names_are) in
      let ids_are : Identifies b ids = record {
        as_many = many;
        numbers = n.numbers;
        owners = n.owners;
      } in
      let (b', entered) =
        add_rows_accepts ids ids 0 b rows ids_are n.numbers n.owners (omega (arith, many)) (λ i d m.
          (
            rw n.names_are (w.inside i d m),
            λ e.
                let same : d ≡ i = omega (arith, e) in omega (arith, w.falls i d m, ap w.rank same),
          )) in
      let (valid, kept, entries) =
        add_rows-rows ids ids 0 b rows n.numbers n.numbers (n.as_many ∙ w.as_many) n.valid
          entered in
      let (g, compiled) =
        compile_acyclic b' w.rank valid
          (λ i d m. w.falls i d (ground (arith, entries i d, n.no_rows i, no_shift i))) in
      (
        g,
        compile_topology_chain owner names rows b b' ids
              ((==_iff (length names) (length rows)).1 w.as_many) added entered
            ∙ compiled,
      )
    where
      no_shift : (i : ℕ) → i - 0 ≡ i
      no_shift i = omega arith

-- `compile_topology` returns a topology exactly for the names and rows of a graph: there is a row
-- for each name, no name is blank or repeated, each dependency is the index of a name, and along
-- the dependencies some rank falls, so that there is no cycle.
pub compile_topology-IsGraph_iff :
    (owner : ℕ) (names : List String) (rows : List (List ℕ))
    → ((g : Topology) × (compile_topology owner names rows ≡ ok g)) ↔ IsGraph names rows
compile_topology-IsGraph_iff owner names rows = (
  λ (g, h). compile_topology-IsGraph owner names rows h,
  compile_topology_accepts owner names rows,
)
