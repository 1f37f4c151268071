-- ===== src/Engine/Topology/Order.antt =====
-- `compile` returns a topological order, and fails only on a cycle.
use traversal.Base.{
  ℕ, zero, suc, ◌≤◌, ◌<◌, ◌≡◌, refl, ap, ◌∙◌, true, false, List, [], ◌∷◌, length, get_or, count,
  mem, occurs, occurs_pos_of_mem, mem_of_occurs_pos, fails_at, count-le-length, index_of,
  pigeonhole, Bool-cases, ◌⊎◌, inl, inr, length_of_all, arith,
}
use traversal.Engine.Errors.{ok}
use traversal.Engine.Builder.{Builder}
use traversal.Engine.Builder.Valid.{IsBuilder}
use traversal.Engine.Topology.{Topology, Kahn, kahn, kahn_start, invert, compile}
use traversal.Engine.Topology.Shape.{IsTopology, size}
use traversal.Engine.Topology.Transpose.{length-invert, occurs-invert}
use traversal.Engine.Topology.Loop.{row, within, lt_of_free, placed, IsOrdering}
use traversal.Engine.Topology.Rounds.{start-IsOrdering, kahn-IsOrdering}

lt_of_row : (rows : List (List ℕ)) (i d : ℕ) → mem d (row rows i) ≡ true → i < length rows
lt_of_row [] i d m = cc
lt_of_row (r ∷ rows) zero d m = omega arith
lt_of_row (r ∷ rows) (suc i) d m = omega (arith, lt_of_row rows i d m)

-- The loop as `compile` runs it.
abbrev ordered : Builder → Kahn
ordered b = kahn (invert b.dependencies) (length b.names) (kahn_start b.dependencies)

module _ (b : Builder) (w : IsBuilder b) where
  transposes :
      (i d : ℕ) → occurs i (get_or (invert b.dependencies) d []) ≡ occurs d (row b.dependencies i)
  transposes i d = occurs-invert b.dependencies i d (λ j x m. omega (arith, w.below j x m, w.rows))

  ordered_cases :
      IsOrdering b.dependencies (length b.dependencies) (ordered b) []
      × (((ordered b).ready ≡ []) ⊎ (length (ordered b).order ≡ length b.names))
  ordered_cases =
      let (o, ends) =
        kahn-IsOrdering b.dependencies (invert b.dependencies) (length b.dependencies)
          (length b.names) (kahn_start b.dependencies) transposes
          (start-IsOrdering b.dependencies) in
      (o, elim ends [ inl stop ↦ inl stop | inr full ↦ inr (omega (arith, full)) ])

  once : (i : ℕ) → occurs i (ordered b).order ≤ 1
  once i = ground (arith, ordered_cases.0.frontier i)

  in_range : (i : ℕ) → mem i (ordered b).order ≡ true → i < length b.names
  in_range i m = ground (
    arith,
    ordered_cases.0.frontier i,
    ordered_cases.0.as_many,
    occurs_pos_of_mem i (ordered b).order,
    lt_of_free (ordered b).remaining i,
    w.rows,
  )

  waits :
      (ordered b).ready ≡ []
      → (i : ℕ) → i < length b.names
      → mem i (ordered b).order ≡ false
      → count (placed (ordered b).order) (row b.dependencies i) < length (row b.dependencies i)
  waits empty i inside missing =
      let k = ordered b in
      let none_ready : occurs i k.ready ≡ 0 = ap (occurs i) empty in
      ground (
        arith,
        ordered_cases.0.frontier i,
        ordered_cases.0.tally i,
        ordered_cases.0.as_many,
        w.rows,
        none_ready,
        mem_of_occurs_pos i k.order,
        within k.remaining i,
        count-le-length (placed k.order) (row b.dependencies i),
      )

  -- With an empty queue nothing that an acyclic graph has is left out.
  all_placed :
      (rank : ℕ → ℕ)
      → ((i d : ℕ) → mem d (row b.dependencies i) ≡ true → rank d < rank i)
      → (ordered b).ready ≡ []
      → (bound i : ℕ) → rank i < bound
      → i < length b.names
      → mem i (ordered b).order ≡ true
  all_placed rank falls empty zero i h inside = absurd (omega arith)
  all_placed rank falls empty (suc bound) i h inside = elim (Bool-cases (mem i (ordered b).order)) [
    | inl m ↦ m
    | inr missing ↦
        let (d, m, f) =
          fails_at (placed (ordered b).order) (row b.dependencies i)
            (waits empty i inside missing) in
        let found : mem d (ordered b).order ≡ true =
          all_placed rank falls empty bound d (omega (arith, falls i d m)) (w.below i d m) in
        cc
  ]

  row_inside : (i d : ℕ) → mem d (row b.dependencies i) ≡ true → i < length b.names
  row_inside i d m = omega (arith, lt_of_row b.dependencies i d m, w.rows)

  -- The order of an acyclic builder has every node.
  all_ordered :
      (rank : ℕ → ℕ)
      → ((i d : ℕ) → mem d (row b.dependencies i) ≡ true → rank d < rank i)
      → length (ordered b).order ≡ length b.names
  all_ordered rank falls = elim ordered_cases.1 [
    | inr full ↦ full
    | inl empty ↦
        length_of_all (length b.names) (ordered b).order once in_range
          (λ i inside. all_placed rank falls empty (suc (rank i)) i (omega arith) inside)
  ]

-- What a compiled graph is: the builder's names and rows, the transpose, and an order that holds
-- each node once, after all of its dependencies.
pub record IsCompiled (b : Builder) (g : Topology) : Type 0 where
  pub names_are : g.names ≡ b.names
  pub index_is : g.by_name ≡ b.by_name
  pub rows_are : g.dependencies ≡ b.dependencies
  pub topology : IsTopology g (λ i. index_of i g.order)
  pub once : (i : ℕ) → occurs i g.order ≤ 1
  pub inside : (i : ℕ) → mem i g.order ≡ true → i < size g
  pub covers : (i : ℕ) → i < size g → mem i g.order ≡ true

compiled : Builder → Topology
compiled b = record {
  names = b.names;
  by_name = b.by_name;
  dependencies = b.dependencies;
  dependents = invert b.dependencies;
  order = (ordered b).order;
}

compile_cases :
    (b : Builder) {g : Topology}
    → compile b ≡ ok g
    → (length (ordered b).order ≡ length b.names) × (g ≡ compiled b)
unfolding compile compiled
compile_cases b h = ground arith

compiled-IsCompiled :
    (b : Builder)
    → IsBuilder b
    → length (ordered b).order ≡ length b.names
    → IsCompiled b (compiled b)
unfolding compiled
compiled-IsCompiled b w full =
    let covers = λ (i : ℕ) (lt : i < length b.names).
      pigeonhole (length b.names) (ordered b).order i full (once b w) (in_range b w) lt in
    record {
      names_are = refl;
      index_is = refl;
      rows_are = refl;
      topology = record {
        rows = w.rows;
        columns = length-invert b.dependencies ∙ w.rows;
        below = w.below;
        transpose = transposes b w;
        falls = λ i d m. ((ordered_cases b w).0.before i d (covers i (row_inside b w i d m)) m).1;
      };
      once = once b w;
      inside = in_range b w;
      covers = covers;
    }

-- Of a builder that satisfies the invariant, what `compile` returns has the builder's names, index
-- and rows; `dependents` is the transpose of `dependencies`; `order` holds every node exactly once,
-- each behind its dependencies.
pub compile-IsCompiled :
    (b : Builder) {g : Topology} → IsBuilder b → compile b ≡ ok g → IsCompiled b g
compile-IsCompiled b w h = let (full, e) = compile_cases b h in rw e (compiled-IsCompiled b w full)

-- Of a builder that satisfies the invariant and along whose dependencies some rank falls, so that
-- it has no cycle, `compile` returns a topology.
pub compile_acyclic :
    (b : Builder) (rank : ℕ → ℕ)
    → IsBuilder b
    → ((i d : ℕ) → mem d (row b.dependencies i) ≡ true → rank d < rank i)
    → (g : Topology) × (compile b ≡ ok g)
unfolding compile
compile_acyclic b rank w falls =
    (compiled b, unfold compiled in ground (arith, all_ordered b w rank falls))
