-- ===== src/Engine/Topology/Closure.antt =====
-- `select` marks the targets and all that they need, and nothing else.
use traversal.Base.{
  ℕ, zero, suc, ◌≡◌, ◌↔◌, ◌⊎◌, refl, ap, String, Bool, true, false, not, some, List, [], ◌∷◌,
  length, length-replicate, get_or, count-le-length, replicate, ◌==◌, ==_iff, mem, mem_text, lookup,
  Bool-cases, Option-cases, inl, inr, arith, eq_refl, eq_iff,
}
use traversal.Engine.Errors.{ok, >>=-eq-ok}
use traversal.Engine.Topology.{Topology, close, resolve, select}
use traversal.Engine.Topology.Shape.{IsTopology, size, deps_of}
use traversal.Engine.Topology.Closing.{
  Needed, target, dependency, IsIndexed, marked, IsClosing, close-IsClosing,
}

module _ (g : Topology) (targets : List String) where
  -- What the loop over the names pushes.
  record Resolves (names : List String) (stack roots : List ℕ) : Type 0 where
    kept : (i : ℕ) → mem i stack ≡ true → mem i roots ≡ true
    named :
        (name : String) (i : ℕ)
        → mem_text name names ≡ true
        → lookup name g.by_name ≡ some i
        → mem i roots ≡ true
    only :
        (i : ℕ)
        → mem i roots ≡ true
        → (mem i stack ≡ true)
          ⊎ ((name : String) × (mem_text name names ≡ true) × (lookup name g.by_name ≡ some i))

  resolve-Resolves :
      (names : List String) (stack : List ℕ) {roots : List ℕ}
      → resolve g stack names ≡ ok roots
      → Resolves names stack roots
  unfolding resolve mem_text
  resolve-Resolves [] stack {roots} h =
      let e : roots ≡ stack = cc in
      record { kept = λ i m. rw e m; named = λ name i m found. cc; only = λ i m. inl (rw (← e) m) }
  resolve-Resolves (n ∷ names) stack {roots} h = elim (Option-cases (lookup n g.by_name)) [
    | inl missing ↦ absurd (ground arith)
    | inr (j, found) ↦
        let rest = resolve-Resolves names (j ∷ stack) {roots = roots} (ground arith) in
        record {
          kept = λ i m. rest.kept i (ground arith);
          named = λ name i m e. ground (
            arith,
            eq_iff n name,
            rest.named name i,
            rest.kept i,
            ==_iff i j,
            ap (λ (s : String). lookup s g.by_name) {x = n} {y = name},
          );
          only = λ i m. pick n names stack j i found (rest.only i m);
        }
  ]
    where
      pick :
          (n : String) (names : List String) (stack : List ℕ) (j i : ℕ)
          → lookup n g.by_name ≡ some j
          → (mem i (j ∷ stack) ≡ true)
            ⊎ ((name : String) × (mem_text name names ≡ true) × (lookup name g.by_name ≡ some i))
          → (mem i stack ≡ true)
            ⊎ ((name : String) × (mem_text name (n ∷ names) ≡ true)
                × (lookup name g.by_name ≡ some i))
      pick n names stack j i found (inl m) = elim (Bool-cases (i == j)) [
        | inl e ↦ inr (n, ground (arith, eq_refl n), ground (arith, ==_iff i j))
        | inr other ↦ inl (ground arith)
      ]
      pick n names stack j i found (inr (name, m, e)) = inr (name, ground arith, e)

  select_cases :
      {selected : List Bool}
      → select g targets ≡ ok selected
      → (roots : List ℕ) × (resolve g [] targets ≡ ok roots)
        × (selected ≡ close g.dependencies (size g) (replicate (size g) false) roots)
  unfolding select
  select_cases h = cases targets h
    where
      cases :
          (names : List String) {selected : List Bool}
          → select g names ≡ ok selected
          → (roots : List ℕ) × (resolve g [] names ≡ ok roots)
            × (selected ≡ close g.dependencies (size g) (replicate (size g) false) roots)
      cases [] h = cc
      cases (n ∷ names) h =
          let (roots, found, e) = >>=-eq-ok (resolve g [] (n ∷ names)) _ h in (roots, found, cc)

  marked-replicate : (n i : ℕ) → marked (replicate n false) i ≡ false
  marked-replicate zero i = refl
  marked-replicate (suc n) zero = refl
  marked-replicate (suc n) (suc i) = marked-replicate n i

  start-IsClosing :
      (roots : List ℕ)
      → IsIndexed g
      → resolve g [] targets ≡ ok roots
      → IsClosing g targets roots (replicate (size g) false) roots
  start-IsClosing roots indexed found =
      let r = resolve-Resolves targets [] found in
      record {
        as_many = length-replicate (size g) false;
        inside = λ i m. elim (r.only i m) [
          | inl nothing ↦ cc
          | inr (name, listed, e) ↦ indexed name i e
        ];
        rooted = λ i m. ground (arith, marked-replicate (size g) i);
        closed = λ i d m e. cc (marked-replicate (size g) i);
        sound = λ i m. elim (r.only i (ground (arith, marked-replicate (size g) i))) [
          | inl nothing ↦ cc
          | inr (name, listed, e) ↦ target name listed e
        ];
      }

  -- The marks of `select`, with the list of the targets' indices.
  closes :
      (rank : ℕ → ℕ) {selected : List Bool}
      → IsTopology g rank
      → IsIndexed g
      → select g targets ≡ ok selected
      → (roots : List ℕ) × (resolve g [] targets ≡ ok roots) × IsClosing g targets roots selected []
  closes rank t indexed h =
      let (roots, found, e) = select_cases h in
      (
        roots,
        found,
        rw e (
            close-IsClosing g targets rank roots (size g) (replicate (size g) false) roots t
              (omega (
                arith,
                count-le-length not (replicate (size g) false),
                length-replicate (size g) false,
              ))
              (start-IsClosing roots indexed found)),
      )

  -- A marked node's dependencies are marked.
  pub select_closed :
      (rank : ℕ → ℕ) {selected : List Bool} (i d : ℕ)
      → IsTopology g rank
      → IsIndexed g
      → select g targets ≡ ok selected
      → marked selected i ≡ true
      → mem d (deps_of g i) ≡ true
      → marked selected d ≡ true
  select_closed rank i d t indexed h m e =
      let (_, _, c) = closes rank t indexed h in ground (arith, c.closed i d m e)

  pub length-select :
      (rank : ℕ → ℕ) {selected : List Bool}
      → IsTopology g rank
      → IsIndexed g
      → select g targets ≡ ok selected
      → length selected ≡ size g
  length-select rank t indexed h = let (_, _, c) = closes rank t indexed h in c.as_many

  complete :
      (roots : List ℕ) (selected : List Bool) {i : ℕ}
      → resolve g [] targets ≡ ok roots
      → IsClosing g targets roots selected []
      → Needed g targets i
      → marked selected i ≡ true
  complete roots selected found c (target {i} name listed e) =
      ground (arith, c.rooted i, (resolve-Resolves targets [] found).named name i listed e)
  complete roots selected found c (dependency {i} {d} n m) =
      ground (arith, c.closed i d (complete roots selected found c n) m)

  -- `select` marks a node exactly when it is a target or some needed node depends on it.
  pub select-Needed :
      (rank : ℕ → ℕ) {selected : List Bool} (i : ℕ)
      → IsTopology g rank
      → IsIndexed g
      → select g targets ≡ ok selected
      → (get_or selected i false ≡ true) ↔ Needed g targets i
  select-Needed rank {selected} i t indexed h =
      let (roots, found, c) = closes rank t indexed h in
      (λ m. c.sound i (ground arith), complete roots selected found c)
