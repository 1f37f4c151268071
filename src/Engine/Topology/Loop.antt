-- ===== src/Engine/Topology/Loop.antt =====
-- The loop of `Builder::compile` that orders the nodes.
use traversal.Base.{
  ℕ, zero, suc, ◌+◌, ◌-◌, ◌≤◌, ◌<◌, ◌≡◌, refl, ap, ◌∙◌, Bool, true, false, List, [], ◌∷◌, ◌++◌,
  foldl, length, length-set, get_or, set, get_or-set_self, get_or-set_ne, count, every, every_at,
  every_of_count, count-le-length, ◌==◌, ==_iff, if◌then◌else◌, mem, occurs, occurs_pos_of_mem,
  occurs-append, mem-append, count_add_occurs, index_of, index_of-lt, index_of-append,
  index_of-snoc, Bool-cases, ◌⊎◌, inl, inr, arith,
}
use traversal.Engine.Topology.{Kahn, relax}

abbrev pub row : List (List ℕ) → ℕ → List ℕ
row rows i = get_or rows i []

-- Whether the node `i` waits for nothing; out of range it does not.
abbrev pub is_free : List ℕ → ℕ → Bool
is_free remaining i = get_or remaining i 1 == 0

abbrev pub placed : List ℕ → ℕ → Bool
placed order d = mem d order

-- `remaining` counts the dependencies that are not yet in the order, except that the nodes of `todo`
-- have still to be told; a node that waits for nothing is once in the queue or in the order; and a
-- node's dependencies come before it.
pub record IsOrdering (rows : List (List ℕ)) (n : ℕ) (k : Kahn) (todo : List ℕ) : Type 0 where
  pub as_many : length k.remaining ≡ n
  pub tally :
      (i : ℕ)
      → get_or k.remaining i 0 + count (placed k.order) (row rows i)
        ≡ length (row rows i) + occurs i todo
  pub frontier :
      (i : ℕ) → occurs i k.ready + occurs i k.order ≡ (if is_free k.remaining i then 1 else 0)
  pub before :
      (i d : ℕ)
      → mem i k.order ≡ true
      → mem d (row rows i) ≡ true
      → (mem d k.order ≡ true) × (index_of d k.order < index_of i k.order)

remaining-set :
    (remaining : List ℕ) (i j v d : ℕ)
    → i < length remaining
    → get_or (set remaining i v) j d ≡ (if i == j then v else get_or remaining j d)
remaining-set remaining i j v d h = elim (Bool-cases (i == j)) [
  | inl e ↦ rw (e, ← (==_iff i j).0 e) (get_or-set_self remaining i v d h)
  | inr e ↦ rw e (get_or-set_ne remaining i j v d (λ p. ground arith))
]

-- Out of range both defaults show.
beyond : (remaining : List ℕ) (i : ℕ) → length remaining ≤ i → get_or remaining i 0 ≡ 0
beyond [] i h = refl
beyond (x ∷ xs) zero h = absurd (omega arith)
beyond (x ∷ xs) (suc i) h = beyond xs i (omega arith)

pub within :
    (remaining : List ℕ) (i : ℕ)
    → i < length remaining
    → get_or remaining i 0 ≡ get_or remaining i 1
within [] i h = absurd (omega arith)
within (x ∷ xs) zero h = refl
within (x ∷ xs) (suc i) h = within xs i (omega arith)

lt_of_positive : (remaining : List ℕ) (i : ℕ) → 0 < get_or remaining i 0 → i < length remaining
lt_of_positive [] i h = absurd (omega arith)
lt_of_positive (x ∷ xs) zero h = omega arith
lt_of_positive (x ∷ xs) (suc i) h = omega (arith, lt_of_positive xs i h)

-- A node that has still to be told is in range, and waits for something.
told_in_range :
    (rows : List (List ℕ)) (n : ℕ) (k : Kahn) (next : ℕ) (todo : List ℕ)
    → IsOrdering rows n k (next ∷ todo)
    → (next < length k.remaining) × (0 < get_or k.remaining next 0)
told_in_range rows n k next todo o =
    let some_left : 0 < get_or k.remaining next 0 =
      ground
        (arith, o.tally next, count-le-length (placed k.order) (row rows next), ==_iff next next) in
    (lt_of_positive k.remaining next some_left, some_left)

relax-IsOrdering :
    (rows : List (List ℕ)) (n : ℕ) (k : Kahn) (next : ℕ) (todo : List ℕ)
    → IsOrdering rows n k (next ∷ todo)
    → IsOrdering rows n (relax k next) todo
unfolding relax
relax-IsOrdering rows n k next todo o =
    let (inside, some_left) = told_in_range rows n k next todo o in
    let left = get_or k.remaining next 0 - 1 in
    record {
      as_many = length-set k.remaining next left ∙ o.as_many;
      tally = λ i.
          ground (arith, o.tally i, remaining-set k.remaining next i left 0 inside, ==_iff i next);
      frontier = λ i. ground (
        arith,
        o.frontier i,
        remaining-set k.remaining next i left 1 inside,
        within k.remaining next inside,
        occurs-append i k.ready (next ∷ []),
        ==_iff i next,
        ==_iff next i,
      );
      before = o.before;
    }

pub relax_all-IsOrdering :
    (rows : List (List ℕ)) (n : ℕ) (k : Kahn) (todo : List ℕ)
    → IsOrdering rows n k todo
    → IsOrdering rows n (foldl relax k todo) []
relax_all-IsOrdering rows n k [] o = o
relax_all-IsOrdering rows n k (next ∷ todo) o =
    relax_all-IsOrdering rows n (relax k next) todo (relax-IsOrdering rows n k next todo o)

-- The head of the queue moves to the order.
pub take-IsOrdering :
    (rows : List (List ℕ)) (n : ℕ) (k : Kahn) (node : ℕ) (rest todo : List ℕ)
    → k.ready ≡ node ∷ rest
    → ((i : ℕ) → occurs i todo ≡ occurs node (row rows i))
    → IsOrdering rows n k []
    → IsOrdering rows n (record k { ready = rest; order = k.order ++ node ∷ [] }) todo
take-IsOrdering rows n k node rest todo e told o = record {
  as_many = o.as_many;
  tally = λ i. ground (arith, o.tally i, told i, counts (row rows i));
  frontier = λ i. ground (arith, o.frontier i, ready_is i, occurs-append i k.order (node ∷ []));
  before =
      λ i d m dep. later i d dep (ground (arith, mem-append i k.order (node ∷ []), ==_iff i node));
}
  where
    ready_is : (i : ℕ) → occurs i k.ready ≡ occurs i (node ∷ rest)
    ready_is i = ap (occurs i) e

    free : (occurs node k.order ≡ 0) × (is_free k.remaining node ≡ true)
    free = ground (arith, o.frontier node, ready_is node, ==_iff node node)

    absent : mem node k.order ≡ false
    absent = ground (arith, free.0, occurs_pos_of_mem node k.order)

    counts :
        (ds : List ℕ)
        → count (placed (k.order ++ node ∷ [])) ds ≡ count (placed k.order) ds + occurs node ds
    counts ds =
        count_add_occurs (placed k.order) (placed (k.order ++ node ∷ [])) node ds absent
          (ground (arith, mem-append node k.order (node ∷ []), ==_iff node node))
          (λ x other. ground (arith, mem-append x k.order (node ∷ []), ==_iff x node))

    all_placed : every (placed k.order) (row rows node) ≡ true
    all_placed =
        every_of_count (placed k.order) (row rows node)
          (ground (arith, o.tally node, free.1, beyond k.remaining node, within k.remaining node))

    later :
        (i d : ℕ)
        → mem d (row rows i) ≡ true
        → (mem i k.order ≡ true) ⊎ (i ≡ node)
        → (mem d (k.order ++ node ∷ []) ≡ true)
          × (index_of d (k.order ++ node ∷ []) < index_of i (k.order ++ node ∷ []))
    later i d dep (inl m) = ground (
      arith,
      o.before i d m dep,
      mem-append d k.order (node ∷ []),
      index_of-append i k.order (node ∷ []) m,
      index_of-append d k.order (node ∷ []),
    )
    later i d dep (inr same) =
        let placed_d : mem d k.order ≡ true =
          every_at (placed k.order) (row rows node) d all_placed (rw (← same) dep) in
        rw same (
          ground (
            arith,
            mem-append d k.order (node ∷ []),
            index_of-append d k.order (node ∷ []) placed_d,
            index_of-lt d k.order placed_d,
            index_of-snoc node k.order absent,
          ))

-- Only an index in range waits for nothing.
pub lt_of_free : (remaining : List ℕ) (i : ℕ) → is_free remaining i ≡ true → i < length remaining
lt_of_free [] i h = absurd (ground arith)
lt_of_free (x ∷ xs) zero h = omega arith
lt_of_free (x ∷ xs) (suc i) h = omega (arith, lt_of_free xs i h)
