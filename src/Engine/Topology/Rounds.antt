-- ===== src/Engine/Topology/Rounds.antt =====
-- The rounds of the ordering loop of `Builder::compile`.
use traversal.Base.{
  length-map, ℕ, zero, suc, ◌+◌, ◌-◌, ◌≡◌, refl, Bool, false, List, [], ◌∷◌, ◌++◌, map, foldl,
  length, length-append, get_or, count, ◌==◌, ==_iff, if◌then◌else◌, leb, occurs, Bool-cases,
  List-cases, ◌⊎◌, inl, inr, arith,
}
use traversal.Engine.Topology.{Kahn, relax, visit, kahn, kahn_start, positions}
use traversal.Engine.Topology.Loop.{row, placed, IsOrdering, relax_all-IsOrdering, take-IsOrdering}

pub occurs-positions :
    (p : ℕ → Bool) (from : ℕ) (xs : List ℕ) (i : ℕ)
    → p 1 ≡ false
    → occurs i (positions p from xs)
      ≡ (if leb from i then (if p (get_or xs (i - from) 1) then 1 else 0) else 0)
unfolding positions
occurs-positions p from [] i h = ground arith
occurs-positions p from (x ∷ xs) i h = elim (Bool-cases (leb (suc from) i)) [
  | inl above ↦
      let e : i - from ≡ suc (i - suc from) = ground arith in
      rw e (ground (arith, occurs-positions p (suc from) xs i h, ==_iff i from))
  | inr not_above ↦ elim (Bool-cases (i == from)) [
    | inl same ↦
        let e : i - from ≡ 0 = ground arith in
        rw e (ground (arith, occurs-positions p (suc from) xs i h, ==_iff i from))
    | inr other ↦ ground (arith, occurs-positions p (suc from) xs i h, ==_iff i from)
  ]
]

pub get_or-map-length :
    (rows : List (List ℕ)) (i : ℕ) → get_or (map length rows) i 0 ≡ length (get_or rows i [])
get_or-map-length [] i = refl
get_or-map-length (r ∷ rows) zero = refl
get_or-map-length (r ∷ rows) (suc i) = get_or-map-length rows i

pub count_none : (xs : List ℕ) → count (placed []) xs ≡ 0
count_none [] = refl
count_none (x ∷ xs) = count_none xs

pub start-IsOrdering : (rows : List (List ℕ)) → IsOrdering rows (length rows) (kahn_start rows) []
start-IsOrdering rows = record {
  as_many = length-map length rows;
  tally = λ i. ground (arith, get_or-map-length rows i, count_none (row rows i));
  frontier = λ i.
      let e : i - 0 ≡ i = omega arith in
      ground (arith, occurs-positions (λ n. n == 0) 0 (map length rows) i refl, e);
  before = λ i d m dep. cc;
}

-- A round visits the head of the queue.
pub visit-IsOrdering :
    (rows columns : List (List ℕ)) (n : ℕ) (k : Kahn) (node : ℕ) (rest : List ℕ)
    → ((i d : ℕ) → occurs i (get_or columns d []) ≡ occurs d (row rows i))
    → k.ready ≡ node ∷ rest
    → IsOrdering rows n k []
    → IsOrdering rows n (visit columns k node rest) []
unfolding visit
visit-IsOrdering rows columns n k node rest transpose e o =
    relax_all-IsOrdering rows n (record k { ready = rest; order = k.order ++ node ∷ [] })
      (get_or columns node [])
      (take-IsOrdering rows n k node rest (get_or columns node []) e (λ i. transpose i node) o)

pub relax_all-order : (k : Kahn) (todo : List ℕ) → (foldl relax k todo).order ≡ k.order
unfolding relax
relax_all-order k [] = refl
relax_all-order k (next ∷ todo) = relax_all-order (relax k next) todo

pub grows :
    (columns : List (List ℕ)) (k : Kahn) (node : ℕ) (rest : List ℕ)
    → length (visit columns k node rest).order ≡ suc (length k.order)
unfolding visit
grows columns k node rest =
    rw
      (relax_all-order (record k { ready = rest; order = k.order ++ node ∷ [] })
        (get_or columns node []))
      (omega (arith, length-append k.order (node ∷ [])))

-- The loop keeps the invariant, and ends with an empty queue or after a round for each unit of fuel.
pub kahn-IsOrdering :
    (rows columns : List (List ℕ)) (n fuel : ℕ) (k : Kahn)
    → ((i d : ℕ) → occurs i (get_or columns d []) ≡ occurs d (row rows i))
    → IsOrdering rows n k []
    → IsOrdering rows n (kahn columns fuel k) []
      × (((kahn columns fuel k).ready ≡ [])
          ⊎ (length (kahn columns fuel k).order ≡ length k.order + fuel))
unfolding kahn
kahn-IsOrdering rows columns n zero k transpose o = (o, inr (omega arith))
kahn-IsOrdering rows columns n (suc fuel) k transpose o = elim (List-cases k.ready) [
  | inl empty ↦ rw (empty, kahn) (o, inl empty)
  | inr (node, rest, e) ↦
      let next = visit columns k node rest in
      let (o', ends) =
        kahn-IsOrdering rows columns n fuel next transpose
          (visit-IsOrdering rows columns n k node rest transpose e o) in
      let grown : length next.order ≡ suc (length k.order) = grows columns k node rest in
      rw (e, kahn) (o', elim ends [ inl stop ↦ inl stop | inr full ↦ inr (omega (arith, full)) ])
]
