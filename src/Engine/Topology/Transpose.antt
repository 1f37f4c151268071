-- ===== src/Engine/Topology/Transpose.antt =====
-- `dependents` is the transpose of `dependencies`.
use traversal.Base.{
  ℕ, zero, suc, ◌+◌, ◌-◌, ◌<◌, ◌≡◌, refl, ◌∙◌, true, List, [], ◌∷◌, ◌++◌, length, get_or,
  get_or-update, length-update, update, replicate, length-replicate, leb, ◌==◌, ==_iff,
  if◌then◌else◌, mem, occurs, occurs-append, Bool-cases, inl, inr, arith,
}
use traversal.Engine.Topology.{push_all, invert_from, invert}

length-push_all :
    (node : ℕ) (columns : List (List ℕ)) (deps : List ℕ)
    → length (push_all node columns deps) ≡ length columns
unfolding push_all
length-push_all node columns [] = refl
length-push_all node columns (d ∷ deps) =
    length-push_all node _ deps ∙ length-update columns d (λ ns. ns ++ node ∷ [])

-- Pushing `node` into the column of each of its dependencies.
occurs-push_all :
    (node : ℕ) (columns : List (List ℕ)) (deps : List ℕ) (i d : ℕ)
    → ((x : ℕ) → mem x deps ≡ true → x < length columns)
    → occurs i (get_or (push_all node columns deps) d [])
      ≡ occurs i (get_or columns d []) + (if node == i then occurs d deps else 0)
unfolding push_all
occurs-push_all node columns [] i d h = ground arith
occurs-push_all node columns (x ∷ deps) i d h =
    let inside : x < length columns = h x (ground (arith, ==_iff x x)) in
    let pushed = update columns x (λ ns. ns ++ node ∷ []) in
    ground (
      arith,
      occurs-push_all node pushed deps i d (λ y m.
          omega (arith, h y (ground arith), length-update columns x (λ ns. ns ++ node ∷ []))),
      get_or-update columns x d (λ ns. ns ++ node ∷ []) inside,
      occurs-append i (get_or columns d []) (node ∷ []),
      ==_iff node i,
      ==_iff d x,
    )

-- The row of `i` among rows that begin at `node`.
abbrev row_from : List (List ℕ) → ℕ → ℕ → List ℕ
row_from rows node i = if leb node i then get_or rows (i - node) [] else []

row_from-cons :
    (deps : List ℕ) (rows : List (List ℕ)) (node i : ℕ)
    → row_from (deps ∷ rows) node i ≡ (if node == i then deps else row_from rows (suc node) i)
row_from-cons deps rows node i = elim (Bool-cases (leb (suc node) i)) [
  | inl above ↦ let e : i - node ≡ suc (i - suc node) = ground arith in rw e (ground arith)
  | inr below ↦ elim (Bool-cases (node == i)) [
    | inl same ↦ let e : i - node ≡ 0 = ground arith in rw e (ground arith)
    | inr other ↦ ground arith
  ]
]

length-invert_from :
    (node : ℕ) (columns rows : List (List ℕ))
    → length (invert_from node columns rows) ≡ length columns
unfolding invert_from
length-invert_from node columns [] = refl
length-invert_from node columns (deps ∷ rows) =
    length-invert_from (suc node) (push_all node columns deps) rows
    ∙ length-push_all node columns deps

occurs-invert_from :
    (node : ℕ) (columns rows : List (List ℕ)) (i d : ℕ)
    → ((j x : ℕ) → mem x (get_or rows j []) ≡ true → x < length columns)
    → occurs i (get_or (invert_from node columns rows) d [])
      ≡ occurs i (get_or columns d []) + occurs d (row_from rows node i)
unfolding invert_from
occurs-invert_from node columns [] i d h = ground arith
occurs-invert_from node columns (deps ∷ rows) i d h = ground (
  arith,
  occurs-invert_from (suc node) (push_all node columns deps) rows i d
      (λ j x m. omega (arith, h (suc j) x m, length-push_all node columns deps)),
  occurs-push_all node columns deps i d (h 0),
  row_from-cons deps rows node i,
  above,
)
  where
    above : (node ≡ i) → row_from rows (suc node) i ≡ []
    above e = ground arith

get_or-replicate : (n d : ℕ) → ◌≡◌ {A = List ℕ} (get_or (replicate n []) d []) []
get_or-replicate zero d = refl
get_or-replicate (suc n) zero = refl
get_or-replicate (suc n) (suc d) = get_or-replicate n d

pub length-invert : (rows : List (List ℕ)) → length (invert rows) ≡ length rows
unfolding invert
length-invert rows =
    length-invert_from 0 (replicate (length rows) []) rows ∙ length-replicate (length rows) []

-- The node `i` stands in the column of `d` as often as `d` stands in the row of `i`.
pub occurs-invert :
    (rows : List (List ℕ)) (i d : ℕ)
    → ((j x : ℕ) → mem x (get_or rows j []) ≡ true → x < length rows)
    → occurs i (get_or (invert rows) d []) ≡ occurs d (get_or rows i [])
unfolding invert
occurs-invert rows i d h = ground (
  arith,
  occurs-invert_from 0 (replicate (length rows) []) rows i d
      (λ j x m. omega (arith, h j x m, length-replicate {A = List ℕ} (length rows) [])),
  get_or-replicate (length rows) d,
)
