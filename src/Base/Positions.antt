-- ===== src/Base/Positions.antt =====
-- The position of an index in a list, and the pigeonhole principle.
use Prim.Native.Nat.{ℕ, zero, suc, ◌+◌, ◌≤◌, ◌<◌}
use mathlib.Core.Path.{◌≡◌, refl}
use mathlib.Core.Logic.{inl, inr}
use mathlib.Core.Bool.{true, false}
use mathlib.Core.List.{List, [], ◌∷◌, ◌++◌}
use native.Mathlib.Omega.{arith}
use traversal.Base.Tests.{◌==◌, ==_iff, if◌then◌else◌, Bool-cases}
use traversal.Base.Lists.{length}
use traversal.Base.Members.{mem, occurs, mem_of_occurs_pos, occurs_pos_of_mem}

-- Where an index stands first; the length, if it does not.
abbrev pub index_of : ℕ → List ℕ → ℕ
index_of x [] = 0
index_of x (y ∷ ys) = if x == y then 0 else suc (index_of x ys)

pub index_of-lt : (x : ℕ) (ys : List ℕ) → mem x ys ≡ true → index_of x ys < length ys
index_of-lt x [] m = cc
index_of-lt x (y ∷ ys) m = ground (arith, index_of-lt x ys)

pub mem_of_index-lt : (x : ℕ) (ys : List ℕ) → index_of x ys < length ys → mem x ys ≡ true
mem_of_index-lt x [] h = absurd (omega arith)
mem_of_index-lt x (y ∷ ys) h = ground (arith, mem_of_index-lt x ys)

pub index_of-le : (x : ℕ) (ys : List ℕ) → index_of x ys ≤ length ys
index_of-le x [] = omega arith
index_of-le x (y ∷ ys) = ground (arith, index_of-le x ys)

pub index_of-append :
    (x : ℕ) (ys zs : List ℕ) → mem x ys ≡ true → index_of x (ys ++ zs) ≡ index_of x ys
index_of-append x [] zs m = cc
index_of-append x (y ∷ ys) zs m = ground (arith, index_of-append x ys zs)

pub index_of-snoc : (x : ℕ) (ys : List ℕ) → mem x ys ≡ false → index_of x (ys ++ x ∷ []) ≡ length ys
index_of-snoc x [] m = ground (arith, ==_iff x x)
index_of-snoc x (y ∷ ys) m = ground (arith, index_of-snoc x ys)

-- How many elements of `ys`, counted with repetitions, lie below `n`.
abbrev tally_below : ℕ → List ℕ → ℕ
tally_below zero ys = 0
tally_below (suc n) ys = occurs n ys + tally_below n ys

tally_below-nil : (n : ℕ) → tally_below n [] ≡ 0
tally_below-nil zero = refl
tally_below-nil (suc n) = omega (arith, tally_below-nil n)

tally_below-cons_out : (n y : ℕ) (ys : List ℕ) → n ≤ y → tally_below n (y ∷ ys) ≡ tally_below n ys
tally_below-cons_out zero y ys h = refl
tally_below-cons_out (suc n) y ys h = ground (arith, tally_below-cons_out n y ys, ==_iff n y)

tally_below-cons : (n y : ℕ) (ys : List ℕ) → y < n → tally_below n (y ∷ ys) ≡ suc (tally_below n ys)
tally_below-cons zero y ys h = absurd (omega arith)
tally_below-cons (suc n) y ys h = elim (Bool-cases (n == y)) [
  | inl e ↦ ground (arith, tally_below-cons_out n y ys, ==_iff n y)
  | inr e ↦ ground (arith, tally_below-cons n y ys, ==_iff n y)
]

-- Every element below `n` is counted.
tally_below-all :
    (n : ℕ) (ys : List ℕ) → ((x : ℕ) → mem x ys ≡ true → x < n) → tally_below n ys ≡ length ys
tally_below-all n [] h = tally_below-nil n
tally_below-all n (y ∷ ys) h =
    let inside : y < n = h y (ground (arith, ==_iff y y)) in
    let rest = tally_below-all n ys (λ x m. h x (ground arith)) in
    omega (arith, tally_below-cons n y ys inside)

tally_below-le : (n : ℕ) (ys : List ℕ) → ((x : ℕ) → occurs x ys ≤ 1) → tally_below n ys ≤ n
tally_below-le zero ys h = omega arith
tally_below-le (suc n) ys h = omega (arith, tally_below-le n ys h, h n)

tally_below-gap :
    (n : ℕ) (ys : List ℕ) (i : ℕ)
    → ((x : ℕ) → occurs x ys ≤ 1)
    → i < n
    → occurs i ys ≡ 0
    → tally_below n ys < n
tally_below-gap zero ys i h b e = absurd (omega arith)
tally_below-gap (suc n) ys i h b e = elim (Bool-cases (i == n)) [
  | inl last ↦
      let same : occurs n ys ≡ 0 = rw (← (==_iff i n).0 last) e in
      omega (arith, tally_below-le n ys h)
  | inr other ↦ omega (arith, tally_below-gap n ys i h (ground (arith, ==_iff i n)) e, h n)
]

-- A list of `n` different indices below `n` has them all.
pub pigeonhole :
    (n : ℕ) (ys : List ℕ) (i : ℕ)
    → length ys ≡ n
    → ((x : ℕ) → occurs x ys ≤ 1)
    → ((x : ℕ) → mem x ys ≡ true → x < n)
    → i < n
    → mem i ys ≡ true
pigeonhole n ys i e once inside b = elim (Bool-cases (occurs i ys == 0)) [
  | inl gap ↦ absurd (
      omega (
        arith,
        tally_below-gap n ys i once b ((==_iff (occurs i ys) 0).0 gap),
        tally_below-all n ys inside,
      ))
  | inr present ↦ mem_of_occurs_pos i ys (ground (arith, ==_iff (occurs i ys) 0))
]

tally_below-ge : (n : ℕ) (ys : List ℕ) → ((x : ℕ) → x < n → 0 < occurs x ys) → n ≤ tally_below n ys
tally_below-ge zero ys h = omega arith
tally_below-ge (suc n) ys h =
    omega (arith, tally_below-ge n ys (λ x b. h x (omega arith)), h n (omega arith))

-- A list that has each index below `n` once, and no other, has `n` elements.
pub length_of_all :
    (n : ℕ) (ys : List ℕ)
    → ((x : ℕ) → occurs x ys ≤ 1)
    → ((x : ℕ) → mem x ys ≡ true → x < n)
    → ((x : ℕ) → x < n → mem x ys ≡ true)
    → length ys ≡ n
length_of_all n ys once inside all = omega (
  arith,
  tally_below-le n ys once,
  tally_below-all n ys inside,
  tally_below-ge n ys (λ x b. occurs_pos_of_mem x ys (all x b)),
)
