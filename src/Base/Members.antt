-- ===== src/Base/Members.antt =====
-- Membership and multiplicity in lists of indices, and counts of what passes a test.
use Prim.Native.Nat.{ℕ, zero, suc, ◌+◌, ◌≤◌, ◌<◌}
use mathlib.Core.Path.{◌≡◌, refl, ap, sym, ◌∙◌}
use mathlib.Core.Logic.{◌≢◌, inl, inr}
use mathlib.Core.Bool.{Bool, true, false, ◌||◌}
use mathlib.Core.List.{List, [], ◌∷◌, ◌++◌, map}
use native.Mathlib.Omega.{arith}
use traversal.Base.Tests.{◌==◌, ==_iff, if◌then◌else◌, Bool-cases}
use traversal.Base.Lists.{length, get_or, update, count, every}

abbrev pub mem : ℕ → List ℕ → Bool
mem x [] = false
mem x (y ∷ ys) = x == y || mem x ys

-- How often an index stands in a list.
abbrev pub occurs : ℕ → List ℕ → ℕ
occurs x [] = 0
occurs x (y ∷ ys) = if x == y then suc (occurs x ys) else occurs x ys

pub mem-append : (x : ℕ) (xs ys : List ℕ) → mem x (xs ++ ys) ≡ (mem x xs || mem x ys)
mem-append x [] ys = refl
mem-append x (y ∷ xs) ys = ground (arith, mem-append x xs ys)

pub occurs-append : (x : ℕ) (xs ys : List ℕ) → occurs x (xs ++ ys) ≡ occurs x xs + occurs x ys
occurs-append x [] ys = omega arith
occurs-append x (y ∷ xs) ys = ground (arith, occurs-append x xs ys)

pub occurs_pos_of_mem : (x : ℕ) (xs : List ℕ) → mem x xs ≡ true → 0 < occurs x xs
occurs_pos_of_mem x [] h = cc
occurs_pos_of_mem x (y ∷ xs) h = ground (arith, occurs_pos_of_mem x xs)

pub mem_of_occurs_pos : (x : ℕ) (xs : List ℕ) → 0 < occurs x xs → mem x xs ≡ true
mem_of_occurs_pos x [] h = absurd (omega arith)
mem_of_occurs_pos x (y ∷ xs) h = ground (arith, mem_of_occurs_pos x xs)

pub mem_snoc_self : (x : ℕ) (xs : List ℕ) → mem x (xs ++ x ∷ []) ≡ true
mem_snoc_self x [] = ground arith
mem_snoc_self x (y ∷ xs) = ground (arith, mem_snoc_self x xs)

module _ {ℓ} {A : Type ℓ} where
  pub count-le-length : (p : A → Bool) (xs : List A) → count p xs ≤ length xs
  count-le-length p [] = omega arith
  count-le-length p (x ∷ xs) = ground (arith, count-le-length p xs)

  pub count_mono :
      (p q : A → Bool) (xs : List A) → ((x : A) → p x ≡ true → q x ≡ true) → count p xs ≤ count q xs
  count_mono p q [] h = omega arith
  count_mono p q (x ∷ xs) h = ground (arith, h x, count_mono p q xs h)

  pub every_of_count : (p : A → Bool) (xs : List A) → count p xs ≡ length xs → every p xs ≡ true
  every_of_count p [] h = refl
  every_of_count p (x ∷ xs) h = ground (arith, every_of_count p xs, count-le-length p xs)

  pub every_mono :
      (p q : A → Bool) (xs : List A)
      → ((x : A) → p x ≡ true → q x ≡ true)
      → every p xs ≡ true
      → every q xs ≡ true
  every_mono p q [] h e = refl
  every_mono p q (x ∷ xs) h e = ground (arith, h x, every_mono p q xs h)

  -- A positive count comes from some position.
  pub found_of_count :
      (p : A → Bool) (d : A) (xs : List A)
      → 0 < count p xs
      → (i : ℕ) × (i < length xs) × (p (get_or xs i d) ≡ true)
  found_of_count p d [] h = absurd (omega arith)
  found_of_count p d (y ∷ xs) h = elim (Bool-cases (p y)) [
    | inl e ↦ (0, omega arith, e)
    | inr e ↦ let (i, b, f) = found_of_count p d xs (ground arith) in (suc i, omega arith, f)
  ]

module _ {ℓ} {A : Type ℓ} where
  -- Nothing passes where the count is zero.
  pub none_of_count :
      (p : A → Bool) (d : A) (xs : List A) (i : ℕ)
      → p d ≡ false
      → count p xs ≤ 0
      → p (get_or xs i d) ≡ false
  none_of_count p d [] i e h = e
  none_of_count p d (x ∷ xs) zero e h = ground arith
  none_of_count p d (x ∷ xs) (suc i) e h = none_of_count p d xs i e (ground arith)

-- Two lists of one length whose tests agree at every position have the same count.
pub length-map {ℓ κ} :
    {A : Type ℓ} {B : Type κ} (f : A → B) (xs : List A) → length (map f xs) ≡ length xs
length-map f [] = refl
length-map f (x ∷ xs) = ap suc (length-map f xs)

pub count_pointwise {ℓ κ} :
    {A : Type ℓ} {B : Type κ} (p : A → Bool) (q : B → Bool) (d : A) (e : B) (xs : List A)
    (ys : List B)
    → length xs ≡ length ys
    → ((i : ℕ) → i < length xs → p (get_or xs i d) ≡ q (get_or ys i e))
    → count p xs ≡ count q ys
count_pointwise p q d e [] [] h same = refl
count_pointwise p q d e [] (y ∷ ys) h same = absurd (omega arith)
count_pointwise p q d e (x ∷ xs) [] h same = absurd (omega arith)
count_pointwise p q d e (x ∷ xs) (y ∷ ys) h same =
    ground (
      arith,
      same 0,
      count_pointwise p q d e xs ys (omega arith) (λ i b. same (suc i) (omega arith)),
    )

pub count_never {ℓ} : {A : Type ℓ} (xs : List A) → count (λ _. false) xs ≡ 0
count_never [] = refl
count_never (x ∷ xs) = count_never xs

pub every_at :
    (p : ℕ → Bool) (xs : List ℕ) (x : ℕ) → every p xs ≡ true → mem x xs ≡ true → p x ≡ true
every_at p [] x e m = cc
every_at p (y ∷ xs) x e m = ground (arith, every_at p xs x)

-- A test that every member passes.
pub every_of_members :
    (p : ℕ → Bool) (xs : List ℕ) → ((x : ℕ) → mem x xs ≡ true → p x ≡ true) → every p xs ≡ true
every_of_members p [] h = refl
every_of_members p (y ∷ xs) h =
    ground (arith, ==_iff y y, h y, every_of_members p xs (λ x m. h x (ground arith)))

-- Lists with the same members pass the same tests.
pub every_same_members :
    (p : ℕ → Bool) (xs ys : List ℕ) → ((x : ℕ) → mem x xs ≡ mem x ys) → every p xs ≡ every p ys
every_same_members p xs ys h = elim (Bool-cases (every p xs)) [
  | inl e ↦ e ∙ sym (every_of_members p ys (λ x m. every_at p xs x e (h x ∙ m)))
  | inr e ↦ elim (Bool-cases (every p ys)) [
    | inl f ↦ cc (every_of_members p xs (λ x m. every_at p ys x f (sym (h x) ∙ m)))
    | inr f ↦ e ∙ sym f
  ]
]

-- A list whose elements do not all pass a test has one that fails it.
pub fails_at :
    (p : ℕ → Bool) (xs : List ℕ)
    → count p xs < length xs
    → (x : ℕ) × (mem x xs ≡ true) × (p x ≡ false)
fails_at p [] h = absurd (omega arith)
fails_at p (y ∷ xs) h = elim (Bool-cases (p y)) [
  | inl e ↦ let (x, m, f) = fails_at p xs (ground arith) in (x, ground arith, f)
  | inr e ↦ (y, ground arith, e)
]

-- One more index passes the test: the count grows by its multiplicity.
pub count_add_occurs :
    (p q : ℕ → Bool) (n : ℕ) (xs : List ℕ)
    → p n ≡ false
    → q n ≡ true
    → ((x : ℕ) → x ≢ n → q x ≡ p x)
    → count q xs ≡ count p xs + occurs n xs
count_add_occurs p q n [] pn qn h = omega arith
count_add_occurs p q n (y ∷ xs) pn qn h = ground (arith, h y, count_add_occurs p q n xs pn qn h)

-- Rows of indices, of which one is rewritten.
pub length-update :
    (xs : List (List ℕ)) (i : ℕ) (f : List ℕ → List ℕ) → length (update xs i f) ≡ length xs
length-update [] i f = refl
length-update (x ∷ xs) zero f = refl
length-update (x ∷ xs) (suc i) f = ap suc (length-update xs i f)

pub get_or-update :
    (xs : List (List ℕ)) (i j : ℕ) (f : List ℕ → List ℕ)
    → i < length xs
    → get_or (update xs i f) j [] ≡ (if i == j then f (get_or xs j []) else get_or xs j [])
get_or-update [] i j f h = absurd (omega arith)
get_or-update (x ∷ xs) zero zero f h = refl
get_or-update (x ∷ xs) zero (suc j) f h = ground arith
get_or-update (x ∷ xs) (suc i) zero f h = ground arith
get_or-update (x ∷ xs) (suc i) (suc j) f h = ground (arith, get_or-update xs i j f)

-- A row that is added empty reads like a row that is not there.
pub get_or-snoc_nil : (xs : List (List ℕ)) (i : ℕ) → get_or (xs ++ [] ∷ []) i [] ≡ get_or xs i []
get_or-snoc_nil [] zero = refl
get_or-snoc_nil [] (suc i) = refl
get_or-snoc_nil (x ∷ xs) zero = refl
get_or-snoc_nil (x ∷ xs) (suc i) = get_or-snoc_nil xs i
