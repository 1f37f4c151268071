-- ===== src/Engine/Run/Start.antt =====
-- A new run: which nodes are ready, and that it meets the invariant.
use traversal.Base.{
  ℕ, zero, suc, ◌<◌, ◌≡◌, refl, ap, ◌∙◌, Bool, true, false, ◌&&◌, List, [], ◌∷◌, foldl, length,
  length-set, get_or, ◌==◌, ==_iff, if◌then◌else◌, mem, mem-append, Bool-cases, List-cases, inl,
  inr, arith,
}
use traversal.Engine.Run.{State, pending, ready, state_at, seed}
use traversal.Engine.Run.Sound.{state_at-set}
use traversal.Engine.Run.Queue.{IsQueued}

-- The state that a selected node starts in.
unfoldable pub first_state : List ℕ → State
first_state [] = ready
first_state (d ∷ ds) = pending

-- Whether a node is selected; out of range it is not.
abbrev pub chosen : List Bool → ℕ → Bool
chosen selected i = get_or selected i false

pub lt_of_chosen : (marks : List Bool) (i : ℕ) → chosen marks i ≡ true → i < length marks
lt_of_chosen [] i m = cc
lt_of_chosen (s ∷ marks) zero m = omega arith
lt_of_chosen (s ∷ marks) (suc i) m = omega (arith, lt_of_chosen marks i m)

module _ (selected : List Bool) (rows : List (List ℕ)) where
  -- What the loop over the order writes.
  abbrev pub state_after : List ℕ → State → ℕ → State
  state_after order old i =
      if mem i order && chosen selected i then first_state (get_or rows i []) else old

  abbrev pub seeded : List State × List ℕ → List ℕ → List State × List ℕ
  seeded = foldl (seed selected rows)

  length-seed : (s : List State × List ℕ) (i : ℕ) → length (seed selected rows s i).0 ≡ length s.0
  unfolding seed
  length-seed s i = ground (arith, length-set s.0 i ready, length-set s.0 i pending)

  pub length-seeded :
      (order : List ℕ) (s : List State × List ℕ) → length (seeded s order).0 ≡ length s.0
  length-seeded [] s = refl
  length-seeded (i ∷ order) s = length-seeded order (seed selected rows s i) ∙ length-seed s i

  state_at-seed :
      (s : List State × List ℕ) (i j : ℕ)
      → i < length s.0
      → state_at (seed selected rows s i).0 j
        ≡ (if i == j && chosen selected i then first_state (get_or rows i []) else state_at s.0 j)
  unfolding seed first_state
  state_at-seed s i j h = elim (List-cases (get_or rows i [])) [
    | inl e ↦ ground (arith, state_at-set s.0 i j ready h)
    | inr (d, ds, e) ↦ ground (arith, state_at-set s.0 i j pending h)
  ]

  pub state_at-seeded :
      (order : List ℕ) (s : List State × List ℕ) (j : ℕ)
      → ((i : ℕ) → mem i order ≡ true → i < length s.0)
      → state_at (seeded s order).0 j ≡ state_after order (state_at s.0 j) j
  state_at-seeded [] s j h = refl
  state_at-seeded (i ∷ order) s j h = elim (Bool-cases (i == j)) [
    | inl e ↦
        let same : i ≡ j = (==_iff i j).0 e in
        ground (
          arith,
          state_at-seeded order (seed selected rows s i) j
              (λ x m. omega (arith, h x (ground arith), length-seed s i)),
          state_at-seed s i j (h i (ground (arith, ==_iff i i))),
          ap (chosen selected) same,
          ap (λ (x : ℕ). get_or rows x []) same,
          ==_iff j i,
        )
    | inr e ↦ ground (
      arith,
      state_at-seeded order (seed selected rows s i) j
          (λ x m. omega (arith, h x (ground arith), length-seed s i)),
      state_at-seed s i j (h i (ground (arith, ==_iff i i))),
      ==_iff j i,
      ==_iff i j,
    )
  ]

  seed-IsQueued :
      (s : List State × List ℕ) (i : ℕ)
      → i < length s.0
      → IsQueued s.0 s.1
      → IsQueued (seed selected rows s i).0 (seed selected rows s i).1
  unfolding seed
  seed-IsQueued s i inside q j h = ground (
    arith,
    state_at-set s.0 i j ready inside,
    state_at-set s.0 i j pending inside,
    q j,
    mem-append j s.1 (i ∷ []),
    ==_iff i j,
    ==_iff j i,
  )

  pub seeded-IsQueued :
      (order : List ℕ) (s : List State × List ℕ)
      → ((i : ℕ) → mem i order ≡ true → i < length s.0)
      → IsQueued s.0 s.1
      → IsQueued (seeded s order).0 (seeded s order).1
  seeded-IsQueued [] s h q = q
  seeded-IsQueued (i ∷ order) s h q =
      seeded-IsQueued order (seed selected rows s i)
        (λ x m. omega (arith, h x (ground arith), length-seed s i))
        (seed-IsQueued s i (h i (ground (arith, ==_iff i i))) q)
