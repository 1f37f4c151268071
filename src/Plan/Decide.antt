-- ===== src/Plan/Decide.antt =====
-- What `explain_run` advises for a node, against a description of the rules.
use traversal.Base.{
  ℕ, ◌≡◌, ◌↔◌, refl, String, Bool, true, false, Option, none, some, List, mem_text, Bool-cases,
  Option-cases, inl, inr, arith,
}
use traversal.Cache.{Object, Codec, Cache}
use traversal.History.{Settings, NodeRow, Database}
use traversal.History.Stored.{cached}
use traversal.Plan.{Plan}
use traversal.Plan.Explain.{
  run, reuse, decision, Advice, was_started, first_advice, needs_decision, advise,
}

module _ (c : Codec) (frames : ℕ) (p : Plan) (db : Database) (previous : Option String)
    (force : List String) (selected : Bool) (name : String) (cache : Option Cache)
    (key : Option String) (old : Option NodeRow) where
  -- What `advise` says of the node.
  abbrev advice : Advice
  advice = advise c frames p db previous force selected name cache key old

  -- The cache has a value for the node that may be used.
  abbrev pub IsHit : Type 0
  IsHit =
      (settings : Settings) × (k : String) × (v : Object) × (p.store ≡ some settings)
      × (key ≡ some k)
      × ((cached c settings frames db k previous name).value ≡ some v)

  abbrev first : Advice
  first = first_advice c frames p db previous force selected name key

  first-hit : selected ≡ true → mem_text name force ≡ false → IsHit → first.action ≡ reuse
  unfolding first_advice
  first-hit s f (settings, k, v, store, has, found) = rw (s, f, store, has, found) refl

  first-reuse : first.action ≡ reuse → (selected ≡ true) × (mem_text name force ≡ false) × IsHit
  unfolding first_advice
  first-reuse h = elim (Option-cases p.store) [
    | inl disabled ↦ absurd (ground arith)
    | inr (settings, store) ↦ elim (Option-cases key) [
      | inl keyless ↦ absurd (ground arith)
      | inr (k, has) ↦ elim (Option-cases (cached c settings frames db k previous name).value) [
        | inl missing ↦ absurd (ground arith)
        | inr (v, found) ↦ (ground arith, ground arith, (settings, k, v, store, has, found))
      ]
    ]
  ]

  -- Only three actions come first.
  first-run : selected ≡ true → mem_text name force ≡ false → (IsHit → ⊥) → first.action ≡ run
  unfolding first_advice
  first-run s f miss = elim (Option-cases p.store) [
    | inl disabled ↦ rw (s, f, disabled) refl
    | inr (settings, store) ↦ elim (Option-cases key) [
      | inl keyless ↦ rw (s, f, store, keyless) refl
      | inr (k, has) ↦ elim (Option-cases (cached c settings frames db k previous name).value) [
        | inl missing ↦ rw (s, f, store, has, missing) refl
        | inr (v, found) ↦ absurd (miss (settings, k, v, store, has, found))
      ]
    ]
  ]

  first-not_decision : first.action ≡ decision → ⊥
  unfolding first_advice
  first-not_decision h = ground arith

  needed :
      advice.action ≡ decision
      → needs_decision c frames p db previous force selected name cache old first.action ≡ true
  unfolding advise
  needed h =
      elim (Bool-cases
        (needs_decision c frames p db previous force selected name cache old first.action)) [
          | inl holds ↦ holds
          | inr none_needed ↦ absurd (first-not_decision (ground arith))
        ]

  -- The advice is to reuse a node exactly when it is selected, no rerun of it is asked for, and the plan has a
  -- store in which the node's fingerprint leads to a value that may be reused.
  pub advise-reuse :
      (advice.action ≡ reuse) ↔ (selected ≡ true) × (mem_text name force ≡ false) × IsHit
  unfolding advise needs_decision
  advise-reuse =
      (λ h. first-reuse (ground arith), λ (s, f, hit). let e = first-hit s f hit in ground arith)

  -- A decision of the caller is required exactly when the node is selected, no rerun of it is asked
  -- for, it has no cache key, its work in the previous run had started, and no value may be reused.
  pub advise-decision :
      (advice.action ≡ decision)
      ↔ (selected ≡ true)
        × (mem_text name force ≡ false)
        × (cache ≡ none)
        × ((row : NodeRow) × (old ≡ some row) × (was_started row ≡ true))
        × (IsHit → ⊥)
  unfolding advise needs_decision
  advise-decision = (
    λ h. elim (Option-cases old) [
      | inl fresh ↦ absurd (ground (arith, needed h))
      | inr (row, had) ↦ (
        ground (arith, needed h),
        ground (arith, needed h),
        ground (arith, needed h),
        (row, had, ground (arith, needed h)),
        λ hit.
            let e = first-hit (ground (arith, needed h)) (ground (arith, needed h)) hit in
            ground (arith, needed h),
      )
    ],
    λ (s, f, uncached, (row, had, started), miss). let e = first-run s f miss in ground arith,
  )
