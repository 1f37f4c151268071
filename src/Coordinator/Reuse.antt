-- ===== src/Coordinator/Reuse.antt =====
-- Which admitted nodes `arun` reuses, against what `explain_run` says of them.
use traversal.Base.{
  ℕ, ◌≡◌, ◌↔◌, ◌⊎◌, refl, ◌∙◌, sym, ap, String, Bool, true, false, Option, none, some, [], ◌∷◌,
  ◌++◌, get_elem?, lookup, lookup-insert, eq_refl, if◌then◌else◌, mem_text, Option-cases, inl, inr,
  arith,
}
use traversal.Exceptions.{Exception, Result, return, raise, Result-cases}
use traversal.Cache.{Object}
use traversal.History.{Settings, NodeRow, Database}
use traversal.History.Stored.{cached}
use traversal.Engine.Errors
use traversal.Engine.Errors.{GraphError, ok, err}
use traversal.Engine.Run.{RunState, reused, finish}
use traversal.Engine.Binding.{outcome_of, py_finish}
use traversal.Values.{map_values, map_items}
use traversal.Graph.{Task}
use traversal.Plan.Explain.{reuse, Advice, advise}
use traversal.Plan.Decide.{IsHit, advise-reuse}
use traversal.Coordinator.{
  Progress, Setting, output_of, key_of, look_up, finish_at, launch, take_reused, dispatch,
}
use traversal.Coordinator.Dispatch.{hit_variables, take_reused_calls, dispatch-launch, dispatch_hit}

Engine-cases :
    {A : Type 0} (m : Errors.Result A) → ((a : A) × (m ≡ ok a)) ⊎ ((x : GraphError) × (m ≡ err x))
Engine-cases (ok a) = inl (a, refl)
Engine-cases (err x) = inr (x, refl)

same_results :
    {A : Type 0} {a b : A} {g g' : Progress}
    → ◌≡◌ {A = Result A × Progress} (return a, g) (return b, g')
    → (a ≡ b) × (g ≡ g')
same_results h = (
  returned_same (ap (λ (p : Result _ × Progress). p.0) h),
  ap (λ (p : Result _ × Progress). p.1) h,
)
  where
    returned_same : {A : Type 0} {a b : A} → return a ≡ return b → a ≡ b
    returned_same h = cc

module _ (e : Setting) (index : ℕ) (t : Task) (old : Option NodeRow) where
  -- The cache has a value for the node that may be used.
  abbrev Hit : Database → Type 0
  Hit db =
      IsHit e.codec e.frames e.plan db e.previous e.force true t.reference.name t.cache
        (key_of e index) old

  -- What `explain_run` says of the node, if it is selected.
  abbrev pub advice : Database → Advice
  advice db =
      advise e.codec e.frames e.plan db e.previous e.force true t.reference.name t.cache
        (key_of e index) old

  advises :
      (db : Database)
      → ((advice db).action ≡ reuse)
        ↔ (true ≡ true) × (mem_text t.reference.name e.force ≡ false) × Hit db
  advises db =
      advise-reuse e.codec e.frames e.plan db e.previous e.force true t.reference.name t.cache
        (key_of e index) old

  look_up-hit :
      (db : Database) (v : Object) (reason : String)
      → look_up e index t.reference.name db ≡ some (v, reason)
      → (mem_text t.reference.name e.force ≡ false)
        × ((s : Settings) × (key : String) × (e.plan.store ≡ some s)
            × (key_of e index ≡ some key)
            × ((cached e.codec s e.frames db key e.previous t.reference.name).value ≡ some v))
  unfolding look_up
  look_up-hit db v reason h = elim (Option-cases e.plan.store) [
    | inl unset ↦ absurd (ground arith)
    | inr (s, set) ↦ elim (Option-cases (key_of e index)) [
      | inl keyless ↦ absurd (ground arith)
      | inr (key, keyed) ↦
          elim (Option-cases (cached e.codec s e.frames db key e.previous t.reference.name).value) [
            | inl missing ↦ absurd (ground arith)
            | inr (w, found) ↦ (ground arith, (s, key, set, keyed, ground arith))
          ]
    ]
  ]

  look_up-miss :
      (db : Database)
      → look_up e index t.reference.name db ≡ none
      → mem_text t.reference.name e.force ≡ false
      → Hit db
      → ⊥
  unfolding look_up
  look_up-miss db h fresh (s, key, v, set, keyed, found) = ground (arith, set, keyed, found)

  finish_at-finish :
      (g g' : Progress)
      → finish_at e index "reused" g ≡ (return tt, g')
      → (state : RunState) × (finish g.state index reused ≡ ok state)
        × (g' ≡ record g { state = state })
  unfolding finish_at py_finish outcome_of
  finish_at-finish g g' h = elim (Engine-cases (finish g.state index reused)) [
    | inl (state, fine) ↦ (state, fine, ground (arith, fine))
    | inr (x, failed) ↦ absurd (ground (arith, failed))
  ]

  dispatch-raise :
      (v : Object) (reason : String) (x : Exception) (g g' : Progress)
      → get_elem? e.plan.tasks index ≡ some t
      → look_up e index t.reference.name g.db ≡ some (v, reason)
      → take_reused e index t.reference.name v reason g ≡ (raise x, g')
      → dispatch e index g ≡ (raise x, g')
  unfolding dispatch
  dispatch-raise v reason x g g' found hit h = ground (arith, found, hit, h)

  launch-raise :
      (x : Exception) (g g' : Progress)
      → get_elem? e.plan.tasks index ≡ some t
      → look_up e index t.reference.name g.db ≡ none
      → launch e index t g ≡ (raise x, g')
      → dispatch e index g ≡ (raise x, g')
  unfolding dispatch
  launch-raise x g g' found miss h = ground (arith, found, miss, h)

  launch-pending :
      (g g' : Progress)
      → launch e index t g ≡ (return tt, g')
      → (g'.pending ≡ g.pending ++ (index, t.function.is_async) ∷ [])
        × (g'.state ≡ g.state)
        × (g'.outputs ≡ g.outputs)
  unfolding launch
  launch-pending g g' h = elim (Result-cases (map_values t.args (output_of g.outputs) tt)) [
    | inl (x, failed) ↦ elim (Option-cases e.plan.store) [
      | inl unset ↦ absurd (ground (arith, unset, failed))
      | inr (s, set) ↦ absurd (ground (arith, set, failed))
    ]
    | inr (args, read_args) ↦ elim (Result-cases (map_items t.kwargs (output_of g.outputs) tt)) [
      | inl (x, failed) ↦ elim (Option-cases e.plan.store) [
        | inl unset ↦ absurd (ground (arith, unset, read_args, failed))
        | inr (s, set) ↦ absurd (ground (arith, set, read_args, failed))
      ]
      | inr (kwargs, read_kwargs) ↦ elim (Option-cases e.plan.store) [
        | inl unset ↦ ground (arith, unset, read_args, read_kwargs)
        | inr (s, set) ↦ ground (arith, set, read_args, read_kwargs)
      ]
    ]
  ]

  -- The node is reused: it gets the value as its output, the native state its outcome, and no future
  -- is created.
  pub record Reuses (g g' : Progress) (v : Object) : Type 0 where
    pub output : lookup t.reference.name g'.outputs ≡ some v
    pub finished : finish g.state index reused ≡ ok g'.state
    pub no_future : g'.pending ≡ g.pending

  -- A future is created, and neither the native state nor the outputs change.
  pub record Launches (g g' : Progress) : Type 0 where
    pub future : g'.pending ≡ g.pending ++ (index, t.function.is_async) ∷ []
    pub no_outcome : g'.state ≡ g.state
    pub no_output : g'.outputs ≡ g.outputs

  hit-Reuses :
      (s : Settings) (v : Object) (reason : String) (g g' : Progress) (again : Bool)
      → e.plan.store ≡ some s
      → get_elem? e.plan.tasks index ≡ some t
      → look_up e index t.reference.name g.db ≡ some (v, reason)
      → dispatch e index g ≡ (return again, g')
      → (again ≡ true) × Reuses g g' v
  unfolding hit_variables
  hit-Reuses s v reason g g' again set found hit h =
      by_result (finish_at e index "reused" variables).0 (finish_at e index "reused" variables).1
        refl
    where
      variables : Progress
      variables = hit_variables e g s index t.reference.name v reason g

      by_result :
          (r : Result (Unit {0})) (g₁ : Progress)
          → finish_at e index "reused" variables ≡ (r, g₁)
          → (again ≡ true) × Reuses g g' v
      by_result (raise x) g₁ k =
          let calls = take_reused_calls e g s index t.reference.name v reason g _ set k in
          absurd (ground (arith, h, dispatch-raise v reason x g g₁ found hit calls))
      by_result (return u) g₁ k =
          let calls = take_reused_calls e g s index t.reference.name v reason g _ set k in
          let step = dispatch_hit e g index t v reason g g₁ found hit calls in
          let (state, accepted, changed) = finish_at-finish variables g₁ k in
          let (any, same) : (again ≡ true) × (g' ≡ g₁) = same_results (sym h ∙ step) in
          (
            any,
            record {
              output =
                  ap (λ (x : Progress). lookup t.reference.name x.outputs) (same ∙ changed)
                  ∙ lookup-insert t.reference.name t.reference.name v g.outputs
                  ∙ ap (λ b. if b then some v else lookup t.reference.name g.outputs)
                      (eq_refl t.reference.name);
              finished = accepted ∙ ap ok (sym (ap (λ (x : Progress). x.state) (same ∙ changed)));
              no_future = ap (λ (x : Progress). x.pending) (same ∙ changed);
            },
          )

  miss-Launches :
      (g g' : Progress) (again : Bool)
      → get_elem? e.plan.tasks index ≡ some t
      → look_up e index t.reference.name g.db ≡ none
      → dispatch e index g ≡ (return again, g')
      → (again ≡ false) × Launches g g'
  miss-Launches g g' again found miss h =
      by_result (launch e index t g).0 (launch e index t g).1 refl
    where
      by_result :
          (r : Result (Unit {0})) (g₁ : Progress)
          → launch e index t g ≡ (r, g₁)
          → (again ≡ false) × Launches g g'
      by_result (raise x) g₁ k = absurd (ground (arith, h, launch-raise x g g₁ found miss k))
      by_result (return u) g₁ k =
          let step = dispatch-launch e g index t g g₁ found miss k in
          let (future, state, outputs) = launch-pending g g₁ k in
          let (any, same) : (again ≡ false) × (g' ≡ g₁) = same_results (sym h ∙ step) in
          (any, rw same (record { future = future; no_outcome = state; no_output = outputs }))

  -- When the loop body of `arun` returns for an admitted node, it has done what `explain_run`,
  -- asked in the same database with the run's arguments for a selected node, advises. Either the
  -- advice is to reuse it: then the node's output is the value that the cache has under its
  -- fingerprint, `finish` has accepted the outcome reused, and no future is new. Or the advice is
  -- another one: then there is a new future for the node, and the native state and the outputs are
  -- as before.
  pub dispatch-advise :
      (g g' : Progress) (again : Bool)
      → get_elem? e.plan.tasks index ≡ some t
      → dispatch e index g ≡ (return again, g')
      → ((again ≡ true)
          × ((advice g.db).action ≡ reuse)
          × ((v : Object) × (s : Settings) × (key : String) × (key_of e index ≡ some key)
              × ((cached e.codec s e.frames g.db key e.previous t.reference.name).value ≡ some v)
              × Reuses g g' v))
        ⊎ ((again ≡ false) × ((advice g.db).action ≡ reuse → ⊥) × Launches g g')
  dispatch-advise g g' again found h = elim (Option-cases (look_up e index t.reference.name g.db)) [
    | inl miss ↦
        let (none_again, launches) = miss-Launches g g' again found miss h in
        inr (
          none_again,
          λ says. let (_, fresh, hit) = (advises g.db).0 says in look_up-miss g.db miss fresh hit,
          launches,
        )
    | inr ((v, reason), hit) ↦
        let (fresh, (s, key, set, keyed, value)) = look_up-hit g.db v reason hit in
        let (any, reuses) = hit-Reuses s v reason g g' again set found hit h in
        inl (
          any,
          (advises g.db).1 (refl, fresh, (s, key, v, set, keyed, value)),
          (v, s, key, keyed, value, reuses),
        )
  ]
