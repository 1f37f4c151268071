-- ===== src/Coordinator/Complete.antt =====
-- The completion of futures in `arun`: it raises nothing and keeps the invariant.
mod Calls
use traversal.Base.{
  ℕ, ◌+◌, ◌≤◌, ◌<◌, ◌≡◌, refl, ◌∙◌, ap, String, Bool, true, false, not, Option, none, some, List,
  [], ◌∷◌, length, mem, occurs, occurs_pos_of_mem, lt-length_of_get_elem?, keep, lookup, insert,
  ◌==◌, ==_iff, if◌then◌else◌, Bool-cases, Option-cases, inl, inr, arith,
}
use traversal.Engine.Run.{RunState, succeeded, failed, cancelled}
use traversal.Engine.Binding.{outcome_of}
use traversal.Engine.Run.Reach.{Reach, here, Reach-trans, Reach-same}
use traversal.Exceptions.{return}
use traversal.Cache.{Object}
use traversal.History.{Failure, Database, mark_finished, reuse_note}
use traversal.History.Stored.{save_result}
use traversal.Plan.{name_at}
use traversal.Plan.Explain.{needs_store}
use traversal.Coordinator.{
  Outcome, was_cancelled, returned, raised, Progress, Setting, Statement, finish_at, key_of, timed,
  pure, save, record_end, complete, complete_all, is_empty,
}
use traversal.Coordinator.Dispatch.{running_task}
use traversal.Coordinator.Kept.{
  Kept, Kept-refl, Kept-trans, mark_finished-Kept, reuse_note-Kept, save_result-Kept,
}
use traversal.Coordinator.Schedule.{indices, are_pending}
use traversal.Coordinator.Good.{
  Fits, Good, has, has-insert, has-insert_self, timed_returns, finish_at-Good,
}
use traversal.Coordinator.Complete.Calls.{
  Noted, same-Noted, written-Noted, Noted-Good, save_returns, record_end_returns, closing,
  closing_returns, complete_cancelled, complete_returned, complete_raised,
}

-- What is left of the pending futures after a batch.
abbrev pub popped : List (ℕ × Bool) → List (ℕ × Outcome) → List (ℕ × Bool)
popped pending [] = pending
popped pending ((index, outcome) ∷ rest) = popped (keep (λ f. not (f.0 == index)) pending) rest

occurs_popped :
    (j index : ℕ) (pending : List (ℕ × Bool))
    → occurs j (indices (keep (λ f. not (f.0 == index)) pending))
      ≡ (if j == index then 0 else occurs j (indices pending))
occurs_popped j index [] = ground arith
occurs_popped j index ((i, is_async) ∷ pending) =
    ground (arith, occurs_popped j index pending, ==_iff i index, ==_iff j index, ==_iff j i)

left : {r r' : RunState} → r' ≡ r → r'.unfinished ≡ r.unfinished
left h = ap (λ (s : RunState). s.unfinished) h

module _ (e : Setting) (origin : Progress) where
  -- A future leaves the pending ones before it is completed.
  popped-Good :
      (index : ℕ) (g : Progress)
      → mem index (indices g.pending) ≡ true
      → Good e origin [] g
      → Good e origin (index ∷ []) (record g { pending = keep (λ f. not (f.0 == index)) g.pending })
  popped-Good index g m w = record {
    reach = w.reach;
    held = λ j. elim (Bool-cases (j == index)) [
      | inl same ↦
          let here : mem j (indices g.pending) ≡ true = rw ((==_iff j index).0 same) m in
          ground (
            arith,
            w.held j,
            occurs_popped j index g.pending,
            occurs_pos_of_mem j (indices g.pending) here,
          )
      | inr other ↦ ground (arith, w.held j, occurs_popped j index g.pending)
    ];
    kept = w.kept;
    recorded = w.recorded;
    noted = w.noted;
  }

  module _ (fits : Fits e origin) where
    -- A completion returns, keeps the invariant and leaves less work.
    Completes : ℕ → List ℕ → Outcome → Progress → Type 0
    Completes index rest outcome g =
        (g' : Progress) × (complete e index outcome g ≡ (return tt, g'))
        × Good e origin rest g'
        × (g'.pending ≡ g.pending)
        × (g'.state.unfinished < g.state.unfinished)
        × Reach g.state g'.state

    complete-Good :
        (index : ℕ) (rest : List ℕ) (outcome : Outcome) (g : Progress)
        → index < length e.plan.tasks
        → Good e origin (index ∷ rest) g
        → Completes index rest outcome g
    unfolding Completes outcome_of
    complete-Good index rest was_cancelled g inside w =
        let (state, h, w', less, ran) =
          finish_at-Good e origin fits index rest "cancelled" cancelled g refl refl (λ s. cc) w in
        let (db, n, k, kept) =
          timed_returns e origin
            (λ s now db.
              mark_finished s db e.run_id (name_at e.plan.tasks index) "cancelled" none now)
            (record g { state = state })
            (λ s now.
              mark_finished-Kept e.run_id s (name_at e.plan.tasks index) "cancelled" none now
                g.db) in
        (
          _,
          complete_cancelled e origin index g (record g { state = state }) _ h k,
          Noted-Good e origin rest (record g { state = state }) _
              (written-Noted e origin (record g { state = state }) db n kept) w',
          refl,
          less,
          ran,
        )
    complete-Good index rest (returned v) g inside w =
        let name = name_at e.plan.tasks index in
        let g₀ : Progress = record g { outputs = insert name v g.outputs } in
        let (g₁, saved, n₁) = save_returns e origin index name v g₀ in
        let w₁ =
          Noted-Good e origin (index ∷ rest) g₀ g₁ n₁ (output-Good index (index ∷ rest) v g w) in
        let (state, h, w₂, less, ran) =
          finish_at-Good e origin fits index rest "succeeded" succeeded g₁ refl refl
            (λ _. rw n₁.outputs_is (has-insert_self name v g.outputs)) w₁ in
        let (g₃, k, n₃) =
          closing_returns e origin index "succeeded" none (record g₁ { state = state })
            (w₂.noted index inside) in
        (
          g₃,
          complete_returned e origin index v g g₁ (record g₁ { state = state }) g₃ saved h k,
          Noted-Good e origin rest (record g₁ { state = state }) g₃ n₃ w₂,
          n₃.pending_is ∙ n₁.pending_is,
          omega (arith, less, left n₁.state_is, left n₃.state_is),
          Reach-same n₁.state_is ran n₃.state_is,
        )
      where
        output-Good :
            (index : ℕ) (rest : List ℕ) (v : Object) (g : Progress)
            → Good e origin rest g
            → Good e origin rest
                (record g { outputs = insert (name_at e.plan.tasks index) v g.outputs })
        output-Good index rest v g w = record {
          reach = w.reach;
          held = w.held;
          kept = λ j h.
              has-insert (name_at e.plan.tasks index) (name_at e.plan.tasks j) v g.outputs
                (w.kept j h);
          recorded = w.recorded;
          noted = w.noted;
        }
    complete-Good index rest (raised truth failure) g inside w =
        let g₀ : Progress = record g {
          failures = insert (name_at e.plan.tasks index) failure g.failures;
        } in
        let (state, h, w₁, less, ran) =
          finish_at-Good e origin fits index rest "failed" failed g₀ refl refl (λ s. cc)
            (failures-Good w) in
        let (g₂, k, n₂) =
          closing_returns e origin index (if truth then "failed" else "succeeded") (some failure)
            (record g₀ { state = state }) (w₁.noted index inside) in
        (
          g₂,
          complete_raised e origin index truth failure g (record g₀ { state = state }) g₂ h k,
          Noted-Good e origin rest (record g₀ { state = state }) g₂ n₂ w₁,
          n₂.pending_is,
          omega (arith, less, left n₂.state_is),
          Reach-same refl ran n₂.state_is,
        )
      where
        failures-Good :
            Good e origin (index ∷ rest) g
            → Good e origin
                (index ∷ rest)
                (record g { failures = insert (name_at e.plan.tasks index) failure g.failures })
        failures-Good w = record {
          reach = w.reach;
          held = w.held;
          kept = w.kept;
          recorded = w.recorded;
          noted = w.noted;
        }

    complete_all_step :
        (index : ℕ) (outcome : Outcome) (rest : List (ℕ × Outcome)) (g g₁ g₂ : Progress)
        → complete e index outcome (record g { pending = keep (λ f. not (f.0 == index)) g.pending })
          ≡ (return tt, g₁)
        → complete_all e rest g₁ ≡ (return tt, g₂)
        → complete_all e ((index, outcome) ∷ rest) g ≡ (return tt, g₂)
    unfolding complete_all
    complete_all_step index outcome rest g g₁ g₂ h k = ground (arith, h, k)

    -- A pending future is one of a running node.
    pending_inside :
        (index : ℕ) (g : Progress)
        → mem index (indices g.pending) ≡ true
        → Good e origin [] g
        → index < length e.plan.tasks
    pending_inside index g m w =
        let (t, found) =
          running_task e origin fits index []
            (record g { pending = keep (λ f. not (f.0 == index)) g.pending })
            (popped-Good index g m w) in
        lt-length_of_get_elem? e.plan.tasks index found

    -- The loop over a batch of completions returns and keeps the invariant.
    pub complete_all-Good :
        (batch : List (ℕ × Outcome)) (g : Progress)
        → are_pending g.pending batch ≡ true
        → Good e origin [] g
        → (g' : Progress) × (complete_all e batch g ≡ (return tt, g'))
          × Good e origin [] g'
          × (g'.state.unfinished ≤ g.state.unfinished)
          × (is_empty e batch ≡ false → g'.state.unfinished < g.state.unfinished)
          × Reach g.state g'.state
          × (g'.pending ≡ popped g.pending batch)
    unfolding complete_all Completes
    complete_all-Good [] g all w = (g, refl, w, omega arith, λ f. cc, here, refl)
    complete_all-Good ((index, outcome) ∷ rest) g all w =
        let inside : mem index (indices g.pending) ≡ true = ground arith in
        let others : are_pending (keep (λ f. not (f.0 == index)) g.pending) rest ≡ true =
          ground arith in
        let (g₁, h, w₁, same, less, ran) =
          complete-Good index [] outcome
            (record g { pending = keep (λ f. not (f.0 == index)) g.pending })
            (pending_inside index g inside w) (popped-Good index g inside w) in
        let (g₂, k, w₂, less₂, _, ran₂, left₂) = complete_all-Good rest g₁ (rw same others) w₁ in
        (
          g₂,
          complete_all_step index outcome rest g g₁ g₂ h k,
          w₂,
          omega (arith, less, less₂),
          λ _. omega (arith, less, less₂),
          Reach-trans ran ran₂,
          left₂ ∙ ap (λ fs. popped fs rest) same,
        )
