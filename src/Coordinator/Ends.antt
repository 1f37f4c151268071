-- ===== src/Coordinator/Ends.antt =====
-- The loop of `arun` raises nothing of its own, and it ends.
use traversal.Base.{
  ℕ, zero, suc, ◌≤◌, ◌<◌, ◌≡◌, refl, ◌∙◌, ◌⊎◌, sym, ap, Bool, true, false, not, ◌&&◌, List, [], ◌∷◌,
  map, length, mem, occurs, mem_of_occurs_pos, occurs_pos_of_mem, count, found_of_count, ◌==◌,
  ==_iff, Bool-cases, inl, inr, arith,
}
use traversal.Engine.Run.{State, RunState, unselected, is_running, state_at, done, admit}
use traversal.Engine.Run.Reach.{Reach, next, admits, run_progress}
use traversal.Engine.Binding.Valid.{Represents}
use traversal.Engine.Run.Work.{Takes, admit-Takes}
use traversal.Exceptions.{return}
use traversal.Coordinator.{Outcome, Progress, Setting, complete_all, is_empty}
use traversal.Coordinator.Good.{Fits, Good, represents}
use traversal.Coordinator.Dispatch.{Dispatches, dispatch_all-Good}
use traversal.Coordinator.Complete.{complete_all-Good}
use traversal.Coordinator.Loop.{Ending, ended, waiting, admit_round, loop}
use traversal.Coordinator.Schedule.{indices, are_pending, is_schedule}

none_running :
    (states : List State)
    → ((j : ℕ) → is_running (state_at states j) ≡ false)
    → count is_running states ≡ 0
none_running states idle = elim (Bool-cases (count is_running states == 0)) [
  | inl none ↦ ground (arith, none)
  | inr some ↦
      let (j, _, runs) = found_of_count is_running unselected states (ground arith) in cc (idle j)
]

none_pending :
    (e : Setting) (pending : List (ℕ × Bool)) (j : ℕ)
    → is_empty e pending ≡ true
    → occurs j (indices pending) ≡ 0
none_pending e [] j h = refl
none_pending e (f ∷ pending) j h = cc

member_of_length : (xs : List ℕ) → ((j : ℕ) → mem j xs ≡ false) → 0 < length xs → ⊥
member_of_length [] free h = omega arith
member_of_length (x ∷ xs) free h = ground (arith, free x, ==_iff x x)

module _ (e : Setting) (origin : Progress) (fits : Fits e origin) where
  admitted-Good :
      (g : Progress)
      → Good e origin [] g
      → Good e origin (admit g.state).1 (record g { state = (admit g.state).0 })
  admitted-Good g w =
      with_Takes (admit g.state).0 (admit g.state).1 (admit-Takes g.state)
        (next w.reach (admits g.state))
    where
      with_Takes :
          (r : RunState) (new : List ℕ)
          → Takes g.state r new
          → Reach origin.state r
          → Good e origin new (record g { state = r })
      with_Takes r new t reach = record {
        reach = reach;
        held = λ j. ground (
          arith,
          w.held j,
          t.run j,
          t.once j,
          t.were_ready j,
          mem_of_occurs_pos j new,
          occurs_pos_of_mem j new,
        );
        kept = λ j s. w.kept j (sym (t.success j) ∙ s);
        recorded = w.recorded;
        noted = w.noted;
      }

  -- Each round admits and dispatches without an exception.
  admit_round-Good :
      (g : Progress)
      → Good e origin [] g
      → (again : Bool) × (g' : Progress) × (admit_round e g ≡ (return again, g'))
        × Dispatches e origin fits [] again (record g { state = (admit g.state).0 }) g'
  unfolding admit_round
  admit_round-Good g w =
      dispatch_all-Good e origin fits (admit g.state).1 (record g { state = (admit g.state).0 })
        (admitted-Good g w)

  -- No round is without a pending future, a reused node and an end: `RuntimeError` is not raised.
  no_stall :
      (g g' : Progress)
      → Good e origin [] g
      → Good e origin [] g'
      → done g.state ≡ false
      → is_empty e g'.pending ≡ true
      → g'.state ≡ (admit g.state).0
      → ⊥
  no_stall g g' w w' more idle same =
      member_of_length (admit g.state).1 (λ j. (quiet j).1)
        (run_progress rep.builder e.plan.topology e.plan.targets fits.capacity origin.state g.state
          rep.compiled rep.indexed fits.new w.reach more
          (none_running g.state.states (λ j. (quiet j).0)))
    where
      rep : Represents (map (λ n. n.0) e.plan.index) e.plan.dependencies e.plan.topology
      rep = represents e origin fits

      quiet :
          (j : ℕ)
          → (is_running (state_at g.state.states j) ≡ false) × (mem j (admit g.state).1 ≡ false)
      quiet j = ground (
        arith,
        (admit-Takes g.state).run j,
        w'.held j,
        none_pending e g'.pending j idle,
        ap (λ (r : RunState). is_running (state_at r.states j)) same,
      )

  loop-done :
      (fuel : ℕ) (batches : List (List (ℕ × Outcome))) (g : Progress)
      → done g.state ≡ true
      → loop e (suc fuel) batches g ≡ ended g
  unfolding loop
  loop-done fuel batches g h = rw (loop, h) refl

  module _ (fuel : ℕ) (g g' : Progress) (again : Bool) (more : done g.state ≡ false)
      (round : admit_round e g ≡ (return again, g')) where
    -- A round that waits for nothing, since it reused a node.
    loop_again :
        (batches : List (List (ℕ × Outcome)))
        → is_empty e g'.pending ≡ true
        → again ≡ true
        → (loop e (suc fuel) batches g ≡ loop e fuel batches g')
          × (is_schedule e (suc fuel) batches g ≡ is_schedule e fuel batches g')
    unfolding loop is_schedule
    loop_again batches idle any = (ground (arith, more, round), ground (arith, more, round))

    -- A round for which no batch is left.
    loop_starved : is_empty e g'.pending ≡ false → loop e (suc fuel) [] g ≡ waiting g'
    unfolding loop
    loop_starved busy = ground (arith, more, round)

    -- A round that waits for a batch.
    loop_batch :
        (batch : List (ℕ × Outcome)) (rest : List (List (ℕ × Outcome))) (g'' : Progress)
        → is_empty e g'.pending ≡ false
        → complete_all e batch g' ≡ (return tt, g'')
        → (loop e (suc fuel) (batch ∷ rest) g ≡ loop e fuel rest g'')
    unfolding loop
    loop_batch batch rest g'' busy completed = ground (arith, more, round, completed)

    schedule_batch :
        (batch : List (ℕ × Outcome)) (rest : List (List (ℕ × Outcome)))
        → is_empty e g'.pending ≡ false
        → is_schedule e (suc fuel) (batch ∷ rest) g ≡ (
            not (is_empty e batch)
            && (are_pending g'.pending batch
                && is_schedule e fuel rest (complete_all e batch g').1))
    unfolding is_schedule
    schedule_batch batch rest busy = ground (arith, more, round)

  -- How the loop leaves: at its end, or still waiting, and then it has used up its fuel or its
  -- batches.
  abbrev pub Leaves : ℕ → ℕ → ℕ → Ending → Type 0
  Leaves fuel batches work ending =
      ((g' : Progress) × (ending ≡ ended g') × Good e origin [] g' × (done g'.state ≡ true))
      ⊎ ((g' : Progress) × (ending ≡ waiting g')
          × Good e origin [] g'
          × ((fuel < suc work) ⊎ (batches < work)))

  more-Leaves :
      (fuel batches work fuel' batches' work' : ℕ) (a b : Ending)
      → a ≡ b
      → fuel' ≤ suc fuel
      → batches' ≤ suc batches
      → work < work'
      → Leaves fuel batches work b
      → Leaves fuel' batches' work' a
  more-Leaves fuel batches work fuel' batches' work' a b h f n w (inl (g', k, good, over)) =
      inl (g', h ∙ k, good, over)
  more-Leaves fuel batches work fuel' batches' work' a b h f n w (inr (g', k, good, short)) =
      inr (g', h ∙ k, good, ground (arith, short))

  -- A round that waits, and the rounds after it.
  busy-Leaves :
      (fuel : ℕ) (batches : List (List (ℕ × Outcome))) (g g' : Progress) (again : Bool)
      → done g.state ≡ false
      → admit_round e g ≡ (return again, g')
      → Good e origin [] g'
      → g'.state.unfinished ≤ g.state.unfinished
      → is_empty e g'.pending ≡ false
      → is_schedule e (suc fuel) batches g ≡ true
      → ((rest : List (List (ℕ × Outcome))) (g'' : Progress)
          → Good e origin [] g''
          → is_schedule e fuel rest g'' ≡ true
          → Leaves fuel (length rest) g''.state.unfinished (loop e fuel rest g''))
      → Leaves (suc fuel) (length batches) g.state.unfinished (loop e (suc fuel) batches g)
  busy-Leaves fuel [] g g' again more round w less busy s ih =
      inr (g', loop_starved fuel g g' again more round busy, w, inr (ground arith))
  busy-Leaves fuel (batch ∷ rest) g g' again more round w less busy s ih =
      let (g'', completed, w'', less', fewer, _, _) =
        complete_all-Good e origin fits batch g' (ground (arith, fair)) w in
      more-Leaves fuel (length rest) g''.state.unfinished (suc fuel) (suc (length rest))
        g.state.unfinished _ _ (loop_batch fuel g g' again more round batch rest g'' busy completed)
        (omega arith) (omega arith) (omega (arith, fewer (ground (arith, fair)), less))
        (ih rest g'' w''
          (ap (λ x. is_schedule e fuel rest x.1) (sym completed) ∙ ground (arith, fair)))
    where
      fair :
          (not (is_empty e batch)
            && (are_pending g'.pending batch
                && is_schedule e fuel rest (complete_all e batch g').1))
          ≡ true
      fair = sym (schedule_batch fuel g g' again more round batch rest busy) ∙ s

  pub loop-Leaves :
      (fuel : ℕ) (batches : List (List (ℕ × Outcome))) (g : Progress)
      → Good e origin [] g
      → is_schedule e fuel batches g ≡ true
      → Leaves fuel (length batches) g.state.unfinished (loop e fuel batches g)
  unfolding loop
  loop-Leaves zero batches g w s = inr (g, refl, w, inl (omega arith))
  loop-Leaves (suc fuel) batches g w s = elim (Bool-cases (done g.state)) [
    | inl over ↦ inl (g, loop-done fuel batches g over, w, over)
    | inr more ↦
        let (again, g', round, (w', less, fewer, same)) = admit_round-Good g w in
        let kept = (admit-Takes g.state).unfinished in
        elim (Bool-cases (is_empty e g'.pending)) [
          | inl idle ↦ elim (Bool-cases again) [
            | inl any ↦
                let (step, sched) = loop_again fuel g g' again more round batches idle any in
                more-Leaves fuel (length batches) g'.state.unfinished (suc fuel) (length batches)
                  g.state.unfinished _ _ step (omega arith) (omega arith)
                  (omega (arith, fewer any, kept)) (loop-Leaves fuel batches g' w' (sym sched ∙ s))
            | inr none ↦ absurd (no_stall g g' w w' more idle (same none))
          ]
          | inr busy ↦
              busy-Leaves fuel batches g g' again more round w' (omega (arith, less, kept)) busy s
                (loop-Leaves fuel)
        ]
  ]
