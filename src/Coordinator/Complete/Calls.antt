-- ===== src/Coordinator/Complete/Calls.antt =====
-- The statements of `complete` besides the native state: what they return and may change.
use traversal.Base.{
  ℕ, ◌+◌, ◌≡◌, refl, String, Bool, true, Option, none, some, List, lookup, insert, if◌then◌else◌,
  Bool-cases, Option-cases, inl, inr, arith,
}
use traversal.Exceptions.{return}
use traversal.Cache.{Object}
use traversal.History.{Failure, Database, mark_finished, reuse_note}
use traversal.History.Stored.{save_result}
use traversal.Plan.{name_at}
use traversal.Plan.Explain.{needs_store}
use traversal.Coordinator.{
  was_cancelled, returned, raised, Progress, Setting, Statement, finish_at, key_of, timed, pure,
  save, record_end, complete,
}
use traversal.Coordinator.Kept.{
  Kept, Kept-refl, Kept-trans, mark_finished-Kept, reuse_note-Kept, save_result-Kept,
}
use traversal.Coordinator.Good.{Good, has, has-insert}

module _ (e : Setting) (origin : Progress) where
  -- What a statement of `complete` may change besides the state: the database, the clock and notes.
  pub record Noted (g g' : Progress) : Type 0 where
    pub state_is : g'.state ≡ g.state
    pub outputs_is : g'.outputs ≡ g.outputs
    pub pending_is : g'.pending ≡ g.pending
    pub db_kept : Kept e.run_id g.db g'.db
    pub notes : (name : String) → has name g.reuse ≡ true → has name g'.reuse ≡ true

  pub same-Noted : (g : Progress) → Noted g g
  same-Noted g = record {
    db_kept = Kept-refl e.run_id g.db;
    state_is = refl;
    outputs_is = refl;
    pending_is = refl;
    notes = λ other h. h;
  }

  pub written-Noted :
      (g : Progress) (db : Database) (n : ℕ)
      → Kept e.run_id g.db db
      → Noted g (record g { db = db; readings = n })
  written-Noted g db n kept = record {
    db_kept = kept;
    state_is = refl;
    outputs_is = refl;
    pending_is = refl;
    notes = λ other h. h;
  }

  pub Noted-Good :
      (rest : List ℕ) (g g' : Progress) → Noted g g' → Good e origin rest g → Good e origin rest g'
  Noted-Good rest g g' n w = record {
    reach = rw n.state_is w.reach;
    held = λ j. rw (n.pending_is, n.state_is) (w.held j);
    kept = λ j. rw (n.state_is, n.outputs_is) (w.kept j);
    recorded = Kept-trans e.run_id origin.db g.db g'.db w.recorded n.db_kept;
    noted = λ j h. n.notes (name_at e.plan.tasks j) (w.noted j h);
  }

  pub save_returns :
      (index : ℕ) (name : String) (value : Object) (g : Progress)
      → (g' : Progress) × (save e index name value g ≡ (return tt, g')) × Noted g g'
  unfolding save
  save_returns index name value g = elim (Option-cases e.plan.store) [
    | inl none_set ↦ (g, rw (save, none_set) refl, same-Noted g)
    | inr (s, set) ↦ elim (Option-cases (key_of e index)) [
      | inl no_key ↦ (g, rw (save, set, no_key) refl, same-Noted g)
      | inr (key, keyed) ↦
          let (db, note) = save_result e.codec s e.frames g.db key value in
          (
            record g { db = db; reuse = insert name note g.reuse },
            rw (save, set, keyed) refl,
            record {
              db_kept = save_result-Kept e.run_id e.codec s e.frames g.db key value;
              state_is = refl;
              outputs_is = refl;
              pending_is = refl;
              notes = λ other h. has-insert name other note g.reuse h;
            },
          )
    ]
  ]

  pub record_end_returns :
      (index : ℕ) (name state : String) (failure : Option Failure) (g : Progress)
      → has name g.reuse ≡ true
      → (g' : Progress) × (record_end e index name state failure g ≡ (return tt, g')) × Noted g g'
  unfolding record_end
  record_end_returns index name state failure g h = elim (Option-cases (lookup name g.reuse)) [
    | inl missing ↦ absurd (ground arith)
    | inr (note, found) ↦ elim (Option-cases e.plan.store) [
      | inl none_set ↦ (g, ground (arith, none_set, found), same-Noted g)
      | inr (s, set) ↦ (
        record g {
          db =
              mark_finished s (reuse_note g.db e.run_id name (key_of e index) note) e.run_id name
                state failure (e.clock g.readings);
          readings = g.readings + 1;
        },
        ground (arith, set, found),
        written-Noted g _ _ (
            Kept-trans e.run_id g.db (reuse_note g.db e.run_id name (key_of e index) note) _
              (reuse_note-Kept e.run_id name (key_of e index) note g.db)
              (mark_finished-Kept e.run_id s name state failure (e.clock g.readings)
                (reuse_note g.db e.run_id name (key_of e index) note))),
      )
    ]
  ]

  -- What `complete` does after the native state is written, if it was a success or a failure.
  pub closing : ℕ → String → Option Failure → Statement (Unit {0})
  closing index state failure =
      if needs_store e.plan.store
      then pure tt
      else record_end e index (name_at e.plan.tasks index) state failure

  pub closing_returns :
      (index : ℕ) (state : String) (failure : Option Failure) (g : Progress)
      → has (name_at e.plan.tasks index) g.reuse ≡ true
      → (g' : Progress) × (closing index state failure g ≡ (return tt, g')) × Noted g g'
  unfolding closing
  closing_returns index state failure g h = elim (Bool-cases (needs_store e.plan.store)) [
    | inl none_set ↦ (g, rw none_set refl, same-Noted g)
    | inr set ↦ rw set (record_end_returns index (name_at e.plan.tasks index) state failure g h)
  ]

  pub complete_cancelled :
      (index : ℕ) (g g₁ g₂ : Progress)
      → finish_at e index "cancelled" g ≡ (return tt, g₁)
      → timed e
          (λ s now db.
            mark_finished s db e.run_id (name_at e.plan.tasks index) "cancelled" none now)
          g₁
        ≡ (return tt, g₂)
      → complete e index was_cancelled g ≡ (return tt, g₂)
  unfolding complete
  complete_cancelled index g g₁ g₂ h k = ground (arith, h, k)

  pub complete_returned :
      (index : ℕ) (v : Object) (g g₁ g₂ g₃ : Progress)
      → save e index
          (name_at e.plan.tasks index)
          v
          (record g { outputs = insert (name_at e.plan.tasks index) v g.outputs })
        ≡ (return tt, g₁)
      → finish_at e index "succeeded" g₁ ≡ (return tt, g₂)
      → closing index "succeeded" none g₂ ≡ (return tt, g₃)
      → complete e index (returned v) g ≡ (return tt, g₃)
  unfolding complete closing
  complete_returned index v g g₁ g₂ g₃ h k l = ground (arith, h, k, l)

  pub complete_raised :
      (index : ℕ) (truth : Bool) (failure : Failure) (g g₁ g₂ : Progress)
      → finish_at e index "failed"
          (record g { failures = insert (name_at e.plan.tasks index) failure g.failures })
        ≡ (return tt, g₁)
      → closing index (if truth then "failed" else "succeeded") (some failure) g₁ ≡ (return tt, g₂)
      → complete e index (raised truth failure) g ≡ (return tt, g₂)
  unfolding complete closing
  complete_raised index truth failure g g₁ g₂ h k = ground (arith, h, k)
