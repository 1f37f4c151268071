-- ===== src/Witnesses/Reuse.antt =====
-- A node whose result is stored, dispatched.
use traversal.Base.{◌≡◌, ◌⊎◌, refl, String, true, false, none, some, [], ◌∷◌}
use traversal.Exceptions.{return}
use traversal.Cache.{Object}
use traversal.Engine.Run.{admit}
use traversal.History.{Settings}
use traversal.History.Stored.{cached}
use traversal.Plan.Explain.{reuse}
use traversal.Coordinator.{Progress, key_of, dispatch}
use traversal.Coordinator.Reuse.{advice, Reuses, Launches, dispatch-advise}
use traversal.Coordinator.Samples.{toy}
use traversal.Witnesses.Plans.{task_a}
use traversal.Witnesses.Runs.{the_run, setting, first}

-- The first node runs, and its fingerprint has a row.
before : Progress
unfolding the_run
before = record first {
  state = (admit first.state).0;
  db = record first.db {
    results = record { fingerprint = "null"; payload = "true"; digest = "true" } ∷ [];
  };
}

after : Progress
unfolding the_run before
after = (dispatch setting 0 before).1

reused_here : dispatch setting 0 before ≡ (return true, after)
unfolding the_run before after
reused_here = refl

dispatch-advise_example :
    ((true ≡ true)
      × ((advice setting 0 task_a none before.db).action ≡ reuse)
      × ((v : Object) × (s : Settings) × (key : String) × (key_of setting 0 ≡ some key)
          × ((cached toy s 100 before.db key none "a").value ≡ some v)
          × Reuses setting 0 task_a none before after v))
    ⊎ ((true ≡ false)
        × ((advice setting 0 task_a none before.db).action ≡ reuse → ⊥)
        × Launches setting 0 task_a none before after)
dispatch-advise_example = dispatch-advise setting 0 task_a none before after true refl reused_here
