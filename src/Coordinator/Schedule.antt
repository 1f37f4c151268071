-- ===== src/Coordinator/Schedule.antt =====
-- What `asyncio.wait` promises of the batches: each holds pending futures, and at least one.
use traversal.Base.{
  ℕ, zero, suc, Bool, true, not, ◌&&◌, List, [], ◌∷◌, map, mem, keep, ◌==◌, if◌then◌else◌,
}
use traversal.Engine.Run.{done}
use traversal.Exceptions.{return, raise}
use traversal.Coordinator.{Outcome, Progress, Setting, complete_all, is_empty}
use traversal.Coordinator.Loop.{admit_round}

abbrev pub indices : List (ℕ × Bool) → List ℕ
indices fs = map (λ f. f.0) fs

-- Whether the completions of a batch are those of pending futures, each once.
abbrev pub are_pending : List (ℕ × Bool) → List (ℕ × Outcome) → Bool
are_pending pending [] = true
are_pending pending ((index, outcome) ∷ rest) =
    mem index (indices pending) && are_pending (keep (λ f. not (f.0 == index)) pending) rest

module _ (e : Setting) where
  -- Whether each batch that the loop takes, in its rounds from `g` on, is not empty and consists of
  -- completions of futures that are pending then, each once.
  unfoldable pub is_schedule : (fuel : ℕ) → List (List (ℕ × Outcome)) → Progress → Bool
  unfolding admit_round complete_all
  is_schedule zero batches g = true
  is_schedule (suc fuel) batches g =
      let (reused_any, g') = admit_round e g in
      let again = is_schedule fuel batches g' in
      if done g.state then true else elim reused_any [
        | raise x ↦ true
        | return any ↦ if is_empty e g'.pending then again else elim batches [
          | [] ↦ true
          | batch ∷ rest ↦
              let (completed, g'') = complete_all e batch g' in
              let later = is_schedule fuel rest g'' in
              not (is_empty e batch) && are_pending g'.pending batch && later
        ]
      ]
