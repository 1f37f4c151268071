-- ===== src/Report.antt =====
-- `RunReport` and `RunError` of python/traversal/graph.py.
use traversal.Base.{String, Bool, Option, List, [], ◌∷◌, every, map, mem_text, if◌then◌else◌}
use traversal.Exceptions.{run_error, Result, return, raise}
use traversal.Cache.{Object}
use traversal.History.{Failure}

pub record RunReport : Type 0 where
  pub graph : String
  pub run_id : Option String
  pub states : List (String × String)
  pub outputs : List (String × Object)
  pub failures : List (String × Failure)
  pub reuse : List (String × String)

-- `s in ("succeeded", "reused", "unselected")`
unfoldable pub is_good : String → Bool
unfolding mem_text
is_good s = mem_text s ("succeeded" ∷ "reused" ∷ "unselected" ∷ [])

unfoldable pub succeeded : RunReport → Bool
unfolding is_good
succeeded r = every (λ s. is_good s.1) r.states

-- `raise_for_status()`: the error names the failures.
unfoldable pub raise_for_status : RunReport → Result RunReport
unfolding succeeded
raise_for_status r =
    if succeeded r then return r else raise (run_error r.graph (map (λ f. f.0) r.failures))
