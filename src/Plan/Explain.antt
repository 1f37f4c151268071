-- ===== src/Plan/Explain.antt =====
-- `Plan.explain_run` of python/traversal/graph.py.
use traversal.Base.{
  ℕ, suc, String, Bool, true, false, not, ◌&&◌, ◌||◌, Option, none, some, List, [], ◌∷◌, foldl,
  get_or, every, if◌then◌else◌, str_eq, mem_text, lookup, insert, is_some,
}
use traversal.Exceptions.{value_error, run_active, Result, return, ◌>>=◌, ◌>>◌, require}
use traversal.Cache.{Codec, Cache}
use traversal.History.{Settings, NodeRow, Database}
use traversal.History.Stored.{cached}
use traversal.History.Records.{get}
use traversal.Graph.{Task}
use traversal.Plan.{Plan, fingerprints}

-- What a run would do with a node.
pub data Action : Type 0 where
  run reuse decision unselected : Action

pub record Advice : Type 0 where
  pub name : String
  pub action : Action
  pub reason : String

-- The store that a plan uses: the settings and the database behind them.
abbrev pub needs_store : Option Settings → Bool
needs_store none = true
needs_store (some s) = false

-- `{n["name"]: n for n in record["nodes"]}` of the previous run, with the checks before it.
unfoldable pub prior_rows : Plan → Database → Option String → Result (List (String × NodeRow))
unfolding get insert
prior_rows p db none = return []
prior_rows p db (some previous) = do
  require (not (needs_store p.store)) (value_error "resume requires a history store")
  found ← get db previous
  require (str_eq found.run.graph p.name) (value_error "previous run belongs to another graph")
  require (not (str_eq found.run.status "running"))
      (run_active "recover the previous unfinished run explicitly before resuming")
  return (foldl (λ m n. insert n.name n m) [] found.nodes)

-- `old["started_at"] is not None or old["state"] in (…)`
abbrev pub was_started : NodeRow → Bool
was_started old =
    is_some old.started_at
    || mem_text old.state ("succeeded" ∷ "reused" ∷ "failed" ∷ "unknown" ∷ [])

module _ (c : Codec) (frames : ℕ) (p : Plan) (db : Database) (previous : Option String)
    (force : List String) where
  -- The chain of tests that chooses the action before old work is looked at.
  unfoldable pub first_advice : (selected : Bool) → String → Option String → Advice
  unfolding cached mem_text
  first_advice selected name key =
      if not selected
      then record { name = name; action = unselected; reason = "not needed for targets" }
      else if mem_text name force
      then record { name = name; action = run; reason = "explicit rerun" }
      else elim p.store [
        | none ↦ record { name = name; action = run; reason = "history store disabled" }
        | some settings ↦ elim key [
          | none ↦ record {
            name = name;
            action = run;
            reason = "node or an ancestor has no explicit cache key";
          }
          | some k ↦
              let found = cached c settings frames db k previous name in
              record {
                name = name;
                action = if is_some found.value then reuse else run;
                reason = found.reason;
              }
        ]
      ]

  abbrev pub is_reuse : Action → Bool
  is_reuse reuse = true
  is_reuse _ = false

  -- Whether old work of the node needs a decision of the caller.
  unfoldable pub needs_decision :
      (selected : Bool) → String → Option Cache → Option NodeRow → Action → Bool
  unfolding mem_text
  needs_decision selected name cache none action = false
  needs_decision selected name cache (some old) action =
      selected
      && not (is_reuse action)
      && not (mem_text name force)
      && not (is_some cache)
      && was_started old

  unfoldable pub advise :
      (selected : Bool) → String → Option Cache → Option String → Option NodeRow → Advice
  unfolding first_advice needs_decision
  advise selected name cache key old =
      let first = first_advice selected name key in
      if needs_decision selected name cache old first.action
      then record {
        name = name;
        action = decision;
        reason = "previously started work is not declared repeat-safe";
      }
      else first

  -- The loop over the tasks, from index `i` on.
  unfoldable pub advise_from :
      List (String × NodeRow) → List (Option String) → ℕ → List Task → List Advice
  unfolding advise lookup
  advise_from prior keys i [] = []
  advise_from prior keys i (t ∷ ts) =
      advise (get_or p.selected i false) t.reference.name t.cache (get_or keys i none)
        (lookup t.reference.name prior)
      ∷ advise_from prior keys (suc i) ts

  -- `explain_run(previous=…, rerun=…)`
  unfoldable pub explain_run : Result (List Advice)
  unfolding prior_rows advise_from fingerprints
  explain_run = do
    require (every (λ name. is_some (lookup name p.index)) force)
        (value_error "rerun contains unknown node names")
    prior ← prior_rows p db previous
    return (advise_from prior (fingerprints c p) 0 p.tasks)
