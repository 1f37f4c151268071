-- ===== src/Coordinator/Samples.antt =====
-- A small graph, built, compiled and run: the first example of README.md, with a failing variant.
use traversal.Base.{
  ℕ, String, true, false, Option, none, some, List, [], ◌∷◌, ◌≡◌, refl, str_eq, if◌then◌else◌,
  lookup, insert, mem_text, all_chars, arith,
}
use traversal.Exceptions.{Exception, is_caught, Result, return, raise, ◌>>=◌}
use traversal.Cache.{Object, Codec, null, bool, check}
use traversal.History.Text.{char_count}
use traversal.History.{Database}
use traversal.Values.{Node, Value, Values, Items, node}
use traversal.Values
use traversal.Graph.{
  Graph, Function, Task, CacheArgument, no_cache, keyed, Target, by_name, by_node,
}
use traversal.Graph
use traversal.Plan.{Plan, fingerprints}
use traversal.Plan.Explain.{explain_run}
use traversal.Plan.Description.{describe}
use traversal.Plan
use traversal.Coordinator.{Outcome, returned, raised}
use traversal.Coordinator.Loop.{ended, failing, waiting, loop, close_ended, interrupt, report}
use traversal.Coordinator.Prepare.{prepare}

-- A codec that tells `true` from everything else.
abbrev pub toy_dumps : Object → Result String
toy_dumps (bool true) = return "true"
toy_dumps _ = return "null"

abbrev pub toy_loads : String → Option Object
toy_loads s = if str_eq s "true" then some (bool true) else some null

pub toy_reads_back :
    (frames : ℕ) (v : Object) (text : String)
    → check v frames [] ≡ return tt
    → toy_dumps v ≡ return text
    → (v' : Object) × (toy_loads text ≡ some v')
      × (check v' frames [] ≡ return tt)
      × (toy_dumps v' ≡ return text)
unfolding check
toy_reads_back frames (bool true) text h e =
    let same : text ≡ "true" = cc in rw same (bool true, refl, h, refl)
toy_reads_back frames v text h e =
    let same : text ≡ "null" = cc in rw same (null, refl, ground arith, refl)

pub toy_raises : (v : Object) (x : Exception) → toy_dumps v ≡ raise x → is_caught x ≡ true
toy_raises (bool true) x h = cc
toy_raises v x h = cc

abbrev pub toy : Codec
toy = record {
  dumps = toy_dumps;
  loads = toy_loads;
  byte_length = char_count;
  sha256 = λ s. s;
  dumps_raises = toy_raises;
  reads_back = toy_reads_back;
}

unfoldable pub program : Unit {0}
unfolding Graph.init Graph.add Graph.depends_on Plan.compile describe explain_run prepare loop
    close_ended interrupt report all_chars lookup insert mem_text
program = tt

abbrev pub function : String → Function
function name = record {
  ident = 0;
  callable = true;
  is_async = false;
  qualname = name;
  in_module = none;
}

abbrev pub node_of : String → Value Object
node_of name = node (record { name = name; owner = 1 })

-- source → left, right → total
abbrev pub build : Result Graph
build = Graph.init (some "report") (some "1") none 1 >>= λ g.
    Graph.add g (some "source") (function "lambda") Values.nil Values.end [] no_cache
    >>= λ (g, source).
        Graph.add g (some "left") (function "lambda") (Values.cons (node source) Values.nil)
          Values.end [] no_cache
        >>= λ (g, left).
            Graph.add g (some "total") (function "sum")
              (Values.cons
                (Values.list (Values.cons (node left) (Values.cons (node source) Values.nil)))
                Values.nil)
              Values.end [] no_cache
            >>= λ (g, total). return g

planned :
    (build >>= λ g. Plan.compile g (by_name "total" ∷ []) 7 >>= λ p. return p.dependencies)
    ≡ return ([] ∷ (0 ∷ []) ∷ (0 ∷ 1 ∷ []) ∷ [])
unfolding program
planned = refl

abbrev pub the_clock : ℕ → ℕ
the_clock n = n

abbrev pub empty_store : Database
empty_store = record { runs = []; nodes = []; results = []; locks = [] }

-- The plan of "total", run with a schedule; the states of the report, or of where the run stands.
run_states : List (List (ℕ × Outcome)) → Result (String × List (String × String))
run_states batches = build >>= λ g. Plan.compile g (by_name "total" ∷ []) 7 >>= λ p.
    prepare toy 100 p empty_store (some 2) none [] "" the_clock >>= λ (e, start).
    elim (loop e 9 batches start) [
      | ended g ↦ return ("ended", (report e g).states)
      | failing x g ↦ return ("failing", (report e g).states)
      | waiting g ↦ return ("waiting", (report e g).states)
    ]

all_succeed :
    run_states
      (((0, returned null) ∷ []) ∷ ((1, returned null) ∷ []) ∷ ((2, returned null) ∷ []) ∷ [])
    ≡ return
        ("ended", ("source", "succeeded") ∷ ("left", "succeeded") ∷ ("total", "succeeded") ∷ [])
unfolding program run_states
all_succeed = refl

left_fails :
    run_states (
      ((0, returned null) ∷ [])
      ∷ ((1, raised true (record { exception_type = "ValueError"; message = ""; traceback = "" }))
          ∷ [])
      ∷ [])
    ≡ return ("ended", ("source", "succeeded") ∷ ("left", "failed") ∷ ("total", "blocked") ∷ [])
unfolding program run_states
left_fails = refl
