-- ===== src/Lib.antt =====
-- A verification of traversal, which runs graphs of Python functions: a Python package over a
-- native scheduler in Rust.
--
-- The parts and how they interact. A user adds functions to a `Graph` and compiles it to a `Plan`
-- (python/traversal/graph.py). The plan hands names and dependency rows to the native module
-- (crates/traversal-python), which builds, orders and selects them and keeps the state of a run
-- (crates/traversal-core). `Plan.arun` moves between that state, the functions and the run history
-- in SQLite (python/traversal/history.py), in which results with explicit keys are kept for reuse
-- (python/traversal/cache.py).
--
-- Engine: the native part. Engine.Builder and Engine.Topology are
-- crates/traversal-core/src/graph.rs, Engine.Run is crates/traversal-core/src/run.rs,
-- Engine.Binding is crates/traversal-python/src/lib.rs. A method that changes its object returns
-- the new one; a `Result` keeps the error with the values that its text shows. Engine.Run.Reach has
-- the runs: any sequence of admit, finish and cancel. Engine.Run.Contract is an abstract scheduler
-- with the nodes' states only, to which Engine.Run.Refines leads.
--
-- Cache: python/traversal/cache.py. A Python value is an `Object`; `json`, `hashlib` and the UTF-8
-- length are the fields of a record `Codec`, whose law says that what `dumps` printed of a value
-- that `check` passes is read back to one that passes and prints the same. `frames` is the room on
-- the interpreter's stack.
--
-- History: python/traversal/history.py. A `Database` is the three tables as lists of rows and the
-- run IDs whose lease is held; each SQL statement is a function on rows. A method that raises
-- leaves the database as it was. Clock and UUID are arguments. History.Schema is the migration, in which the
-- statements that SQLite refuses raise.
--
-- Values, Graph, Plan, Report: the classes of graph.py, without `arun`. Dictionaries are
-- association lists in the order of insertion; the object identity `_owner` is a number.
--
-- Coordinator: `arun`. Coordinator.Prepare is what comes before its loop, Coordinator has dispatch
-- and completion as statements that pass the local variables on, also when they raise, and
-- Coordinator.Loop has the loop, the interrupted end and the report. Which futures are done, and
-- how each ended, is a list of batches that stands for asyncio and the functions;
-- Coordinator.Schedule says which batches `asyncio.wait` may return. Coordinator.Arun puts `arun`
-- together, with `invoke`, `Plan.run`, `Plan.resume` and `Graph.run`. Coordinator.Reuse compares a dispatch with the advice of `explain_run`. Coordinator.Good is the
-- invariant of the loop under such batches, and Coordinator.Stable and Coordinator.Always lead what
-- every call of the history keeps to the end of `arun`, whatever the batches are.
--
-- Command: python/traversal/__main__.py, with the files of the package and what `argparse` returns as
-- arguments.
--
-- Exceptions, Base: results that may raise, and what all parts share. Engine.Samples and
-- Coordinator.Samples run small graphs; Engine.Witnesses and Witnesses apply the theorems to them.
--
-- Fuel. The ordering loop takes one round for each node, the blocking loop one unit for each node
-- it blocks, and the selecting loop one for each node it selects: no node is counted twice, so the
-- number of nodes is enough, and the theorems on these loops have no hypothesis about fuel. A round
-- of `arun` settles a node or waits for a batch that settles one, so that more fuel than there are
-- unfinished nodes is enough.
--
-- Machine integers are native numbers: all counters are bounded by the number of nodes. Indices
-- that the Rust code reads unchecked are read with a default; the invariants say that they are in
-- range.
--
-- Not modelled: the re-exports of the package, the skill scripts, examples and benchmarks, threads
-- and context variables of `invoke`, the parsing and printing of the command line, files behind the
-- leases, and SQLite's own failures.
pub mod Base
pub mod Engine
pub mod Exceptions
pub mod Cache
pub mod History
pub mod Values
pub mod Graph
pub mod Plan
pub mod Report
pub mod Command
pub mod Coordinator
pub mod Witnesses
