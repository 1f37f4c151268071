-- ===== src/Engine.antt =====
-- The native engine: crates/traversal-core (graph structure and scheduler state) and the part of
-- crates/traversal-python that the Python package calls.
pub mod Errors
pub mod Builder
pub mod Topology
pub mod Run
pub mod Binding
pub mod Samples
mod Witnesses
