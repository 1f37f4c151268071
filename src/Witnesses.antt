-- ===== src/Witnesses.antt =====
-- The theorems about the history and the plans at concrete data.
mod Store
mod Plans
mod Runs
mod Effects
mod Reuse
mod Commands
