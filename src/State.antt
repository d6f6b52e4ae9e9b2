-- ===== src/State.antt =====
-- application/state_persistence.py and application/strategy_run_persistence.py: durable state in an
-- object store.
pub mod Store
pub mod Keys
pub mod Runs
pub mod Periods
pub mod States
mod Tests
