-- ===== src/Execution.antt =====
-- application/execution_service.py: the value-target execution cycle.
pub mod Plan
pub mod Sizing
pub mod SafeHaven
pub mod Compatibility
pub mod Orders
pub mod Submission
pub mod Cycle
pub mod Tests
