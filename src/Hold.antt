-- ===== src/Hold.antt =====
-- The hold of a worker at a gate: orchestration/orchestrator.py, orchestration/gate_hook.py and
-- orchestration/plan_approve.py.
pub mod Plan
pub mod Parked
pub mod Resolve
pub mod Actions
pub mod Wait
pub mod Expiry
pub mod Drain
