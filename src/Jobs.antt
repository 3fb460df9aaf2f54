-- ===== src/Jobs.antt =====
-- orchestration/jobs.py: the pool that runs each ask on a thread of its own. A critical section
-- under `_lock`, and each wait outside it, is one step; a schedule of steps is an interleaving.
pub mod State
pub mod Defs
pub mod Accounts
pub mod Invariant
pub mod Progress
pub mod Drain
pub mod Guarantees
pub mod Threads
mod Tests
