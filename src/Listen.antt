-- ===== src/Listen.antt =====
-- How messages come in: orchestration/listen.py.
pub mod Watermark
pub mod Commands
pub mod Desk
pub mod Drain
pub mod Backlog
mod Examples
