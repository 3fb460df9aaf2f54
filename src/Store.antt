-- ===== src/Store.antt =====
-- The message tables of persistence/sqlite.py.
pub mod Intake
pub mod Queue
