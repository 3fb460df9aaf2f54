-- ===== src/Research.antt =====
-- persistence/research.py
pub mod Leases
