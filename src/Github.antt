-- ===== src/Github.antt =====
-- What GitHub says of pull requests: orchestration/github_wake.py and github_rules.py.
pub mod Wake
pub mod Ledger
pub mod Rules
