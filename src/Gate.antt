-- ===== src/Gate.antt =====
-- orchestration/ask_gate.py and the grants of orchestration/service.py: which tool calls run, which
-- raise a card, and what an "Always allow" remembers.
pub mod Preferences
pub mod Decision
pub mod Scope
pub mod Spoken
pub mod Buttons
pub mod Selection
pub mod Classes
pub mod Grants
