-- ===== src/Gateway.antt =====
-- discord/gateway.py, discord/gateway_health.py and the ownership rows of persistence/sqlite.py
pub mod Owners
pub mod Health
