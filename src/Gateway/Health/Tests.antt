-- ===== src/Gateway/Health/Tests.antt =====
-- discord/gateway_health.py: the theorems at a session that falls silent.
use discord_os.Prelude.{◌+◌, ◌≤◌, ◌≡◌, refl, ◌≢◌, true, List, [], ◌∷◌, arith}
use discord_os.Gateway.Health.{
  initial, Note, connected, gateway_expected, ready, heartbeat_interval, heartbeat_ack, note_all,
  snapshot, scaled,
}
use discord_os.Gateway.Health.Verdicts.{snapshot-ok}

abbrev session : List Note
session =
    gateway_expected 1000
    ∷ connected
    ∷ ready 2000
    ∷ heartbeat_interval 60000
    ∷ heartbeat_ack 50000
    ∷ []

snapshot-ok_example :
    let s = note_all session initial in
    (s.connected ≡ true) × (s.last_ack_at ≢ 0) × (190000 ≤ s.last_ack_at + scaled s)
unfolding note_all initial snapshot
snapshot-ok_example = snapshot-ok session 190000 (omega arith) refl refl
