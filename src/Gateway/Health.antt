-- ===== src/Gateway/Health.antt =====
-- discord/gateway_health.py: whether the Gateway socket is alive, from what was noted of it. The
-- clock's readings are arguments in milliseconds; 0.0 stands for a time that was never noted.
pub mod Verdicts
mod Tests
use discord_os.Prelude.{
  ℕ, ◌+◌, ◌-◌, ◌*◌, ◌/◌, max, Bool, true, false, not, ◌&&◌, Option, none, some, List, [], ◌∷◌, ltb,
  leb, nat_eq, ◌==◌, if◌then◌else◌, take, is_empty,
}
use discord_os.Text.{Text, txt, text_eq}

abbrev pub ack_stale : ℕ
ack_stale = 120000

abbrev pub ready_grace : ℕ
ready_grace = 90000

abbrev pub never_ready_grace : ℕ
never_ready_grace = 90000

pub record State : Type 0 where
  pub ready : Bool
  pub connected : Bool
  pub last_ack_at : ℕ
  pub last_heartbeat_sent_at : ℕ
  pub heartbeat_interval_ms : ℕ
  pub ready_at : ℕ
  pub closed_at : ℕ
  pub close_reason : Text
  pub expected : Bool
  pub expected_at : ℕ

-- reset_gateway_health_for_tests, and the state that a process starts with
unfoldable pub initial : State
initial = record {
  ready = false;
  connected = false;
  last_ack_at = 0;
  last_heartbeat_sent_at = 0;
  heartbeat_interval_ms = 41250;
  ready_at = 0;
  closed_at = 0;
  close_reason = [];
  expected = false;
  expected_at = 0;
}

-- What the host notes of its socket, with the time where the code takes one.
pub data Note : Type 0 where
  connected : Note
  gateway_expected : ℕ → Note
  ready : ℕ → Note
  heartbeat_interval : ℕ → Note
  heartbeat_sent : ℕ → Note
  heartbeat_ack : ℕ → Note
  closed : Text → ℕ → Note

-- note_connected, note_gateway_expected, note_ready, note_heartbeat_interval,
-- note_heartbeat_sent, note_heartbeat_ack, note_closed
unfoldable pub note : Note → State → State
note connected s = record s {
  connected = true;
  closed_at = 0;
  close_reason = [];
  ready = false;
  last_ack_at = 0;
  ready_at = 0;
}
note (gateway_expected now) s =
    if s.expected then s else record s { expected = true; expected_at = now }
note (ready now) s = record s {
  ready = true;
  connected = true;
  ready_at = now;
  last_ack_at = if s.last_ack_at == 0 then now else s.last_ack_at;
}
note (heartbeat_interval ms) s = if ms == 0 then s else record s { heartbeat_interval_ms = ms }
note (heartbeat_sent now) s = record s { last_heartbeat_sent_at = now }
note (heartbeat_ack now) s = record s { last_ack_at = now; connected = true }
note (closed reason now) s = record s {
  connected = false;
  closed_at = now;
  close_reason = take 200 reason;
}

unfoldable pub note_all : List Note → State → State
unfolding note
note_all [] s = s
note_all (n ∷ notes) s = note_all notes (note n s)

-- Why a socket is not well.
pub data Reason : Type 0 where
  well : Reason
  never_ready : Reason
  socket_closed : Text → Reason
  ack_stale_for : Option ℕ → Reason

pub record GatewayHealth : Type 0 where
  pub is_ready : Bool
  pub is_connected : Bool
  pub ack_age : Option ℕ
  pub ok : Bool
  pub reason : Reason
  pub checked_at : ℕ

-- max(ack_stale_s, (interval_ms / 1000.0) * 2.5), in milliseconds; 0 stands for the default interval
unfoldable pub scaled : State → ℕ
scaled s =
    let interval = if s.heartbeat_interval_ms == 0 then 41250 else s.heartbeat_interval_ms in
    max ack_stale (interval * 5 / 2)

unfoldable pub ack_age_at : ℕ → State → Option ℕ
ack_age_at now s = if s.last_ack_at == 0 then none else some (now - s.last_ack_at)

-- `age is None or age < limit`, and `age is None or age > limit`
unfoldable pub none_or_below : ℕ → Option ℕ → Bool
none_or_below limit none = true
none_or_below limit (some age) = ltb age limit

unfoldable pub none_or_above : ℕ → Option ℕ → Bool
none_or_above limit none = true
none_or_above limit (some age) = ltb limit age

-- One of the results of `snapshot_gateway_health`.
abbrev pub health : ℕ → State → Bool → Bool → Bool → Reason → GatewayHealth
health now s is_ready is_connected ok reason = record {
  is_ready = is_ready;
  is_connected = is_connected;
  ack_age = ack_age_at now s;
  ok = ok;
  reason = reason;
  checked_at = now;
}

-- snapshot_gateway_health with its default limits. A difference of times may be negative, so the
-- tests are written as sums.
unfoldable pub snapshot : ℕ → State → GatewayHealth
unfolding scaled ack_age_at none_or_below none_or_above
snapshot now s =
    let age = ack_age_at now s in
    if not s.ready
    then (if s.expected && not (s.expected_at == 0) && leb (s.expected_at + never_ready_grace) now
        then health now s false s.connected false never_ready
        else health now s false s.connected true well)
    else if not s.connected
    then health now s true false false (
        socket_closed
          (if is_empty s.close_reason then txt "gateway socket closed" else s.close_reason))
    else if not (s.ready_at == 0)
        && ltb now (s.ready_at + ready_grace)
        && none_or_below (scaled s) age
    then health now s true true true well
    else if none_or_above (scaled s) age
    then health now s true true false (ack_stale_for age)
    else health now s true true true well
