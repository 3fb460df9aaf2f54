-- ===== src/Gateway/Health/Verdicts.antt =====
-- discord/gateway_health.py: what a verdict says of what was noted before it.
use discord_os.Prelude.{
  ℕ, ◌+◌, ◌≤◌, ◌<◌, ◌≡◌, refl, ◌∙◌, ◌≢◌, ◌⊎◌, Bool, true, false, ◌||◌, List, [], ◌∷◌, arith, ltb,
  if◌then◌else◌, All, any,
}
use discord_os.Gateway.Health.{
  State, initial, Note, connected, gateway_expected, ready, heartbeat_interval, heartbeat_sent,
  heartbeat_ack, closed, note, note_all, well, never_ready, scaled, ack_age_at, none_or_below,
  none_or_above, snapshot, never_ready_grace, ready_grace,
}

-- The clock of a note does not stand at 0.
abbrev pub HasTime : Note → Type 0
HasTime (gateway_expected now) = 0 < now
HasTime (ready now) = 0 < now
HasTime (heartbeat_ack now) = 0 < now
HasTime _ = Unit

-- A socket that is READY has a time of READY and a first sign of life.
abbrev pub HasSign : State → Type 0
HasSign s = s.ready ≡ true → (s.ready_at ≢ 0) × (s.last_ack_at ≢ 0)

note-HasSign : (n : Note) (s : State) → HasTime n → HasSign s → HasSign (note n s)
unfolding note
note-HasSign connected s t h = λ r. cc
note-HasSign (gateway_expected now) s t h = λ r. ground (arith, h)
note-HasSign (ready now) s t h = λ r. ground arith
note-HasSign (heartbeat_interval ms) s t h = λ r. ground (arith, h)
note-HasSign (heartbeat_sent now) s t h = h
note-HasSign (heartbeat_ack now) s t h = λ r. (ground (arith, h r), ground arith)
note-HasSign (closed reason now) s t h = h

note_all-HasSign :
    (notes : List Note) (s : State) → All HasTime notes → HasSign s → HasSign (note_all notes s)
unfolding note_all
note_all-HasSign [] s t h = h
note_all-HasSign (n ∷ notes) s t h = note_all-HasSign notes (note n s) t.1 (note-HasSign n s t.0 h)

initial-HasSign : HasSign initial
unfolding initial
initial-HasSign = λ r. cc

-- After any notes of a process, a verdict that is well on a READY socket means that the socket is
-- connected and that a sign of life is no older than the scaled limit.
pub snapshot-ok :
    (notes : List Note) (now : ℕ)
    → All HasTime notes
    → (note_all notes initial).ready ≡ true
    → (snapshot now (note_all notes initial)).ok ≡ true
    → let s = note_all notes initial in
      (s.connected ≡ true) × (s.last_ack_at ≢ 0) × (now ≤ s.last_ack_at + scaled s)
unfolding snapshot ack_age_at none_or_below none_or_above
snapshot-ok notes now t r ok = ground (arith, note_all-HasSign notes initial t initial-HasSign r)

-- Conversely a READY socket that is connected, past its grace and silent for longer than the limit
-- is reported, and so is one that is not connected.
pub snapshot-silent :
    (now : ℕ) (s : State)
    → s.ready ≡ true
    → (s.connected ≡ false) ⊎ ((s.ready_at + ready_grace ≤ now) × (s.last_ack_at + scaled s < now))
    → (snapshot now s).ok ≡ false
unfolding snapshot ack_age_at none_or_below none_or_above
snapshot-silent now s r silent = ground arith

abbrev pub is_ready_note : Note → Bool
is_ready_note (ready now) = true
is_ready_note _ = false

abbrev pub is_expected_note : Note → Bool
is_expected_note (gateway_expected now) = true
is_expected_note _ = false

note-waiting :
    (n : Note) (s : State)
    → is_ready_note n ≡ false
    → (s.expected ≡ true) × (s.ready ≡ false)
    → ((note n s).expected ≡ true)
      × ((note n s).ready ≡ false)
      × ((note n s).expected_at ≡ s.expected_at)
unfolding note
note-waiting n s h w = ground arith

note_all-waiting :
    (notes : List Note) (s : State)
    → any is_ready_note notes ≡ false
    → (s.expected ≡ true) × (s.ready ≡ false)
    → let after = note_all notes s in
      (after.expected ≡ true) × (after.ready ≡ false) × (after.expected_at ≡ s.expected_at)
unfolding note_all
note_all-waiting [] s h w = (w.0, w.1, refl)
note_all-waiting (n ∷ notes) s h w =
    let (e, r, at) = note-waiting n s (ground arith) w in
    let (e', r', at') = note_all-waiting notes (note n s) (ground arith) (e, r) in
    (e', r', at' ∙ at)

expected_at-start : (start : ℕ) → (note (gateway_expected start) initial).expected_at ≡ start
unfolding note initial
expected_at-start start = refl

note-quiet :
    (n : Note) (s : State)
    → (is_ready_note n || is_expected_note n) ≡ false
    → (s.expected ≡ false) × (s.ready ≡ false)
    → ((note n s).expected ≡ false) × ((note n s).ready ≡ false)
unfolding note
note-quiet n s h w = ground arith

note_all-quiet :
    (notes : List Note) (s : State)
    → any (λ n. is_ready_note n || is_expected_note n) notes ≡ false
    → (s.expected ≡ false) × (s.ready ≡ false)
    → ((note_all notes s).expected ≡ false) × ((note_all notes s).ready ≡ false)
unfolding note_all
note_all-quiet [] s h w = w
note_all-quiet (n ∷ notes) s h w =
    note_all-quiet notes (note n s) (ground arith) (note-quiet n s (ground arith) w)

-- A Gateway that a process expects from `start` on, and that is never READY, is well until the grace
-- is over and is reported as never READY from then on, whatever else is noted.
pub snapshot-never_ready :
    (start now : ℕ) (notes : List Note)
    → 0 < start
    → any is_ready_note notes ≡ false
    → let h = snapshot now (note_all notes (note (gateway_expected start) initial)) in
      (h.ok ≡ ltb now (start + never_ready_grace))
      × (h.reason ≡ (if ltb now (start + never_ready_grace) then well else never_ready))
unfolding snapshot
snapshot-never_ready start now notes p h = ground (
  arith,
  note_all-waiting notes (note (gateway_expected start) initial) h
      (unfold note initial in (refl, refl)),
  expected_at-start start,
)

-- A process that expects no Gateway and has none READY is always well, whatever it notes else.
pub snapshot-quiet :
    (now : ℕ) (notes : List Note)
    → any (λ n. is_ready_note n || is_expected_note n) notes ≡ false
    → ((snapshot now (note_all notes initial)).ok ≡ true)
      × ((snapshot now (note_all notes initial)).reason ≡ well)
unfolding snapshot
snapshot-quiet now notes h =
    ground (arith, note_all-quiet notes initial h (unfold initial in (refl, refl)))
