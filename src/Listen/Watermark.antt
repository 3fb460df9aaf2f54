-- ===== src/Listen/Watermark.antt =====
-- orchestration/listen.py: how far a channel or a thread has been read, as the row of
-- `listen_watermarks` (persistence/sqlite.py), and which messages are newer.
pub mod Covers
mod Tests
use discord_os.Prelude.{
  ℕ, Bool, true, false, not, ◌&&◌, Option, none, some, List, [], ◌∷◌, nat_eq, ◌==◌, if◌then◌else◌,
  is_empty,
}
use discord_os.Text.{Text, text_eq}
use discord_os.Text.Number.{ℤ, int_of}
use discord_os.Text.Number.Order.{ltb_ℤ, eqb_ℤ, shift_22, add_ℕ}

abbrev pub discord_epoch_ms : ℕ
discord_epoch_ms = 1420070400000

-- snowflake_created_ms
unfoldable pub snowflake_created_ms : Text → Option ℤ
unfolding int_of shift_22 add_ℕ
snowflake_created_ms message_id = elim (int_of message_id) [
  | none ↦ none
  | some n ↦ some (add_ℕ (shift_22 n) discord_epoch_ms)
]

-- A row of `listen_watermarks`, of one channel or thread.
pub record Watermark : Type 0 where
  pub last_created_ms : Option ℤ
  pub last_message_id : Text

-- int(message_id) > int(previous_id), or that they differ where one is no number
unfoldable pub id_above : Text → Text → Option ℤ → Option ℤ → Bool
id_above message_id previous_id (some m) (some p) = ltb_ℤ p m
id_above message_id previous_id none q = not (message_id == previous_id)
id_above message_id previous_id (some m) none = not (message_id == previous_id)

-- _message_id_after
unfoldable pub message_id_after : Text → Text → Bool
unfolding id_above int_of
message_id_after message_id previous_id =
    if is_empty previous_id
    then not (is_empty message_id)
    else if message_id == previous_id
    then false
    else id_above message_id previous_id (int_of message_id) (int_of previous_id)

-- _inbound_newer_than_watermark, by the two times
unfoldable pub newer_by : Text → Text → Option ℤ → Option ℤ → Bool
unfolding message_id_after
newer_by message_id last_id (some ms) (some last) =
    if eqb_ℤ ms last then message_id_after message_id last_id else ltb_ℤ last ms
newer_by message_id last_id (some ms) none = true
newer_by message_id last_id none last = not (is_empty message_id) && not (message_id == last_id)

unfoldable pub inbound_newer_than_watermark : Text → Option ℤ → Watermark → Bool
unfolding newer_by
inbound_newer_than_watermark message_id created_ms w =
    newer_by message_id w.last_message_id created_ms w.last_created_ms

abbrev pub mark : Option ℤ → Text → Watermark
mark ms message_id = record { last_created_ms = ms; last_message_id = message_id }

-- a or b, for ids
abbrev pub id_or : Text → Text → Text
id_or message_id last_id = if is_empty message_id then last_id else message_id

-- _watermark_after, by the two times
unfoldable pub mark_after : Text → Text → Option ℤ → Option ℤ → Watermark
unfolding message_id_after
mark_after message_id last_id (some ms) none = mark (some ms) (id_or message_id last_id)
mark_after message_id last_id (some ms) (some last) =
    if ltb_ℤ last ms
    then mark (some ms) (id_or message_id last_id)
    else if eqb_ℤ ms last && message_id_after message_id last_id
    then mark (some last) message_id
    else mark (some last) last_id
mark_after message_id last_id none last =
    if not (is_empty message_id) && not (message_id == last_id)
    then mark last message_id
    else mark last last_id

unfoldable pub watermark_after : Watermark → Option ℤ → Text → Watermark
unfolding mark_after
watermark_after w created_ms message_id =
    mark_after message_id w.last_message_id created_ms w.last_created_ms

-- The mark after a message, and after several in turn.
unfoldable pub advance : Text → Watermark → Watermark
unfolding watermark_after snowflake_created_ms
advance message_id w = watermark_after w (snowflake_created_ms message_id) message_id

unfoldable pub advance_all : List Text → Watermark → Watermark
unfolding advance
advance_all [] w = w
advance_all (m ∷ ids) w = advance_all ids (advance m w)

-- Whether drain_inbound takes up a message.
unfoldable pub is_newer : Text → Watermark → Bool
unfolding inbound_newer_than_watermark snowflake_created_ms
is_newer message_id w = inbound_newer_than_watermark message_id (snowflake_created_ms message_id) w
