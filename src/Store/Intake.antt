-- ===== src/Store/Intake.antt =====
-- persistence/sqlite.py: the messages that were claimed, and the claimed messages that wait for
-- their task, as the tables `seen_messages` and `pending_intake`.
pub mod Kept
pub mod Waits
mod Tests
use discord_os.Prelude.{
  ℕ, suc, Bool, true, false, ◌||◌, Option, none, some, List, [], ◌∷◌, nat_eq, if◌then◌else◌,
  is_empty,
}
use discord_os.Text.{Text, txt, text_eq, strip}
use discord_os.Table.{row_of, upsert, delete}

-- A row of `seen_messages`; `seen_at` is not read.
pub record Seen : Type 0 where
  pub message_id : Text
  pub channel_id : Option Text
  pub task_id : Option Text
  pub run_id : Option Text

-- What `record_pending_intake` is given; `metadata` is the text that `json.dumps` makes of it.
pub record Intake : Type 0 where
  pub message_id : Text
  pub channel_id : Text
  pub thread_id : Text
  pub workspace_id : Text
  pub guild_id : Text
  pub requester_id : Text
  pub text : Text
  pub metadata : Text

-- A row of `pending_intake`.
pub record Pending : Type 0 where
  pub intake : Intake
  pub attempts : ℕ
  pub created_ms : ℕ

pub record Messages : Type 0 where
  pub seen : List Seen
  pub pending : List Pending

abbrev pub seen_key : Seen → Text
seen_key row = row.message_id

abbrev pub pending_key : Pending → Text
pending_key row = row.intake.message_id

-- get_inbound_message
unfoldable pub get_inbound_message : Text → Messages → Option Seen
unfolding row_of
get_inbound_message message_id m =
    if is_empty message_id then none else row_of seen_key message_id m.seen

unfoldable pub pending_of : Text → Messages → Option Pending
unfolding row_of
pending_of message_id m = row_of pending_key message_id m.pending

abbrev pub new_seen : Text → Option Text → Seen
new_seen message_id channel_id = record {
  message_id = message_id;
  channel_id = channel_id;
  task_id = none;
  run_id = none;
}

-- The insertion, by the row that is there already: with one, it raises IntegrityError.
unfoldable pub insert_seen : Text → Option Text → Option Seen → Messages → Bool × Messages
unfolding upsert
insert_seen message_id channel_id (some row) m = (false, m)
insert_seen message_id channel_id none m =
    (true, record m { seen = upsert seen_key (new_seen message_id channel_id) m.seen })

-- claim_inbound_message
unfoldable pub claim_inbound_message : Text → Option Text → Messages → Bool × Messages
unfolding insert_seen row_of
claim_inbound_message message_id channel_id m =
    if is_empty message_id
    then (true, m)
    else insert_seen message_id channel_id (row_of seen_key message_id m.seen) m

-- COALESCE(?, channel_id)
unfoldable pub coalesce : Option Text → Option Text → Option Text
coalesce none old = old
coalesce (some new) old = some new

-- UPDATE seen_messages SET … WHERE message_id=?
unfoldable pub update_seen : Text → Text → Option Text → Option Seen → List Seen → List Seen
unfolding upsert coalesce
update_seen task_id run_id channel_id none rows = rows
update_seen task_id run_id channel_id (some row) rows =
    upsert seen_key
      (record row {
        channel_id = coalesce channel_id row.channel_id;
        task_id = some task_id;
        run_id = some run_id;
      })
      rows

-- bind_inbound_message
unfoldable pub bind_inbound_message : Text → Text → Text → Option Text → Messages → Messages
unfolding update_seen row_of delete
bind_inbound_message message_id task_id run_id channel_id m =
    if is_empty message_id then m else record {
      seen = update_seen task_id run_id channel_id (row_of seen_key message_id m.seen) m.seen;
      pending = delete pending_key message_id m.pending;
    }

-- (workspace_id or "default").strip() or "default"
unfoldable pub workspace_of : Text → Text
unfolding strip
workspace_of workspace_id =
    if is_empty (strip workspace_id) then txt "default" else strip workspace_id

unfoldable pub stripped : Intake → Intake
unfolding strip workspace_of
stripped i = record {
  message_id = strip i.message_id;
  channel_id = strip i.channel_id;
  thread_id = strip i.thread_id;
  workspace_id = workspace_of i.workspace_id;
  guild_id = strip i.guild_id;
  requester_id = strip i.requester_id;
  text = strip i.text;
  metadata = i.metadata;
}

-- The row that is written: a row that is there keeps its attempts and its time.
unfoldable pub pending_row : Intake → ℕ → Option Pending → Pending
pending_row i now none = record { intake = i; attempts = 0; created_ms = now }
pending_row i now (some row) = record {
  intake = i;
  attempts = row.attempts;
  created_ms = row.created_ms;
}

-- record_pending_intake
unfoldable pub record_pending_intake : Intake → ℕ → Messages → Messages
unfolding stripped pending_row row_of upsert strip
record_pending_intake i now m =
    if is_empty (strip i.message_id) || is_empty (strip i.text) then m else record m {
      pending =
          upsert pending_key
            (pending_row (stripped i) now (row_of pending_key (strip i.message_id) m.pending))
            m.pending;
    }

-- clear_pending_intake
unfoldable pub clear_pending_intake : Text → Messages → Messages
unfolding strip delete
clear_pending_intake message_id m =
    if is_empty (strip message_id)
    then m
    else record m { pending = delete pending_key (strip message_id) m.pending }

unfoldable pub note_attempt : Option Pending → Messages → ℕ × Messages
unfolding upsert
note_attempt none m = (0, m)
note_attempt (some row) m = (
  suc row.attempts,
  record m { pending = upsert pending_key (record row { attempts = suc row.attempts }) m.pending },
)

-- note_pending_intake_attempt
unfoldable pub note_pending_intake_attempt : Text → Messages → ℕ × Messages
unfolding strip row_of note_attempt
note_pending_intake_attempt message_id m =
    if is_empty (strip message_id)
    then (0, m)
    else note_attempt (row_of pending_key (strip message_id) m.pending) m

-- A call of the store, by any thread of any process.
pub data Call : Type 0 where
  claiming : Text → Option Text → Call
  binding : Text → Text → Text → Option Text → Call
  recording : Intake → ℕ → Call
  clearing counting : Text → Call

unfoldable pub perform : Call → Messages → Messages
unfolding claim_inbound_message bind_inbound_message record_pending_intake clear_pending_intake
    note_pending_intake_attempt
perform (claiming message_id channel_id) m = (claim_inbound_message message_id channel_id m).1
perform (binding message_id task_id run_id channel_id) m =
    bind_inbound_message message_id task_id run_id channel_id m
perform (recording i now) m = record_pending_intake i now m
perform (clearing message_id) m = clear_pending_intake message_id m
perform (counting message_id) m = (note_pending_intake_attempt message_id m).1

unfoldable pub perform_all : List Call → Messages → Messages
unfolding perform
perform_all [] m = m
perform_all (c ∷ calls) m = perform_all calls (perform c m)
