-- ===== src/Listen/Desk.antt =====
-- orchestration/listen.py: the messages that `drain_inbound` takes up, and the part of the store and
-- of the job pool that a drain changes. What the parts of the program that are left out answer
-- about a message is a `Scene`; posts to Discord, and what the handlers of commands write
-- elsewhere, are not part of the state.
use discord_os.Prelude.{ℕ, Bool, true, Option, none, some, List, [], ◌∷◌, if◌then◌else◌, is_empty}
use discord_os.Text.{Text}
use discord_os.Store.Intake.{Messages, Intake, claim_inbound_message, record_pending_intake}
use discord_os.Store.Queue.{Queued, is_queued, mark_inbound_applied}
use discord_os.Operators.{Operators, Environment, author_may_dispatch}

-- A message of Discord; `is_preclaimed` says that its voice memo was claimed before it was
-- transcribed.
pub record DiscordMessage : Type 0 where
  pub message_id : Text
  pub author_id : Text
  pub role_ids : List Text
  pub content : Text
  pub is_preclaimed : Bool

-- Where the drain reads.
pub record Place : Type 0 where
  pub channel_id : Text
  pub workspace_id : Text
  pub guild_id : Text

-- The row of a job that somebody claims.
pub record JobRow : Type 0 where
  pub task_id : Text
  pub is_live : Bool
  pub claimed_by : Text

-- What the parts left out say of a message: the voice intake, the other parsers, the host's
-- switches, the job pool, the parked run, and the texts that are built of it.
pub record Scene : Type 0 where
  pub now : ℕ
  pub intake_text : Text
  pub metadata : Text
  pub needs_transcribe : Bool
  pub skip_voice : Bool
  pub is_jishaku : Bool
  pub scheduled : Option Text
  pub is_dispatchable : Bool
  pub is_halted : Bool
  pub follow_thread : Text
  pub is_spoken : Bool
  pub fork_prompt : Option Text
  pub fork_node : Bool
  pub captures : Bool
  pub capture_text : Text
  pub has_running_job : Bool
  pub queues : Bool
  pub steers : Bool
  pub running_run : Text
  pub fresh_id : Text
  pub claimed_code : Option (Option JobRow)
  pub handoff : Option (Text × Text)
  pub is_handed_off : Bool
  pub has_pool : Bool

-- What a message comes to.
pub data Route : Type 0 where
  connects binds powers opens shows_host jishaku transcribes misses_voice schedules_it : Route
  ignored paused refused spoken forks fork_refused duplicate captured followed : Route
  job_claimed job_refused hands_off handed_before asks : Route

-- The part of the store and of the job pool that a drain changes: whether the channel is on, the
-- schedules by their prompt and author, the jobs on the board by their task and who claimed them, and
-- the intakes that were handed on, each beside the id of the message that it came from.
pub record Desk : Type 0 where
  pub is_armed : Bool
  pub messages : Messages
  pub operators : Operators
  pub queue : List Queued
  pub schedules : List (Text × Text)
  pub job_claims : List (Text × Text)
  pub submitted : List (Text × Intake)

-- a or b
abbrev pub text_or : Text → Text → Text
text_or a b = if is_empty a then b else a

-- _claim_inbound
unfoldable pub claim_inbound : Place → DiscordMessage → Desk → Bool × Desk
unfolding claim_inbound_message
claim_inbound place m d =
    let claimed = claim_inbound_message m.message_id (some place.channel_id) d.messages in
    if m.is_preclaimed then (true, d) else (claimed.0, record d { messages = claimed.1 })

-- The claim of the commands that do not ask whether a voice memo was claimed.
unfoldable pub claim_own : Place → DiscordMessage → Desk → Desk
unfolding claim_inbound_message
claim_own place m d = record d {
  messages = (claim_inbound_message m.message_id (some place.channel_id) d.messages).1;
}

-- A route after a claim, whatever it says.
unfoldable pub claim_then : Route → Place → DiscordMessage → Desk → Route × Desk
unfolding claim_inbound
claim_then route place m d = (route, (claim_inbound place m d).1)

-- author_may_dispatch, which may make the author the owner
unfoldable pub may_dispatch : Environment → Scene → Text → List Text → Desk → Bool × Desk
unfolding author_may_dispatch
may_dispatch env scene user_id role_ids d =
    let asked = author_may_dispatch user_id role_ids env scene.now d.operators in
    (asked.0, record d { operators = asked.1 })

-- A job is handed to the pool, or run at once where there is none, on account of a message.
unfoldable pub hand_over : Text → Intake → Desk → Desk
hand_over source i d = record d { submitted = (source, i) ∷ d.submitted }

-- record_pending_intake of this file: nothing is kept of an intake without a message
unfoldable pub remember : ℕ → Intake → Desk → Desk
unfolding record_pending_intake
remember now i d =
    if is_empty i.message_id
    then d
    else record d { messages = record_pending_intake i now d.messages }

abbrev pub intake_of : Place → Scene → Text → Text → Text → Text → Intake
intake_of place scene message_id thread_id requester_id text = record {
  message_id = message_id;
  channel_id = place.channel_id;
  thread_id = thread_id;
  workspace_id = place.workspace_id;
  guild_id = place.guild_id;
  requester_id = requester_id;
  text = text;
  metadata = scene.metadata;
}

-- The item of _handle_live_thread_followup.
abbrev pub follow_item : Place → Scene → DiscordMessage → Text → Queued
follow_item place scene m text = record {
  queue_id = [];
  message_id = m.message_id;
  channel_id = place.channel_id;
  thread_id = scene.follow_thread;
  run_id = scene.running_run;
  workspace_id = place.workspace_id;
  author_id = m.author_id;
  text = text;
  status = is_queued;
  created_ms = scene.now;
}

-- A queued follow-up is applied at once where the worker took it.
unfoldable pub settle_queued : Bool → Option Text × List Queued → List Queued
unfolding mark_inbound_applied
settle_queued steered (none, rows) = rows
settle_queued steered (some queue_id, rows) =
    if steered then mark_inbound_applied queue_id [] rows else rows
