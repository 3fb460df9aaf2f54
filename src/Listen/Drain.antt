-- ===== src/Listen/Drain.antt =====
-- orchestration/listen.py: what `drain_inbound` does with one message.
pub mod Cases
pub mod Authority
pub mod Requester
pub mod Weights
pub mod Once
pub mod Events
pub mod Durable
mod Tests
use discord_os.Prelude.{
  Bool, true, false, not, ◌&&◌, ◌||◌, Option, none, some, [], ◌∷◌, nat_eq, ◌==◌, if◌then◌else◌,
  is_empty,
}
use discord_os.Text.{Text, text_eq, strip}
use discord_os.Store.Queue.{enqueue_inbound}
use discord_os.Operators.{author_may_operate, Environment, seed_owner_if_empty}
use discord_os.Listen.Commands.{
  is_connect_command, is_bind_command, is_power_command, is_open_command, asks_on, power_action,
}
use discord_os.Listen.Desk.{
  DiscordMessage, Place, JobRow, Scene, Route, Desk, text_or, claim_inbound, claim_own, claim_then,
  may_dispatch, hand_over, remember, intake_of, follow_item, settle_queued, connects, binds, powers,
  opens, shows_host, jishaku, transcribes, misses_voice, schedules_it, ignored, paused, refused,
  spoken, forks, fork_refused, duplicate, captured, followed, job_claimed, job_refused, hands_off,
  handed_before, asks,
}

module _ (env : Environment) (place : Place) (scene : Scene) (m : DiscordMessage) where
  -- _handle_live_thread_followup
  unfoldable pub follow_up : Text → Desk → Desk
  unfolding enqueue_inbound settle_queued
  follow_up text d =
      if scene.queues
      then record d {
        queue =
            settle_queued scene.steers
              (enqueue_inbound (follow_item place scene m text) scene.fresh_id d.queue);
      }
      else d

  -- An ask: it is remembered, and then handed on.
  unfoldable pub pass_on : Text → Desk → Route × Desk
  unfolding remember hand_over
  pass_on text d =
      let i = intake_of place scene m.message_id scene.follow_thread m.author_id text in
      (asks, hand_over m.message_id i (remember scene.now i d))

  -- "handoff <peer>: <prompt>", after the author was asked for once more
  unfoldable pub hand_off_as : Text → Text → Bool × Desk → Route × Desk
  unfolding may_dispatch hand_over
  hand_off_as peer prompt (false, d) = (refused, d)
  hand_off_as peer prompt (true, d) =
      let asked = may_dispatch env scene peer [] d in
      if not asked.0
      then (refused, asked.1)
      else if scene.is_handed_off
      then (handed_before, asked.1)
      else (
        hands_off,
        hand_over m.message_id (intake_of place scene m.message_id scene.follow_thread peer prompt)
            asked.1,
      )

  -- The second question of the author, which knows none of the author's roles.
  unfoldable pub may_again : Desk → Bool × Desk
  unfolding may_dispatch
  may_again d = if is_empty m.author_id then (true, d) else may_dispatch env scene m.author_id [] d

  unfoldable pub hand_off : Option (Text × Text) → Text → Desk → Route × Desk
  unfolding hand_off_as may_again pass_on
  hand_off none text d = pass_on text d
  hand_off (some (peer, prompt)) text d =
      if not scene.has_pool then (job_refused, d) else hand_off_as peer prompt (may_again d)

  -- "claim <job>", by the job's row
  unfoldable pub claim_job : Option JobRow → Bool × Desk → Route × Desk
  claim_job row (false, d) = (refused, d)
  claim_job none (true, d) = (job_refused, d)
  claim_job (some row) (true, d) =
      if not scene.has_pool
        || not (is_empty row.claimed_by) && not (row.claimed_by == m.author_id) && row.is_live
      then (job_refused, d)
      else (job_claimed, record d { job_claims = (row.task_id, m.author_id) ∷ d.job_claims })

  -- A message that was claimed.
  unfoldable pub take_claimed : Option (Option JobRow) → Text → Bool × Desk → Route × Desk
  unfolding claim_job hand_off may_again
  take_claimed code text (false, d) = (duplicate, d)
  take_claimed none text (true, d) = hand_off scene.handoff text d
  take_claimed (some row) text (true, d) = claim_job row (may_again d)

  -- A follow-up that was claimed.
  unfoldable pub take_follow_up : Text → Bool × Desk → Route × Desk
  unfolding follow_up
  take_follow_up text (false, d) = (duplicate, d)
  take_follow_up text (true, d) = (followed, follow_up text d)

  -- A message that was claimed for one thing only.
  unfoldable pub take_as : Route → Bool × Desk → Route × Desk
  take_as route (false, d) = (duplicate, d)
  take_as route (true, d) = (route, d)

  -- From the capture on, with the text that it leaves.
  unfoldable pub take_text : Text → Desk → Route × Desk
  unfolding take_claimed take_follow_up take_as claim_inbound
  take_text text d =
      if scene.captures
      then take_as captured (claim_inbound place m d)
      else if not (is_empty scene.follow_thread) && scene.has_running_job
      then take_follow_up text (claim_inbound place m d)
      else take_claimed scene.claimed_code text (claim_inbound place m d)

  -- A fork that was claimed; its intake has no message.
  unfoldable pub take_fork : Text → Bool × Desk → Route × Desk
  unfolding remember hand_over
  take_fork prompt (false, d) = (duplicate, d)
  take_fork prompt (true, d) =
      let i = intake_of place scene [] [] m.author_id prompt in
      if scene.fork_node
      then (forks, hand_over m.message_id i (remember scene.now i d))
      else (fork_refused, d)

  -- _absorb_fork, once the author may dispatch
  unfoldable pub fork_or_text : Option Text → Text → Desk → Route × Desk
  unfolding take_fork take_text may_dispatch claim_inbound
  fork_or_text none text d = take_text text d
  fork_or_text (some prompt) text d =
      let asked = may_dispatch env scene m.author_id m.role_ids d in
      if is_empty scene.follow_thread
      then take_text text d
      else if not asked.0
      then (refused, asked.1)
      else take_fork prompt (claim_inbound place m asked.1)

  -- A text of somebody who may dispatch.
  unfoldable pub take_allowed : Text → Bool × Desk → Route × Desk
  unfolding fork_or_text take_as claim_inbound
  take_allowed text (false, d) = (refused, d)
  take_allowed text (true, d) =
      if scene.is_spoken
      then take_as spoken (claim_inbound place m d)
      else fork_or_text scene.fork_prompt (text_or scene.capture_text text) d

  -- A text that is no command.
  unfoldable pub take_ask : Text → Desk → Route × Desk
  unfolding take_allowed may_dispatch
  take_ask text d =
      if not d.is_armed || scene.is_halted || is_empty text
      then (paused, d)
      else take_allowed text (may_dispatch env scene m.author_id m.role_ids d)

  -- _defer_voice_intake
  unfoldable pub defer_voice : Desk → Route × Desk
  unfolding may_dispatch take_as claim_inbound
  defer_voice d =
      let asked = may_dispatch env scene m.author_id m.role_ids d in
      if not d.is_armed || scene.is_halted
      then (paused, d)
      else if not asked.0
      then (refused, asked.1)
      else take_as transcribes (claim_inbound place m asked.1)

  -- "/on" may make the author the owner
  unfoldable pub seed_author : Bool → Desk → Desk
  unfolding seed_owner_if_empty
  seed_author turns_on d =
      if turns_on
      then record d {
        operators = (seed_owner_if_empty m.author_id false env scene.now d.operators).1;
      }
      else d

  -- _absorb_power, after the claim, with whether the channel is turned on or off
  unfoldable pub turn : Option Bool → Desk → Desk
  unfolding author_may_operate
  turn none d = d
  turn (some turns_on) d =
      if author_may_operate m.author_id m.role_ids env d.operators
      then record d { is_armed = turns_on }
      else d

  -- _absorb_power
  unfoldable pub power : Desk → Route × Desk
  unfolding claim_inbound seed_author turn power_action
  power d =
      let action = power_action m.content in
      (powers, turn action (seed_author (asks_on action) (claim_inbound place m d).1))

  -- _absorb_schedule, after its claim, which may have been refused
  unfoldable pub add_schedule_as : Text → Bool × Desk → Desk
  add_schedule_as prompt (false, d) = d
  add_schedule_as prompt (true, d) = record d { schedules = (prompt, m.author_id) ∷ d.schedules }

  unfoldable pub schedule : Text → Desk → Route × Desk
  unfolding add_schedule_as may_dispatch claim_inbound
  schedule prompt d = (
    schedules_it,
    add_schedule_as prompt
        (may_dispatch env scene m.author_id m.role_ids (claim_inbound place m d).1),
  )

  -- From the parsing of a schedule on.
  unfoldable pub take_scheduled : Option Text → Desk → Route × Desk
  unfolding schedule take_ask strip
  take_scheduled (some prompt) d = schedule prompt d
  take_scheduled none d =
      if is_empty scene.intake_text && not scene.is_dispatchable
      then (ignored, d)
      else take_ask (text_or scene.intake_text (strip m.content)) d

  -- A command for which the author must be allowed to dispatch.
  unfoldable pub take_command : Bool → Bool × Desk → Route × Desk
  unfolding claim_then claim_own
  take_command is_bind (false, d) = (refused, d)
  take_command is_bind (true, d) =
      if is_bind
      then claim_then binds place m d
      else if d.is_armed
      then (opens, claim_own place m d)
      else claim_then shows_host place m d

  -- drain_inbound, of one message
  unfoldable pub handle : Desk → Route × Desk
  unfolding is_connect_command is_bind_command is_power_command is_open_command claim_own claim_then
      take_command power defer_voice may_dispatch take_scheduled
  handle d =
      if is_connect_command m.content
      then (connects, claim_own place m d)
      else if is_bind_command m.content
      then take_command true (may_dispatch env scene m.author_id m.role_ids d)
      else if is_power_command m.content
      then power d
      else if is_open_command m.content
      then take_command false (may_dispatch env scene m.author_id m.role_ids d)
      else if scene.is_jishaku
      then claim_then jishaku place m d
      else if scene.needs_transcribe
      then defer_voice d
      else if scene.skip_voice
      then claim_then misses_voice place m d
      else take_scheduled scene.scheduled d
