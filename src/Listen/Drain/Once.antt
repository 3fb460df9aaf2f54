-- ===== src/Listen/Drain/Once.antt =====
-- orchestration/listen.py: a message is handed on once.
use discord_os.Prelude.{
  ◌≡◌, Bool, true, false, not, ◌&&◌, ◌||◌, Option, none, some, arith, nat_eq, ◌==◌, if◌then◌else◌,
  is_empty,
}
use discord_os.Text.{Text, text_eq, strip}
use discord_os.Operators.{Environment}
use discord_os.Listen.Commands.{asks_on, power_action}
use discord_os.Listen.Desk.{
  DiscordMessage, Place, Scene, Route, Desk, text_or, claim_inbound, claim_own, claim_then,
  may_dispatch, hand_over, remember, binds, opens, shows_host, transcribes, spoken, captured,
}
use discord_os.Listen.Drain.{
  take_text, take_fork, fork_or_text, take_allowed, take_ask, defer_voice, seed_author, turn, power,
  add_schedule_as, schedule, take_scheduled, take_command, handle,
}
use discord_os.Listen.Drain.Cases.{handle-cases}
use discord_os.Listen.Drain.Weights.{
  claim-weighs, times, Paid, Follows, take_claimed-Follows, take_follow_up-Follows, take_as-Follows,
  claim_inbound-IsClaimed, claimed-Paid,
}

Paid-if :
    (k : Text) (d : Desk) (test : Bool) (x y : Route × Desk)
    → Paid k d x.1
    → Paid k d y.1
    → Paid k d (if test then x else y).1
Paid-if k d true x y p q = p
Paid-if k d false x y p q = q

module _ (env : Environment) (place : Place) (scene : Scene) (m : DiscordMessage) (k : Text)
    (n : is_empty k ≡ false) (own : (m.message_id == k && m.is_preclaimed) ≡ false) where
  claimed-Paid_lem :
      (d e : Desk) → Follows env place scene m k (claim_inbound place m d) e → Paid k d e
  claimed-Paid_lem d e f =
      claimed-Paid env place scene m k d e (claim_inbound place m d)
        (claim_inbound-IsClaimed env place scene m k d n own) f

  claimed_only : (d : Desk) → Paid k d (claim_inbound place m d).1
  claimed_only d = ground (arith, claim_inbound-IsClaimed env place scene m k d n own)

  claim_own-Paid : (d : Desk) → Paid k d (claim_own place m d)
  unfolding claim_own
  claim_own-Paid d =
      ground (arith, claim-weighs m.message_id k (some place.channel_id) d.messages n)

  take_text-Paid : (text : Text) (d : Desk) → Paid k d (take_text env place scene m text d).1
  unfolding take_text
  take_text-Paid text d =
      Paid-if k d scene.captures _ _
        (claimed-Paid_lem d _
          (take_as-Follows env place scene m k captured (claim_inbound place m d)))
        (Paid-if k d (not (is_empty scene.follow_thread) && scene.has_running_job) _ _
          (claimed-Paid_lem d _
            (take_follow_up-Follows env place scene m k text (claim_inbound place m d)))
          (claimed-Paid_lem d _ (
            take_claimed-Follows env place scene m k scene.claimed_code text
              (claim_inbound place m d))))

  take_fork-Follows :
      (prompt : Text) (p : Bool × Desk)
      → Follows env place scene m k p (take_fork env place scene m prompt p).1
  unfolding take_fork times remember hand_over
  take_fork-Follows prompt (false, d) = ground arith
  take_fork-Follows prompt (true, d) = ground arith

  fork_or_text-Paid :
      (o : Option Text) (text : Text) (d : Desk)
      → Paid k d (fork_or_text env place scene m o text d).1
  unfolding fork_or_text may_dispatch
  fork_or_text-Paid none text d = take_text-Paid text d
  fork_or_text-Paid (some prompt) text d =
      let asked = may_dispatch env scene m.author_id m.role_ids d in
      Paid-if k d (is_empty scene.follow_thread) _ _ (take_text-Paid text d) (
        Paid-if k d (not asked.0) _ _ (ground arith)
          (claimed-Paid_lem asked.1 _ (take_fork-Follows prompt (claim_inbound place m asked.1))))

  take_allowed-Paid :
      (text : Text) (p : Bool × Desk) → Paid k p.1 (take_allowed env place scene m text p).1
  unfolding take_allowed
  take_allowed-Paid text (false, d) = ground arith
  take_allowed-Paid text (true, d) =
      Paid-if k d scene.is_spoken _ _
        (claimed-Paid_lem d _
          (take_as-Follows env place scene m k spoken (claim_inbound place m d)))
        (fork_or_text-Paid scene.fork_prompt (text_or scene.capture_text text) d)

  take_ask-Paid : (text : Text) (d : Desk) → Paid k d (take_ask env place scene m text d).1
  unfolding take_ask may_dispatch
  take_ask-Paid text d =
      Paid-if k d (not d.is_armed || scene.is_halted || is_empty text) _ _ (ground arith)
        (take_allowed-Paid text (may_dispatch env scene m.author_id m.role_ids d))

  defer_voice-Paid : (d : Desk) → Paid k d (defer_voice env place scene m d).1
  unfolding defer_voice may_dispatch
  defer_voice-Paid d =
      let asked = may_dispatch env scene m.author_id m.role_ids d in
      Paid-if k d (not d.is_armed || scene.is_halted) _ _ (ground arith) (
        Paid-if k d (not asked.0) _ _ (ground arith) (
          claimed-Paid_lem asked.1 _
            (take_as-Follows env place scene m k transcribes (claim_inbound place m asked.1))))

  seed_author-Paid :
      (b : Bool) (d e : Desk) → Paid k d e → Paid k d (seed_author env place scene m b e)
  unfolding seed_author
  seed_author-Paid true d e h = h
  seed_author-Paid false d e h = h

  turn-Paid : (o : Option Bool) (d e : Desk) → Paid k d e → Paid k d (turn env place scene m o e)
  unfolding turn
  turn-Paid none d e h = h
  turn-Paid (some b) d e h = ground (arith, h)

  power-Paid : (d : Desk) → Paid k d (power env place scene m d).1
  unfolding power
  power-Paid d =
      turn-Paid (power_action m.content) d _
        (seed_author-Paid (asks_on (power_action m.content)) d _ (claimed_only d))

  add_schedule_as-Paid :
      (prompt : Text) (d : Desk) (p : Bool × Desk)
      → Paid k d p.1
      → Paid k d (add_schedule_as env place scene m prompt p)
  unfolding add_schedule_as
  add_schedule_as-Paid prompt d (false, e) h = h
  add_schedule_as-Paid prompt d (true, e) h = h

  take_scheduled-Paid :
      (o : Option Text) (d : Desk) → Paid k d (take_scheduled env place scene m o d).1
  unfolding take_scheduled schedule may_dispatch
  take_scheduled-Paid (some prompt) d = add_schedule_as-Paid prompt d _ (claimed_only d)
  take_scheduled-Paid none d =
      Paid-if k d (is_empty scene.intake_text && not scene.is_dispatchable) _ _ (ground arith)
        (take_ask-Paid (text_or scene.intake_text (strip m.content)) d)

  claim_then-Paid : (route : Route) (d : Desk) → Paid k d (claim_then route place m d).1
  unfolding claim_then
  claim_then-Paid route d = claimed_only d

  take_command-Paid :
      (is_bind : Bool) (p : Bool × Desk) → Paid k p.1 (take_command env place scene m is_bind p).1
  unfolding take_command
  take_command-Paid is_bind (false, d) = ground arith
  take_command-Paid is_bind (true, d) = Paid-if k d is_bind _ _ (claim_then-Paid binds d) (
      Paid-if k d d.is_armed (opens, claim_own place m d) _ (claim_own-Paid d)
        (claim_then-Paid shows_host d))

  asked-Paid :
      (is_bind : Bool) (d : Desk)
      → Paid k d
          (take_command env place scene m is_bind
            (may_dispatch env scene m.author_id m.role_ids d)).1
  unfolding may_dispatch
  asked-Paid is_bind d = take_command-Paid is_bind (may_dispatch env scene m.author_id m.role_ids d)

  pub handle-Paid : (d : Desk) → Paid k d (handle env place scene m d).1
  handle-Paid d =
      handle-cases env place scene m d (λ x. Paid k d x.1) (claim_own-Paid d)
        (λ is_bind. asked-Paid is_bind d) (power-Paid d) (λ route n. claim_then-Paid route d)
        (defer_voice-Paid d) (take_scheduled-Paid scene.scheduled d)
