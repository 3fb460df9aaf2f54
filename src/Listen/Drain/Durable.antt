-- ===== src/Listen/Drain/Durable.antt =====
-- orchestration/listen.py: an ask that was claimed is remembered.
use discord_os.Prelude.{
  ℕ, ◌≡◌, refl, sym, ap, ◌∙◌, subst, Bool, true, false, not, ◌&&◌, ◌||◌, Option, none, some, List,
  [], ◌∷◌, nat_eq, ◌==◌, if◌then◌else◌, All, is_empty,
}
use discord_os.Text.{Text, text_eq, strip}
use discord_os.Store.Intake.{record_pending_intake, Call, perform_all}
use discord_os.Operators.{Environment}
use discord_os.Listen.Desk.{
  DiscordMessage, Place, JobRow, Scene, Route, Desk, text_or, claim_inbound, claim_then,
  may_dispatch, hand_over, remember, intake_of, binds, opens, shows_host, transcribes, spoken,
  forks, fork_refused, captured, asks,
}
use discord_os.Listen.Drain.{
  pass_on, hand_off_as, may_again, hand_off, claim_job, take_claimed, take_follow_up, take_as,
  take_text, take_fork, fork_or_text, take_allowed, take_ask, defer_voice, power, schedule,
  take_scheduled, take_command, handle,
}
use discord_os.Listen.Drain.Cases.{handle-cases}
use discord_os.Store.Intake.Waits.{is_pending, ends_wait, record_pending_intake-waits}

-- The text of an ask, after the other parsers.
abbrev pub ask_text : Scene → DiscordMessage → Text
ask_text scene m = text_or scene.capture_text (text_or scene.intake_text (strip m.content))

named : (t : Text) → is_empty (strip t) ≡ false → is_empty t ≡ false
unfolding strip
named [] n = n
named (c ∷ t) n = refl

module _ (env : Environment) (place : Place) (scene : Scene) (m : DiscordMessage) where
  -- An ask of a text was recorded.
  abbrev Kept : Text → Route × Desk → Type 0
  Kept text x =
      (x.0 ≡ asks)
      → (d : Desk) × (x.1.messages
          ≡ (remember scene.now
              (intake_of place scene m.message_id scene.follow_thread m.author_id text) d).messages)

  Kept-if :
      (text : Text) (test : Bool) (x y : Route × Desk)
      → Kept text x
      → Kept text y
      → Kept text (if test then x else y)
  Kept-if text true x y p q = p
  Kept-if text false x y p q = q

  pass_on-Kept : (text : Text) (d : Desk) → Kept text (pass_on env place scene m text d)
  unfolding pass_on hand_over
  pass_on-Kept text d h = (d, refl)

  hand_off_as-Kept :
      (text peer prompt : Text) (p : Bool × Desk)
      → Kept text (hand_off_as env place scene m peer prompt p)
  unfolding hand_off_as
  hand_off_as-Kept text peer prompt (false, d) h = cc h
  hand_off_as-Kept text peer prompt (true, d) h =
      Kept-if text (not (may_dispatch env scene peer [] d).0) _ _ (λ e. cc e)
        (Kept-if text scene.is_handed_off _ _ (λ e. cc e) (λ e. cc e)) h

  hand_off-Kept :
      (o : Option (Text × Text)) (text : Text) (d : Desk)
      → Kept text (hand_off env place scene m o text d)
  unfolding hand_off
  hand_off-Kept none text d = pass_on-Kept text d
  hand_off-Kept (some (peer, prompt)) text d =
      Kept-if text (not scene.has_pool) _ _ (λ e. cc e)
        (hand_off_as-Kept text peer prompt (may_again env place scene m d))

  claim_job-Kept :
      (text : Text) (row : Option JobRow) (p : Bool × Desk)
      → Kept text (claim_job env place scene m row p)
  unfolding claim_job
  claim_job-Kept text row (false, d) h = cc h
  claim_job-Kept text none (true, d) h = cc h
  claim_job-Kept text (some row) (true, d) h =
      Kept-if text
        (not scene.has_pool
          || not (is_empty row.claimed_by) && not (row.claimed_by == m.author_id) && row.is_live)
        _ _ (λ e. cc e) (λ e. cc e) h

  take_claimed-Kept :
      (code : Option (Option JobRow)) (text : Text) (p : Bool × Desk)
      → Kept text (take_claimed env place scene m code text p)
  unfolding take_claimed
  take_claimed-Kept code text (false, d) h = cc h
  take_claimed-Kept none text (true, d) h = hand_off-Kept scene.handoff text d h
  take_claimed-Kept (some row) text (true, d) h =
      claim_job-Kept text row (may_again env place scene m d) h

  take_as-Kept :
      (text : Text) (route : Route) (p : Bool × Desk)
      → (route ≡ asks → ⊥)
      → Kept text (take_as env place scene m route p)
  unfolding take_as
  take_as-Kept text route (false, d) n h = cc h
  take_as-Kept text route (true, d) n h = absurd (n h)

  take_follow_up-Kept :
      (text : Text) (p : Bool × Desk) → Kept text (take_follow_up env place scene m text p)
  unfolding take_follow_up
  take_follow_up-Kept text (false, d) h = cc h
  take_follow_up-Kept text (true, d) h = cc h

  take_text-Kept : (text : Text) (d : Desk) → Kept text (take_text env place scene m text d)
  unfolding take_text
  take_text-Kept text d =
      let claimed = claim_inbound place m d in
      Kept-if text scene.captures _ _ (take_as-Kept text captured claimed (λ e. cc e)) (
        Kept-if text (not (is_empty scene.follow_thread) && scene.has_running_job) _ _
          (take_follow_up-Kept text claimed) (take_claimed-Kept scene.claimed_code text claimed))

  take_fork-Kept :
      (text prompt : Text) (p : Bool × Desk) → Kept text (take_fork env place scene m prompt p)
  unfolding take_fork
  take_fork-Kept text prompt (false, d) h = cc h
  take_fork-Kept text prompt (true, d) h =
      Kept-if text scene.fork_node (forks, _) (fork_refused, _) (λ e. cc e) (λ e. cc e) h

  fork_or_text-Kept :
      (o : Option Text) (text : Text) (d : Desk)
      → Kept text (fork_or_text env place scene m o text d)
  unfolding fork_or_text
  fork_or_text-Kept none text d h = take_text-Kept text d h
  fork_or_text-Kept (some prompt) text d h =
      let asked = may_dispatch env scene m.author_id m.role_ids d in
      Kept-if text (is_empty scene.follow_thread) _ _ (take_text-Kept text d)
        (Kept-if text (not asked.0) _ _ (λ e. cc e)
          (take_fork-Kept text prompt (claim_inbound place m asked.1)))
        h

  take_allowed-Kept :
      (text : Text) (p : Bool × Desk)
      → Kept (text_or scene.capture_text text) (take_allowed env place scene m text p)
  unfolding take_allowed
  take_allowed-Kept text (false, d) h = cc h
  take_allowed-Kept text (true, d) h =
      Kept-if (text_or scene.capture_text text) scene.is_spoken _ _
        (take_as-Kept (text_or scene.capture_text text) spoken (claim_inbound place m d)
          (λ e. cc e))
        (fork_or_text-Kept scene.fork_prompt (text_or scene.capture_text text) d) h

  take_ask-Kept :
      (text : Text) (d : Desk)
      → Kept (text_or scene.capture_text text) (take_ask env place scene m text d)
  unfolding take_ask
  take_ask-Kept text d =
      Kept-if (text_or scene.capture_text text) (not d.is_armed || scene.is_halted || is_empty text)
        _ _ (λ e. cc e) (take_allowed-Kept text (may_dispatch env scene m.author_id m.role_ids d))

  take_scheduled-Kept :
      (o : Option Text) (d : Desk) → Kept (ask_text scene m) (take_scheduled env place scene m o d)
  unfolding take_scheduled schedule
  take_scheduled-Kept (some prompt) d h = cc h
  take_scheduled-Kept none d h =
      Kept-if (ask_text scene m) (is_empty scene.intake_text && not scene.is_dispatchable) _ _
        (λ e. cc e) (take_ask-Kept (text_or scene.intake_text (strip m.content)) d) h

  take_command-Kept :
      (text : Text) (is_bind : Bool) (p : Bool × Desk)
      → Kept text (take_command env place scene m is_bind p)
  unfolding take_command claim_then
  take_command-Kept text is_bind (false, d) h = cc h
  take_command-Kept text is_bind (true, d) h =
      Kept-if text is_bind (binds, _) _ (λ e. cc e)
        (Kept-if text d.is_armed (opens, _) (shows_host, _) (λ e. cc e) (λ e. cc e)) h

  defer_voice-Kept : (text : Text) (d : Desk) → Kept text (defer_voice env place scene m d)
  unfolding defer_voice
  defer_voice-Kept text d =
      let asked = may_dispatch env scene m.author_id m.role_ids d in
      Kept-if text (not d.is_armed || scene.is_halted) _ _ (λ e. cc e)
        (Kept-if text (not asked.0) _ _ (λ e. cc e)
          (take_as-Kept text transcribes (claim_inbound place m asked.1) (λ e. cc e)))

  power-Kept : (text : Text) (d : Desk) → Kept text (power env place scene m d)
  unfolding power
  power-Kept text d h = cc h

  claim_then-Kept :
      (text : Text) (route : Route) (d : Desk)
      → (route ≡ asks → ⊥)
      → Kept text (claim_then route place m d)
  unfolding claim_then
  claim_then-Kept text route d n h = absurd (n h)

  handle-Kept : (d : Desk) → Kept (ask_text scene m) (handle env place scene m d)
  handle-Kept d =
      let text = ask_text scene m in
      handle-cases env place scene m d (λ x. Kept text x) (λ e. cc e)
        (λ is_bind.
          take_command-Kept text is_bind (may_dispatch env scene m.author_id m.role_ids d))
        (power-Kept text d) (λ route n. claim_then-Kept text route d n) (defer_voice-Kept text d)
        (take_scheduled-Kept scene.scheduled d)

  remembered :
      (now : ℕ) (text : Text) (d : Desk)
      → is_empty (strip m.message_id) ≡ false
      → (remember now
          (intake_of place scene m.message_id scene.follow_thread m.author_id text)
          d).messages
        ≡ record_pending_intake
            (intake_of place scene m.message_id scene.follow_thread m.author_id text)
            now
            d.messages
  unfolding remember
  remembered now text d n =
      let i = intake_of place scene m.message_id scene.follow_thread m.author_id text in
      ap
        (λ b.
          (if b
            then d
            else record d { messages = record_pending_intake i now d.messages }).messages)
        (named m.message_id n)

-- An ask of which the host takes charge, with an id and a text, waits in the store from then on,
-- whatever calls of the store follow, until it is bound to its task or cleared.
pub handle-waits :
    (env : Environment) (place : Place) (scene : Scene) (m : DiscordMessage) (d : Desk)
    (calls : List Call)
    → (handle env place scene m d).0 ≡ asks
    → is_empty (strip m.message_id) ≡ false
    → is_empty (strip (ask_text scene m)) ≡ false
    → All (λ c. ends_wait (strip m.message_id) c ≡ false) calls
    → is_pending (strip m.message_id) (perform_all calls (handle env place scene m d).1.messages)
      ≡ true
handle-waits env place scene m d calls h n t a =
    let kept = handle-Kept env place scene m d h in
    let i = intake_of place scene m.message_id scene.follow_thread m.author_id (ask_text scene m) in
    subst (λ ms. is_pending (strip m.message_id) (perform_all calls ms) ≡ true)
      (sym (kept.1 ∙ remembered env place scene m scene.now (ask_text scene m) kept.0 n))
      (record_pending_intake-waits i scene.now calls kept.0.messages [] [] none n t a).0
