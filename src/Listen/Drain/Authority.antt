-- ===== src/Listen/Drain/Authority.antt =====
-- orchestration/listen.py: what is not done for whom the host does not work.
use discord_os.Prelude.{
  ◌≡◌, refl, sym, ap, ◌⊎◌, inl, inr, Bool, true, false, not, ◌&&◌, ◌||◌, Option, none, some, arith,
  if◌then◌else◌, is_empty,
}
use discord_os.Text.{Text, strip}
use discord_os.Operators.{Environment, author_may_dispatch}
use discord_os.Listen.Commands.{asks_on, power_action}
use discord_os.Listen.Desk.{
  DiscordMessage, Place, Scene, Route, Desk, text_or, claim_inbound, claim_own, claim_then,
  may_dispatch, opens, transcribes,
}
use discord_os.Listen.Drain.{
  take_as, take_allowed, take_ask, defer_voice, seed_author, turn, power, add_schedule_as, schedule,
  take_scheduled, take_command, handle,
}
use discord_os.Listen.Drain.Cases.{handle-cases}

-- Nothing was handed on, queued for a running job or claimed.
abbrev pub IsIdle : Desk → Desk → Type 0
IsIdle d e = (e.submitted ≡ d.submitted) × (e.queue ≡ d.queue) × (e.job_claims ≡ d.job_claims)

-- Nor was anything scheduled, unless the author may dispatch.
abbrev pub IsDenied : Bool → Desk → Desk → Type 0
IsDenied may d e = IsIdle d e × ((e.schedules ≡ d.schedules) ⊎ (may ≡ true))

IsDenied-if :
    (may : Bool) (d : Desk) (test : Bool) (x y : Route × Desk)
    → IsDenied may d x.1
    → (test ≡ false → IsDenied may d y.1)
    → IsDenied may d (if test then x else y).1
IsDenied-if may d true x y p q = p
IsDenied-if may d false x y p q = q refl

not_may :
    (armed halted may empty : Bool)
    → (armed && not halted && may) ≡ false
    → (not armed || halted || empty) ≡ false
    → may ≡ false
not_may armed halted may empty h open_now = ground (arith, h, open_now)

true_not_false : true ≡ false → ⊥
true_not_false e = cc e

module _ (env : Environment) (place : Place) (scene : Scene) (m : DiscordMessage) where
  abbrev pub may : Desk → Bool
  may d = (author_may_dispatch m.author_id m.role_ids env scene.now d.operators).0

  -- Whether an ask of the message would be taken: the channel is on, spending is not halted, and
  -- the author may dispatch.
  abbrev is_allowed : Desk → Bool
  is_allowed d = d.is_armed && not scene.is_halted && may d

  pub claimed-IsIdle : (b : Bool) (d : Desk) → IsDenied b d (claim_inbound place m d).1
  unfolding claim_inbound
  claimed-IsIdle b d = ground arith

  claimed-operators : (d : Desk) → (claim_inbound place m d).1.operators ≡ d.operators
  unfolding claim_inbound
  claimed-operators d = ground arith

  take_command-IsDenied :
      (b is_bind : Bool) (p : Bool × Desk)
      → IsDenied b p.1 (take_command env place scene m is_bind p).1
  unfolding take_command claim_then claim_own
  take_command-IsDenied b is_bind (false, d) = ((refl, refl, refl), inl refl)
  take_command-IsDenied b is_bind (true, d) =
      IsDenied-if b d is_bind _ _ (claimed-IsIdle b d) λ other.
        IsDenied-if b d d.is_armed (opens, claim_own place m d) _ ((refl, refl, refl), inl refl)
          λ off. claimed-IsIdle b d

  seed_author-IsDenied :
      (b turns_on : Bool) (d e : Desk)
      → IsDenied b d e
      → IsDenied b d (seed_author env place scene m turns_on e)
  unfolding seed_author
  seed_author-IsDenied b true d e h = h
  seed_author-IsDenied b false d e h = h

  turn-IsDenied :
      (b : Bool) (action : Option Bool) (d e : Desk)
      → IsDenied b d e
      → IsDenied b d (turn env place scene m action e)
  unfolding turn
  turn-IsDenied b none d e h = h
  turn-IsDenied b (some turns_on) d e h = ground (arith, h)

  add_schedule_as-IsDenied :
      (prompt : Text) (b : Bool) (d : Desk) (p : Bool × Desk)
      → IsDenied b d p.1
      → p.0 ≡ b
      → IsDenied b d (add_schedule_as env place scene m prompt p)
  unfolding add_schedule_as
  add_schedule_as-IsDenied prompt b d (false, e) h same = h
  add_schedule_as-IsDenied prompt b d (true, e) h same = (h.0, inr (sym same))

  pub power-IsDenied : (b : Bool) (d : Desk) → IsDenied b d (power env place scene m d).1
  unfolding power seed_author
  power-IsDenied b d =
      turn-IsDenied b (power_action m.content) d _
        (seed_author-IsDenied b (asks_on (power_action m.content)) d _ (claimed-IsIdle b d))

  pub schedule-IsDenied :
      (prompt : Text) (d : Desk) → IsDenied (may d) d (schedule env place scene m prompt d).1
  unfolding schedule may_dispatch add_schedule_as
  schedule-IsDenied prompt d =
      add_schedule_as-IsDenied prompt (may d) d
        (may_dispatch env scene m.author_id m.role_ids (claim_inbound place m d).1)
        (claimed-IsIdle (may d) d)
        (ap (λ o. (author_may_dispatch m.author_id m.role_ids env scene.now o).0)
          (claimed-operators d))

  take_allowed-IsDenied :
      (b : Bool) (text : Text) (p : Bool × Desk)
      → p.0 ≡ false
      → IsDenied b p.1 (take_allowed env place scene m text p).1
  unfolding take_allowed
  take_allowed-IsDenied b text (false, d) e = ((refl, refl, refl), inl refl)
  take_allowed-IsDenied b text (true, d) e = absurd (true_not_false e)

  take_ask-IsDenied :
      (text : Text) (d : Desk)
      → is_allowed d ≡ false
      → IsDenied (may d) d (take_ask env place scene m text d).1
  unfolding take_ask may_dispatch
  take_ask-IsDenied text d h =
      IsDenied-if (may d) d (not d.is_armed || scene.is_halted || is_empty text) _ _
        ((refl, refl, refl), inl refl)
        λ open_now.
          take_allowed-IsDenied (may d) text (may_dispatch env scene m.author_id m.role_ids d)
            (not_may d.is_armed scene.is_halted (may d) (is_empty text) h open_now)

  take_scheduled-IsDenied :
      (o : Option Text) (d : Desk)
      → is_allowed d ≡ false
      → IsDenied (may d) d (take_scheduled env place scene m o d).1
  unfolding take_scheduled
  take_scheduled-IsDenied (some prompt) d h = schedule-IsDenied prompt d
  take_scheduled-IsDenied none d h =
      IsDenied-if (may d) d (is_empty scene.intake_text && not scene.is_dispatchable) _ _
        ((refl, refl, refl), inl refl)
        λ taken. take_ask-IsDenied (text_or scene.intake_text (strip m.content)) d h

  take_as-IsDenied :
      (b : Bool) (route : Route) (d : Desk) (p : Bool × Desk)
      → IsDenied b d p.1
      → IsDenied b d (take_as env place scene m route p).1
  unfolding take_as
  take_as-IsDenied b route d (false, e) h = h
  take_as-IsDenied b route d (true, e) h = h

  pub defer_voice-IsDenied :
      (b : Bool) (d : Desk) → IsDenied b d (defer_voice env place scene m d).1
  unfolding defer_voice may_dispatch
  defer_voice-IsDenied b d =
      let asked = may_dispatch env scene m.author_id m.role_ids d in
      IsDenied-if b d (not d.is_armed || scene.is_halted) _ _ ((refl, refl, refl), inl refl)
        λ on.
          IsDenied-if b d (not asked.0) _ _ ((refl, refl, refl), inl refl)
            λ allowed.
              take_as-IsDenied b transcribes d (claim_inbound place m asked.1)
                (claimed-IsIdle b asked.1)

  pub asked-IsDenied :
      (b is_bind : Bool) (d : Desk)
      → IsDenied b d
          (take_command env place scene m is_bind
            (may_dispatch env scene m.author_id m.role_ids d)).1
  unfolding may_dispatch
  asked-IsDenied b is_bind d =
      take_command-IsDenied b is_bind (may_dispatch env scene m.author_id m.role_ids d)

  pub claim_own-IsDenied : (b : Bool) (d : Desk) → IsDenied b d (claim_own place m d)
  unfolding claim_own
  claim_own-IsDenied b d = ((refl, refl, refl), inl refl)

  pub claim_then-IsDenied :
      (b : Bool) (d : Desk) (route : Route) → IsDenied b d (claim_then route place m d).1
  unfolding claim_then
  claim_then-IsDenied b d route = claimed-IsIdle b d

  handle-IsDenied :
      (d : Desk) → is_allowed d ≡ false → IsDenied (may d) d (handle env place scene m d).1
  handle-IsDenied d h =
      handle-cases env place scene m d (λ x. IsDenied (may d) d x.1) (claim_own-IsDenied (may d) d)
        (λ is_bind. asked-IsDenied (may d) is_bind d) (power-IsDenied (may d) d)
        (λ route n. claim_then-IsDenied (may d) d route) (defer_voice-IsDenied (may d) d)
        (take_scheduled-IsDenied scene.scheduled d h)

-- For an author who may not dispatch, while the channel is off, and while spending is halted,
-- whatever the message says, nothing is handed to the job pool, queued for a running job or claimed
-- from the board; a schedule is added only for an author who may dispatch.
pub handle-IsIdle :
    (env : Environment) (place : Place) (scene : Scene) (m : DiscordMessage) (d : Desk)
    → (d.is_armed
        && not scene.is_halted
        && (author_may_dispatch m.author_id m.role_ids env scene.now d.operators).0)
      ≡ false
    → let after = (handle env place scene m d).1 in
      IsIdle d after
      × ((after.schedules ≡ d.schedules)
          ⊎ ((author_may_dispatch m.author_id m.role_ids env scene.now d.operators).0 ≡ true))
handle-IsIdle env place scene m d h = handle-IsDenied env place scene m d h
