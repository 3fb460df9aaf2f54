-- ===== src/Listen/Drain/Cases.antt =====
-- orchestration/listen.py: the branches of `drain_inbound`.
use discord_os.Prelude.{◌≡◌, Bool, true, false, if◌then◌else◌}
use discord_os.Operators.{Environment}
use discord_os.Listen.Commands.{
  is_connect_command, is_bind_command, is_power_command, is_open_command,
}
use discord_os.Listen.Desk.{
  DiscordMessage, Place, Scene, Route, Desk, claim_own, claim_then, may_dispatch, connects, jishaku,
  misses_voice, asks,
}
use discord_os.Listen.Drain.{defer_voice, power, take_scheduled, take_command, handle}

if-cases :
    (P : Route × Desk → Type 0) (test : Bool) (x y : Route × Desk)
    → P x
    → P y
    → P (if test then x else y)
if-cases P true x y p q = p
if-cases P false x y p q = q

-- What holds of each branch holds of the whole.
pub handle-cases :
    (env : Environment) (place : Place) (scene : Scene) (m : DiscordMessage) (d : Desk)
    (P : Route × Desk → Type 0)
    → P (connects, claim_own place m d)
    → ((is_bind : Bool)
        → P (
            take_command env place scene m is_bind
              (may_dispatch env scene m.author_id m.role_ids d)))
    → P (power env place scene m d)
    → ((route : Route) → (route ≡ asks → ⊥) → P (claim_then route place m d))
    → P (defer_voice env place scene m d)
    → P (take_scheduled env place scene m scene.scheduled d)
    → P (handle env place scene m d)
unfolding handle
handle-cases env place scene m d P connected commanded powered claimed deferred rest =
    let asked = may_dispatch env scene m.author_id m.role_ids d in
    let after_skip =
      if-cases P scene.skip_voice (claim_then misses_voice place m d) _
        (claimed misses_voice (λ e. cc e)) rest in
    let after_voice =
      if-cases P scene.needs_transcribe (defer_voice env place scene m d) _ deferred after_skip in
    let after_jishaku =
      if-cases P scene.is_jishaku (claim_then jishaku place m d) _ (claimed jishaku (λ e. cc e))
        after_voice in
    let after_open =
      if-cases P (is_open_command m.content) (take_command env place scene m false asked) _
        (commanded false) after_jishaku in
    let after_power =
      if-cases P (is_power_command m.content) (power env place scene m d) _ powered after_open in
    let after_bind =
      if-cases P (is_bind_command m.content) (take_command env place scene m true asked) _
        (commanded true) after_power in
    if-cases P (is_connect_command m.content) (connects, claim_own place m d) _ connected after_bind
