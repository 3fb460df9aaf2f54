-- ===== src/Listen/Drain/Events.antt =====
-- orchestration/listen.py: drains of several listeners, between which the store is used by others.
use discord_os.Prelude.{Bool, false, ◌&&◌, List, [], ◌∷◌, nat_eq, ◌==◌}
use discord_os.Text.{Text, text_eq}
use discord_os.Operators.{Environment}
use discord_os.Listen.Desk.{DiscordMessage, Place, Scene, Desk}
use discord_os.Listen.Drain.{handle}
use discord_os.Store.Intake.{Call, perform}

-- A message that some listener takes up, in the scene of that time, or a call of the store by
-- anybody else.
pub data Event : Type 0 where
  incoming : Place → Scene → DiscordMessage → Event
  storing : Call → Event

unfoldable pub happen : Environment → Event → Desk → Desk
unfolding handle perform
happen env (incoming place scene m) d = (handle env place scene m d).1
happen env (storing c) d = record d { messages = perform c d.messages }

unfoldable pub happen_all : Environment → List Event → Desk → Desk
unfolding happen
happen_all env [] d = d
happen_all env (e ∷ events) d = happen_all env events (happen env e d)

-- Whether an event is the transcript of the voice memo that a message was.
unfoldable pub is_transcript : Text → Event → Bool
is_transcript k (incoming place scene m) = m.message_id == k && m.is_preclaimed
is_transcript k (storing c) = false
