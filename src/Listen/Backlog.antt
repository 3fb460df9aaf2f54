-- ===== src/Listen/Backlog.antt =====
-- orchestration/listen.py: a whole drain, of the transcripts that are ready and of what is newer than
-- the mark. The messages of a batch come in the order of `_inbound_sort_key`.
pub mod Twice
mod Tests
use discord_os.Prelude.{List, [], ◌∷◌, ◌++◌, select}
use discord_os.Text.{Text}
use discord_os.Operators.{Environment}
use discord_os.Listen.Desk.{DiscordMessage, Place, Scene, Desk}
use discord_os.Listen.Watermark.{Watermark, advance, is_newer}
use discord_os.Listen.Drain.{handle}

-- A message, and what the rest of the program says of it when it is taken up.
abbrev pub Inbound : Type 0
Inbound = Scene × DiscordMessage

abbrev pub id_of : Inbound → Text
id_of (scene, m) = m.message_id

-- The loop of drain_inbound, which moves the mark after each message.
unfoldable pub drain_each : Environment → Place → List Inbound → Watermark × Desk → Watermark × Desk
unfolding advance handle
drain_each env place [] (w, d) = (w, d)
drain_each env place (x ∷ pending) (w, d) =
    drain_each env place pending (advance x.1.message_id w, (handle env place x.0 x.1 d).1)

-- drain_inbound
unfoldable pub drain_inbound :
    Environment → Place → List Inbound → List Inbound → Watermark × Desk → Watermark × Desk
unfolding drain_each is_newer
drain_inbound env place ready batch (w, d) =
    drain_each env place (ready ++ select (λ x. is_newer x.1.message_id w) batch) (w, d)
