-- ===== src/Listen/Drain/Requester.antt =====
-- orchestration/listen.py: in whose name a message is handed on.
use discord_os.Prelude.{◌≡◌, ◌⊎◌, true, [], ◌∷◌}
use discord_os.Text.{Text}
use discord_os.Store.Intake.{Intake}
use discord_os.Operators.{Operators, Environment, author_is_operator}
use discord_os.Listen.Desk.{DiscordMessage, Place, Scene, Desk}

-- The requester is the author, an operator with the roles of the message, or somebody who is an
-- operator without any role.
abbrev pub IsEntitled : DiscordMessage → Intake → Operators → Type 0
IsEntitled m i s =
    ((i.requester_id ≡ m.author_id) × (author_is_operator m.author_id m.role_ids s ≡ true))
    ⊎ (author_is_operator i.requester_id [] s ≡ true)

-- At most one intake more, which the message led to, in the name of somebody entitled.
abbrev pub IsOrderly : DiscordMessage → Desk → Desk → Type 0
IsOrderly m d e =
    (e.submitted ≡ d.submitted)
    ⊎ ((i : Intake) × (e.submitted ≡ (m.message_id, i) ∷ d.submitted) × IsEntitled m i e.operators)

module _ (env : Environment) (place : Place) (scene : Scene) (m : DiscordMessage) where
  -- Whether the author is an operator.
  abbrev Known : Desk → Type 0
  Known d = author_is_operator m.author_id m.role_ids d.operators ≡ true
