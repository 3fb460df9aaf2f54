-- ===== src/Gate/Buttons.antt =====
-- orchestration/ask_gate.py: the ids of the buttons of a question.
pub mod RoundTrip
mod Tests
use discord_os.Prelude.{
  ℕ, ◌-◌, not, Option, none, some, [], ◌∷◌, ◌++◌, nat_eq, ◌==◌, if◌then◌else◌, is_empty, take, drop,
  length,
}
use discord_os.Text.{Text, txt, strip, starts_with}
use discord_os.Text.Number.{ℤ, pos, negsuc, int_of, str_of}

-- ASK_ID_PREFIX
abbrev pub ask_id_prefix : Text
ask_id_prefix = txt "discord-os:ask:"

-- ASK_CONFIRM_ID_PREFIX
abbrev pub ask_confirm_id_prefix : Text
ask_confirm_id_prefix = txt "discord-os:ask-confirm:"

-- CUSTOM_ID_MAX
abbrev pub custom_id_max : ℕ
custom_id_max = 100

pub record AskAction : Type 0 where
  pub run_id : Text
  pub option_index : ℕ

abbrev pub option_prefix : Text → Text
option_prefix rid = ask_id_prefix ++ rid ++ txt ":"

-- ask_custom_id, of an index that is not negative
unfoldable pub ask_custom_id : Text → ℕ → Text
unfolding strip str_of
ask_custom_id run_id option_index =
    option_prefix (strip run_id)
    ++ take (custom_id_max - length (option_prefix (strip run_id))) (str_of option_index)

-- text.rpartition(c), where `c` occurs in the text
unfoldable pub rpartition : ℕ → Text → Option (Text × Text)
rpartition c [] = none
rpartition c (x ∷ s) =
    let later = rpartition c s in
    elim later [
      | some parts ↦ some (x ∷ parts.0, parts.1)
      | none ↦ if x == c then some ([], s) else none
    ]

unfoldable pub action_of : Text → Option ℤ → Option AskAction
unfolding strip
action_of run_id none = none
action_of run_id (some (negsuc n)) = none
action_of run_id (some (pos n)) = some (record { run_id = strip run_id; option_index = n })

unfoldable pub action_in : Option (Text × Text) → Option AskAction
unfolding action_of strip int_of
action_in none = none
action_in (some (run_id, idx_raw)) =
    if is_empty (strip run_id) then none else action_of run_id (int_of (strip idx_raw))

-- ask_action_from_custom_id
unfoldable pub ask_action_from_custom_id : Text → Option AskAction
unfolding action_in rpartition strip starts_with
ask_action_from_custom_id custom_id =
    if not (starts_with ask_id_prefix (strip custom_id))
    then none
    else if starts_with ask_confirm_id_prefix (strip custom_id)
    then none
    else action_in (rpartition b':' (drop (length ask_id_prefix) (strip custom_id)))

-- ask_confirm_custom_id
unfoldable pub ask_confirm_custom_id : Text → Text
unfolding strip
ask_confirm_custom_id run_id =
    ask_confirm_id_prefix ++ take (custom_id_max - length ask_confirm_id_prefix) (strip run_id)

unfoldable pub run_of : Text → Option Text
run_of rid = if is_empty rid then none else some rid

-- ask_confirm_action_from_custom_id, as its run_id
unfoldable pub ask_confirm_action_from_custom_id : Text → Option Text
unfolding strip starts_with run_of
ask_confirm_action_from_custom_id custom_id =
    if not (starts_with ask_confirm_id_prefix (strip custom_id))
    then none
    else run_of (strip (drop (length ask_confirm_id_prefix) (strip custom_id)))
