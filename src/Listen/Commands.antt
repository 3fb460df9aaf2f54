-- ===== src/Listen/Commands.antt =====
-- The commands that a message may begin with: keys/connect.py, host/realms.py, host/power.py and
-- host/verbs.py.
use discord_os.Prelude.{
  Bool, true, false, Option, none, some, List, [], ◌∷◌, nat_eq, if◌then◌else◌, member,
}
use discord_os.Text.{Text, txt, text_eq, lower, split}

-- text.strip().split(None, 1)[0].lower(), or nothing of an empty text
unfoldable pub first_word : Text → Option Text
unfolding split lower
first_word text = elim (split text) [ [] ↦ none | w ∷ words ↦ some (lower w) ]

abbrev pub is_among : List Text → Option Text → Bool
is_among words none = false
is_among words (some w) = member w words

-- is_connect_command
unfoldable pub is_connect_command : Text → Bool
unfolding first_word
is_connect_command text = is_among (txt "/connect" ∷ txt "!connect" ∷ []) (first_word text)

abbrev pub bind_prefixes : List Text
bind_prefixes =
    txt "/bind"
    ∷ txt "!bind"
    ∷ txt "bind"
    ∷ txt "/realm"
    ∷ txt "!realm"
    ∷ txt "realm"
    ∷ txt "/memory"
    ∷ txt "!memory"
    ∷ txt "memory"
    ∷ txt "/bank"
    ∷ txt "!bank"
    ∷ txt "bank"
    ∷ []

-- is_bind_command
unfoldable pub is_bind_command : Text → Bool
unfolding first_word
is_bind_command text = is_among bind_prefixes (first_word text)

-- POWER_PREFIXES
abbrev pub power_prefixes : List Text
power_prefixes =
    txt "/on" ∷ txt "!on" ∷ txt "/off" ∷ txt "!off" ∷ txt "/status" ∷ txt "!status" ∷ []

-- is_power_command
unfoldable pub is_power_command : Text → Bool
unfolding first_word
is_power_command text = is_among power_prefixes (first_word text)

-- is_open_command
unfoldable pub is_open_command : Text → Bool
unfolding first_word
is_open_command text = is_among (txt "/open" ∷ txt "!open" ∷ []) (first_word text)

-- parse_power_command, with whether the host is turned on or off, or asked for its status
unfoldable pub power_action : Text → Option Bool
unfolding first_word
power_action text =
    if is_among (txt "/on" ∷ txt "!on" ∷ []) (first_word text)
    then some true
    else if is_among (txt "/off" ∷ txt "!off" ∷ []) (first_word text)
    then some false
    else none

abbrev pub asks_on : Option Bool → Bool
asks_on (some b) = b
asks_on none = false
