-- ===== src/Gate/Spoken.antt =====
-- What a person says to a gate: orchestration/ask_gate.py and orchestration/plan_approve.py.
pub mod Verbs
mod Tests
use discord_os.Prelude.{
  ◌||◌, Option, none, some, List, [], ◌∷◌, ◌++◌, nat_eq, if◌then◌else◌, is_empty, member,
}
use discord_os.Text.{Text, txt, text_eq, strip, lower, split, starts_with}

pub data Verb : Type 0 where
  approve always deny : Verb

-- _SPOKEN_ALLOW
abbrev pub spoken_allow : List Text
spoken_allow =
    txt "allow" ∷ txt "allowed" ∷ txt "approve" ∷ txt "yes" ∷ txt "y" ∷ txt "ok" ∷ txt "okay" ∷ []

-- _SPOKEN_DENY of ask_gate.py
abbrev pub spoken_deny : List Text
spoken_deny =
    txt "deny"
    ∷ txt "denied"
    ∷ txt "no"
    ∷ txt "n"
    ∷ txt "reject"
    ∷ txt "block"
    ∷ txt "cancel"
    ∷ txt "cancelled"
    ∷ txt "canceled"
    ∷ []

-- _SPOKEN_ALWAYS
abbrev pub spoken_always : List Text
spoken_always =
    txt "always"
    ∷ txt "always allow"
    ∷ txt "always-allow"
    ∷ txt "alwaysallowed"
    ∷ txt "allow always"
    ∷ []

-- _SPOKEN_APPROVE
abbrev pub plan_approve : List Text
plan_approve =
    txt "approve"
    ∷ txt "approved"
    ∷ txt "allow"
    ∷ txt "allowed"
    ∷ txt "yes"
    ∷ txt "y"
    ∷ txt "ok"
    ∷ txt "okay"
    ∷ txt "go"
    ∷ []

-- _SPOKEN_DENY of plan_approve.py
abbrev pub plan_deny : List Text
plan_deny =
    txt "deny"
    ∷ txt "denied"
    ∷ txt "no"
    ∷ txt "n"
    ∷ txt "reject"
    ∷ txt "cancel"
    ∷ txt "cancelled"
    ∷ txt "canceled"
    ∷ txt "stop"
    ∷ []

-- " ".join(words)
unfoldable pub join_words : List Text → Text
join_words [] = []
join_words (w ∷ []) = w
join_words (w ∷ v ∷ words) = w ++ txt " " ++ join_words (v ∷ words)

unfoldable pub compact : Text → Text
unfolding join_words split strip lower
compact text = join_words (split (lower (strip text)))

unfoldable pub gate_verb : Text → Option Verb
unfolding starts_with
gate_verb words =
    if member words spoken_always || starts_with (txt "always allow") words
    then some always
    else if member words spoken_allow
    then some approve
    else if member words spoken_deny
    then some deny
    else none

-- parse_spoken_gate_verb
unfoldable pub parse_spoken_gate_verb : Text → Option Verb
unfolding gate_verb compact strip lower
parse_spoken_gate_verb text =
    if is_empty (lower (strip text)) then none else gate_verb (compact text)

unfoldable pub plan_verb : Text → Option Verb
unfolding starts_with
plan_verb words =
    if starts_with (txt "always") words
    then none
    else if member words plan_approve
    then some approve
    else if member words plan_deny
    then some deny
    else none

-- parse_spoken_plan_verb
unfoldable pub parse_spoken_plan_verb : Text → Option Verb
unfolding plan_verb compact strip lower
parse_spoken_plan_verb text =
    if is_empty (lower (strip text)) then none else plan_verb (compact text)
