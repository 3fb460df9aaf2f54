-- ===== src/Hold/Plan.antt =====
-- orchestration/plan_approve.py: which tools and statuses say that a plan is ready, and whether it
-- is put to the user. `sub` is what the substitutions of `redact_text_markers` make of a text.
use discord_os.Prelude.{
  ℕ, Bool, true, false, not, ◌&&◌, ◌||◌, Option, none, some, List, [], ◌∷◌, nat_eq, ◌==◌,
  if◌then◌else◌, is_empty, member,
}
use discord_os.Text.{Text, txt, text_eq, strip, lower, replace_char}
use discord_os.Gate.Classes.{spelling, after_last}

-- _EXIT_PLAN_ALIASES
abbrev pub exit_plan_aliases : List Text
exit_plan_aliases =
    txt "exitplanmode"
    ∷ txt "exit_plan_mode"
    ∷ txt "exit-plan-mode"
    ∷ txt "exitplan"
    ∷ txt "exit_plan"
    ∷ txt "plan_approve"
    ∷ txt "planapprove"
    ∷ txt "raise_plan_approve"
    ∷ txt "presentplan"
    ∷ txt "present_plan"
    ∷ txt "submitplan"
    ∷ txt "submit_plan"
    ∷ txt "plan_ready"
    ∷ txt "planready"
    ∷ txt "ready_plan"
    ∷ txt "readyplan"
    ∷ []

abbrev pub folded_aliases : List Text
folded_aliases =
    txt "exitplanmode"
    ∷ txt "presentplan"
    ∷ txt "submitplan"
    ∷ txt "planready"
    ∷ txt "readyplan"
    ∷ []

-- text.replace(c, "")
unfoldable pub without : ℕ → Text → Text
without c [] = []
without c (d ∷ s) = let rest = without c s in if d == c then rest else d ∷ rest

unfoldable pub tail_is_alias : Option Text → Bool
tail_is_alias none = false
tail_is_alias (some tail) = member tail exit_plan_aliases

-- is_exit_plan_tool
unfoldable pub is_exit_plan_tool : Text → Bool
unfolding strip lower replace_char after_last without tail_is_alias
is_exit_plan_tool tool_name =
    let text = strip tool_name in
    let compact = replace_char b'-' b'_' (lower text) in
    not (is_empty text)
    && (member compact exit_plan_aliases
        || tail_is_alias (after_last (txt "__") compact)
        || member (lower (without b'-' (without b'_' text))) folded_aliases)

-- KNOWN_PLAN_STATUSES
abbrev pub known_plan_statuses : List Text
known_plan_statuses =
    txt ""
    ∷ txt "ready"
    ∷ txt "complete"
    ∷ txt "completed"
    ∷ txt "done"
    ∷ txt "plan_ready"
    ∷ txt "awaiting_approval"
    ∷ txt "parked"
    ∷ []

-- normalize_plan_status
unfoldable pub normalize_plan_status : Text → Option Text
unfolding spelling
normalize_plan_status raw =
    if member (spelling raw) known_plan_statuses then some (spelling raw) else none

pub data PlanReadyDecision : Type 0 where
  unknown_plan : PlanReadyDecision
  unknown_plan_status plan_ready : Text → PlanReadyDecision

unfoldable pub is_known : Option Text → Bool
is_known none = false
is_known (some status) = true

-- plan_ready_decision: `plan_ready` is its "ask", with the text of the plan; the others deny
unfoldable pub plan_ready_decision : (Text → Text) → Text → Text → PlanReadyDecision
unfolding strip normalize_plan_status is_known
plan_ready_decision sub plan_text plan_status =
    let body = sub (strip plan_text) in
    if is_empty body
    then unknown_plan
    else if not (is_empty (strip plan_status))
        && not (is_known (normalize_plan_status (strip plan_status)))
    then unknown_plan_status body
    else plan_ready body

-- is_plan_ready_signal, of a status and a body as `plan_status_from_tool_input` and
-- `plan_text_from_tool_input` give them
unfoldable pub is_plan_ready_signal : Text → Text → Text → Bool
unfolding is_exit_plan_tool normalize_plan_status strip is_known
is_plan_ready_signal tool_name status body =
    is_exit_plan_tool tool_name
    || not (is_empty status)
      && is_known (normalize_plan_status status)
      && not (is_empty (strip body))
