-- ===== src/Hold/Actions.antt =====
-- orchestration/orchestrator.py: the buttons of a parked run. The interruption of a live cook,
-- `_cancel_live_cook`, is not part of it, nor is what an approved intake does once it runs.
pub mod Safety
pub mod Refines
mod Tests
use discord_os.Prelude.{
  ℕ, zero, suc, true, false, not, ◌&&◌, ◌||◌, Option, none, some, List, [], ◌∷◌, ◌++◌, ltb, nat_eq,
  ◌==◌, if◌then◌else◌, length, is_empty, select, member,
}
use discord_os.Text.{Text, txt, text_eq, strip}
use discord_os.Text.Number.{ℤ, pos}
use discord_os.Gate.Selection.{insert, coerce_selected_indices}
use discord_os.Gate.Grants.{allow_ttl_seconds, set_write_session_allow}
use discord_os.Hold.Parked.{
  allow, completed, failed, Hold, Answer, missing, ignored, toggled, denied, approved, queued,
  interrupts,
}
use discord_os.Hold.Resolve.{
  finish_gate, approve, always_allow, refuse, scope_of, with_prefs, resolve_tool_gate, is_plan_kind,
  is_ask_kind, resolve_plan_gate,
}

-- options[i], if there is one
unfoldable pub option_at : ℕ → List Text → Option Text
option_at i [] = none
option_at zero (o ∷ os) = some o
option_at (suc i) (o ∷ os) = option_at i os

abbrev pub items_of : List ℕ → List (Option ℤ)
items_of [] = []
items_of (i ∷ is) = some (pos i) ∷ items_of is

-- The selection that is stored, as `coerce_selected_indices` reads it.
unfoldable pub chosen_of : Hold → List ℕ
unfolding coerce_selected_indices
chosen_of h = coerce_selected_indices (length h.meta.gate_options) (items_of h.meta.gate_selected)

unfoldable pub toggle : ℕ → List ℕ → List ℕ
unfolding insert
toggle i chosen = if member i chosen then select (λ j. not (j == i)) chosen else insert i chosen

-- _toggle_ask_option, once the option is known to exist
unfoldable pub toggle_ask_option : ℕ → Hold → Answer × Hold
unfolding toggle chosen_of
toggle_ask_option i h =
    (toggled, record h { meta = record h.meta { gate_selected = toggle i (chosen_of h) } })

unfoldable pub answer_option : Option Text → Hold → Answer × Hold
unfolding finish_gate
answer_option none h = (missing, h)
answer_option (some label) h = finish_gate allow label false h

-- _resolve_ask_option; the labels that are stored are not empty
unfoldable pub resolve_ask_option : ℕ → Hold → Answer × Hold
unfolding toggle_ask_option answer_option option_at is_ask_kind
resolve_ask_option i h =
    if not h.meta.awaiting_gate
    then (missing, h)
    else if not (is_ask_kind h.meta.gate_kind)
    then (ignored, h)
    else if h.meta.gate_multi
    then (if ltb i (length h.meta.gate_options) then toggle_ask_option i h else (missing, h))
    else answer_option (option_at i h.meta.gate_options) h

-- ", ".join of the labels at some places
unfoldable pub labels_at : List ℕ → List Text → Text
unfolding option_at
labels_at [] options = []
labels_at (i ∷ []) options = elim (option_at i options) [ none ↦ [] | some o ↦ o ]
labels_at (i ∷ j ∷ is) options =
    (elim (option_at i options) [ none ↦ [] | some o ↦ o ])
    ++ txt ", "
    ++ labels_at (j ∷ is) options

-- _confirm_ask_multi
unfoldable pub confirm_ask_multi : Hold → Answer × Hold
unfolding finish_gate labels_at chosen_of is_ask_kind
confirm_ask_multi h =
    if not h.meta.awaiting_gate
    then (missing, h)
    else if not (is_ask_kind h.meta.gate_kind && h.meta.gate_multi)
    then (ignored, h)
    else if is_empty (labels_at (chosen_of h) h.meta.gate_options)
    then (ignored, h)
    else finish_gate allow (labels_at (chosen_of h) h.meta.gate_options) false h

-- _approve_parked_run: the parked intake is handed on to be run
unfoldable pub approve_parked_run : Hold → Answer × Hold
unfolding strip
approve_parked_run h =
    let settled = record h {
      meta = record h.meta { awaiting_approval = false };
      status = completed;
    } in
    if not h.meta.awaiting_approval
    then (approved, h)
    else if is_empty (strip h.intake_text) || is_empty h.task_channel && is_empty h.meta.channel_id
    then (missing, settled)
    else (queued, record settled { started = suc settled.started })

-- _deny_parked_run
unfoldable pub deny_parked_run : Hold → Answer × Hold
deny_parked_run h =
    (denied, record h { meta = record h.meta { awaiting_approval = false }; status = failed })

-- What a button, or the clock, asks for.
pub data Action : Type 0 where
  approving always_allowing denying expiring cancelling confirming : Action
  choosing : ℕ → Action

module _ (sub : Text → Text) (now : ℕ) where
  -- _always_allow_parked_run
  unfoldable pub always_allow_parked_run : Hold → Answer × Hold
  unfolding approve_parked_run set_write_session_allow scope_of
  always_allow_parked_run h =
      approve_parked_run (
        with_prefs (set_write_session_allow sub (scope_of h) (pos allow_ttl_seconds) now h.prefs) h)

  -- expire_parked_run
  unfoldable pub expire_parked_run : Hold → Answer × Hold
  unfolding resolve_plan_gate resolve_tool_gate deny_parked_run is_plan_kind
  expire_parked_run h =
      if not h.meta.awaiting_gate
      then deny_parked_run h
      else if is_plan_kind h.meta.gate_kind
      then resolve_plan_gate false h
      else resolve_tool_gate sub now refuse h

  -- apply_job_action, of these verbs
  unfoldable pub apply_job_action : Action → Hold → Answer × Hold
  unfolding resolve_plan_gate resolve_tool_gate approve_parked_run always_allow_parked_run
      deny_parked_run expire_parked_run confirm_ask_multi resolve_ask_option is_plan_kind
  apply_job_action approving h =
      if not h.meta.awaiting_gate
      then approve_parked_run h
      else if is_plan_kind h.meta.gate_kind
      then resolve_plan_gate true h
      else resolve_tool_gate sub now approve h
  apply_job_action always_allowing h =
      if not h.meta.awaiting_gate
      then always_allow_parked_run h
      else if is_plan_kind h.meta.gate_kind
      then (ignored, h)
      else resolve_tool_gate sub now always_allow h
  apply_job_action denying h =
      if not h.meta.awaiting_gate
      then deny_parked_run h
      else if is_plan_kind h.meta.gate_kind
      then resolve_plan_gate false h
      else resolve_tool_gate sub now refuse h
  apply_job_action expiring h = expire_parked_run h
  apply_job_action cancelling h =
      if h.meta.awaiting_gate && is_plan_kind h.meta.gate_kind
      then resolve_plan_gate false h
      else (interrupts, h)
  apply_job_action confirming h = confirm_ask_multi h
  apply_job_action (choosing i) h = resolve_ask_option i h

-- Buttons that are pressed one after another, each with the second in which it is pressed.
abbrev pub Presses : Type 0
Presses = List (ℕ × Action)

unfoldable pub apply_all : (Text → Text) → Presses → Hold → Hold
unfolding apply_job_action
apply_all sub [] h = h
apply_all sub ((now, a) ∷ presses) h = apply_all sub presses (apply_job_action sub now a h).1
