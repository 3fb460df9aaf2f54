-- ===== src/Hold/Wait/Tests.antt =====
-- orchestration/gate_hook.py: a push and a plan that are held.
use discord_os.Prelude.{
  ◌≡◌, refl, sym, ◌∙◌, ◌≢◌, true, false, Option, none, some, List, [], ◌∷◌, All,
}
use discord_os.Text.{Text, txt, text_beq}
use discord_os.Gate.Decision.{Verdict}
use discord_os.Gate.Preferences.{set_write_gate}
use discord_os.Hold.Parked.{
  no_kind, tool_class, plan_approve, GateResult, unresolved, allow, Hold, running, GateHoldResult,
}
use discord_os.Hold.Actions.{approving, denying}
use discord_os.Hold.Wait.{Round, GateRequest, hold_tool_decision, hold_plan_decision, policy_for}
use discord_os.Hold.Wait.Ends.{reaches, Ended, hold_decision_ends}
use discord_os.Hold.Wait.Unpressed.{IsUnpressed, has_permit}
use discord_os.Hold.Wait.Denied.{EndsDenied, hold_tool_decision-unpressed}

abbrev cooking : Hold
unfolding set_write_gate
cooking = record {
  meta = record {
    awaiting_approval = false;
    awaiting_gate = false;
    awaiting_plan = false;
    plan_approved = false;
    gate_kind = no_kind;
    gate_class = [];
    gate_tool = [];
    gate_detail = [];
    gate_options = [];
    gate_multi = false;
    gate_selected = [];
    gate_result = unresolved;
    gate_answer = [];
    gate_live = false;
    gate_request_id = [];
    thread_id = txt "9";
    channel_id = [];
  };
  status = running;
  intake_text = txt "push it";
  task_thread = [];
  task_channel = txt "4";
  prefs = set_write_gate (λ s. s) true [];
  results = [];
  started = 0;
}

abbrev same : Text → Text
same s = s

abbrev push : GateRequest
push = record {
  request_id = txt "q1";
  run_id = txt "run";
  tool_name = txt "Bash";
  tool_class = txt "shell";
  detail = txt "git push";
  kind = tool_class;
  options = [];
  allow_multiple = false;
}

abbrev plan : GateRequest
plan = record {
  request_id = txt "q2";
  run_id = txt "run";
  tool_name = txt "ExitPlanMode";
  tool_class = txt "plan";
  detail = txt "1. Write it.";
  kind = plan_approve;
  options = [];
  allow_multiple = false;
}

-- Nobody comes, and the clock goes on.
abbrev nobody : List Round
nobody =
    record { now = 101; presses = [] } ∷ record { now = 125; presses = (124, denying) ∷ [] } ∷ []

-- Somebody approves in time.
abbrev somebody : List Round
somebody = record { now = 101; presses = (100, approving) ∷ [] } ∷ []

abbrev decision_of : Option (GateHoldResult × Hold) → GateResult
decision_of none = unresolved
decision_of (some (r, h)) = r.decision

push_approved : decision_of (hold_tool_decision same push 100 20 somebody cooking) ≡ allow
unfolding hold_tool_decision text_beq cooking
push_approved = refl

plan_approved :
    decision_of (hold_plan_decision same plan (txt "a plan") [] 100 20 somebody cooking) ≡ allow
unfolding hold_plan_decision text_beq cooking
plan_approved = refl

nobody_presses : All IsUnpressed nobody
nobody_presses = (tt, ((refl, tt), tt))

hold_decision_ends_example :
    Ended (hold_tool_decision same push 100 20 nobody cooking)
    × Ended (hold_plan_decision same push (txt "a plan") [] 100 20 nobody cooking)
unfolding reaches
hold_decision_ends_example =
    hold_decision_ends same push (txt "a plan") [] 100 20 nobody cooking refl

push_is_asked : (policy_for same push 100 cooking).0.decision ≡ Verdict.ask
unfolding policy_for text_beq cooking
push_is_asked = refl

ask-allow : Verdict.ask ≢ Verdict.allow
ask-allow e = cc e

hold_tool_decision-unpressed_example :
    EndsDenied (hold_tool_decision same push 100 20 nobody cooking)
unfolding reaches has_permit cooking
hold_tool_decision-unpressed_example =
    hold_tool_decision-unpressed same 100 20 nobody nobody_presses push cooking refl refl
      (λ e. ask-allow (sym push_is_asked ∙ e))
