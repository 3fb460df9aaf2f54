-- ===== src/Hold/Actions/Tests.antt =====
-- orchestration/orchestrator.py: a run on which the theorems of the buttons are tried.
use discord_os.Prelude.{◌+◌, ◌≡◌, refl, true, false, [], ◌∷◌, ltb}
use discord_os.Text.{Text, txt, text_beq, strip}
use discord_os.Gate.Grants.{allow_ttl_seconds, write_session_allows_writes}
use discord_os.Hold.Parked.{no_kind, tool_class, unresolved, Hold, running, failed, raise_tool_gate}
use discord_os.Hold.Resolve.{scope_of}
use discord_os.Hold.Actions.{
  approving, always_allowing, denying, apply_job_action, Presses, apply_all,
}
use discord_os.Hold.Actions.Refines.{view, waiting, Step, apply_job_action-Step}
use discord_os.Hold.Actions.Safety.{apply_all-settled, apply_job_action-late}

-- A run in a thread, which waits at no gate.
abbrev idle : Hold
idle = record {
  meta = record {
    awaiting_approval = false;
    awaiting_gate = false;
    awaiting_plan = false;
    plan_approved = false;
    gate_kind = no_kind;
    gate_class = [];
    gate_tool = [];
    gate_detail = [];
    gate_options = [];
    gate_multi = false;
    gate_selected = [];
    gate_result = unresolved;
    gate_answer = [];
    gate_live = false;
    gate_request_id = [];
    thread_id = [];
    channel_id = [];
  };
  status = running;
  intake_text = txt "fix it";
  task_thread = txt "7";
  task_channel = txt "3";
  prefs = [];
  results = [];
  started = 0;
}

abbrev as_is : Text → Text
as_is s = s

-- A run that waits for the shell.
abbrev at_shell : Hold
unfolding raise_tool_gate
at_shell = (raise_tool_gate as_is (txt "shell") (txt "git push") true (txt "r1") [] idle).1

abbrev presses : Presses
presses = (5, always_allowing) ∷ (6, approving) ∷ (7, denying) ∷ []

at_shell_waits : view at_shell ≡ waiting tool_class
unfolding view raise_tool_gate text_beq
at_shell_waits = refl

apply_job_action-Step_example :
    Step (view at_shell) (view (apply_job_action as_is 9 always_allowing at_shell).1)
apply_job_action-Step_example = apply_job_action-Step as_is 9 always_allowing at_shell

apply_all-settled_example :
    ((apply_all as_is presses idle).meta.awaiting_gate ≡ false)
    × ((apply_all as_is presses idle).meta.gate_result ≡ unresolved)
apply_all-settled_example = apply_all-settled as_is presses idle refl

apply_job_action-late_example :
    ((write_session_allows_writes as_is
        (scope_of idle)
        20
        (apply_job_action as_is 10 always_allowing idle).1.prefs).0
      ≡ ltb 20 (10 + allow_ttl_seconds))
    × ((apply_job_action as_is 10 denying idle).1.status ≡ failed)
unfolding scope_of strip
apply_job_action-late_example = apply_job_action-late as_is (λ s d. refl) 10 20 idle refl refl
