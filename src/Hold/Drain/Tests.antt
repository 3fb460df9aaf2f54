-- ===== src/Hold/Drain/Tests.antt =====
-- orchestration/gate_hook.py: a listing is approved, and a push follows.
use discord_os.Prelude.{refl, true, false, []}
use discord_os.Text.{Text, txt, text_beq, strip}
use discord_os.Hold.Parked.{tool_class, unresolved, Hold, pending}
use discord_os.Hold.Actions.{approving, apply_job_action}
use discord_os.Hold.Wait.{GateRequest, read_result}
use discord_os.Hold.Drain.{drain_request}
use discord_os.Hold.Drain.Stale.{IsLetThrough, drain_request-stale}

-- The run waits for the listing.
abbrev listing : Hold
listing = record {
  meta = record {
    awaiting_approval = true;
    awaiting_gate = true;
    awaiting_plan = false;
    plan_approved = false;
    gate_kind = tool_class;
    gate_class = txt "shell";
    gate_tool = txt "Bash";
    gate_detail = txt "ls";
    gate_options = [];
    gate_multi = false;
    gate_selected = [];
    gate_result = unresolved;
    gate_answer = [];
    gate_live = true;
    gate_request_id = txt "q1";
    thread_id = txt "9";
    channel_id = [];
  };
  status = pending;
  intake_text = txt "list it";
  task_thread = [];
  task_channel = txt "4";
  prefs = [];
  results = [];
  started = 0;
}

abbrev same : Text → Text
same s = s

abbrev push : GateRequest
push = record {
  request_id = txt "q2";
  run_id = txt "run";
  tool_name = txt "Bash";
  tool_class = txt "shell";
  detail = txt "git push --force";
  kind = tool_class;
  options = [];
  allow_multiple = false;
}

drain_request-stale_example :
    IsLetThrough push
      (apply_job_action same 4 approving listing).1
      (drain_request same 5000 60000 4000 push (apply_job_action same 4 approving listing).1)
unfolding apply_job_action read_result text_beq strip
drain_request-stale_example = drain_request-stale same 5000 60000 4000 push 4 listing refl refl refl
