-- ===== src/Hold/Expiry/Tests.antt =====
-- orchestration/service.py: parked runs, of which some have waited for long.
use discord_os.Prelude.{ℕ, ◌≡◌, refl, true, false, Option, none, some, List, [], ◌∷◌, map, arith}
use discord_os.Text.{Text, txt, text_beq}
use discord_os.Hold.Parked.{tool_class, unresolved, deny, Hold, pending}
use discord_os.Hold.Expiry.{Minutes, ParkedRun, approval_timeout_seconds, expire_parked_approvals}
use discord_os.Hold.Expiry.Overdue.{AreTimely, expire_parked_approvals-AreTimely}

abbrev at_gate : Hold
at_gate = record {
  meta = record {
    awaiting_approval = true;
    awaiting_gate = true;
    awaiting_plan = false;
    plan_approved = false;
    gate_kind = tool_class;
    gate_class = txt "shell";
    gate_tool = txt "Bash";
    gate_detail = [];
    gate_options = [];
    gate_multi = false;
    gate_selected = [];
    gate_result = unresolved;
    gate_answer = [];
    gate_live = true;
    gate_request_id = txt "q1";
    thread_id = txt "9";
    channel_id = [];
  };
  status = pending;
  intake_text = txt "push it";
  task_thread = [];
  task_channel = txt "4";
  prefs = [];
  results = [];
  started = 0;
}

abbrev parked_run : Option ℕ → ParkedRun
parked_run ms = record { run_id = txt "run"; parked_ms = ms; created_ms = none; hold = at_gate }

-- The first has waited for two minutes, the second for half a minute, the third for who knows.
abbrev runs : List ParkedRun
runs = parked_run (some 1000) ∷ parked_run (some 91000) ∷ parked_run none ∷ []

-- A minute, whatever is written.
abbrev a_minute : Text → Option Minutes
a_minute raw = some (record { is_positive = true; whole_seconds = 60 })

abbrev same : Text → Text
same s = s

decisions :
    map
      (λ r. r.hold.meta.gate_result)
      (expire_parked_approvals same a_minute (txt "1") 121000 runs).1
    ≡ deny ∷ unresolved ∷ deny ∷ []
unfolding expire_parked_approvals text_beq
decisions = refl

expire_parked_approvals-AreTimely_example :
    AreTimely
      (approval_timeout_seconds a_minute (txt "1"))
      121000
      runs
      (expire_parked_approvals same a_minute (txt "1") 121000 runs).1
unfolding approval_timeout_seconds text_beq
expire_parked_approvals-AreTimely_example =
    expire_parked_approvals-AreTimely same a_minute (txt "1") 121000 runs (omega arith)
