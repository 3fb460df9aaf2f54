-- ===== src/Hold/Parked.antt =====
-- orchestration/orchestrator.py: a run that waits at a gate, and the three ways in which it comes
-- to wait. The state is what the gates read and write of one run that has a task; cards, presence
-- and the spoken summaries are not part of it.
use discord_os.Prelude.{
  ℕ, Bool, true, false, Option, none, some, List, [], ◌∷◌, if◌then◌else◌, take, is_empty,
}
use discord_os.Text.{Text, txt, strip}
use discord_os.Gate.Classes.{normalize_tool_class}
use discord_os.Gate.Decision.{Reason}
use discord_os.Gate.Preferences.{Preference}
use discord_os.Hold.Plan.{
  PlanReadyDecision, unknown_plan, unknown_plan_status, plan_ready, plan_ready_decision,
}

-- gate_kind
pub data GateKind : Type 0 where
  no_kind tool_class ask_user plan_approve : GateKind

-- gate_result; `unresolved` is the empty text
pub data GateResult : Type 0 where
  unresolved allow always deny : GateResult

pub data RunStatus : Type 0 where
  pending running completed failed : RunStatus

-- The entries of the task's metadata that the gates use.
pub record GateMeta : Type 0 where
  pub awaiting_approval : Bool
  pub awaiting_gate : Bool
  pub awaiting_plan : Bool
  pub plan_approved : Bool
  pub gate_kind : GateKind
  pub gate_class : Text
  pub gate_tool : Text
  pub gate_detail : Text
  pub gate_options : List Text
  pub gate_multi : Bool
  pub gate_selected : List ℕ
  pub gate_result : GateResult
  pub gate_answer : Text
  pub gate_live : Bool
  pub gate_request_id : Text
  pub thread_id : Text
  pub channel_id : Text

-- The texts of a result's reason: those of the policy, or a person's answer, or why the hold ended
-- without one.
pub data HoldReason : Type 0 where
  missing_run_id refused_to_park no_plan timed_out : HoldReason
  by_policy : Reason → HoldReason
  answered : GateResult → HoldReason

-- A result of a hold, and the file that `complete_request` makes of it.
pub record GateHoldResult : Type 0 where
  pub request_id : Text
  pub decision : GateResult
  pub gate_answer : Text
  pub reason : HoldReason
  pub tool_class : Text

-- `started` counts the intakes that an approval has handed on to be run.
pub record Hold : Type 0 where
  pub meta : GateMeta
  pub status : RunStatus
  pub intake_text : Text
  pub task_thread : Text
  pub task_channel : Text
  pub prefs : List Preference
  pub results : List GateHoldResult
  pub started : ℕ

-- The "status" of an answer.
pub data Answer : Type 0 where
  missing ignored denied parked toggled finished approved queued interrupts : Answer

-- a or b, for texts
unfoldable pub or_text : Text → Text → Text
or_text a b = if is_empty a then b else a

unfoldable pub thread_of : Hold → Text
unfolding or_text strip
thread_of h = strip (or_text h.task_thread h.meta.thread_id)

unfoldable pub channel_of : Hold → Text
unfolding or_text strip
channel_of h = strip (or_text h.task_channel h.meta.channel_id)

-- The labels of `_coerce_options`.
unfoldable pub coerce_options : List Text → List Text
unfolding strip
coerce_options [] = []
coerce_options (label ∷ labels) =
    let rest = coerce_options labels in if is_empty (strip label) then rest else strip label ∷ rest

unfoldable pub class_or_text : Text → Text
unfolding normalize_tool_class strip
class_or_text raw = elim (normalize_tool_class raw) [ some c ↦ c | none ↦ strip raw ]

-- What is asked for, as the arguments of `gate_meta_payload`.
pub record GateAsk : Type 0 where
  pub kind : GateKind
  pub klass : Text
  pub tool_name : Text
  pub detail : Text
  pub options : List Text
  pub live : Bool
  pub request_id : Text
  pub allow_multiple : Bool

-- The metadata after the patch of `gate_meta_payload`; nothing is selected at first.
unfoldable pub gate_meta_payload : (Text → Text) → GateAsk → Hold → GateMeta
unfolding class_or_text coerce_options thread_of channel_of strip
gate_meta_payload sub ask h = record h.meta {
  awaiting_approval = true;
  awaiting_gate = true;
  gate_kind = ask.kind;
  gate_class = class_or_text ask.klass;
  gate_tool = strip ask.tool_name;
  gate_detail = take 500 (sub ask.detail);
  gate_options = coerce_options ask.options;
  gate_multi = ask.allow_multiple;
  gate_selected = [];
  gate_result = unresolved;
  gate_answer = [];
  gate_live = ask.live;
  gate_request_id = strip ask.request_id;
  thread_id = thread_of h;
  channel_id = channel_of h;
}

-- The patch of `plan_meta_payload`, which leaves gate_live, gate_request_id and gate_tool alone.
unfoldable pub plan_meta_payload : (Text → Text) → Text → Hold → GateMeta
unfolding thread_of channel_of strip
plan_meta_payload sub summary h = record h.meta {
  awaiting_approval = true;
  awaiting_gate = true;
  awaiting_plan = true;
  gate_kind = plan_approve;
  gate_class = txt "plan";
  gate_detail = take 500 (sub (strip summary));
  gate_options = [];
  gate_result = unresolved;
  gate_answer = [];
  thread_id = thread_of h;
  channel_id = channel_of h;
}

-- The gate of a tool, by the class that its name was normalised to.
unfoldable pub raise_classed :
    (Text → Text) → Option Text → Text → Text → Bool → Text → Text → Hold → Answer × Hold
unfolding gate_meta_payload or_text strip
raise_classed sub none klass detail live request_id tool_name h = (denied, h)
raise_classed sub (some c) klass detail live request_id tool_name h = (
  parked,
  record h {
    meta =
        gate_meta_payload sub
          (record {
            kind = tool_class;
            klass = c;
            tool_name = or_text (strip tool_name) (strip klass);
            detail = detail;
            options = [];
            live = live;
            request_id = request_id;
            allow_multiple = false;
          })
          h;
    status = pending;
  },
)

-- raise_tool_gate
unfoldable pub raise_tool_gate :
    (Text → Text) → Text → Text → Bool → Text → Text → Hold → Answer × Hold
unfolding raise_classed normalize_tool_class
raise_tool_gate sub klass detail live request_id tool_name h =
    raise_classed sub (normalize_tool_class klass) klass detail live request_id tool_name h

-- raise_ask_user, with the labels of its options
unfoldable pub raise_ask_user :
    (Text → Text) → List Text → Bool → Text → Bool → Hold → Answer × Hold
unfolding gate_meta_payload
raise_ask_user sub options live request_id allow_multiple h =
    if is_empty options then (denied, h) else (
      parked,
      record h {
        meta =
            gate_meta_payload sub
              (record {
                kind = ask_user;
                klass = txt "ask";
                tool_name = [];
                detail = [];
                options = options;
                live = live;
                request_id = request_id;
                allow_multiple = allow_multiple;
              })
              h;
        status = pending;
      },
    )

unfoldable pub raise_decided : (Text → Text) → Text → PlanReadyDecision → Hold → Answer × Hold
unfolding plan_meta_payload
raise_decided sub summary unknown_plan h = (denied, h)
raise_decided sub summary (unknown_plan_status body) h = (denied, h)
raise_decided sub summary (plan_ready body) h =
    (parked, record h { meta = plan_meta_payload sub summary h; status = pending })

-- raise_plan_approve
unfoldable pub raise_plan_approve : (Text → Text) → Text → Text → Text → Hold → Answer × Hold
unfolding raise_decided plan_ready_decision
raise_plan_approve sub plan_text summary plan_status h =
    raise_decided sub summary (plan_ready_decision sub plan_text plan_status) h
