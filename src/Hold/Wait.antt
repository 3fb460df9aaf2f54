-- ===== src/Hold/Wait.antt =====
-- orchestration/gate_hook.py: how a worker's tool call is held until its gate is answered. The
-- directory of the requests, and a run without an orchestrator, are not part of it.
pub mod Unpressed
pub mod Denied
pub mod Ends
mod Tests
use discord_os.Prelude.{
  ℕ, ◌+◌, Bool, true, false, ◌&&◌, Option, none, some, List, [], ◌∷◌, ltb, nat_eq, ◌==◌,
  if◌then◌else◌, is_empty,
}
use discord_os.Text.{Text, txt, text_eq, strip}
use discord_os.Gate.Decision.{ToolClassDecision, Verdict, tool_class_decision}
use discord_os.Gate.Preferences.{Preference}
use discord_os.Hold.Parked.{
  GateKind, GateResult, unresolved, allow, always, deny, GateHoldResult, HoldReason, missing_run_id,
  refused_to_park, no_plan, timed_out, by_policy, answered, Hold, Answer, missing, ignored, denied,
  parked, toggled, finished, approved, queued, interrupts, or_text, raise_tool_gate, raise_ask_user,
  raise_plan_approve,
}
use discord_os.Hold.Resolve.{is_ask_kind, with_prefs}
use discord_os.Hold.Actions.{Presses, apply_all, expire_parked_run}

-- A round of the waiting loop: the clock's reading, and the buttons pressed since the last one.
pub record Round : Type 0 where
  pub now : ℕ
  pub presses : Presses

-- What is held; `detail` has been through the redaction.
pub record GateRequest : Type 0 where
  pub request_id : Text
  pub run_id : Text
  pub tool_name : Text
  pub tool_class : Text
  pub detail : Text
  pub kind : GateKind
  pub options : List Text
  pub allow_multiple : Bool

abbrev pub complete_request : GateHoldResult → Hold → Hold
complete_request result h = record h { results = result ∷ h.results }

abbrev pub if_resolved : GateResult → GateHoldResult → Option GateHoldResult
if_resolved unresolved result = none
if_resolved allow result = some result
if_resolved always result = some result
if_resolved deny result = some result

-- read_result, of the last file that was written under an id
unfoldable pub read_result : Text → List GateHoldResult → Option GateHoldResult
read_result request_id [] = none
read_result request_id (r ∷ results) =
    let rest = read_result request_id results in
    if r.request_id == request_id then if_resolved r.decision r else rest

-- The `_poll` of hold_tool_decision.
unfoldable pub poll_tool : Text → Text → Hold → Option GateHoldResult
unfolding or_text
poll_tool request_id klass h = if_resolved h.meta.gate_result (record {
  request_id = request_id;
  decision = h.meta.gate_result;
  gate_answer = h.meta.gate_answer;
  reason = answered h.meta.gate_result;
  tool_class = or_text h.meta.gate_class klass;
})

-- "allow" where a plan's gate says "always"
unfoldable pub plan_result : GateResult → GateResult
plan_result always = allow
plan_result allow = allow
plan_result deny = deny
plan_result unresolved = unresolved

-- The `_poll` of hold_plan_decision.
unfoldable pub poll_plan : Text → Hold → Option GateHoldResult
unfolding plan_result
poll_plan request_id h = if_resolved (plan_result h.meta.gate_result) (record {
  request_id = request_id;
  decision = plan_result h.meta.gate_result;
  gate_answer = h.meta.gate_answer;
  reason = answered (plan_result h.meta.gate_result);
  tool_class = txt "plan";
})

-- The result that is there, by the file and by the poll, or what later rounds bring.
unfoldable pub found_or :
    Option GateHoldResult
    → Option GateHoldResult
    → Hold
    → Option (GateHoldResult × Hold)
    → Option (GateHoldResult × Hold)
found_or (some file) polled h later = some (file, h)
found_or none (some polled) h later = some (polled, complete_request polled h)
found_or none none h later = later

abbrev pub deny_by : HoldReason → Text → Text → GateHoldResult
deny_by reason request_id klass = record {
  request_id = request_id;
  decision = deny;
  gate_answer = [];
  reason = reason;
  tool_class = klass;
}

-- req.options or ("Yes", "No")
abbrev pub asked_options : GateRequest → List Text
asked_options req = if is_empty req.options then txt "Yes" ∷ txt "No" ∷ [] else req.options

-- deny_result
unfoldable pub deny_result : HoldReason → Text → Text → GateHoldResult
unfolding or_text
deny_result reason request_id klass = deny_by reason (or_text request_id (txt "unknown")) klass

-- timeout of a hold that found no answer: the gate is expired where it still waits
unfoldable pub is_timed_out : HoldReason → Bool
is_timed_out timed_out = true
is_timed_out missing_run_id = false
is_timed_out refused_to_park = false
is_timed_out no_plan = false
is_timed_out (by_policy reason) = false
is_timed_out (answered result) = false

unfoldable pub is_denied : Answer → Bool
is_denied denied = true
is_denied missing = false
is_denied ignored = false
is_denied parked = false
is_denied toggled = false
is_denied finished = false
is_denied approved = false
is_denied queued = false
is_denied interrupts = false

module _ (sub : Text → Text) where
  -- wait_for_result; `none` means that the rounds ended before the clock reached the deadline.
  unfoldable pub wait_for_result :
      (Hold → Option GateHoldResult)
      → Text
      → Text
      → ℕ
      → List Round
      → Hold
      → Option (GateHoldResult × Hold)
  unfolding found_or read_result apply_all
  wait_for_result poll request_id klass deadline [] h = none
  wait_for_result poll request_id klass deadline (round ∷ rounds) h =
      let g = apply_all sub round.presses h in
      let later = wait_for_result poll request_id klass deadline rounds g in
      if ltb round.now deadline
      then found_or (read_result request_id g.results) (poll g) g later
      else some (
        deny_by timed_out request_id klass,
        complete_request (deny_by timed_out request_id klass) g,
      )

  -- The gate is expired after a hold that ran out of time, where it still waits.
  unfoldable pub expire_after : ℕ → GateHoldResult × Hold → GateHoldResult × Hold
  unfolding expire_parked_run is_timed_out
  expire_after now (held, h) =
      if is_timed_out held.reason && h.meta.awaiting_gate
      then (held, (expire_parked_run sub now h).1)
      else (held, h)

  unfoldable pub expire_if_held :
      ℕ → Option (GateHoldResult × Hold) → Option (GateHoldResult × Hold)
  unfolding expire_after
  expire_if_held now none = none
  expire_if_held now (some held) = some (expire_after now held)

  -- The gate of a request.
  unfoldable pub raise_for : GateRequest → Text → Hold → Answer × Hold
  unfolding raise_tool_gate raise_ask_user is_ask_kind
  raise_for req klass h =
      if is_ask_kind req.kind
      then raise_ask_user sub (asked_options req) true req.request_id req.allow_multiple h
      else raise_tool_gate sub klass req.detail true req.request_id req.tool_name h

  -- After the gate was raised.
  unfoldable pub hold_parked :
      (Hold → Option GateHoldResult)
      → Text
      → Text
      → ℕ
      → ℕ
      → List Round
      → Answer × Hold
      → Option (GateHoldResult × Hold)
  unfolding is_denied deny_result wait_for_result expire_if_held
  hold_parked poll request_id klass now timeout rounds (answer, h) =
      if is_denied answer
      then some (
        deny_result refused_to_park request_id klass,
        complete_request (deny_result refused_to_park request_id klass) h,
      )
      else expire_if_held now (wait_for_result poll request_id klass (now + timeout) rounds h)

  -- What becomes of a call, by the policy's word on it.
  unfoldable pub hold_decided :
      Verdict
      → ToolClassDecision
      → GateRequest
      → ℕ
      → ℕ
      → List Round
      → Hold
      → Option (GateHoldResult × Hold)
  unfolding hold_parked raise_for deny_result or_text poll_tool
  hold_decided Verdict.deny d req now timeout rounds h =
      some (deny_result (by_policy d.reason) req.request_id d.tool_class, h)
  hold_decided Verdict.allow d req now timeout rounds h = some (
    record {
      request_id = req.request_id;
      decision = allow;
      gate_answer = [];
      reason = by_policy d.reason;
      tool_class = d.tool_class;
    },
    h,
  )
  hold_decided Verdict.ask d req now timeout rounds h =
      hold_parked (poll_tool req.request_id d.tool_class) req.request_id
        (or_text d.tool_class req.tool_class) now timeout rounds
        (raise_for req (or_text d.tool_class req.tool_class) h)

  -- The policy's word on a request.
  unfoldable pub policy_for : GateRequest → ℕ → Hold → ToolClassDecision × List Preference
  unfolding tool_class_decision or_text
  policy_for req now h =
      tool_class_decision sub (or_text req.tool_class req.tool_name)
        (or_text h.task_channel h.meta.channel_id) (or_text h.task_thread h.meta.thread_id) none
        req.tool_name req.detail now h.prefs

  -- hold_tool_decision
  unfoldable pub hold_tool_decision :
      GateRequest → ℕ → ℕ → List Round → Hold → Option (GateHoldResult × Hold)
  unfolding hold_decided policy_for deny_result
  hold_tool_decision req now timeout rounds h =
      if is_empty req.run_id
      then some (deny_result missing_run_id req.request_id req.tool_class, h)
      else hold_decided (policy_for req now h).0.decision (policy_for req now h).0 req now timeout
          rounds (with_prefs (policy_for req now h).1 h)

  -- hold_plan_decision, of a request whose detail is the plan
  unfoldable pub hold_plan_decision :
      GateRequest → Text → Text → ℕ → ℕ → List Round → Hold → Option (GateHoldResult × Hold)
  unfolding hold_parked raise_plan_approve deny_result poll_plan or_text strip
  hold_plan_decision req summary plan_status now timeout rounds h =
      if is_empty req.run_id
      then some (deny_result missing_run_id req.request_id (txt "plan"), h)
      else if is_empty (strip req.detail)
      then some (deny_result no_plan req.request_id (txt "plan"), h)
      else hold_parked (poll_plan req.request_id) req.request_id (txt "plan") now timeout rounds
          (raise_plan_approve sub req.detail summary (or_text plan_status (txt "ready")) h)
