-- ===== src/Hold/Drain.antt =====
-- orchestration/gate_hook.py: what the host makes of a request that another process has queued, in
-- one pass of `drain_gate_queue`.
pub mod Stale
mod Tests
use discord_os.Prelude.{
  ℕ, ◌+◌, ◌/◌, Bool, true, ◌&&◌, ◌||◌, Option, none, some, [], ltb, leb, if◌then◌else◌,
}
use discord_os.Text.{Text, txt}
use discord_os.Gate.Classes.{normalize_tool_class}
use discord_os.Gate.Decision.{ToolClassDecision, Verdict, unknown_class}
use discord_os.Hold.Plan.{is_exit_plan_tool}
use discord_os.Hold.Parked.{
  allow, GateHoldResult, timed_out, by_policy, Hold, or_text, raise_tool_gate, raise_ask_user,
  raise_plan_approve,
}
use discord_os.Hold.Resolve.{is_ask_kind, is_plan_kind, with_prefs}
use discord_os.Hold.Actions.{expire_parked_run}
use discord_os.Hold.Wait.{
  GateRequest, complete_request, read_result, poll_tool, deny_result, asked_options, policy_for,
}

-- The "action" of a pass over one request.
pub data Drained : Type 0 where
  untouched resolved aged_out waits auto_allowed refused carded : Drained

-- The plan that is put to the user.
abbrev pub plan_summary : Text
plan_summary = txt "Plan ready. Approve to implement."

abbrev pub is_plan_request : GateRequest → Bool
is_plan_request req = is_plan_kind req.kind || is_exit_plan_tool req.tool_name

abbrev pub policy_allows : GateRequest → ToolClassDecision → GateHoldResult
policy_allows req d = record {
  request_id = req.request_id;
  decision = allow;
  gate_answer = [];
  reason = by_policy d.reason;
  tool_class = or_text d.tool_class req.tool_class;
}

module _ (sub : Text → Text) (now_ms timeout_ms created_ms : ℕ) (req : GateRequest) where
  -- The card of a tool, by the class that its name was normalised to.
  unfoldable pub card_of_tool : Option Text → Hold → Drained × Hold
  unfolding deny_result raise_tool_gate
  card_of_tool none h = (
    refused,
    complete_request (deny_result (by_policy unknown_class) req.request_id req.tool_class) h,
  )
  card_of_tool (some c) h =
      (carded, (raise_tool_gate sub c req.detail true req.request_id req.tool_name h).1)

  unfoldable pub raise_card : Hold → Drained × Hold
  unfolding card_of_tool is_ask_kind is_plan_kind is_exit_plan_tool raise_ask_user
      raise_plan_approve normalize_tool_class or_text
  raise_card h =
      if is_ask_kind req.kind
      then (
        carded,
        (raise_ask_user sub (asked_options req) true req.request_id req.allow_multiple h).1,
      )
      else if is_plan_request req
      then (carded, (raise_plan_approve sub req.detail plan_summary (txt "ready") h).1)
      else card_of_tool (normalize_tool_class (or_text req.tool_class req.tool_name)) h

  -- By the policy's word.
  unfoldable pub drain_decided : Verdict → ToolClassDecision → Hold → Drained × Hold
  unfolding raise_card deny_result or_text
  drain_decided Verdict.allow d h = (auto_allowed, complete_request (policy_allows req d) h)
  drain_decided Verdict.deny d h = (
    refused,
    complete_request
        (deny_result (by_policy d.reason) req.request_id (or_text d.tool_class req.tool_class)) h,
  )
  drain_decided Verdict.ask d h = raise_card h

  unfoldable pub expire_waiting : Hold → Hold
  unfolding expire_parked_run
  expire_waiting h = if h.meta.awaiting_gate then (expire_parked_run sub (now_ms / 1000) h).1 else h

  -- A request without a result, by what the poll of its run says.
  unfoldable pub drain_polled : Option GateHoldResult → Hold → Drained × Hold
  unfolding drain_decided policy_for raise_card deny_result expire_waiting is_ask_kind is_plan_kind
      is_exit_plan_tool
  drain_polled (some written) h = (resolved, complete_request written h)
  drain_polled none h =
      if ltb 0 created_ms && leb (created_ms + timeout_ms) now_ms
      then (
        aged_out,
        expire_waiting (complete_request (deny_result timed_out req.request_id req.tool_class) h),
      )
      else if h.meta.awaiting_gate
      then (waits, h)
      else if is_ask_kind req.kind || is_plan_request req
      then raise_card h
      else drain_decided (policy_for sub req (now_ms / 1000) h).0.decision
          (policy_for sub req (now_ms / 1000) h).0
          (with_prefs (policy_for sub req (now_ms / 1000) h).1 h)

  -- drain_gate_queue, of one request of its run
  unfoldable pub drain_request : Hold → Drained × Hold
  unfolding drain_polled read_result poll_tool
  drain_request h = elim (read_result req.request_id h.results) [
    | some r ↦ (untouched, h)
    | none ↦ drain_polled (poll_tool req.request_id req.tool_class h) h
  ]
