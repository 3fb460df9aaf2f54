-- ===== src/Hold/Wait/Denied.antt =====
-- orchestration/gate_hook.py: a held call ends denied where no button lets it run.
use discord_os.Prelude.{
  ℕ, ◌+◌, ◌≡◌, refl, ◌≢◌, ◌⊎◌, inl, inr, Bool, true, false, Option, none, some, List, [],
  if◌then◌else◌, All, is_empty,
}
use discord_os.Text.{Text, txt, strip}
use discord_os.Gate.Decision.{ToolClassDecision, Verdict}
use discord_os.Gate.Classes.{normalize_tool_class}
use discord_os.Hold.Parked.{
  deny, GateHoldResult, Hold, Answer, or_text, missing_run_id, no_plan, raise_tool_gate,
  raise_classed, raise_ask_user, raise_plan_approve, raise_decided, gate_meta_payload,
  plan_meta_payload,
}
use discord_os.Hold.Plan.{
  PlanReadyDecision, unknown_plan, unknown_plan_status, plan_ready, plan_ready_decision,
}
use discord_os.Hold.Resolve.{is_ask_kind, with_prefs}
use discord_os.Hold.Wait.Ends.{reaches, Ended, hold_decision_ends}
use discord_os.Hold.Wait.{
  Round, GateRequest, hold_parked, raise_for, hold_decided, policy_for, hold_tool_decision,
  hold_plan_decision, is_denied, poll_tool, poll_plan, deny_result, asked_options,
}
use discord_os.Hold.Wait.Unpressed.{
  has_permit, IsUnpermitted, IsUnpressed, IsDenied, IsDenied-if, IsDenied-then, IsHonest,
  poll_tool-IsHonest, poll_plan-IsHonest, hold_parked-IsDenied,
}

-- What a raised gate says: the call was refused, or nothing lets it run yet.
abbrev IsRaised : Text → Answer × Hold → Type 0
IsRaised request_id (answer, h) = (is_denied answer ≡ true) ⊎ IsUnpermitted request_id h

IsRaised-if :
    (request_id : Text) (b : Bool) (x y : Answer × Hold)
    → IsRaised request_id x
    → IsRaised request_id y
    → IsRaised request_id (if b then x else y)
IsRaised-if request_id true x y p q = p
IsRaised-if request_id false x y p q = q

module _ (sub : Text → Text) (request_id : Text) (h : Hold)
    (fresh : has_permit request_id h ≡ false) where
  raise_classed-IsRaised :
      (class : Option Text) (klass detail tool_name : Text) (live : Bool) (id : Text)
      → IsRaised request_id (raise_classed sub class klass detail live id tool_name h)
  unfolding raise_classed gate_meta_payload is_denied has_permit
  raise_classed-IsRaised none klass detail tool_name live id = inl refl
  raise_classed-IsRaised (some c) klass detail tool_name live id = inr (refl, fresh)

  raise_ask_user-IsRaised :
      (options : List Text) (live : Bool) (id : Text) (multiple : Bool)
      → IsRaised request_id (raise_ask_user sub options live id multiple h)
  unfolding raise_ask_user gate_meta_payload is_denied has_permit
  raise_ask_user-IsRaised options live id multiple =
      IsRaised-if request_id (is_empty options) _ _ (inl refl) (inr (refl, fresh))

  raise_decided-IsRaised :
      (summary : Text) (d : PlanReadyDecision) → IsRaised request_id (raise_decided sub summary d h)
  unfolding raise_decided plan_meta_payload is_denied has_permit
  raise_decided-IsRaised summary unknown_plan = inl refl
  raise_decided-IsRaised summary (unknown_plan_status body) = inl refl
  raise_decided-IsRaised summary (plan_ready body) = inr (refl, fresh)

  raise_for-IsRaised :
      (req : GateRequest) (klass : Text) → IsRaised request_id (raise_for sub req klass h)
  unfolding raise_for raise_tool_gate
  raise_for-IsRaised req klass =
      IsRaised-if request_id (is_ask_kind req.kind)
        (raise_ask_user sub (asked_options req) true req.request_id req.allow_multiple h)
        (raise_tool_gate sub klass req.detail true req.request_id req.tool_name h)
        (raise_ask_user-IsRaised (asked_options req) true req.request_id req.allow_multiple)
        (raise_classed-IsRaised (normalize_tool_class klass) klass req.detail req.tool_name true
          req.request_id)

-- A hold that ended with a result that denies.
abbrev pub EndsDenied : Option (GateHoldResult × Hold) → Type 0
EndsDenied o = (held : GateHoldResult × Hold) × (o ≡ some held) × (held.0.decision ≡ deny)

IsDenied-EndsDenied : (o : Option (GateHoldResult × Hold)) → Ended o → IsDenied o → EndsDenied o
IsDenied-EndsDenied none e d = cc e.1
IsDenied-EndsDenied (some (r, h)) e d = ((r, h), refl, d)

module _ (sub : Text → Text) (now timeout : ℕ) (rounds : List Round)
    (unpressed : All IsUnpressed rounds) where
  raised-IsDenied :
      (poll : Hold → Option GateHoldResult) (request_id klass : Text) (raised : Answer × Hold)
      → IsHonest poll
      → IsRaised request_id raised
      → IsDenied (hold_parked sub poll request_id klass now timeout rounds raised)
  unfolding hold_parked deny_result
  raised-IsDenied poll request_id klass (answer, h) t (inl d) =
      IsDenied-then (is_denied answer) _ _ d refl
  raised-IsDenied poll request_id klass (answer, h) t (inr p) =
      hold_parked-IsDenied sub request_id poll klass now timeout rounds answer h t unpressed p

  hold_decided-IsDenied :
      (v : Verdict) (d : ToolClassDecision) (req : GateRequest) (h : Hold)
      → has_permit req.request_id h ≡ false
      → v ≢ Verdict.allow
      → IsDenied (hold_decided sub v d req now timeout rounds h)
  unfolding hold_decided deny_result
  hold_decided-IsDenied Verdict.deny d req h fresh n = refl
  hold_decided-IsDenied Verdict.allow d req h fresh n = absurd (n refl)
  hold_decided-IsDenied Verdict.ask d req h fresh n =
      raised-IsDenied (poll_tool req.request_id d.tool_class) req.request_id
        (or_text d.tool_class req.tool_class)
        (raise_for sub req (or_text d.tool_class req.tool_class) h)
        (poll_tool-IsHonest req.request_id d.tool_class)
        (raise_for-IsRaised sub req.request_id h fresh req (or_text d.tool_class req.tool_class))

  -- A tool call that the policy does not allow by itself is denied, once the clock reaches the
  -- deadline, where no button that may permit it is pressed and no result file is there before.
  pub hold_tool_decision-unpressed :
      (req : GateRequest) (h : Hold)
      → reaches (now + timeout) rounds ≡ true
      → has_permit req.request_id h ≡ false
      → (policy_for sub req now h).0.decision ≢ Verdict.allow
      → EndsDenied (hold_tool_decision sub req now timeout rounds h)
  unfolding hold_tool_decision deny_result has_permit
  hold_tool_decision-unpressed req h e fresh n =
      IsDenied-EndsDenied (hold_tool_decision sub req now timeout rounds h)
        (hold_decision_ends sub req [] [] now timeout rounds h e).0
        (IsDenied-if (is_empty req.run_id) _ _ refl (
          hold_decided-IsDenied (policy_for sub req now h).0.decision (policy_for sub req now h).0
            req (with_prefs (policy_for sub req now h).1 h) fresh n))

  -- A plan is denied, once the clock reaches the deadline, where no button that may permit it is
  -- pressed and no result file is there before.
  pub hold_plan_decision-unpressed :
      (req : GateRequest) (summary plan_status : Text) (h : Hold)
      → reaches (now + timeout) rounds ≡ true
      → has_permit req.request_id h ≡ false
      → EndsDenied (hold_plan_decision sub req summary plan_status now timeout rounds h)
  unfolding hold_plan_decision deny_result raise_plan_approve
  hold_plan_decision-unpressed req summary plan_status h e fresh =
      IsDenied-EndsDenied (hold_plan_decision sub req summary plan_status now timeout rounds h)
        (hold_decision_ends sub req summary plan_status now timeout rounds h e).1
        (IsDenied-if (is_empty req.run_id)
          (some (deny_result missing_run_id req.request_id (txt "plan"), h)) _ refl
          (IsDenied-if (is_empty (strip req.detail))
            (some (deny_result no_plan req.request_id (txt "plan"), h)) _ refl
            (raised-IsDenied (poll_plan req.request_id) req.request_id (txt "plan")
              (raise_plan_approve sub req.detail summary (or_text plan_status (txt "ready")) h)
              (poll_plan-IsHonest req.request_id)
              (raise_decided-IsRaised sub req.request_id h fresh summary
                (plan_ready_decision sub req.detail (or_text plan_status (txt "ready")))))))
