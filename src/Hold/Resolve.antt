-- ===== src/Hold/Resolve.antt =====
-- orchestration/orchestrator.py: how a gate is resolved. `now` is the second of the call.
use discord_os.Prelude.{
  ℕ, Bool, true, false, not, ◌&&◌, ◌||◌, none, some, List, [], ◌∷◌, nat_eq, ◌==◌, if◌then◌else◌,
  is_empty,
}
use discord_os.Text.{Text, txt, text_eq, strip}
use discord_os.Text.Number.{pos}
use discord_os.Gate.Classes.{normalize_tool_class}
use discord_os.Gate.Scope.{shell_always_scope}
use discord_os.Gate.Grants.{
  allow_ttl_seconds, set_tool_class_session_allow, set_tool_exact_session_allow,
}
use discord_os.Gate.Preferences.{Preference}
use discord_os.Hold.Parked.{
  GateKind, no_kind, tool_class, ask_user, plan_approve, GateResult, allow, always, deny, running,
  completed, failed, GateMeta, GateHoldResult, answered, Hold, Answer, missing, ignored, finished,
  or_text, thread_of, channel_of,
}

-- The flags and the result that `_finish_gate` writes.
abbrev pub resolved_meta : GateResult → Text → GateMeta → GateMeta
resolved_meta result answer meta = record meta {
  awaiting_approval = false;
  awaiting_gate = false;
  awaiting_plan = false;
  gate_result = result;
  gate_answer = answer;
}

-- The result file of `_write_live_gate_result`.
unfoldable pub write_result :
    Text → GateResult → Text → Text → List GateHoldResult → List GateHoldResult
write_result request_id result answer klass results =
    if is_empty request_id
    then results
    else record {
      request_id = request_id;
      decision = result;
      gate_answer = answer;
      reason = answered result;
      tool_class = klass;
    }
      ∷ results

-- _finish_gate: a live hold goes on running, any other run is settled
unfoldable pub finish_gate : GateResult → Text → Bool → Hold → Answer × Hold
unfolding write_result strip
finish_gate result answer is_failed h =
    if h.meta.gate_live
    then (
      finished,
      record h {
        meta = resolved_meta result answer h.meta;
        status = running;
        results =
            write_result (strip h.meta.gate_request_id) result answer h.meta.gate_class h.results;
      },
    )
    else (
      finished,
      record h {
        meta = resolved_meta result answer h.meta;
        status = if is_failed then failed else completed;
      },
    )

pub data Verb : Type 0 where
  approve always_allow refuse : Verb

-- The scope of a grant: the thread, or else the channel.
unfoldable pub scope_of : Hold → Text
unfolding or_text thread_of channel_of
scope_of h = or_text (thread_of h) (channel_of h)

-- str(meta.get("gate_tool") or "").strip() or klass
unfoldable pub exact_of_gate : Hold → Text
unfolding or_text strip
exact_of_gate h = or_text (strip h.meta.gate_tool) (strip h.meta.gate_class)

abbrev pub with_prefs : List Preference → Hold → Hold
with_prefs prefs h = record h { prefs = prefs }

-- "always" on a shell command, by what the grant under its prefix came to.
unfoldable pub always_shell : Bool × List Preference → Hold → Answer × Hold
unfolding finish_gate
always_shell (false, prefs) h = finish_gate allow [] false (with_prefs prefs h)
always_shell (true, prefs) h = finish_gate always [] false (with_prefs prefs h)

unfoldable pub is_shell_gate : Hold → Bool
unfolding normalize_tool_class or_text exact_of_gate strip
is_shell_gate h =
    elim (normalize_tool_class (or_text (strip h.meta.gate_class) (exact_of_gate h))) [
      | none ↦ false
      | some c ↦ c == txt "shell"
    ]

module _ (sub : Text → Text) (now : ℕ) where
  -- An exact grant under a name, where there is a name and a scope.
  unfoldable pub grant_exact : Text → Hold → Bool × List Preference
  unfolding set_tool_exact_session_allow scope_of
  grant_exact name h =
      if is_empty name || is_empty (scope_of h)
      then (false, h.prefs)
      else set_tool_exact_session_allow sub name (scope_of h) (pos allow_ttl_seconds) now h.prefs

  -- The grant for the class, where the parked tool is the class and has no grant of its own.
  unfoldable pub class_fallback : Bool × List Preference → Hold → List Preference
  unfolding set_tool_class_session_allow scope_of exact_of_gate strip
  class_fallback (true, prefs) h = prefs
  class_fallback (false, prefs) h =
      if not (is_empty (strip h.meta.gate_class))
        && not (is_empty (scope_of h))
        && exact_of_gate h == strip h.meta.gate_class
      then set_tool_class_session_allow sub (strip h.meta.gate_class) (scope_of h)
          (pos allow_ttl_seconds) now prefs
      else prefs

  unfoldable pub always_tool_gate : Hold → Answer × Hold
  unfolding is_shell_gate always_shell grant_exact class_fallback finish_gate shell_always_scope
      exact_of_gate
  always_tool_gate h =
      if is_shell_gate h
      then always_shell (grant_exact (shell_always_scope (exact_of_gate h) h.meta.gate_detail) h) h
      else finish_gate always [] false
          (with_prefs (class_fallback (grant_exact (exact_of_gate h) h) h) h)

  -- What `_resolve_tool_gate` does at a gate.
  unfoldable pub resolve_verb : Verb → Hold → Answer × Hold
  unfolding always_tool_gate finish_gate
  resolve_verb approve h = finish_gate allow [] false h
  resolve_verb always_allow h = always_tool_gate h
  resolve_verb refuse h = finish_gate deny [] true h

  -- _resolve_tool_gate
  unfoldable pub resolve_tool_gate : Verb → Hold → Answer × Hold
  unfolding resolve_verb
  resolve_tool_gate verb h = if h.meta.awaiting_gate then resolve_verb verb h else (missing, h)

unfoldable pub is_plan_kind : GateKind → Bool
is_plan_kind plan_approve = true
is_plan_kind no_kind = false
is_plan_kind tool_class = false
is_plan_kind ask_user = false

unfoldable pub is_ask_kind : GateKind → Bool
is_ask_kind ask_user = true
is_ask_kind plan_approve = false
is_ask_kind no_kind = false
is_ask_kind tool_class = false

-- The second merge after an approved plan.
unfoldable pub mark_plan_approved : Answer × Hold → Answer × Hold
mark_plan_approved (answer, h) =
    (answer, record h { meta = record h.meta { plan_approved = true; awaiting_plan = false } })

-- _resolve_plan_gate; `approves` says that the verb is "approve"
unfoldable pub resolve_plan_gate : Bool → Hold → Answer × Hold
unfolding finish_gate mark_plan_approved is_plan_kind
resolve_plan_gate approves h =
    if not h.meta.awaiting_gate
    then (missing, h)
    else if not (is_plan_kind h.meta.gate_kind || h.meta.awaiting_plan)
    then (ignored, h)
    else if approves
    then mark_plan_approved (finish_gate allow [] false h)
    else finish_gate deny [] true h
