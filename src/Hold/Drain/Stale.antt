-- ===== src/Hold/Drain/Stale.antt =====
-- orchestration/gate_hook.py: the answer to one request is read as that to the next.
use discord_os.Prelude.{
  ℕ, ◌≡◌, refl, sym, ap, ◌∙◌, subst, true, false, none, some, ◌∷◌, arith, eq_self,
}
use discord_os.Text.{Text, text_eq}
use discord_os.Hold.Parked.{allow, answered, or_text, GateHoldResult, Hold}
use discord_os.Hold.Resolve.{finish_gate, resolve_verb, resolve_tool_gate, is_plan_kind}
use discord_os.Hold.Actions.{approving, apply_job_action}
use discord_os.Hold.Wait.{GateRequest, if_resolved, complete_request, read_result, poll_tool}
use discord_os.Hold.Drain.{Drained, resolved, untouched, drain_polled, drain_request}

-- A pass answers a request, with leave to run, and does nothing else to the run: neither a gate nor
-- a question is raised.
abbrev pub IsLetThrough : GateRequest → Hold → Drained × Hold → Type 0
IsLetThrough req before (action, after) =
    (action ≡ resolved)
    × ((r : GateHoldResult) × (read_result req.request_id after.results ≡ some r)
        × (r.decision ≡ allow)
        × (after ≡ record before { results = r ∷ before.results }))

approved_result :
    (sub : Text → Text) (now : ℕ) (h : Hold)
    → h.meta.awaiting_gate ≡ true
    → is_plan_kind h.meta.gate_kind ≡ false
    → (apply_job_action sub now approving h).1.meta.gate_result ≡ allow
unfolding apply_job_action resolve_tool_gate resolve_verb finish_gate
approved_result sub now h w k = ground (arith, w, k)

-- What the poll of a request says where the run's last gate was approved.
abbrev polled : GateRequest → Hold → GateHoldResult
polled req h = record {
  request_id = req.request_id;
  decision = h.meta.gate_result;
  gate_answer = h.meta.gate_answer;
  reason = answered h.meta.gate_result;
  tool_class = or_text h.meta.gate_class req.tool_class;
}

poll_tool-polled :
    (req : GateRequest) (h : Hold)
    → h.meta.gate_result ≡ allow
    → poll_tool req.request_id req.tool_class h ≡ some (polled req h)
unfolding poll_tool
poll_tool-polled req h a = ap (λ d. if_resolved d (polled req h)) a

read_result-polled :
    (req : GateRequest) (h : Hold)
    → h.meta.gate_result ≡ allow
    → read_result req.request_id (polled req h ∷ h.results) ≡ some (polled req h)
unfolding read_result
read_result-polled req h a = ground (arith, eq_self ⦃e = text_eq⦄ req.request_id, a)

module _ (sub : Text → Text) (now_ms timeout_ms created_ms : ℕ) (req : GateRequest) where
  drain_request-polled :
      (h : Hold)
      → h.meta.gate_result ≡ allow
      → read_result req.request_id h.results ≡ none
      → drain_request sub now_ms timeout_ms created_ms req h
        ≡ (resolved, complete_request (polled req h) h)
  unfolding drain_request drain_polled
  drain_request-polled h a fresh =
      ap
        (λ o. elim o [
          | some r ↦ (untouched, h)
          | none ↦
              drain_polled sub now_ms timeout_ms created_ms req
                (poll_tool req.request_id req.tool_class h) h
        ])
        fresh
      ∙ ap (λ o. drain_polled sub now_ms timeout_ms created_ms req o h) (poll_tool-polled req h a)

  -- Once the gate of a tool or of a question was approved, the next request of the run, whatever it
  -- asks for, is let through at the first pass over it: the pass only adds the answer, and puts
  -- nothing to anybody. The request has no answer yet; the gate was not a plan's.
  pub drain_request-stale :
      (now : ℕ) (h : Hold)
      → h.meta.awaiting_gate ≡ true
      → is_plan_kind h.meta.gate_kind ≡ false
      → read_result req.request_id (apply_job_action sub now approving h).1.results ≡ none
      → IsLetThrough req (apply_job_action sub now approving h).1 (
          drain_request sub now_ms timeout_ms created_ms req
            (apply_job_action sub now approving h).1)
  drain_request-stale now h w k fresh =
      let g = (apply_job_action sub now approving h).1 in
      let a = approved_result sub now h w k in
      subst (λ p. IsLetThrough req g p) (sym (drain_request-polled g a fresh))
        (refl, (polled req g, read_result-polled req g a, a, refl))
