-- ===== src/Hold/Actions/Safety.antt =====
-- orchestration/orchestrator.py: what holds of a gate whatever buttons are pressed.
use discord_os.Prelude.{
  ℕ, ◌+◌, ◌≡◌, refl, sym, ap, ◌∙◌, subst, ◌⊎◌, inl, inr, Bool, true, false, not, [], ◌∷◌, arith,
  ltb, if◌then◌else◌, is_empty,
}
use discord_os.Text.{Text, strip}
use discord_os.Text.Number.{pos}
use discord_os.Gate.Grants.{
  allow_ttl_seconds, set_write_session_allow, write_session_allows_writes, ttl_of,
}
use discord_os.Gate.Grants.Live.{set_write_session_allow-IsLive}
use discord_os.Text.Number.RoundTrip.{Digits}
use discord_os.Hold.Parked.{
  GateKind, plan_approve, GateResult, allow, deny, Hold, Answer, parked, failed, raise_plan_approve,
  raise_decided, plan_meta_payload,
}
use discord_os.Hold.Plan.{
  plan_ready_decision, PlanReadyDecision, unknown_plan, unknown_plan_status, plan_ready,
}
use discord_os.Hold.Resolve.{is_plan_kind, scope_of, with_prefs}
use discord_os.Hold.Actions.{
  always_allowing, denying, approve_parked_run, always_allow_parked_run, deny_parked_run,
  apply_job_action, Presses, apply_all,
}
use discord_os.Hold.Actions.Refines.{
  View, waiting, settled, view, Step, stays, allowed, refused, remembered, apply_job_action-Step,
}

Step-settled : (r : GateResult) (w : View) → Step (settled r) w → w ≡ settled r
Step-settled r w (stays e) = e
Step-settled r w (allowed k e f) = cc e
Step-settled r w (refused k e f) = cc e
Step-settled r w (remembered k e p f) = cc e

view-apply_all-settled :
    (sub : Text → Text) (r : GateResult) (presses : Presses) (h : Hold)
    → view h ≡ settled r
    → view (apply_all sub presses h) ≡ settled r
unfolding apply_all
view-apply_all-settled sub r [] h e = e
view-apply_all-settled sub r ((now, a) ∷ presses) h e =
    view-apply_all-settled sub r presses (apply_job_action sub now a h).1 (
      Step-settled r _ (
        subst (λ v. Step v (view (apply_job_action sub now a h).1)) e
          (apply_job_action-Step sub now a h)))

-- What may become of a plan's gate.
abbrev pub IsPlanView : View → Type 0
IsPlanView v = (v ≡ waiting plan_approve) ⊎ ((v ≡ settled allow) ⊎ (v ≡ settled deny))

plan_kind : (k : GateKind) → plan_approve ≡ k → is_plan_kind k ≡ true
unfolding is_plan_kind
plan_kind k e = subst (λ j. is_plan_kind j ≡ true) e refl

Step-IsPlanView : (v w : View) → IsPlanView v → Step v w → IsPlanView w
Step-IsPlanView v w p (stays e) = subst IsPlanView (sym e) p
Step-IsPlanView v w p (allowed k e f) = inr (inl f)
Step-IsPlanView v w p (refused k e f) = inr (inr f)
Step-IsPlanView v w (inl q) (remembered k e n f) = cc (plan_kind k (cc), n)
Step-IsPlanView v w (inr (inl q)) (remembered k e n f) = cc
Step-IsPlanView v w (inr (inr q)) (remembered k e n f) = cc

apply_all-IsPlanView :
    (sub : Text → Text) (presses : Presses) (h : Hold)
    → IsPlanView (view h)
    → IsPlanView (view (apply_all sub presses h))
unfolding apply_all
apply_all-IsPlanView sub [] h p = p
apply_all-IsPlanView sub ((now, a) ∷ presses) h p =
    apply_all-IsPlanView sub presses (apply_job_action sub now a h).1
      (Step-IsPlanView _ _ p (apply_job_action-Step sub now a h))

raise_decided-view :
    (sub : Text → Text) (summary : Text) (d : PlanReadyDecision) (h : Hold)
    → (raise_decided sub summary d h).0 ≡ parked
    → view (raise_decided sub summary d h).1 ≡ waiting plan_approve
unfolding raise_decided plan_meta_payload view
raise_decided-view sub summary unknown_plan h e = cc
raise_decided-view sub summary (unknown_plan_status body) h e = cc
raise_decided-view sub summary (plan_ready body) h e = refl

settled_result :
    (h : Hold) (r : GateResult)
    → view h ≡ settled r
    → (h.meta.awaiting_gate ≡ false) × (h.meta.gate_result ≡ r)
unfolding view
settled_result h r e = ground (arith, e)

-- Once a gate is settled, no buttons in any order change its decision or make it wait again.
pub apply_all-settled :
    (sub : Text → Text) (presses : Presses) (h : Hold)
    → h.meta.awaiting_gate ≡ false
    → ((apply_all sub presses h).meta.awaiting_gate ≡ false)
      × ((apply_all sub presses h).meta.gate_result ≡ h.meta.gate_result)
unfolding view
apply_all-settled sub presses h e =
    settled_result (apply_all sub presses h) h.meta.gate_result
      (view-apply_all-settled sub h.meta.gate_result presses h (ground (arith, e)))

-- A gate for a plan is never settled by "always": after any buttons it still waits, or was allowed
-- or denied.
pub raise_plan_approve-never_always :
    (sub : Text → Text) (plan_text summary plan_status : Text) (presses : Presses) (h : Hold)
    → (raise_plan_approve sub plan_text summary plan_status h).0 ≡ parked
    → IsPlanView
        (view (apply_all sub presses (raise_plan_approve sub plan_text summary plan_status h).1))
unfolding raise_plan_approve
raise_plan_approve-never_always sub plan_text summary plan_status presses h e =
    apply_all-IsPlanView sub presses _
      (inl (raise_decided-view sub summary (plan_ready_decision sub plan_text plan_status) h e))

approve_parked_run-prefs : (h : Hold) → (approve_parked_run h).1.prefs ≡ h.prefs
unfolding approve_parked_run
approve_parked_run-prefs h = ground arith

always_allow_parked_run-prefs :
    (sub : Text → Text) (now : ℕ) (h : Hold)
    → (always_allow_parked_run sub now h).1.prefs
      ≡ set_write_session_allow sub (scope_of h) (pos allow_ttl_seconds) now h.prefs
unfolding always_allow_parked_run
always_allow_parked_run-prefs sub now h =
    approve_parked_run-prefs
      (with_prefs (set_write_session_allow sub (scope_of h) (pos allow_ttl_seconds) now h.prefs) h)

-- The branch of a run that waits at no gate.
no_gate : (b : Bool) (x y : Answer × Hold) → b ≡ false → (if not b then x else y) ≡ x
no_gate true x y e = cc
no_gate false x y e = refl

-- On a run that waits at no gate, "always" allows every write in its thread or channel for four
-- hours, and "deny" marks the run as failed, whether or not it waits for an approval.
pub apply_job_action-late :
    (sub : Text → Text)
    → ((s : Text) → Digits s → sub s ≡ s)
    → (now later : ℕ) (h : Hold) → h.meta.awaiting_gate ≡ false
    → is_empty (strip (scope_of h)) ≡ false
    → ((write_session_allows_writes sub
          (scope_of h)
          later
          (apply_job_action sub now always_allowing h).1.prefs).0
        ≡ ltb later (now + allow_ttl_seconds))
      × ((apply_job_action sub now denying h).1.status ≡ failed)
unfolding apply_job_action deny_parked_run ttl_of
apply_job_action-late sub digits now later h e s = (
  ap (λ p. (write_session_allows_writes sub (scope_of h) later p).0)
        (ap (λ r. r.1.prefs) (no_gate h.meta.awaiting_gate (always_allow_parked_run sub now h) _ e)
          ∙ always_allow_parked_run-prefs sub now h)
      ∙ set_write_session_allow-IsLive sub digits (scope_of h) (pos allow_ttl_seconds) now later
          h.prefs s,
  ap (λ r. r.1.status) (no_gate h.meta.awaiting_gate (deny_parked_run h) _ e),
)
