-- ===== src/Hold/Actions/Refines.antt =====
-- orchestration/orchestrator.py: what the buttons do to a gate, as an abstract machine: a gate
-- waits, or is settled by one decision.
use discord_os.Prelude.{
  ℕ, ◌≡◌, refl, ◌∙◌, ◌⊎◌, inl, inr, Bool, true, false, not, ◌&&◌, ◌||◌, Option, none, some, List,
  [], arith, ltb, if◌then◌else◌, Bool-cases, length, is_empty,
}
use discord_os.Text.{Text}
use discord_os.Text.Number.{pos}
use discord_os.Gate.Preferences.{Preference}
use discord_os.Gate.Grants.{allow_ttl_seconds, set_write_session_allow}
use discord_os.Gate.Scope.{shell_always_scope}
use discord_os.Hold.Parked.{GateKind, GateResult, allow, always, deny, Hold, Answer}
use discord_os.Hold.Resolve.{
  finish_gate, Verb, approve, always_allow, refuse, scope_of, with_prefs, grant_exact, always_shell,
  always_tool_gate, class_fallback, exact_of_gate, is_shell_gate, resolve_verb, resolve_tool_gate,
  is_plan_kind, is_ask_kind, mark_plan_approved, resolve_plan_gate,
}
use discord_os.Hold.Actions.{
  toggle_ask_option, option_at, answer_option, resolve_ask_option, labels_at, chosen_of,
  confirm_ask_multi, approve_parked_run, deny_parked_run, always_allow_parked_run,
  expire_parked_run, Action, approving, always_allowing, denying, expiring, cancelling, confirming,
  choosing, apply_job_action,
}

pub data View : Type 0 where
  waiting : GateKind → View
  settled : GateResult → View

-- What the worker and the buttons see of a gate.
unfoldable pub view : Hold → View
view h = if h.meta.awaiting_gate then waiting h.meta.gate_kind else settled h.meta.gate_result

-- What a button may do to a gate.
pub data Step (v w : View) : Type 0 where
  stays : w ≡ v → Step v w
  allowed : (k : GateKind) → v ≡ waiting k → w ≡ settled allow → Step v w
  refused : (k : GateKind) → v ≡ waiting k → w ≡ settled deny → Step v w
  remembered :
      (k : GateKind) → v ≡ waiting k → is_plan_kind k ≡ false → w ≡ settled always → Step v w

view-finish_gate :
    (r : GateResult) (a : Text) (f : Bool) (h : Hold) → view (finish_gate r a f h).1 ≡ settled r
unfolding finish_gate view
view-finish_gate r a f h = elim (Bool-cases h.meta.gate_live) [ inl e ↦ rw e | inr e ↦ rw e ]

view-mark : (p : Answer × Hold) → view (mark_plan_approved p).1 ≡ view p.1
unfolding mark_plan_approved view
view-mark (a, h) = refl

view-waiting : (h : Hold) → h.meta.awaiting_gate ≡ true → view h ≡ waiting h.meta.gate_kind
unfolding view
view-waiting h e = rw e

always_shell-view :
    (p : Bool × List Preference) (h : Hold)
    → (view (always_shell p h).1 ≡ settled allow) ⊎ (view (always_shell p h).1 ≡ settled always)
unfolding always_shell
always_shell-view (false, prefs) h = inl (view-finish_gate allow [] false (with_prefs prefs h))
always_shell-view (true, prefs) h = inr (view-finish_gate always [] false (with_prefs prefs h))

-- A branch of the code: the test is known in each part.
Step-if :
    (b : Bool) (x y : Answer × Hold) (v : View)
    → (b ≡ true → Step v (view x.1))
    → (b ≡ false → Step v (view y.1))
    → Step v (view (if b then x else y).1)
Step-if true x y v t f = t refl
Step-if false x y v t f = f refl

Step-unless :
    (b : Bool) (x y : Answer × Hold) (v : View)
    → (b ≡ false → Step v (view x.1))
    → (b ≡ true → Step v (view y.1))
    → Step v (view (if not b then x else y).1)
Step-unless true x y v f t = t refl
Step-unless false x y v f t = f refl

-- A gate that ends by an approval or by "always".
Step-always :
    (h g : Hold)
    → h.meta.awaiting_gate ≡ true
    → is_plan_kind h.meta.gate_kind ≡ false
    → (view g ≡ settled allow) ⊎ (view g ≡ settled always)
    → Step (view h) (view g)
Step-always h g e k (inl w) = allowed h.meta.gate_kind (view-waiting h e) w
Step-always h g e k (inr w) = remembered h.meta.gate_kind (view-waiting h e) k w

resolve_plan_gate-Step : (b : Bool) (h : Hold) → Step (view h) (view (resolve_plan_gate b h).1)
unfolding resolve_plan_gate
resolve_plan_gate-Step b h =
    Step-unless h.meta.awaiting_gate _ _ (view h) (λ e. stays refl)
      λ e.
        Step-unless (is_plan_kind h.meta.gate_kind || h.meta.awaiting_plan) _ _ (view h)
          (λ k. stays refl)
          λ k.
            Step-if b _ _ (view h)
              (λ t.
                allowed h.meta.gate_kind (view-waiting h e)
                  (view-mark (finish_gate allow [] false h) ∙ view-finish_gate allow [] false h))
              (λ f. refused h.meta.gate_kind (view-waiting h e) (view-finish_gate deny [] true h))

-- Of the option that is chosen.
answer_option-Step :
    (o : Option Text) (h : Hold)
    → h.meta.awaiting_gate ≡ true
    → Step (view h) (view (answer_option o h).1)
unfolding answer_option
answer_option-Step none h e = stays refl
answer_option-Step (some label) h e =
    allowed h.meta.gate_kind (view-waiting h e) (view-finish_gate allow label false h)

toggle_ask_option-view : (i : ℕ) (h : Hold) → view (toggle_ask_option i h).1 ≡ view h
unfolding toggle_ask_option view
toggle_ask_option-view i h = refl

resolve_ask_option-Step : (i : ℕ) (h : Hold) → Step (view h) (view (resolve_ask_option i h).1)
unfolding resolve_ask_option
resolve_ask_option-Step i h =
    Step-unless h.meta.awaiting_gate _ _ (view h) (λ e. stays refl)
      λ e.
        Step-unless (is_ask_kind h.meta.gate_kind) _ _ (view h) (λ k. stays refl)
          λ k.
            Step-if h.meta.gate_multi _ _ (view h)
              (λ m.
                Step-if (ltb i (length h.meta.gate_options)) _ _ (view h)
                  (λ l. stays (toggle_ask_option-view i h)) (λ g. stays refl))
              (λ one. answer_option-Step (option_at i h.meta.gate_options) h e)

confirm_ask_multi-Step : (h : Hold) → Step (view h) (view (confirm_ask_multi h).1)
unfolding confirm_ask_multi
confirm_ask_multi-Step h =
    Step-unless h.meta.awaiting_gate _ _ (view h) (λ e. stays refl)
      λ e.
        Step-unless (is_ask_kind h.meta.gate_kind && h.meta.gate_multi) _ _ (view h)
          (λ k. stays refl)
          λ k.
            Step-if (is_empty (labels_at (chosen_of h) h.meta.gate_options)) _ _ (view h)
              (λ none_chosen. stays refl)
              (λ some_chosen.
                allowed h.meta.gate_kind (view-waiting h e) (view-finish_gate allow _ false h))

approve_parked_run-view : (h : Hold) → view (approve_parked_run h).1 ≡ view h
unfolding approve_parked_run view
approve_parked_run-view h = ground arith

deny_parked_run-view : (h : Hold) → view (deny_parked_run h).1 ≡ view h
unfolding deny_parked_run view
deny_parked_run-view h = refl

module _ (sub : Text → Text) (now : ℕ) where
  always_tool_gate-Step :
      (h : Hold)
      → h.meta.awaiting_gate ≡ true
      → is_plan_kind h.meta.gate_kind ≡ false
      → Step (view h) (view (always_tool_gate sub now h).1)
  unfolding always_tool_gate
  always_tool_gate-Step h e k =
      Step-if (is_shell_gate h) _ _ (view h)
        (λ t. Step-always h _ e k (
          always_shell-view
            (grant_exact sub now (shell_always_scope (exact_of_gate h) h.meta.gate_detail) h) h))
        (λ f. Step-always h _ e k (
          inr (
            view-finish_gate always [] false
              (with_prefs (class_fallback sub now (grant_exact sub now (exact_of_gate h) h) h) h))))

  resolve_verb-Step :
      (v : Verb) (h : Hold)
      → h.meta.awaiting_gate ≡ true
      → is_plan_kind h.meta.gate_kind ≡ false
      → Step (view h) (view (resolve_verb sub now v h).1)
  unfolding resolve_verb
  resolve_verb-Step approve h e k =
      allowed h.meta.gate_kind (view-waiting h e) (view-finish_gate allow [] false h)
  resolve_verb-Step refuse h e k =
      refused h.meta.gate_kind (view-waiting h e) (view-finish_gate deny [] true h)
  resolve_verb-Step always_allow h e k = always_tool_gate-Step h e k

  resolve_tool_gate-Step :
      (v : Verb) (h : Hold)
      → is_plan_kind h.meta.gate_kind ≡ false
      → Step (view h) (view (resolve_tool_gate sub now v h).1)
  unfolding resolve_tool_gate
  resolve_tool_gate-Step v h k =
      Step-if h.meta.awaiting_gate _ _ (view h) (λ e. resolve_verb-Step v h e k) (λ e. stays refl)

  always_allow_parked_run-view : (h : Hold) → view (always_allow_parked_run sub now h).1 ≡ view h
  unfolding always_allow_parked_run view
  always_allow_parked_run-view h =
      approve_parked_run-view (
        with_prefs (set_write_session_allow sub (scope_of h) (pos allow_ttl_seconds) now h.prefs) h)

  expire_parked_run-Step : (h : Hold) → Step (view h) (view (expire_parked_run sub now h).1)
  unfolding expire_parked_run
  expire_parked_run-Step h =
      Step-unless h.meta.awaiting_gate _ _ (view h) (λ e. stays (deny_parked_run-view h))
        λ e.
          Step-if (is_plan_kind h.meta.gate_kind) _ _ (view h) (λ k. resolve_plan_gate-Step false h)
            (λ k. resolve_tool_gate-Step refuse h k)

  -- A button that goes to a plan's gate, to another gate, or to a run that waits at none.
  gate_or_run-Step :
      (h : Hold) (run plan tool : Answer × Hold)
      → view run.1 ≡ view h
      → Step (view h) (view plan.1)
      → (is_plan_kind h.meta.gate_kind ≡ false → Step (view h) (view tool.1))
      → Step (view h) (
          view
            (if not h.meta.awaiting_gate
              then run
              else if is_plan_kind h.meta.gate_kind
              then plan
              else tool).1)
  gate_or_run-Step h run plan tool r p t =
      Step-unless h.meta.awaiting_gate run _ (view h) (λ e. stays r)
        λ e. Step-if (is_plan_kind h.meta.gate_kind) plan tool (view h) (λ k. p) t

  -- Every button is a step of the abstract gate: it leaves the gate as it is, or settles a gate
  -- that waits; a plan's gate is never settled by "always".
  pub apply_job_action-Step :
      (a : Action) (h : Hold) → Step (view h) (view (apply_job_action sub now a h).1)
  unfolding apply_job_action
  apply_job_action-Step approving h =
      gate_or_run-Step h (approve_parked_run h) _ _ (approve_parked_run-view h)
        (resolve_plan_gate-Step true h) (resolve_tool_gate-Step approve h)
  apply_job_action-Step always_allowing h =
      gate_or_run-Step h (always_allow_parked_run sub now h) _ _ (always_allow_parked_run-view h)
        (stays refl) (resolve_tool_gate-Step always_allow h)
  apply_job_action-Step denying h =
      gate_or_run-Step h (deny_parked_run h) _ _ (deny_parked_run-view h)
        (resolve_plan_gate-Step false h) (resolve_tool_gate-Step refuse h)
  apply_job_action-Step expiring h = expire_parked_run-Step h
  apply_job_action-Step cancelling h =
      Step-if (h.meta.awaiting_gate && is_plan_kind h.meta.gate_kind) _ _ (view h)
        (λ e. resolve_plan_gate-Step false h) (λ e. stays refl)
  apply_job_action-Step confirming h = confirm_ask_multi-Step h
  apply_job_action-Step (choosing i) h = resolve_ask_option-Step i h
