-- ===== src/Hold/Wait/Ends.antt =====
-- orchestration/gate_hook.py: a hold ends once the clock reaches its deadline.
use discord_os.Prelude.{
  ℕ, ◌+◌, ◌≡◌, refl, Bool, true, false, Option, none, some, List, [], ◌∷◌, arith, ltb, leb,
  if◌then◌else◌, is_empty, any,
}
use discord_os.Text.{Text, txt, strip}
use discord_os.Gate.Decision.{ToolClassDecision, Verdict}
use discord_os.Hold.Parked.{GateHoldResult, Hold, Answer, or_text, no_plan, raise_plan_approve}
use discord_os.Hold.Wait.{
  Round, GateRequest, found_or, wait_for_result, expire_if_held, hold_parked, raise_for,
  hold_decided, hold_tool_decision, hold_plan_decision, is_denied, poll_tool, poll_plan,
  deny_result,
}
use discord_os.Hold.Actions.{apply_all}

-- Whether the clock reaches a second in one of the rounds.
unfoldable pub reaches : ℕ → List Round → Bool
reaches deadline rounds = any (λ round. leb deadline round.now) rounds

-- A hold that came to an end.
abbrev pub Ended : Option (GateHoldResult × Hold) → Type 0
Ended o = (held : GateHoldResult × Hold) × (o ≡ some held)

found_or-Ended :
    (file polled : Option GateHoldResult) (h : Hold) (later : Option (GateHoldResult × Hold))
    → Ended later
    → Ended (found_or file polled h later)
unfolding found_or
found_or-Ended (some r) polled h later e = ((r, h), refl)
found_or-Ended none (some r) h later e = (_, refl)
found_or-Ended none none h later e = e

Ended-if :
    (b : Bool) (x y : Option (GateHoldResult × Hold))
    → (b ≡ true → Ended x)
    → (b ≡ false → Ended y)
    → Ended (if b then x else y)
Ended-if true x y t f = t refl
Ended-if false x y t f = f refl

-- The rounds that are left reach the deadline, where the first does not.
reaches_later :
    (deadline : ℕ) (round : Round) (rounds : List Round)
    → reaches deadline (round ∷ rounds) ≡ true
    → ltb round.now deadline ≡ true
    → reaches deadline rounds ≡ true
unfolding reaches
reaches_later deadline round rounds e l = ground (arith, e, l)

module _ (sub : Text → Text) where
  wait_for_result_ends :
      (poll : Hold → Option GateHoldResult) (request_id klass : Text) (deadline : ℕ)
      (rounds : List Round) (h : Hold)
      → reaches deadline rounds ≡ true
      → Ended (wait_for_result sub poll request_id klass deadline rounds h)
  unfolding wait_for_result reaches
  wait_for_result_ends poll request_id klass deadline [] h e = cc e
  wait_for_result_ends poll request_id klass deadline (round ∷ rounds) h e =
      Ended-if (ltb round.now deadline) _ _
        (λ l. found_or-Ended _ _ _ _ (
          wait_for_result_ends poll request_id klass deadline rounds (apply_all sub round.presses h)
            (reaches_later deadline round rounds e l)))
        (λ l. (_, refl))

  expire_if_held_ends :
      (now : ℕ) (o : Option (GateHoldResult × Hold)) → Ended o → Ended (expire_if_held sub now o)
  unfolding expire_if_held
  expire_if_held_ends now none e = cc e.1
  expire_if_held_ends now (some held) e = (_, refl)

  hold_parked_ends :
      (poll : Hold → Option GateHoldResult) (request_id klass : Text) (now timeout : ℕ)
      (rounds : List Round) (raised : Answer × Hold)
      → reaches (now + timeout) rounds ≡ true
      → Ended (hold_parked sub poll request_id klass now timeout rounds raised)
  unfolding hold_parked
  hold_parked_ends poll request_id klass now timeout rounds (answer, h) e =
      Ended-if (is_denied answer) _ _ (λ d. (_, refl))
        (λ d.
          expire_if_held_ends now _
            (wait_for_result_ends poll request_id klass (now + timeout) rounds h e))

  hold_decided_ends :
      (v : Verdict) (d : ToolClassDecision) (req : GateRequest) (now timeout : ℕ)
      (rounds : List Round) (h : Hold)
      → reaches (now + timeout) rounds ≡ true
      → Ended (hold_decided sub v d req now timeout rounds h)
  unfolding hold_decided
  hold_decided_ends Verdict.deny d req now timeout rounds h e = (_, refl)
  hold_decided_ends Verdict.allow d req now timeout rounds h e = (_, refl)
  hold_decided_ends Verdict.ask d req now timeout rounds h e =
      hold_parked_ends (poll_tool req.request_id d.tool_class) req.request_id
        (or_text d.tool_class req.tool_class) now timeout rounds
        (raise_for sub req (or_text d.tool_class req.tool_class) h) e

  -- A hold of a tool call, and one of a plan, ends with a result whatever is asked for and pressed,
  -- once the clock reaches the deadline in some round.
  pub hold_decision_ends :
      (req : GateRequest) (summary plan_status : Text) (now timeout : ℕ) (rounds : List Round)
      (h : Hold)
      → reaches (now + timeout) rounds ≡ true
      → Ended (hold_tool_decision sub req now timeout rounds h)
        × Ended (hold_plan_decision sub req summary plan_status now timeout rounds h)
  unfolding hold_tool_decision hold_plan_decision
  hold_decision_ends req summary plan_status now timeout rounds h e = (
    Ended-if (is_empty req.run_id) _ _ (λ m. (_, refl))
        (λ m. hold_decided_ends _ _ req now timeout rounds _ e),
    Ended-if (is_empty req.run_id) _ _ (λ m. (_, refl))
        (λ m.
          Ended-if (is_empty (strip req.detail))
            (some (deny_result no_plan req.request_id (txt "plan"), h)) _ (λ n. (_, refl))
            (λ n.
              hold_parked_ends (poll_plan req.request_id) req.request_id (txt "plan") now timeout
                rounds
                (raise_plan_approve sub req.detail summary (or_text plan_status (txt "ready")) h)
                e)),
  )
