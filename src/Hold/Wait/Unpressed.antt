-- ===== src/Hold/Wait/Unpressed.antt =====
-- orchestration/gate_hook.py: a held call runs only where a person, or the policy, let it.
use discord_os.Prelude.{
  ℕ, ◌+◌, ◌≡◌, refl, Bool, true, false, not, ◌&&◌, ◌||◌, Option, none, some, List, [], ◌∷◌, arith,
  ltb, nat_eq, ◌==◌, if◌then◌else◌, All, any,
}
use discord_os.Text.{Text, text_eq}
use discord_os.Hold.Parked.{
  GateResult, unresolved, allow, always, deny, GateHoldResult, Hold, Answer,
}
use discord_os.Hold.Resolve.{
  finish_gate, write_result, refuse, resolve_verb, resolve_tool_gate, resolve_plan_gate,
  is_plan_kind,
}
use discord_os.Hold.Actions.{
  Action, approving, always_allowing, denying, expiring, cancelling, confirming, choosing,
  deny_parked_run, expire_parked_run, apply_job_action, Presses, apply_all,
}
use discord_os.Hold.Wait.{
  Round, if_resolved, found_or, wait_for_result, expire_after, expire_if_held, hold_parked,
  read_result, is_denied, poll_tool, poll_plan, plan_result, deny_result,
}

-- A decision on which the worker goes on.
abbrev pub is_permit : GateResult → Bool
is_permit unresolved = false
is_permit deny = false
is_permit allow = true
is_permit always = true

-- A button that may let a call run.
abbrev pub may_permit : Action → Bool
may_permit denying = false
may_permit expiring = false
may_permit cancelling = false
may_permit approving = true
may_permit always_allowing = true
may_permit confirming = true
may_permit (choosing i) = true

-- Whether a result file of a request lets it run.
unfoldable pub has_permit : Text → Hold → Bool
has_permit request_id h = any (λ r. r.request_id == request_id && is_permit r.decision) h.results

-- Neither the gate nor a file lets the call run.
abbrev pub IsUnpermitted : Text → Hold → Type 0
IsUnpermitted request_id h =
    (is_permit h.meta.gate_result ≡ false) × (has_permit request_id h ≡ false)

IsUnpermitted-if :
    (request_id : Text) (b : Bool) (x y : Answer × Hold)
    → IsUnpermitted request_id x.1
    → IsUnpermitted request_id y.1
    → IsUnpermitted request_id (if b then x else y).1
IsUnpermitted-if request_id true x y p q = p
IsUnpermitted-if request_id false x y p q = q

finish_gate-IsUnpermitted :
    (request_id : Text) (answer : Text) (failed : Bool) (h : Hold)
    → IsUnpermitted request_id h
    → IsUnpermitted request_id (finish_gate deny answer failed h).1
unfolding finish_gate has_permit write_result
finish_gate-IsUnpermitted request_id answer failed h (p, q) =
    IsUnpermitted-if request_id h.meta.gate_live _ _ (refl, ground (arith, q)) (refl, q)

-- A result that denies, where there is one.
abbrev Denies : Option GateHoldResult → Type 0
Denies none = Unit
Denies (some r) = r.decision ≡ deny

if_resolved-Denies :
    (d : GateResult) (r : GateHoldResult)
    → r.decision ≡ d
    → is_permit d ≡ false
    → Denies (if_resolved d r)
if_resolved-Denies unresolved r e n = tt
if_resolved-Denies deny r e n = e
if_resolved-Denies allow r e n = cc n
if_resolved-Denies always r e n = cc n

Denies-if :
    (b : Bool) (x y : Option GateHoldResult)
    → (b ≡ true → Denies x)
    → (b ≡ false → Denies y)
    → Denies (if b then x else y)
Denies-if true x y p q = p refl
Denies-if false x y p q = q refl

read_result-Denies :
    (request_id : Text) (results : List GateHoldResult)
    → any (λ r. r.request_id == request_id && is_permit r.decision) results ≡ false
    → Denies (read_result request_id results)
unfolding read_result
read_result-Denies request_id [] e = tt
read_result-Denies request_id (r ∷ results) e =
    Denies-if (r.request_id == request_id) _ _
      (λ same. if_resolved-Denies r.decision r refl (ground (arith, same, e)))
      (λ other. read_result-Denies request_id results (ground (arith, other, e)))

module _ (sub : Text → Text) (now : ℕ) (request_id : Text) where
  refuse-IsUnpermitted :
      (h : Hold)
      → IsUnpermitted request_id h
      → IsUnpermitted request_id (resolve_tool_gate sub now refuse h).1
  unfolding resolve_tool_gate resolve_verb
  refuse-IsUnpermitted h p =
      IsUnpermitted-if request_id h.meta.awaiting_gate _ _
        (finish_gate-IsUnpermitted request_id [] true h p) p

  cancel-IsUnpermitted :
      (h : Hold)
      → IsUnpermitted request_id h
      → IsUnpermitted request_id (resolve_plan_gate false h).1
  unfolding resolve_plan_gate
  cancel-IsUnpermitted h p = IsUnpermitted-if request_id (not h.meta.awaiting_gate) _ _ p (
      IsUnpermitted-if request_id (not (is_plan_kind h.meta.gate_kind || h.meta.awaiting_plan)) _ _
        p (finish_gate-IsUnpermitted request_id [] true h p))

  deny-IsUnpermitted :
      (h : Hold) → IsUnpermitted request_id h → IsUnpermitted request_id (deny_parked_run h).1
  unfolding deny_parked_run has_permit
  deny-IsUnpermitted h p = p

  -- A gate that is denied or expires.
  gate-IsUnpermitted :
      (h : Hold)
      → IsUnpermitted request_id h
      → IsUnpermitted request_id
          (if not h.meta.awaiting_gate
            then deny_parked_run h
            else if is_plan_kind h.meta.gate_kind
            then resolve_plan_gate false h
            else resolve_tool_gate sub now refuse h).1
  gate-IsUnpermitted h p =
      IsUnpermitted-if request_id (not h.meta.awaiting_gate) (deny_parked_run h) _
        (deny-IsUnpermitted h p)
        (IsUnpermitted-if request_id (is_plan_kind h.meta.gate_kind) (resolve_plan_gate false h)
          (resolve_tool_gate sub now refuse h) (cancel-IsUnpermitted h p)
          (refuse-IsUnpermitted h p))

  expire-IsUnpermitted :
      (h : Hold)
      → IsUnpermitted request_id h
      → IsUnpermitted request_id (expire_parked_run sub now h).1
  unfolding expire_parked_run
  expire-IsUnpermitted h p = gate-IsUnpermitted h p

  apply_job_action-IsUnpermitted :
      (a : Action) (h : Hold)
      → may_permit a ≡ false
      → IsUnpermitted request_id h
      → IsUnpermitted request_id (apply_job_action sub now a h).1
  unfolding apply_job_action
  apply_job_action-IsUnpermitted denying h n p = gate-IsUnpermitted h p
  apply_job_action-IsUnpermitted expiring h n p = expire-IsUnpermitted h p
  apply_job_action-IsUnpermitted cancelling h n p =
      IsUnpermitted-if request_id (h.meta.awaiting_gate && is_plan_kind h.meta.gate_kind) _ _
        (cancel-IsUnpermitted h p) p
  apply_job_action-IsUnpermitted approving h n p = cc n
  apply_job_action-IsUnpermitted always_allowing h n p = cc n
  apply_job_action-IsUnpermitted confirming h n p = cc n
  apply_job_action-IsUnpermitted (choosing i) h n p = cc n

-- No button of a round may let the call run.
abbrev pub IsUnpressed : Round → Type 0
IsUnpressed round = All (λ p. may_permit p.1 ≡ false) round.presses

-- A hold whose result denies, where it ended.
abbrev pub IsDenied : Option (GateHoldResult × Hold) → Type 0
IsDenied none = Unit
IsDenied (some (r, h)) = r.decision ≡ deny

found_or-IsDenied :
    (file polled : Option GateHoldResult) (h : Hold) (later : Option (GateHoldResult × Hold))
    → Denies file
    → Denies polled
    → IsDenied later
    → IsDenied (found_or file polled h later)
unfolding found_or
found_or-IsDenied (some r) polled h later f p l = f
found_or-IsDenied none (some r) h later f p l = p
found_or-IsDenied none none h later f p l = l

pub IsDenied-if :
    (b : Bool) (x y : Option (GateHoldResult × Hold))
    → IsDenied x
    → IsDenied y
    → IsDenied (if b then x else y)
IsDenied-if true x y p q = p
IsDenied-if false x y p q = q

pub IsDenied-then :
    (b : Bool) (x y : Option (GateHoldResult × Hold))
    → b ≡ true
    → IsDenied x
    → IsDenied (if b then x else y)
IsDenied-then true x y e p = p
IsDenied-then false x y e p = cc e

-- A poll that gives no permission on a gate that has none.
abbrev pub IsHonest : (Hold → Option GateHoldResult) → Type 0
IsHonest poll = (h : Hold) → is_permit h.meta.gate_result ≡ false → Denies (poll h)

pub poll_tool-IsHonest : (request_id klass : Text) → IsHonest (poll_tool request_id klass)
unfolding poll_tool
poll_tool-IsHonest request_id klass h n = if_resolved-Denies h.meta.gate_result _ refl n

plan_result-is_permit : (d : GateResult) → is_permit d ≡ false → is_permit (plan_result d) ≡ false
unfolding plan_result
plan_result-is_permit unresolved n = refl
plan_result-is_permit deny n = refl
plan_result-is_permit allow n = n
plan_result-is_permit always n = n

pub poll_plan-IsHonest : (request_id : Text) → IsHonest (poll_plan request_id)
unfolding poll_plan
poll_plan-IsHonest request_id h n =
    if_resolved-Denies (plan_result h.meta.gate_result) _ refl
      (plan_result-is_permit h.meta.gate_result n)

module _ (sub : Text → Text) (request_id : Text) where
  apply_all-IsUnpermitted :
      (presses : Presses) (h : Hold)
      → All (λ p. may_permit p.1 ≡ false) presses
      → IsUnpermitted request_id h
      → IsUnpermitted request_id (apply_all sub presses h)
  unfolding apply_all
  apply_all-IsUnpermitted [] h n p = p
  apply_all-IsUnpermitted ((now, a) ∷ presses) h (n, ns) p =
      apply_all-IsUnpermitted presses (apply_job_action sub now a h).1 ns
        (apply_job_action-IsUnpermitted sub now request_id a h n p)

  wait_for_result-IsDenied :
      (poll : Hold → Option GateHoldResult) (klass : Text) (deadline : ℕ) (rounds : List Round)
      (h : Hold)
      → IsHonest poll
      → All IsUnpressed rounds
      → IsUnpermitted request_id h
      → IsDenied (wait_for_result sub poll request_id klass deadline rounds h)
  unfolding wait_for_result has_permit
  wait_for_result-IsDenied poll klass deadline [] h t n p = tt
  wait_for_result-IsDenied poll klass deadline (round ∷ rounds) h t (n, ns) p =
      let q = apply_all-IsUnpermitted round.presses h n p in
      let g = apply_all sub round.presses h in
      IsDenied-if (ltb round.now deadline) _ _
        (found_or-IsDenied _ _ g _ (read_result-Denies request_id g.results q.1) (t g q.0)
          (wait_for_result-IsDenied poll klass deadline rounds g t ns q))
        refl

  expire_if_held-IsDenied :
      (now : ℕ) (o : Option (GateHoldResult × Hold))
      → IsDenied o
      → IsDenied (expire_if_held sub now o)
  unfolding expire_if_held expire_after
  expire_if_held-IsDenied now none d = tt
  expire_if_held-IsDenied now (some (r, h)) d = ground (arith, d)

  pub hold_parked-IsDenied :
      (poll : Hold → Option GateHoldResult) (klass : Text) (now timeout : ℕ) (rounds : List Round)
      (answer : Answer) (h : Hold)
      → IsHonest poll
      → All IsUnpressed rounds
      → IsUnpermitted request_id h
      → IsDenied (hold_parked sub poll request_id klass now timeout rounds (answer, h))
  unfolding hold_parked deny_result
  hold_parked-IsDenied poll klass now timeout rounds answer h t n p =
      IsDenied-if (is_denied answer) _ _ refl (
        expire_if_held-IsDenied now _
          (wait_for_result-IsDenied poll klass (now + timeout) rounds h t n p))
