-- ===== src/Gate/Spoken/Verbs.antt =====
-- orchestration/plan_approve.py and orchestration/ask_gate.py: what means "always" to a tool gate
-- does not answer a plan.
use discord_os.Prelude.{
  ◌≡◌, refl, inl, inr, ◌||◌, Bool, true, false, Option, none, some, List, [], ◌∷◌, ◌++◌, nat_eq,
  if◌then◌else◌, is_empty, member, arith, Bool-cases, other_true, Option-cases,
}
use discord_os.Text.{Text, txt, text_eq, text_beq, text_beq_iff, strip, lower, starts_with}
use discord_os.Gate.Spoken.{
  Verb, approve, always, deny, spoken_allow, spoken_deny, spoken_always, compact, gate_verb,
  parse_spoken_gate_verb, plan_verb, parse_spoken_plan_verb,
}

starts_with-append : (p q s : Text) → starts_with (p ++ q) s ≡ true → starts_with p s ≡ true
unfolding starts_with
starts_with-append [] q s h = refl
starts_with-append (c ∷ p) q [] h = absurd (cc h)
starts_with-append (c ∷ p) q (d ∷ s) h = ground (arith, h, starts_with-append p q s)

-- Every text of the list answers no plan.
abbrev unanswered : List Text → Bool
unanswered [] = true
unanswered (t ∷ ts) = elim (plan_verb t) [ none ↦ unanswered ts | some v ↦ false ]

always-unanswered : unanswered spoken_always ≡ true
unfolding plan_verb text_beq
always-unanswered = refl

unanswered-member :
    (t : Text) (ts : List Text) → unanswered ts ≡ true → member t ts ≡ true → plan_verb t ≡ none
unanswered-member t [] a h = absurd (cc h)
unanswered-member t (u ∷ us) a h = elim (Option-cases (plan_verb u)) [
  | inl e ↦ ground (arith, e, a, h, text_beq_iff u t, unanswered-member t us)
  | inr (v, e) ↦ ground (arith, e, a)
]

prefixed-unanswered : (t : Text) → starts_with (txt "always allow") t ≡ true → plan_verb t ≡ none
unfolding plan_verb
prefixed-unanswered t h = rw (starts_with-append (txt "always") (txt " allow") t h)

said_always :
    (a b c : Bool)
    → (if a then some always else if b then some approve else if c then some deny else none)
      ≡ some always
    → a ≡ true
said_always true b c h = refl
said_always false true c h = absurd (cc h)
said_always false false true h = absurd (cc h)
said_always false false false h = absurd (cc h)

either-unanswered :
    (t : Text)
    → (member t spoken_always || starts_with (txt "always allow") t) ≡ true
    → plan_verb t ≡ none
either-unanswered t h = elim (Bool-cases (member t spoken_always)) [
  | inl known ↦ unanswered-member t spoken_always always-unanswered known
  | inr other ↦ prefixed-unanswered t (other_true _ _ other h)
]

always-plan_verb : (t : Text) → gate_verb t ≡ some always → plan_verb t ≡ none
unfolding gate_verb
always-plan_verb t h =
    either-unanswered t (said_always _ (member t spoken_allow) (member t spoken_deny) h)

guarded :
    (b : Bool) (x y : Option Verb)
    → (x ≡ some always → y ≡ none)
    → (if b then none else x) ≡ some always
    → (if b then none else y) ≡ none
guarded true x y f h = refl
guarded false x y f h = f h

-- What a tool gate takes for "always" is no answer to a plan: it neither approves nor denies it.
pub always-parse_spoken_plan_verb :
    (text : Text) → parse_spoken_gate_verb text ≡ some always → parse_spoken_plan_verb text ≡ none
unfolding parse_spoken_gate_verb parse_spoken_plan_verb
always-parse_spoken_plan_verb text h =
    guarded (is_empty (lower (strip text))) (gate_verb (compact text)) (plan_verb (compact text))
      (always-plan_verb (compact text)) h
