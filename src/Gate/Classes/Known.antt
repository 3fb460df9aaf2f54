-- ===== src/Gate/Classes/Known.antt =====
-- orchestration/ask_gate.py: every tool that has a class has one of the known classes.
use discord_os.Prelude.{
  ◌≡◌, refl, subst, inl, inr, Bool, true, false, Option, none, some, List, [], ◌∷◌, arith, nat_eq,
  ◌==◌, if◌then◌else◌, ◌&&◌, member, Option-cases,
}
use discord_os.Text.{Text, txt, text_eq, text_beq, text_beq_iff, starts_with}
use discord_os.Gate.Classes.{
  known_tool_classes, tool_class_aliases, lookup, after_last, known_or_alias, behind_prefix,
  class_of, normalize_tool_class, spelling,
}

abbrev pub IsKnown : Text → Type 0
IsKnown c = member c known_tool_classes ≡ true

abbrev known_in : List (Text × Text) → Bool
known_in [] = true
known_in (p ∷ ps) = member p.1 known_tool_classes && known_in ps

lookup-IsKnown :
    (k c : Text) (ps : List (Text × Text)) → known_in ps ≡ true → lookup k ps ≡ some c → IsKnown c
unfolding lookup
lookup-IsKnown k c [] a h = cc h
lookup-IsKnown k c (p ∷ ps) a h = ground (arith, lookup-IsKnown k c ps, a, h)

aliases-known : known_in tool_class_aliases ≡ true
unfolding text_beq
aliases-known = refl

known_or_alias-IsKnown : (text c : Text) → known_or_alias text ≡ some c → IsKnown c
unfolding known_or_alias
known_or_alias-IsKnown text c h =
    ground (arith, h, lookup-IsKnown text c tool_class_aliases aliases-known)

behind_prefix-IsKnown : (t : Option Text) (c : Text) → behind_prefix t ≡ some c → IsKnown c
unfolding behind_prefix
behind_prefix-IsKnown none c h = cc h
behind_prefix-IsKnown (some tail) c h = ground (arith, h, known_or_alias-IsKnown (spelling tail) c)

browser-IsKnown : IsKnown (txt "browser")
unfolding text_beq
browser-IsKnown = refl

looked_up-IsKnown :
    (b : Bool) (k t : Option Text) (c : Text)
    → ((d : Text) → k ≡ some d → IsKnown d)
    → (behind_prefix t ≡ some c → IsKnown c)
    → elim k [ some d ↦ some d | none ↦ if b then some (txt "browser") else behind_prefix t ]
      ≡ some c
    → IsKnown c
looked_up-IsKnown b (some d) t c known behind h = known c h
looked_up-IsKnown true none t c known behind h = subst IsKnown same browser-IsKnown
  where
    same : txt "browser" ≡ c
    same = cc h
looked_up-IsKnown false none t c known behind h = behind h

class_of-IsKnown : (text c : Text) → class_of text ≡ some c → IsKnown c
unfolding class_of
class_of-IsKnown [] c h = cc h
class_of-IsKnown (x ∷ s) c h =
    looked_up-IsKnown (starts_with (txt "browser_") (x ∷ s)) (known_or_alias (x ∷ s))
      (after_last (txt "__") (x ∷ s)) c (known_or_alias-IsKnown (x ∷ s))
      (behind_prefix-IsKnown (after_last (txt "__") (x ∷ s)) c) h

-- A tool that has a class has one of the classes of `KNOWN_TOOL_CLASSES`.
pub normalize_tool_class-IsKnown : (raw c : Text) → normalize_tool_class raw ≡ some c → IsKnown c
unfolding normalize_tool_class
normalize_tool_class-IsKnown raw c h = class_of-IsKnown (spelling raw) c h

abbrev kept_in : List Text → Bool
kept_in [] = true
kept_in (c ∷ cs) = elim (normalize_tool_class c) [ none ↦ false | some d ↦ d == c ] && kept_in cs

classes-kept : kept_in known_tool_classes ≡ true
unfolding text_beq normalize_tool_class
classes-kept = refl

kept :
    (c : Text) (cs : List Text)
    → kept_in cs ≡ true
    → member c cs ≡ true
    → normalize_tool_class c ≡ some c
kept c [] k h = cc h
kept c (d ∷ cs) k h = elim (Option-cases (normalize_tool_class d)) [
  | inl e ↦ ground (arith, e, k)
  | inr (x, e) ↦ ground (arith, e, k, h, text_beq_iff x d, text_beq_iff d c, kept c cs)
]

-- Normalising a tool's class again does not change it.
pub normalize_tool_class-idempotent :
    (raw c : Text) → normalize_tool_class raw ≡ some c → normalize_tool_class c ≡ some c
normalize_tool_class-idempotent raw c h =
    kept c known_tool_classes classes-kept (normalize_tool_class-IsKnown raw c h)
