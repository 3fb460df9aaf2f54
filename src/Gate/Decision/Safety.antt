-- ===== src/Gate/Decision/Safety.antt =====
-- orchestration/ask_gate.py: what may run without being asked for.
use discord_os.Prelude.{
  ℕ, ◌≡◌, ◌≢◌, refl, ◌⊎◌, inl, inr, Bool, true, false, Option, none, some, List, [], if◌then◌else◌,
  is_empty, arith, Bool-cases,
}
use discord_os.Text.{Text, txt, strip, split, text_beq, text_beq_iff}
use discord_os.Gate.Preferences.{Preference}
use discord_os.Gate.Classes.{normalize_tool_class}
use discord_os.Gate.Scope.{shell_always_scope, is_compound, is_no_always}
use discord_os.Gate.Decision.{
  allow, ask, decided, needs_approval, exact_of, without_grant, is_gated, class_granted,
  class_verdict, by_exact, class_decision, exact_granted, tool_class_decision,
}
use discord_os.Gate.Decision.Granted.{
  IsGated, IsOpen, HasLive, is_gated-IsOpen, gated_after, exact_key, class_key,
  exact_granted-IsFound, class_granted-IsFound, gate_kept,
}

-- What lets a known class run without a grant: it only reads, or writes are not gated, and it is not
-- a question to the user.
abbrev RunsFree : Text → Bool → Type 0
RunsFree c gated = (c ≡ txt "read") ⊎ ((c ≢ txt "ask") × (gated ≡ false))

without_grant-RunsFree :
    (c : Text) (gated : Bool) → (without_grant c gated).decision ≡ allow → RunsFree c gated
unfolding without_grant text_beq
without_grant-RunsFree c gated h = elim (Bool-cases (text_beq c (txt "read"))) [
  | inl e ↦ inl ((text_beq_iff c (txt "read")).0 e)
  | inr e ↦ inr ((λ same. ground (arith, h, e, same)), ground (arith, h, e))
]

class_verdict-RunsFree :
    (c : Text) (on : Option Bool) (found : Bool × List Preference)
    → (class_verdict c on found).0.decision ≡ allow
    → (found.0 ≡ true) ⊎ RunsFree c (is_gated on found.1)
unfolding class_verdict
class_verdict-RunsFree c on (true, prefs) h = inl refl
class_verdict-RunsFree c on (false, prefs) h = inr (without_grant-RunsFree c (is_gated on prefs) h)

-- What was found for a tool call that runs: by the class, once the exact tool was asked for.
abbrev pub RunsByClass :
    (Text → Text) → Option Text → Text → Text → Option Bool → ℕ → List Preference → Type 0
RunsByClass sub k channel_id thread_id on now prefs =
    (c : Text) × (k ≡ some c)
    × (((class_granted sub c channel_id thread_id now prefs).0 ≡ true)
        ⊎ RunsFree c (is_gated on (class_granted sub c channel_id thread_id now prefs).1))

class_decision-RunsByClass :
    (sub : Text → Text) (tool_class : Text) (k : Option Text) (channel_id thread_id : Text)
    (on : Option Bool) (now : ℕ) (prefs : List Preference)
    → (class_decision sub tool_class k channel_id thread_id on now prefs).0.decision ≡ allow
    → RunsByClass sub k channel_id thread_id on now prefs
unfolding class_decision
class_decision-RunsByClass sub tool_class none channel_id thread_id on now prefs h = absurd (cc h)
class_decision-RunsByClass sub tool_class (some c) channel_id thread_id on now prefs h =
    (c, refl, class_verdict-RunsFree c on (class_granted sub c channel_id thread_id now prefs) h)

by_exact-allow :
    (sub : Text → Text) (tool_class hit : Text) (k : Option Text) (channel_id thread_id : Text)
    (on : Option Bool) (now : ℕ) (found : Bool × List Preference)
    → (by_exact hit
        (λ p. class_decision sub tool_class k channel_id thread_id on now p)
        found).0.decision
      ≡ allow
    → (found.0 ≡ true) ⊎ RunsByClass sub k channel_id thread_id on now found.1
unfolding by_exact
by_exact-allow sub tool_class hit k channel_id thread_id on now (true, prefs) h = inl refl
by_exact-allow sub tool_class hit k channel_id thread_id on now (false, prefs) h =
    inr (class_decision-RunsByClass sub tool_class k channel_id thread_id on now prefs h)

pub tool_class_decision-RunsByClass :
    (sub : Text → Text) (tool_class channel_id thread_id : Text) (on : Option Bool)
    (tool_name detail : Text) (now : ℕ) (prefs : List Preference)
    → (tool_class_decision sub tool_class channel_id thread_id on tool_name detail now
        prefs).0.decision
      ≡ allow
    → let exact =
        exact_granted sub (exact_of tool_class tool_name detail) channel_id thread_id now prefs in
      (exact.0 ≡ true)
      ⊎ RunsByClass sub (normalize_tool_class tool_class) channel_id thread_id on now exact.1
unfolding tool_class_decision
tool_class_decision-RunsByClass sub tool_class channel_id thread_id on tool_name detail now prefs
      h =
    by_exact-allow sub tool_class _ (normalize_tool_class tool_class) channel_id thread_id on now _
      h

-- What lets a tool call run: a live grant for the exact tool; or a known class for which there is a
-- live grant, that only reads, or, while writes are not gated, that is not a question to the user.
abbrev pub MayRun : Text → Text → Text → Option Bool → Text → Text → ℕ → List Preference → Type 0
MayRun tool_class channel_id thread_id on tool_name detail now prefs =
    HasLive now prefs (exact_key (exact_of tool_class tool_name detail)) thread_id channel_id
    ⊎ ((c : Text) × (normalize_tool_class tool_class ≡ some c)
        × (HasLive now prefs (class_key c) thread_id channel_id
            ⊎ ((c ≡ txt "read") ⊎ ((c ≢ txt "ask") × IsOpen on prefs))))

-- A tool call runs only where it may: with a grant that has not ended, in the thread or the channel,
-- for the exact tool or its class; to read; or, where the gate that the caller states, or else the
-- preference, is off, in a known class that is no question. An unknown class never runs without a
-- grant for the exact tool. The text "0" is stored as it is.
pub tool_class_decision-allow :
    (sub : Text → Text) (tool_class channel_id thread_id : Text) (on : Option Bool)
    (tool_name detail : Text) (now : ℕ) (prefs : List Preference)
    → sub (txt "0") ≡ txt "0"
    → (tool_class_decision sub tool_class channel_id thread_id on tool_name detail now
        prefs).0.decision
      ≡ allow
    → MayRun tool_class channel_id thread_id on tool_name detail now prefs
tool_class_decision-allow sub tool_class channel_id thread_id on tool_name detail now prefs z h =
    let exact = exact_of tool_class tool_name detail in
    let asked = exact_granted-IsFound sub z exact channel_id thread_id now prefs in
    let after = (exact_granted sub exact channel_id thread_id now prefs).1 in
    elim (tool_class_decision-RunsByClass sub tool_class channel_id thread_id on tool_name detail
      now prefs h) [
        | inl granted ↦ inl (asked.1 granted)
        | inr (c, k, inl granted) ↦ inr (
          c,
          k,
          inl (elim ((class_granted-IsFound sub z c channel_id thread_id now after).1 granted) [
            | inl live ↦ inl (asked.0.0 (class_key c thread_id) live)
            | inr live ↦ inr (asked.0.0 (class_key c channel_id) live)
          ]),
        )
        | inr (c, k, inr (inl reads)) ↦ inr (c, k, inr (inl reads))
        | inr (c, k, inr (inr (other, off))) ↦ inr (
          c,
          k,
          inr (
              inr (
                other,
                is_gated-IsOpen on prefs _
                    (gate_kept sub z exact c channel_id thread_id now prefs).1 off,
              )),
        )
      ]

-- A command from which nothing must be remembered: it is compound, or runs arbitrary code.
abbrev pub IsNeverRemembered : Text → Type 0
IsNeverRemembered command =
    (is_compound (strip command) ≡ true) ⊎ (is_no_always (split (strip command)) ≡ true)

shell_always_scope-none :
    (name command : Text) → IsNeverRemembered command → shell_always_scope name command ≡ []
unfolding shell_always_scope
shell_always_scope-none name command n = ground (arith, n)

exact_of-none :
    (tool_class tool_name detail : Text)
    → normalize_tool_class tool_class ≡ some (txt "shell")
    → IsNeverRemembered detail
    → exact_of tool_class tool_name detail ≡ []
unfolding exact_of text_beq
exact_of-none tool_class tool_name detail k n =
    rw (k, exact_of)
      (shell_always_scope-none
        (if is_empty (strip tool_name) then strip tool_class else strip tool_name) detail n)

shell_verdict :
    (on : Option Bool) (found : Bool × List Preference)
    → found.0 ≡ false
    → is_gated on found.1 ≡ true
    → (class_verdict (txt "shell") on found).0 ≡ decided ask (txt "shell") needs_approval
unfolding class_verdict without_grant text_beq
shell_verdict on (true, prefs) h g = absurd (cc h)
shell_verdict on (false, prefs) h g = rw g refl

none_found : (b : Bool) → (b ≡ true → ⊥) → b ≡ false
none_found true n = absurd (n refl)
none_found false n = refl

-- While writes are gated, as the caller says or else the preference does, and no grant for the class
-- is live in the thread or the channel, a shell command that is compound or runs arbitrary code is
-- asked for, whatever grants for exact tools there are. The text "0" is stored as it is.
pub tool_class_decision-never_remembered :
    (sub : Text → Text) (tool_class channel_id thread_id : Text) (on : Option Bool)
    (tool_name detail : Text) (now : ℕ) (prefs : List Preference)
    → sub (txt "0") ≡ txt "0"
    → normalize_tool_class tool_class ≡ some (txt "shell")
    → IsNeverRemembered detail
    → IsGated on prefs
    → ¬ HasLive now prefs (class_key (txt "shell")) thread_id channel_id
    → (tool_class_decision sub tool_class channel_id thread_id on tool_name detail now prefs).0
      ≡ decided ask (txt "shell") needs_approval
unfolding tool_class_decision exact_granted by_exact class_decision
tool_class_decision-never_remembered sub tool_class channel_id thread_id on tool_name detail now
      prefs z k n g dead =
    let found = class_granted-IsFound sub z (txt "shell") channel_id thread_id now prefs in
    rw k (
      rw (exact_of-none tool_class tool_name detail k n) (
        shell_verdict on (class_granted sub (txt "shell") channel_id thread_id now prefs)
          (none_found _ (λ e. dead (found.1 e))) (gated_after on prefs _ found.0.1 g)))
