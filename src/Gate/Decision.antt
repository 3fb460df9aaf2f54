-- ===== src/Gate/Decision.antt =====
-- orchestration/ask_gate.py: whether a tool call runs, is put to the user, or is refused.
pub mod Granted
pub mod Safety
pub mod Off
mod Tests
use discord_os.Prelude.{
  ℕ, Bool, true, false, not, Option, none, some, List, nat_eq, ◌==◌, if◌then◌else◌, is_empty,
}
use discord_os.Text.{Text, txt, text_eq, strip}
use discord_os.Gate.Preferences.{Preference, writes_need_approval}
use discord_os.Gate.Grants.{tool_class_session_allows, tool_exact_session_allows}
use discord_os.Gate.Classes.{normalize_tool_class}
use discord_os.Gate.Scope.{shell_always_scope}

pub data Verdict : Type 0 where
  allow ask deny : Verdict

pub data Reason : Type 0 where
  always_exact unknown_class always_class read_passthrough ask_user gate_off needs_approval : Reason

pub record ToolClassDecision : Type 0 where
  pub decision : Verdict
  pub tool_class : Text
  pub reason : Reason

abbrev pub decided : Verdict → Text → Reason → ToolClassDecision
decided verdict tool_class reason = record {
  decision = verdict;
  tool_class = tool_class;
  reason = reason;
}

-- `a or b`, where each of the two may change the preferences.
unfoldable pub or_else :
    Bool × List Preference → (List Preference → Bool × List Preference) → Bool × List Preference
or_else (true, prefs) next = (true, prefs)
or_else (false, prefs) next = next prefs

-- A question about one scope, asked about the thread and then about the channel.
abbrev pub Query : Type 0
Query = Text → List Preference → Bool × List Preference

unfoldable pub either : Query → Text → Text → List Preference → Bool × List Preference
unfolding or_else
either query thread_id channel_id prefs = or_else (query thread_id prefs) (λ p. query channel_id p)

-- What is asked for in the table of the exact grants.
unfoldable pub exact_of : Text → Text → Text → Text
unfolding strip normalize_tool_class shell_always_scope
exact_of tool_class tool_name detail =
    let exact = if is_empty (strip tool_name) then strip tool_class else strip tool_name in
    elim (normalize_tool_class tool_class) [
      | none ↦ exact
      | some c ↦ if c == txt "shell" then shell_always_scope exact detail else exact
    ]

-- The class that a grant for an exact tool is reported with.
unfoldable pub hit_class : Text → Text → Text
unfolding normalize_tool_class strip
hit_class tool_class exact = elim (normalize_tool_class tool_class) [
  | some c ↦ c
  | none ↦ elim (normalize_tool_class exact) [ some c ↦ c | none ↦ strip exact ]
]

-- The decision on a known class for which there is no grant.
unfoldable pub without_grant : Text → Bool → ToolClassDecision
without_grant canonical gated =
    if canonical == txt "read"
    then decided allow canonical read_passthrough
    else if canonical == txt "ask"
    then decided ask canonical ask_user
    else if not gated
    then decided allow canonical gate_off
    else decided ask canonical needs_approval

-- Whether writes are gated: `write_gate_on`, or else the write gate in the preferences.
unfoldable pub is_gated : Option Bool → List Preference → Bool
unfolding writes_need_approval
is_gated none prefs = writes_need_approval prefs
is_gated (some on) prefs = on

-- Whether there is a grant for the exact tool.
unfoldable pub exact_granted :
    (Text → Text) → Text → Text → Text → ℕ → List Preference → Bool × List Preference
unfolding either tool_exact_session_allows
exact_granted sub exact channel_id thread_id now prefs =
    if is_empty exact
    then (false, prefs)
    else either (λ scope p. tool_exact_session_allows sub exact scope now p) thread_id channel_id
        prefs

-- Whether there is a grant for the class.
unfoldable pub class_granted :
    (Text → Text) → Text → Text → Text → ℕ → List Preference → Bool × List Preference
unfolding either tool_class_session_allows
class_granted sub c channel_id thread_id now prefs =
    either (λ scope p. tool_class_session_allows sub c scope now p) thread_id channel_id prefs

-- The decision on a known class, by what was found for the class.
unfoldable pub class_verdict :
    Text → Option Bool → Bool × List Preference → ToolClassDecision × List Preference
unfolding without_grant is_gated
class_verdict c write_gate_on (true, prefs) = (decided allow c always_class, prefs)
class_verdict c write_gate_on (false, prefs) =
    (without_grant c (is_gated write_gate_on prefs), prefs)

-- The decision by the class, once no grant for the exact tool was found.
unfoldable pub class_decision :
    (Text → Text)
    → Text
    → Option Text
    → Text
    → Text
    → Option Bool
    → ℕ
    → List Preference
    → ToolClassDecision × List Preference
unfolding class_granted class_verdict strip
class_decision sub tool_class none channel_id thread_id write_gate_on now prefs =
    (decided deny (strip tool_class) unknown_class, prefs)
class_decision sub tool_class (some c) channel_id thread_id write_gate_on now prefs =
    class_verdict c write_gate_on (class_granted sub c channel_id thread_id now prefs)

-- The decision, by what was found for the exact tool.
unfoldable pub by_exact :
    Text
    → (List Preference → ToolClassDecision × List Preference)
    → Bool × List Preference
    → ToolClassDecision × List Preference
by_exact hit otherwise (true, prefs) = (decided allow hit always_exact, prefs)
by_exact hit otherwise (false, prefs) = otherwise prefs

-- tool_class_decision, and the preferences after the grants it found over were cleared
unfoldable pub tool_class_decision :
    (Text → Text)
    → Text
    → Text
    → Text
    → Option Bool
    → Text
    → Text
    → ℕ
    → List Preference
    → ToolClassDecision × List Preference
unfolding exact_granted exact_of hit_class by_exact class_decision normalize_tool_class
tool_class_decision sub tool_class channel_id thread_id write_gate_on tool_name detail now prefs =
    let exact = exact_of tool_class tool_name detail in
    let canonical = normalize_tool_class tool_class in
    by_exact (hit_class tool_class exact)
      (λ p. class_decision sub tool_class canonical channel_id thread_id write_gate_on now p)
      (exact_granted sub exact channel_id thread_id now prefs)
