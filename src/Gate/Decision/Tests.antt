-- ===== src/Gate/Decision/Tests.antt =====
-- orchestration/ask_gate.py and orchestration/service.py: the gate on concrete calls, and the
-- theorems there.
use discord_os.Prelude.{
  ◌+◌, ◌≡◌, refl, sym, ◌∙◌, inl, inr, true, false, none, some, List, [], ltb, is_empty,
}
use discord_os.Text.{Text, txt, text_beq, strip}
use discord_os.Text.Number.{pos, negsuc}
use discord_os.Gate.Preferences.{Preference, host_pref, truthy, set_write_gate}
use discord_os.Gate.Grants.{
  is_preference, set_write_session_allow, write_session_allows_writes, set_tool_class_session_allow,
  set_tool_exact_session_allow, clear_write_session_allows, class_name, tool_class_allow_key,
  exact_name, ttl_of,
}
use discord_os.Gate.Grants.Asked.{IsLiveAt}
use discord_os.Gate.Grants.Live.{set_write_session_allow-IsLive}
use discord_os.Gate.Grants.Revoked.{GrantsAreListed}
use discord_os.Gate.Classes.{normalize_tool_class}
use discord_os.Gate.Classes.Known.{IsKnown, normalize_tool_class-IsKnown}
use discord_os.Gate.Scope.{is_compound}
use discord_os.Gate.Decision.{allow, ask, decided, needs_approval, tool_class_decision}
use discord_os.Gate.Decision.Granted.{HasLive, IsGated, class_key}
use discord_os.Gate.Decision.Safety.{
  MayRun, tool_class_decision-allow, tool_class_decision-never_remembered,
}
use discord_os.Gate.Decision.Off.{tool_class_decision-revoked}

abbrev same : Text → Text
same s = s

abbrev thread : Text
thread = txt "42"

abbrev command : Text
command = txt "git status; rm -rf /"

-- One grant of each kind in the thread, made in second 1000.
abbrev granted : List Preference
granted =
    (set_tool_exact_session_allow same (txt "run_terminal git status") thread (pos 0) 1000 (
      set_tool_class_session_allow same (txt "bash") thread (pos 600) 1000
        (set_write_session_allow same thread (negsuc 4) 1000 []))).1

file_reader : normalize_tool_class (txt "mcp__files__Read-File") ≡ some (txt "read")
unfolding normalize_tool_class text_beq
file_reader = refl

terminal : normalize_tool_class (txt "run_terminal") ≡ some (txt "shell")
unfolding normalize_tool_class text_beq
terminal = refl

normalize_tool_class-IsKnown_example : IsKnown (txt "read")
normalize_tool_class-IsKnown_example =
    normalize_tool_class-IsKnown (txt "mcp__files__Read-File") (txt "read") file_reader

thread_named : is_empty (strip thread) ≡ false
unfolding strip
thread_named = refl

bash_named : is_empty (class_name (txt "bash")) ≡ false
unfolding class_name text_beq
bash_named = refl

bash_terminal : class_name (txt "run_terminal") ≡ class_name (txt "bash")
unfolding class_name text_beq
bash_terminal = refl

write_named : is_empty (exact_name (txt "Write")) ≡ false
unfolding exact_name
write_named = refl

set_write_session_allow-IsLive_example :
    (write_session_allows_writes same thread 1100
      (set_write_session_allow same thread (negsuc 4) 1000 [])).0
    ≡ ltb 1100 (1000 + ttl_of (negsuc 4))
set_write_session_allow-IsLive_example =
    set_write_session_allow-IsLive same (λ s d. refl) thread (negsuc 4) 1000 1100 [] thread_named

-- The exact grant lets the plain command run, before it is over.
exact_grant_runs :
    (tool_class_decision same
      (txt "shell")
      (txt "")
      thread
      (some true)
      (txt "run_terminal")
      (txt "git status -s")
      1100
      granted).0.decision
    ≡ allow
unfolding tool_class_decision set_tool_exact_session_allow set_tool_class_session_allow
    set_write_session_allow text_beq
exact_grant_runs = refl

tool_class_decision-allow_example :
    MayRun
      (txt "shell")
      (txt "")
      thread
      (some true)
      (txt "run_terminal")
      (txt "git status -s")
      1100
      granted
tool_class_decision-allow_example =
    tool_class_decision-allow same (txt "shell") (txt "") thread (some true) (txt "run_terminal")
      (txt "git status -s") 1100 granted refl exact_grant_runs

shell_known : normalize_tool_class (txt "shell") ≡ some (txt "shell")
unfolding normalize_tool_class text_beq
shell_known = refl

-- Only the exact grant, and the write gate.
abbrev exact_only : List Preference
exact_only =
    (set_tool_exact_session_allow same (txt "run_terminal git status") thread (pos 0) 1000
      (set_write_gate same true [])).1

compound : is_compound (strip command) ≡ true
unfolding is_compound strip
compound = refl

no_row : (k : Text) → (host_pref k exact_only ≡ none) → ¬ IsLiveAt 1100 exact_only k
no_row k e (raw, there, when) = cc (sym e ∙ there)

no_class_grant : ¬ HasLive 1100 exact_only (class_key (txt "shell")) thread (txt "")
unfolding set_tool_exact_session_allow set_write_gate host_pref class_name tool_class_allow_key
    text_beq
no_class_grant (inl live) = no_row (class_key (txt "shell") thread) refl live
no_class_grant (inr live) = no_row (class_key (txt "shell") (txt "")) refl live

gate_set : IsGated none exact_only
unfolding set_tool_exact_session_allow set_write_gate host_pref truthy text_beq
gate_set = refl

tool_class_decision-never_remembered_example :
    (tool_class_decision same
      (txt "shell")
      (txt "")
      thread
      none
      (txt "run_terminal")
      command
      1100
      exact_only).0
    ≡ decided ask (txt "shell") needs_approval
tool_class_decision-never_remembered_example =
    tool_class_decision-never_remembered same (txt "shell") (txt "") thread none
      (txt "run_terminal") command 1100 exact_only refl shell_known (inl compound) gate_set
      no_class_grant

-- The grants, and the write gate.
abbrev gated : List Preference
gated = set_write_gate same true granted

gated_listed : GrantsAreListed gated
unfolding set_tool_class_session_allow set_tool_exact_session_allow set_write_session_allow
    set_write_gate is_preference text_beq
gated_listed = (inl refl, (inl refl, (inl refl, (inl refl, tt))))

still_gated : IsGated none (clear_write_session_allows same gated)
unfolding set_tool_exact_session_allow set_tool_class_session_allow set_write_session_allow
    set_write_gate clear_write_session_allows host_pref truthy text_beq
still_gated = refl

read_runs :
    (tool_class_decision same
      (txt "read_file")
      (txt "")
      thread
      none
      (txt "read_file")
      (txt "")
      1100
      (clear_write_session_allows same gated)).0.decision
    ≡ allow
unfolding tool_class_decision set_tool_exact_session_allow set_tool_class_session_allow
    set_write_session_allow set_write_gate clear_write_session_allows text_beq
read_runs = refl

tool_class_decision-revoked_example : normalize_tool_class (txt "read_file") ≡ some (txt "read")
tool_class_decision-revoked_example =
    tool_class_decision-revoked same refl (txt "read_file") (txt "") thread none (txt "read_file")
      (txt "") 1100 gated gated_listed still_gated read_runs
