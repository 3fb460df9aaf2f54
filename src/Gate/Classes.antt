-- ===== src/Gate/Classes.antt =====
-- orchestration/ask_gate.py: from the name of a tool to its class.
pub mod Known
use discord_os.Prelude.{
  String, Option, none, some, List, [], ◌∷◌, nat_eq, ◌==◌, if◌then◌else◌, is_empty, member, drop,
  length,
}
use discord_os.Text.{Text, txt, text_eq, strip, lower, starts_with, replace_char}

-- KNOWN_TOOL_CLASSES
abbrev pub known_tool_classes : List Text
known_tool_classes =
    txt "shell"
    ∷ txt "write"
    ∷ txt "edit"
    ∷ txt "browser"
    ∷ txt "network"
    ∷ txt "git"
    ∷ txt "mcp"
    ∷ txt "ask"
    ∷ txt "implement"
    ∷ txt "read"
    ∷ []

abbrev to : String → String → Text × Text
to a b = (txt a, txt b)

-- _TOOL_CLASS_ALIASES
abbrev pub tool_class_aliases : List (Text × Text)
tool_class_aliases =
    to "bash" "shell"
    ∷ to "shell" "shell"
    ∷ to "terminal" "shell"
    ∷ to "run_command" "shell"
    ∷ to "write" "write"
    ∷ to "createfile" "write"
    ∷ to "create_file" "write"
    ∷ to "edit" "edit"
    ∷ to "multiedit" "edit"
    ∷ to "strreplace" "edit"
    ∷ to "browser" "browser"
    ∷ to "webfetch" "network"
    ∷ to "websearch" "network"
    ∷ to "network" "network"
    ∷ to "fetch" "network"
    ∷ to "git" "git"
    ∷ to "gh" "git"
    ∷ to "mcp" "mcp"
    ∷ to "ask" "ask"
    ∷ to "askuserquestion" "ask"
    ∷ to "ask_user" "ask"
    ∷ to "ask_user_question" "ask"
    ∷ to "implement" "implement"
    ∷ to "write_gate" "implement"
    ∷ to "read" "read"
    ∷ to "read_file" "read"
    ∷ to "readfile" "read"
    ∷ to "read_offload" "read"
    ∷ to "list_dir" "read"
    ∷ to "listdir" "read"
    ∷ to "search_code" "read"
    ∷ to "graph_search" "read"
    ∷ to "graph_context" "read"
    ∷ to "write_file" "write"
    ∷ to "writefile" "write"
    ∷ to "delete_file" "write"
    ∷ to "deletefile" "write"
    ∷ to "edit_file" "edit"
    ∷ to "editfile" "edit"
    ∷ to "apply_hashline" "edit"
    ∷ to "run_terminal" "shell"
    ∷ to "runterminal" "shell"
    ∷ to "web_fetch" "network"
    ∷ to "webfetch" "network"
    ∷ []

-- A dictionary's `get`.
unfoldable pub lookup : Text → List (Text × Text) → Option Text
lookup k [] = none
lookup k (p ∷ ps) = if p.0 == k then some p.1 else lookup k ps

-- text.rsplit(p, 1)[-1], where `p` occurs in the text
unfoldable pub after_last : Text → Text → Option Text
unfolding starts_with
after_last p [] = none
after_last p (c ∷ s) =
    let later = after_last p s in
    elim later [
      | some tail ↦ some tail
      | none ↦ if starts_with p (c ∷ s) then some (drop (length p) (c ∷ s)) else none
    ]

-- The spelling that is looked up.
unfoldable pub spelling : Text → Text
unfolding strip lower replace_char
spelling raw = replace_char b' ' b'_' (replace_char b'-' b'_' (lower (strip raw)))

unfoldable pub known_or_alias : Text → Option Text
unfolding lookup
known_or_alias text =
    if member text known_tool_classes then some text else lookup text tool_class_aliases

-- The class of a tool behind a provider's prefix: its name is looked up as it stands, so that the
-- recursive call of the source ends at once.
unfoldable pub behind_prefix : Option Text → Option Text
unfolding known_or_alias spelling
behind_prefix none = none
behind_prefix (some tail) = elim (known_or_alias tail) [
  | none ↦ none
  | some c ↦ known_or_alias (spelling tail)
]

unfoldable pub class_of : Text → Option Text
unfolding known_or_alias behind_prefix after_last starts_with
class_of text = if is_empty text then none else elim (known_or_alias text) [
  | some c ↦ some c
  | none ↦
      if starts_with (txt "browser_") text
      then some (txt "browser")
      else behind_prefix (after_last (txt "__") text)
]

-- normalize_tool_class
unfoldable pub normalize_tool_class : Text → Option Text
unfolding class_of spelling
normalize_tool_class raw = class_of (spelling raw)
