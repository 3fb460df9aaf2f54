-- ===== src/Gate/Scope.antt =====
-- orchestration/ask_gate.py: what an "Always allow" of a shell command remembers.
use discord_os.Prelude.{
  Bool, false, not, ◌&&◌, ◌||◌, List, [], ◌∷◌, ◌++◌, nat_eq, if◌then◌else◌, is_empty, any, member,
}
use discord_os.Text.{Text, txt, text_eq, strip, split, starts_with, contains}

-- _SHELL_COMPOUND.search(text): one of ; & | ` < > or the end of a line, or $(
unfoldable pub is_compound : Text → Bool
unfolding contains
is_compound text = any (λ c. member c (10 ∷ txt ";&|`<>")) text || contains (txt "$(") text

-- _TWO_WORD_COMMANDS
abbrev pub two_word_commands : List Text
two_word_commands =
    txt "git"
    ∷ txt "gh"
    ∷ txt "npm"
    ∷ txt "pnpm"
    ∷ txt "yarn"
    ∷ txt "bun"
    ∷ txt "uv"
    ∷ txt "poetry"
    ∷ txt "pip"
    ∷ txt "cargo"
    ∷ txt "go"
    ∷ txt "make"
    ∷ txt "docker"
    ∷ []

-- _NO_ALWAYS_COMMANDS
abbrev pub no_always_commands : List Text
no_always_commands =
    txt "bash"
    ∷ txt "sh"
    ∷ txt "zsh"
    ∷ txt "fish"
    ∷ txt "python"
    ∷ txt "python3"
    ∷ txt "node"
    ∷ txt "deno"
    ∷ txt "perl"
    ∷ txt "ruby"
    ∷ txt "php"
    ∷ txt "osascript"
    ∷ txt "eval"
    ∷ txt "exec"
    ∷ txt "env"
    ∷ txt "sudo"
    ∷ txt "xargs"
    ∷ txt "npx"
    ∷ txt "curl"
    ∷ txt "wget"
    ∷ txt "ssh"
    ∷ txt "scp"
    ∷ []

-- The words of the command that the scope keeps; the option of `git -C dir` is not one.
unfoldable pub head_words : List Text → Text
unfolding starts_with
head_words [] = []
head_words (w ∷ []) = w
head_words (w ∷ v ∷ words) =
    if member w two_word_commands && not (starts_with (txt "-") v) then w ++ txt " " ++ v else w

unfoldable pub is_no_always : List Text → Bool
is_no_always [] = false
is_no_always (w ∷ words) = member w no_always_commands

-- shell_always_scope
unfoldable pub shell_always_scope : Text → Text → Text
unfolding strip is_compound split is_no_always head_words
shell_always_scope tool_name command =
    if is_empty (strip command) || is_empty (strip tool_name) || is_compound (strip command)
    then []
    else if is_no_always (split (strip command))
    then []
    else strip tool_name ++ txt " " ++ head_words (split (strip command))
