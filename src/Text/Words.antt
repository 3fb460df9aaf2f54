-- ===== src/Text/Words.antt =====
-- More of Python's methods on texts.
use discord_os.Prelude.{
  ℕ, ◌-◌, Bool, false, ◌&&◌, ◌||◌, List, [], ◌∷◌, ◌++◌, leb, nat_eq, ◌==◌, if◌then◌else◌, is_empty,
  member,
}
use discord_os.Text.{Text, text_eq, text_beq}

-- The capital of an ASCII letter; the other characters stay as they are.
unfoldable pub upper_char : ℕ → ℕ
upper_char c = if leb b'a' c && leb c b'z' then c - 32 else c

-- s.upper(), on ASCII
unfoldable pub upper : Text → Text
unfolding upper_char
upper [] = []
upper (c ∷ s) = upper_char c ∷ upper s

-- separator.join(texts)
unfoldable pub join : Text → List Text → Text
join separator [] = []
join separator (t ∷ []) = t
join separator (t ∷ u ∷ texts) = t ++ separator ++ join separator (u ∷ texts)

unfoldable pub ends_with : Text → Text → Bool
unfolding text_beq
ends_with suffix [] = is_empty suffix
ends_with suffix (c ∷ s) = c ∷ s == suffix || ends_with suffix s

-- s.rstrip(chars)
unfoldable pub rstrip_of : Text → Text → Text
rstrip_of chars [] = []
rstrip_of chars (c ∷ s) =
    let rest = rstrip_of chars s in if is_empty rest && member c chars then [] else c ∷ rest

-- The line breaks of str.splitlines.
abbrev is_break : ℕ → Bool
is_break c = member c (10 ∷ 11 ∷ 12 ∷ 13 ∷ 28 ∷ 29 ∷ 30 ∷ 133 ∷ 8232 ∷ 8233 ∷ [])

-- The lines of a text, of which `line` is being read; `after_return` says that a line feed belongs
-- to the break before it.
unfoldable pub lines_from : Bool → Text → Text → List Text
lines_from after_return line [] = if is_empty line then [] else line ∷ []
lines_from after_return line (c ∷ s) =
    let skipped = lines_from false line s in
    let closed = lines_from (c == 13) [] s in
    let longer = lines_from false (line ++ c ∷ []) s in
    if after_return && c == 10 then skipped else if is_break c then line ∷ closed else longer

-- s.splitlines()
unfoldable pub splitlines : Text → List Text
unfolding lines_from
splitlines s = lines_from false [] s
