-- ===== src/Text.antt =====
-- Python's `str` as its list of code points, with the string methods that the program uses:
-- equality, `strip`, `lower`, `split`, `in`, `startswith`, `rfind`.
pub mod Number
pub mod Members
pub mod Strip
pub mod Words
use Prim.Native.Char.{code}
use discord_os.Prelude.{
  ℕ, ◌+◌, ◌≡◌, ◌≢◌, refl, ◌↔◌, Bool, true, false, ◌&&◌, ◌||◌, List, [], ◌∷◌, ◌++◌, String, arith,
  TestsEquality, nat_eq, ◌==◌, leb, member, if◌then◌else◌, is_empty,
}

abbrev pub Text : Type 0
Text = List ℕ

-- A literal, as its code points.
abbrev pub txt : String → Text
txt String.[] = []
txt (String.◌∷◌ c s) = code c ∷ txt s

unfoldable pub text_beq : Text → Text → Bool
text_beq [] [] = true
text_beq [] (d ∷ t) = false
text_beq (c ∷ s) [] = false
text_beq (c ∷ s) (d ∷ t) = c == d && text_beq s t

pub text_beq_iff : (s t : Text) → (text_beq s t ≡ true) ↔ (s ≡ t)
unfolding text_beq
text_beq_iff [] [] = (λ h. refl, λ h. refl)
text_beq_iff [] (d ∷ t) = (λ h. cc, λ h. cc)
text_beq_iff (c ∷ s) [] = (λ h. cc, λ h. cc)
text_beq_iff (c ∷ s) (d ∷ t) =
    (λ h. ground (arith, text_beq_iff s t), λ h. ground (arith, text_beq_iff s t))

instance abbrev pub text_eq : TestsEquality Text
text_eq = record { same = text_beq; same_iff = text_beq_iff }

-- Two texts that the test tells apart.
pub text_ne : (s t : Text) → text_beq s t ≡ false → s ≢ t
text_ne s t h e = cc ((text_beq_iff s t).1 e)

-- `str.isspace` of one character.
abbrev space_marks : List ℕ
space_marks = 32 ∷ 133 ∷ 160 ∷ 5760 ∷ 8232 ∷ 8233 ∷ 8239 ∷ 8287 ∷ 12288 ∷ []

unfoldable pub is_space : ℕ → Bool
is_space c =
    leb 9 c && leb c 13 || leb 28 c && leb c 31 || leb 8192 c && leb c 8202 || member c space_marks

-- s.lstrip()
unfoldable pub lstrip : Text → Text
lstrip [] = []
lstrip (c ∷ s) = if is_space c then lstrip s else c ∷ s

-- s.rstrip()
unfoldable pub rstrip : Text → Text
rstrip [] = []
rstrip (c ∷ s) = let r = rstrip s in if is_empty r && is_space c then [] else c ∷ r

-- s.strip()
unfoldable pub strip : Text → Text
unfolding lstrip rstrip is_space
strip s = rstrip (lstrip s)

-- The lower case of one character: ASCII letters, and the two other characters whose lower case
-- begins with an ASCII letter. Every other character is left as it is.
unfoldable pub lower_char : ℕ → Text
lower_char c =
    if leb b'A' c && leb c b'Z'
    then (c + 32) ∷ []
    else if c == 8490
    then b'k' ∷ []
    else if c == 304
    then b'i' ∷ 775 ∷ []
    else c ∷ []

-- s.lower()
unfoldable pub lower : Text → Text
unfolding lower_char
lower [] = []
lower (c ∷ s) = lower_char c ++ lower s

-- s.replace(a, b) for single characters
unfoldable pub replace_char : ℕ → ℕ → Text → Text
replace_char a b [] = []
replace_char a b (c ∷ s) = (if c == a then b else c) ∷ replace_char a b s

-- s.startswith(p)
unfoldable pub starts_with : Text → Text → Bool
starts_with [] s = true
starts_with (d ∷ p) [] = false
starts_with (d ∷ p) (c ∷ s) = c == d && starts_with p s

-- p in s
unfoldable pub contains : Text → Text → Bool
unfolding starts_with
contains p [] = is_empty p
contains p (c ∷ s) = starts_with p (c ∷ s) || contains p s

-- The words of `s.split()`: `word` is the word being read.
unfoldable pub split_from : Text → Text → List Text
split_from word [] = if is_empty word then [] else word ∷ []
split_from word (c ∷ s) =
    let closed = split_from [] s in
    let longer = split_from (word ++ c ∷ []) s in
    if is_space c then (if is_empty word then closed else word ∷ closed) else longer

-- s.split()
unfoldable pub split : Text → List Text
unfolding split_from is_space
split s = split_from [] s
