-- ===== src/Text/Number.antt =====
-- Python's `int(text)`, over the ASCII digits, and `str(n)` of a number that is not negative.
pub mod RoundTrip
pub mod Order
use discord_os.Prelude.{
  ℕ, zero, suc, ◌+◌, ◌-◌, ◌*◌, ◌/◌, ◌%◌, Bool, true, false, ◌&&◌, not, [], ◌∷◌, Option, none, some,
  nat_eq, ◌==◌, leb, ltb, if◌then◌else◌, is_empty, any,
}
use discord_os.Text.{Text, strip}

-- `negsuc n` is -(n + 1).
pub data ℤ : Type 0 where
  pos : ℕ → ℤ
  negsuc : ℕ → ℤ

unfoldable pub negate : ℕ → ℤ
negate zero = pos zero
negate (suc n) = negsuc n

-- max(lo, min(n, hi)) for bounds that are not negative
unfoldable pub clamp_int : ℕ → ℕ → ℤ → ℕ
clamp_int lo hi (pos n) = if ltb n lo then lo else if ltb hi n then hi else n
clamp_int lo hi (negsuc n) = lo

unfoldable pub is_digit : ℕ → Bool
is_digit c = leb b'0' c && leb c b'9'

-- The digits of a literal, with single `_` between them; `need` says that a digit must follow.
unfoldable pub read_digits : Bool → ℕ → Text → Option ℕ
unfolding is_digit
read_digits need acc [] = if need then none else some acc
read_digits need acc (c ∷ s) =
    let more = read_digits false (acc * 10 + (c - b'0')) s in
    let gap = read_digits true acc s in
    if is_digit c then more else if c == b'_' && not need then gap else none

unfoldable pub signed : Text → Option ℤ
unfolding read_digits negate
signed [] = none
signed (c ∷ s) =
    if c == b'-'
    then elim (read_digits true 0 s) [ none ↦ none | some n ↦ some (negate n) ]
    else if c == b'+'
    then elim (read_digits true 0 s) [ none ↦ none | some n ↦ some (pos n) ]
    else elim (read_digits true 0 (c ∷ s)) [ none ↦ none | some n ↦ some (pos n) ]

-- int(text); `none` where it raises ValueError
unfoldable pub int_of : Text → Option ℤ
unfolding signed strip
int_of s = signed (strip s)

-- text.isdigit()
unfoldable pub all_digits : Text → Bool
unfolding is_digit
all_digits s = not (is_empty s) && not (any (λ c. not (is_digit c)) s)

-- The decimal digits of `n`, in front of `rest`; `fuel` is at least the number of digits.
unfoldable pub digits_before : ℕ → ℕ → Text → Text
digits_before zero n rest = rest
digits_before (suc f) n rest =
    let more = digits_before f (n / 10) ((b'0' + n % 10) ∷ rest) in
    if ltb n 10 then (b'0' + n) ∷ rest else more

-- str(n)
unfoldable pub str_of : ℕ → Text
unfolding digits_before
str_of n = digits_before (suc n) n []
