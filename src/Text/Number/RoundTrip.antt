-- ===== src/Text/Number/RoundTrip.antt =====
-- `int(str(n))` is `n`: the decimal digits of a number read back as that number.
use discord_os.Prelude.{
  ℕ, zero, suc, ◌+◌, ◌-◌, ◌*◌, ◌/◌, ◌%◌, ◌<◌, ◌≡◌, refl, ap, ◌∙◌, inl, inr, Bool, true, false, some,
  [], ◌∷◌, arith, ltb, Bool-cases, All,
}
use discord_os.Text.{Text, strip, is_space, lstrip, rstrip}
use discord_os.Text.Number.{pos, is_digit, read_digits, signed, int_of, digits_before, str_of}

abbrev pub Digits : Text → Type 0
Digits s = All (λ c. is_digit c ≡ true) s

digits_before-Digits :
    (f n : ℕ) (rest : Text) → n < f → Digits rest → Digits (digits_before f n rest)
unfolding digits_before is_digit
digits_before-Digits zero n rest h d = d
digits_before-Digits (suc f) n rest h d = elim (Bool-cases (ltb n 10)) [
  | inl small ↦ rw small (ground arith, d)
  | inr big ↦
      rw big
        (digits_before-Digits f (n / 10) ((b'0' + n % 10) ∷ rest) (ground arith) (ground arith, d))
]

step_value : (m n : ℕ) → m * 10 + (48 + n % 10 - 48) ≡ m * 10 + n % 10
step_value m n = omega arith

read_digits-digits_before :
    (f n : ℕ) (need : Bool) (rest : Text)
    → n < f
    → read_digits need 0 (digits_before f n rest) ≡ read_digits false n rest
unfolding digits_before read_digits is_digit
read_digits-digits_before zero n need rest h = absurd (omega arith)
read_digits-digits_before (suc f) n need rest h = elim (Bool-cases (ltb n 10)) [
  | inl small ↦ ground (arith, small)
  | inr big ↦
      ground (arith, big, read_digits-digits_before f (n / 10) need ((b'0' + n % 10) ∷ rest))
]

rstrip-Digits : (s : Text) → Digits s → rstrip s ≡ s
unfolding rstrip is_digit is_space
rstrip-Digits [] d = refl
rstrip-Digits (c ∷ s) (d, more) = ground (arith, rstrip-Digits s more)

lstrip-Digits : (s : Text) → Digits s → lstrip s ≡ s
unfolding lstrip is_digit is_space
lstrip-Digits [] d = refl
lstrip-Digits (c ∷ s) (d, more) = ground arith

signed-Digits :
    (s : Text) (n : ℕ) → Digits s → read_digits true 0 s ≡ some n → signed s ≡ some (pos n)
unfolding signed is_digit
signed-Digits [] n d h = ground (arith, h)
signed-Digits (c ∷ s) n (d, more) h = ground (arith, h)

read_digits-str_of : (n : ℕ) → read_digits true 0 (str_of n) ≡ some n
unfolding str_of read_digits
read_digits-str_of n = read_digits-digits_before (suc n) n true [] (omega arith)

pub strip-Digits : (s : Text) → Digits s → strip s ≡ s
unfolding strip
strip-Digits s d = ap rstrip (lstrip-Digits s d) ∙ rstrip-Digits s d

int_of-Digits :
    (s : Text) (n : ℕ) → Digits s → read_digits true 0 s ≡ some n → int_of s ≡ some (pos n)
unfolding int_of
int_of-Digits s n d h = ap signed (strip-Digits s d) ∙ signed-Digits s n d h

pub str_of-Digits : (n : ℕ) → Digits (str_of n)
unfolding str_of
str_of-Digits n = digits_before-Digits (suc n) n [] (omega arith) tt

-- `int(str(n))` is `n`, for every number that is not negative.
pub int_of-str_of : (n : ℕ) → int_of (str_of n) ≡ some (pos n)
int_of-str_of n = int_of-Digits (str_of n) n (str_of-Digits n) (read_digits-str_of n)
