-- ===== src/Text/Strip.antt =====
-- `strip`: which texts it leaves as they are.
use discord_os.Prelude.{ℕ, ◌≡◌, refl, ap, ◌∙◌, false, [], ◌∷◌, ◌++◌, arith, is_empty}
use discord_os.Text.{Text, strip, lstrip, rstrip, is_space}

rstrip-rstrip : (s : Text) → rstrip (rstrip s) ≡ rstrip s
unfolding rstrip
rstrip-rstrip [] = refl
rstrip-rstrip (c ∷ s) = ground (arith, rstrip-rstrip s)

rstrip-append : (p t : Text) → is_empty t ≡ false → rstrip t ≡ t → rstrip (p ++ t) ≡ p ++ t
unfolding rstrip
rstrip-append [] t e h = h
rstrip-append (c ∷ []) t e h = ground (arith, e, h)
rstrip-append (c ∷ d ∷ p) t e h = ground (arith, rstrip-append (d ∷ p) t e h)

lstrip-rstrip-lstrip : (s : Text) → lstrip (rstrip (lstrip s)) ≡ rstrip (lstrip s)
unfolding lstrip rstrip
lstrip-rstrip-lstrip [] = refl
lstrip-rstrip-lstrip (c ∷ s) = ground (arith, lstrip-rstrip-lstrip s)

-- Stripping twice is stripping once.
pub strip-strip : (s : Text) → strip (strip s) ≡ strip s
unfolding strip
strip-strip s = ap rstrip (lstrip-rstrip-lstrip s) ∙ rstrip-rstrip (lstrip s)

-- A text that begins with no space, and ends in a text that was stripped and is not empty.
pub strip-append :
    (c : ℕ) (p s : Text)
    → is_space c ≡ false
    → is_empty (strip s) ≡ false
    → strip (c ∷ p ++ strip s) ≡ c ∷ p ++ strip s
unfolding strip lstrip
strip-append c p s space e =
    ap rstrip starts ∙ rstrip-append (c ∷ p) (rstrip (lstrip s)) e (rstrip-rstrip (lstrip s))
  where
    starts : lstrip (c ∷ p ++ strip s) ≡ c ∷ p ++ strip s
    starts = ground (arith, space)
