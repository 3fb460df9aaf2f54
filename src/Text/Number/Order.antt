-- ===== src/Text/Number/Order.antt =====
-- Comparison of the integers that `int(text)` reads, and shifts by 22 bits.
use discord_os.Prelude.{ℕ, suc, ◌+◌, ◌-◌, ◌/◌, Bool, ltb, leb, ◌==◌, nat_eq, if◌then◌else◌}
use discord_os.Text.Number.{ℤ, pos, negsuc}

abbrev pub pos_part : ℤ → ℕ
pos_part (pos n) = n
pos_part (negsuc n) = 0

abbrev pub neg_part : ℤ → ℕ
neg_part (pos n) = 0
neg_part (negsuc n) = suc n

-- a < b
abbrev pub ltb_ℤ : ℤ → ℤ → Bool
ltb_ℤ a b = ltb (pos_part a + neg_part b) (pos_part b + neg_part a)

-- a == b
abbrev pub eqb_ℤ : ℤ → ℤ → Bool
eqb_ℤ a b = pos_part a + neg_part b == pos_part b + neg_part a

-- a >> 22, which rounds down
unfoldable pub shift_22 : ℤ → ℤ
shift_22 (pos n) = pos (n / 4194304)
shift_22 (negsuc n) = negsuc (n / 4194304)

-- a + k
unfoldable pub add_ℕ : ℤ → ℕ → ℤ
add_ℕ (pos n) k = pos (n + k)
add_ℕ (negsuc n) k = if leb (suc n) k then pos (k - suc n) else negsuc (n - k)
