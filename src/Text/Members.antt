-- ===== src/Text/Members.antt =====
-- Membership in lists of texts.
use discord_os.Prelude.{
  ◌≡◌, refl, not, ◌&&◌, ◌||◌, List, [], ◌∷◌, ◌++◌, arith, nat_eq, ◌==◌, select, member,
}
use discord_os.Text.{Text, text_eq, text_beq_iff}

pub member-append :
    (t : Text) (xs ys : List Text) → member t (xs ++ ys) ≡ (member t xs || member t ys)
member-append t [] ys = refl
member-append t (x ∷ xs) ys = ground (arith, member-append t xs ys)

pub member-select :
    (t tid : Text) (xs : List Text)
    → member t (select (λ u. not (u == tid)) xs) ≡ (not (t == tid) && member t xs)
member-select t tid [] = ground arith
member-select t tid (x ∷ xs) =
    ground (arith, text_beq_iff x t, text_beq_iff x tid, text_beq_iff t tid, member-select t tid xs)
