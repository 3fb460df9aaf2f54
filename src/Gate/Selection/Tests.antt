-- ===== src/Gate/Selection/Tests.antt =====
-- orchestration/ask_gate.py: a selection with junk in it, and the theorems there.
use discord_os.Prelude.{◌≡◌, refl, Option, none, some, List, [], ◌∷◌}
use discord_os.Text.Number.{ℤ, pos, negsuc}
use discord_os.Gate.Selection.{coerce_selected_indices}

abbrev raw : List (Option ℤ)
raw = some (pos 3) ∷ none ∷ some (pos 0) ∷ some (negsuc 0) ∷ some (pos 3) ∷ some (pos 9) ∷ []

coerced : coerce_selected_indices 4 raw ≡ 0 ∷ 3 ∷ []
unfolding coerce_selected_indices
coerced = refl
