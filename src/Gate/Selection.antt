-- ===== src/Gate/Selection.antt =====
-- orchestration/ask_gate.py: the options that a user has selected in a question.
pub mod Sound
mod Tests
use discord_os.Prelude.{
  ℕ, zero, suc, Option, none, some, List, [], ◌∷◌, ◌++◌, nat_eq, ltb, leb, if◌then◌else◌, member,
}
use discord_os.Text.Number.{ℤ, pos, negsuc}

-- The index in an item, if it is one that is kept; an item is the value of `int(item)`, or `none`
-- where that raises an error.
unfoldable pub index_of : ℕ → Option ℤ → Option ℕ
index_of option_count none = none
index_of option_count (some (negsuc n)) = none
index_of option_count (some (pos n)) = if ltb n option_count then some n else none

-- The loop of `coerce_selected_indices`; `seen` are the indices in the order in which they came.
unfoldable pub collect : ℕ → List ℕ → List (Option ℤ) → List ℕ
unfolding index_of
collect option_count seen [] = seen
collect option_count seen (item ∷ items) = elim (index_of option_count item) [
  | none ↦ collect option_count seen items
  | some idx ↦ collect option_count (if member idx seen then seen else seen ++ idx ∷ []) items
]

unfoldable pub insert : ℕ → List ℕ → List ℕ
insert n [] = n ∷ []
insert n (m ∷ ms) = let rest = insert n ms in if leb n m then n ∷ m ∷ ms else m ∷ rest

-- list.sort()
unfoldable pub sort : List ℕ → List ℕ
unfolding insert
sort [] = []
sort (n ∷ ns) = insert n (sort ns)

-- coerce_selected_indices, of a list
unfoldable pub coerce_selected_indices : ℕ → List (Option ℤ) → List ℕ
unfolding collect sort
coerce_selected_indices zero raw = []
coerce_selected_indices (suc c) raw = sort (collect (suc c) [] raw)
