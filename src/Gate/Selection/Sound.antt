-- ===== src/Gate/Selection/Sound.antt =====
-- orchestration/ask_gate.py: the selected options are in order, without repetition, and are those
-- of the input that exist.
use discord_os.Prelude.{
  ℕ, zero, suc, ◌≡◌, refl, ◌∙◌, Bool, true, false, not, ◌&&◌, ◌||◌, Option, none, some, List, [],
  ◌∷◌, ◌++◌, nat_eq, ◌==◌, ltb, if◌then◌else◌, member, any, arith, inl, inr, Bool-cases,
}
use discord_os.Text.Number.{ℤ, pos, negsuc}
use discord_os.Gate.Selection.{index_of, collect, insert, sort, coerce_selected_indices}

-- Every number of the list is above `n`.
abbrev below : ℕ → List ℕ → Bool
below n [] = true
below n (m ∷ ms) = ltb n m && below n ms

-- Strictly increasing.
abbrev pub increasing : List ℕ → Bool
increasing [] = true
increasing (n ∷ ns) = below n ns && increasing ns

below-insert : (k n : ℕ) (ns : List ℕ) → below k (insert n ns) ≡ (ltb k n && below k ns)
unfolding insert
below-insert k n [] = refl
below-insert k n (m ∷ ms) = ground (arith, below-insert k n ms)

below_trans : (k n : ℕ) (ns : List ℕ) → ltb k n ≡ true → below n ns ≡ true → below k ns ≡ true
below_trans k n [] h b = refl
below_trans k n (m ∷ ms) h b = ground (arith, h, b, below_trans k n ms)

member-insert : (k n : ℕ) (ns : List ℕ) → member k (insert n ns) ≡ (n == k || member k ns)
unfolding insert
member-insert k n [] = refl
member-insert k n (m ∷ ms) = ground (arith, member-insert k n ms)

insert-increasing :
    (n : ℕ) (ns : List ℕ)
    → member n ns ≡ false
    → increasing ns ≡ true
    → increasing (insert n ns) ≡ true
unfolding insert
insert-increasing n [] f h = refl
insert-increasing n (m ∷ ms) f h =
    ground (arith, f, h, insert-increasing n ms, below-insert m n ms, below_trans n m ms)

-- No number stands twice in the list.
abbrev distinct : List ℕ → Bool
distinct [] = true
distinct (n ∷ ns) = not (member n ns) && distinct ns

member-sort : (k : ℕ) (ns : List ℕ) → member k (sort ns) ≡ member k ns
unfolding sort
member-sort k [] = refl
member-sort k (n ∷ ns) = ground (arith, member-insert k n (sort ns), member-sort k ns)

sort-increasing : (ns : List ℕ) → distinct ns ≡ true → increasing (sort ns) ≡ true
unfolding sort
sort-increasing [] d = refl
sort-increasing (n ∷ ns) d =
    ground (arith, d, insert-increasing n (sort ns), member-sort n ns, sort-increasing ns)

member-snoc : (k n : ℕ) (ns : List ℕ) → member k (ns ++ n ∷ []) ≡ (member k ns || n == k)
member-snoc k n [] = ground arith
member-snoc k n (m ∷ ms) = ground (arith, member-snoc k n ms)

distinct-snoc :
    (n : ℕ) (ns : List ℕ)
    → member n ns ≡ false
    → distinct ns ≡ true
    → distinct (ns ++ n ∷ []) ≡ true
distinct-snoc n [] f d = refl
distinct-snoc n (m ∷ ms) f d = ground (arith, f, d, distinct-snoc n ms, member-snoc m n ms)

abbrev seen_and : ℕ → List ℕ → List ℕ
seen_and idx seen = if member idx seen then seen else seen ++ idx ∷ []

seen_and-distinct :
    (idx : ℕ) (seen : List ℕ) → distinct seen ≡ true → distinct (seen_and idx seen) ≡ true
seen_and-distinct idx seen d = ground (arith, d, distinct-snoc idx seen)

member-seen_and :
    (k idx : ℕ) (seen : List ℕ) → member k (seen_and idx seen) ≡ (member k seen || idx == k)
member-seen_and k idx seen = elim (Bool-cases (member idx seen)) [
  | inl old ↦ ground (arith, old)
  | inr new ↦ rw new (member-snoc k idx seen)
]

collect-distinct :
    (c : ℕ) (seen : List ℕ) (raw : List (Option ℤ))
    → distinct seen ≡ true
    → distinct (collect c seen raw) ≡ true
unfolding collect index_of
collect-distinct c seen [] d = d
collect-distinct c seen (none ∷ raw) d = collect-distinct c seen raw d
collect-distinct c seen (some (negsuc n) ∷ raw) d = collect-distinct c seen raw d
collect-distinct c seen (some (pos n) ∷ raw) d = elim (Bool-cases (ltb n c)) [
  | inl inside ↦
      ground (arith, inside, collect-distinct c (seen_and n seen) raw (seen_and-distinct n seen d))
  | inr outside ↦ ground (arith, outside, collect-distinct c seen raw d)
]

-- Whether an item is an index.
unfoldable pub is_index : ℕ → Option ℤ → Bool
is_index k none = false
is_index k (some (pos n)) = n == k
is_index k (some (negsuc n)) = false

member-collect :
    (c k : ℕ) (seen : List ℕ) (raw : List (Option ℤ))
    → member k (collect c seen raw)
      ≡ (member k seen || ltb k c && any (λ item. is_index k item) raw)
unfolding collect index_of is_index
member-collect c k seen [] = ground arith
member-collect c k seen (none ∷ raw) = member-collect c k seen raw
member-collect c k seen (some (negsuc n) ∷ raw) = member-collect c k seen raw
member-collect c k seen (some (pos n) ∷ raw) = elim (Bool-cases (ltb n c)) [
  | inl inside ↦
      ground (arith, inside, member-collect c k (seen_and n seen) raw, member-seen_and k n seen)
  | inr outside ↦ ground (arith, outside, member-collect c k seen raw)
]

-- The selected options stand in increasing order, each of them once, whatever the input.
pub coerce_selected_indices-increasing :
    (option_count : ℕ) (raw : List (Option ℤ))
    → increasing (coerce_selected_indices option_count raw) ≡ true
unfolding coerce_selected_indices
coerce_selected_indices-increasing zero raw = refl
coerce_selected_indices-increasing (suc c) raw =
    sort-increasing (collect (suc c) [] raw) (collect-distinct (suc c) [] raw refl)

-- The selected options are exactly the indices in the input that are below the number of options.
pub member-coerce_selected_indices :
    (option_count k : ℕ) (raw : List (Option ℤ))
    → member k (coerce_selected_indices option_count raw)
      ≡ (ltb k option_count && any (λ item. is_index k item) raw)
unfolding coerce_selected_indices
member-coerce_selected_indices zero k raw = ground arith
member-coerce_selected_indices (suc c) k raw =
    member-sort k (collect (suc c) [] raw) ∙ member-collect (suc c) k [] raw
