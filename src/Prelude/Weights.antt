-- ===== src/Prelude/Weights.antt =====
-- Sums of a weight over a list, and how they move when the first match of a test is replaced or
-- removed. Counting invariants of the concurrent components are such sums.
use Prim.Native.Nat.{ℕ, ◌+◌, ◌≤◌, ◌<◌}
use mathlib.Core.Path.{◌≡◌}
use mathlib.Core.Logic.{inl, inr}
use mathlib.Core.Bool.{Bool}
use mathlib.Core.Option.{Option, none, some}
use mathlib.Core.List.{List, [], ◌∷◌, ◌++◌}
use native.Mathlib.Omega.{arith}
use discord_os.Prelude.Tests.{if◌then◌else◌, ltb, Bool-cases}
use discord_os.Prelude.Lists.{length}

module _ {ℓ} {A : Type ℓ} where
  unfoldable pub total : (A → ℕ) → List A → ℕ
  total w [] = 0
  total w (x ∷ xs) = w x + total w xs

  unfoldable pub find_first : (A → Bool) → List A → Option A
  find_first p [] = none
  find_first p (x ∷ xs) = if p x then some x else find_first p xs

  unfoldable pub replace_first : (A → Bool) → A → List A → List A
  replace_first p y [] = []
  replace_first p y (x ∷ xs) = if p x then y ∷ xs else x ∷ replace_first p y xs

  unfoldable pub remove_first : (A → Bool) → List A → List A
  remove_first p [] = []
  remove_first p (x ∷ xs) = if p x then xs else x ∷ remove_first p xs

  pub total-append : (w : A → ℕ) (xs ys : List A) → total w (xs ++ ys) ≡ total w xs + total w ys
  unfolding total
  total-append w [] ys = omega arith
  total-append w (x ∷ xs) ys = omega (arith, total-append w xs ys)

  pub total-replace_first :
      (w : A → ℕ) (p : A → Bool) (x y : A) (xs : List A)
      → find_first p xs ≡ some x
      → total w (replace_first p y xs) + w x ≡ total w xs + w y
  unfolding total find_first replace_first
  total-replace_first w p x y [] h = ground arith
  total-replace_first w p x y (z ∷ xs) h = ground (arith, total-replace_first w p x y xs)

  pub total-remove_first :
      (w : A → ℕ) (p : A → Bool) (x : A) (xs : List A)
      → find_first p xs ≡ some x
      → total w (remove_first p xs) + w x ≡ total w xs
  unfolding total find_first remove_first
  total-remove_first w p x [] h = ground arith
  total-remove_first w p x (z ∷ xs) h = ground (arith, total-remove_first w p x xs)

  pub total-snoc : (w : A → ℕ) (xs : List A) (y : A) → total w (xs ++ y ∷ []) ≡ total w xs + w y
  unfolding total
  total-snoc w xs y = omega (arith, total-append w xs (y ∷ []))

  pub length-remove_first :
      (p : A → Bool) (x : A) (xs : List A)
      → find_first p xs ≡ some x
      → length (remove_first p xs) + 1 ≡ length xs
  unfolding find_first remove_first
  length-remove_first p x [] h = ground arith
  length-remove_first p x (z ∷ xs) h = ground (arith, length-remove_first p x xs)

  pub found-le-total :
      (w : A → ℕ) (p : A → Bool) (x : A) (xs : List A) → find_first p xs ≡ some x → w x ≤ total w xs
  unfolding find_first total
  found-le-total w p x [] h = ground arith
  found-le-total w p x (z ∷ xs) h = ground (arith, found-le-total w p x xs)

  -- A positive sum has a positive term.
  pub total_pos :
      (w : A → ℕ) (xs : List A)
      → 0 < total w xs
      → (x : A) × (find_first (λ y. ltb 0 (w y)) xs ≡ some x) × (0 < w x)
  unfolding find_first total
  total_pos w [] h = absurd (omega arith)
  total_pos w (z ∷ xs) h = elim (Bool-cases (ltb 0 (w z))) [
    | inl y ↦ (z, rw (y, find_first), ground arith)
    | inr n ↦
        let (x, found, above) = total_pos w xs (ground arith) in
        (x, rw (n, find_first) found, above)
  ]

  pub total_mono : (w u : A → ℕ) → ((x : A) → w x ≤ u x) → (xs : List A) → total w xs ≤ total u xs
  unfolding total
  total_mono w u le [] = omega arith
  total_mono w u le (x ∷ xs) = omega (arith, le x, total_mono w u le xs)
