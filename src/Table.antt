-- ===== src/Table.antt =====
-- A table of the SQLite store: its rows in the order of insertion, under a primary key.
use discord_os.Prelude.{
  ℕ, ◌+◌, ◌≤◌, max, ◌≡◌, refl, Option, none, some, List, [], ◌∷◌, arith, nat_eq, ◌==◌,
  if◌then◌else◌, TestsEquality,
}
use discord_os.Text.{text_eq}

module _ {K Row : Type 0} ⦃e : TestsEquality K⦄ (key : Row → K) where
  -- SELECT * FROM table WHERE key=?
  unfoldable pub row_of : K → List Row → Option Row
  row_of k [] = none
  row_of k (r ∷ rows) = if key r == k then some r else row_of k rows

  -- INSERT … ON CONFLICT(key) DO UPDATE, of a whole row
  unfoldable pub upsert : Row → List Row → List Row
  upsert new [] = new ∷ []
  upsert new (r ∷ rows) = if key r == key new then new ∷ rows else r ∷ upsert new rows

  -- DELETE FROM table WHERE key=?
  unfoldable pub delete : K → List Row → List Row
  delete k [] = []
  delete k (r ∷ rows) = let rest = delete k rows in if key r == k then rest else r ∷ rest

  -- How many rows have a key.
  unfoldable pub rows_with : K → List Row → ℕ
  rows_with k [] = 0
  rows_with k (r ∷ rows) = (if key r == k then 1 else 0) + rows_with k rows

  -- PRIMARY KEY
  abbrev pub HasUniqueKeys : List Row → Type 0
  HasUniqueKeys rows = (k : K) → rows_with k rows ≤ 1

  pub row_of-upsert :
      (new : Row) (k : K) (rows : List Row)
      → row_of k (upsert new rows) ≡ (if key new == k then some new else row_of k rows)
  unfolding row_of upsert
  row_of-upsert new k [] = refl
  row_of-upsert new k (r ∷ rows) = ground (
    arith,
    e.same_iff (key r) (key new),
    e.same_iff (key r) k,
    e.same_iff (key new) k,
    row_of-upsert new k rows,
  )

  pub row_of-delete :
      (k j : K) (rows : List Row)
      → row_of j (delete k rows) ≡ (if k == j then none else row_of j rows)
  unfolding row_of delete
  row_of-delete k j [] = ground arith
  row_of-delete k j (r ∷ rows) =
      ground
        (arith, e.same_iff (key r) k, e.same_iff (key r) j, e.same_iff k j, row_of-delete k j rows)

  pub rows_with-upsert :
      (new : Row) (k : K) (rows : List Row)
      → rows_with k (upsert new rows)
        ≡ (if key new == k then max 1 (rows_with k rows) else rows_with k rows)
  unfolding rows_with upsert
  rows_with-upsert new k [] = ground arith
  rows_with-upsert new k (r ∷ rows) = ground (
    arith,
    e.same_iff (key r) (key new),
    e.same_iff (key r) k,
    e.same_iff (key new) k,
    rows_with-upsert new k rows,
  )

  pub rows_with-delete :
      (j k : K) (rows : List Row)
      → rows_with k (delete j rows) ≡ (if j == k then 0 else rows_with k rows)
  unfolding rows_with delete
  rows_with-delete j k [] = ground arith
  rows_with-delete j k (r ∷ rows) =
      ground (
        arith,
        e.same_iff (key r) j,
        e.same_iff (key r) k,
        e.same_iff j k,
        rows_with-delete j k rows,
      )

  -- `upsert` and `delete` keep the primary key.
  pub upsert-HasUniqueKeys :
      (new : Row) (rows : List Row) → HasUniqueKeys rows → HasUniqueKeys (upsert new rows)
  upsert-HasUniqueKeys new rows u k = ground (arith, u k, rows_with-upsert new k rows)

  pub delete-HasUniqueKeys :
      (j : K) (rows : List Row) → HasUniqueKeys rows → HasUniqueKeys (delete j rows)
  delete-HasUniqueKeys j rows u k = ground (arith, u k, rows_with-delete j k rows)

  -- The key of a row that is found.
  pub row_of-key : (k : K) (r : Row) (rows : List Row) → row_of k rows ≡ some r → key r ≡ k
  unfolding row_of
  row_of-key k r [] h = cc
  row_of-key k r (x ∷ rows) h = ground (arith, e.same_iff (key x) k, row_of-key k r rows)
