-- ===== src/Operators/Calls.antt =====
-- persistence/sqlite.py: what the calls that change the allowlist come to for each person.
use discord_os.Prelude.{
  ℕ, ◌≡◌, refl, sym, subst, ◌⊎◌, inl, inr, Bool, true, false, ◌||◌, none, some, List, [], ◌∷◌, ◌++◌,
  arith, nat_eq, ◌==◌, if◌then◌else◌, eq_self, Option-cases, is_empty, member,
}
use discord_os.Text.{Text, txt, text_eq, text_beq_iff, strip, lower, split, replace_char}
use discord_os.Table.{row_of, row_of-upsert, row_of-key}
use discord_os.Text.Members.{member-append, member-select}
use discord_os.Operators.{
  Role, owner, operator, Operators, user_id_is_required, Result, value_error, ok, Environment,
  operator_key, operator_row, put_operator, add_with, role_of, add_operator, add_operator_role,
  remove_operator_role, is_listed, is_operator, seed_owner, add_roles, seed_owner_from_env,
  seed_owner_if_empty, author_may_dispatch,
}

-- Whether a person has a row.
abbrev pub has_row : Text → Operators → Bool
has_row user_id s = is_listed (row_of operator_key user_id s.people)

has_row-put_operator :
    (u : Text) (r : Role) (now : ℕ) (v : Text) (s : Operators)
    → has_row v (put_operator u r now s) ≡ (u == v || has_row v s)
unfolding put_operator operator_row is_listed
has_row-put_operator u r now v s = elim (Option-cases (row_of operator_key u s.people)) [
  | inl e ↦ ground (arith, e, row_of-upsert operator_key (operator_row u r now none) v s.people)
  | inr (row, e) ↦ ground (
    arith,
    e,
    row_of-key operator_key u row s.people e,
    row_of-upsert operator_key (operator_row u r now (some row)) v s.people,
  )
]

roles-put_operator :
    (u : Text) (r : Role) (now : ℕ) (s : Operators) → (put_operator u r now s).roles ≡ s.roles
unfolding put_operator
roles-put_operator u r now s = refl

abbrev pub IsKind : Text → Type 0
IsKind role = (lower (strip role) ≡ txt "owner") ⊎ (lower (strip role) ≡ txt "operator")

-- What an addition comes to: an error, for a missing id or an unknown role, or a table in which one
-- person more is an operator.
abbrev pub IsAdded : Text → Text → Operators → Result Operators → Type 0
IsAdded u role s (value_error why) = (is_empty (strip u) ≡ true) ⊎ (IsKind role → ⊥)
IsAdded u role s (ok t) =
    (v : Text) (role_ids : List Text)
    → is_operator v role_ids t ≡ (strip u == strip v || is_operator v role_ids s)

role_of-IsKind : (role : Text) → role_of (lower (strip role)) ≡ none → IsKind role → ⊥
unfolding role_of
role_of-IsKind role e (inl k) =
    ground (arith, e, (text_beq_iff (lower (strip role)) (txt "owner")).1, k)
role_of-IsKind role e (inr k) =
    ground (arith, e, text_beq_iff (lower (strip role)) (txt "operator"), k)

put_operator-is_operator :
    (u : Text) (r : Role) (now : ℕ) (s : Operators)
    → is_empty (strip u) ≡ false
    → (v : Text) (role_ids : List Text)
    → is_operator v role_ids (put_operator (strip u) r now s)
      ≡ (strip u == strip v || is_operator v role_ids s)
unfolding is_operator
put_operator-is_operator u r now s e v role_ids = ground (
  arith,
  e,
  has_row-put_operator (strip u) r now (strip v) s,
  roles-put_operator (strip u) r now s,
  text_beq_iff (strip u) (strip v),
)

add_with-IsAdded :
    (u role : Text) (now : ℕ) (s : Operators)
    → is_empty (strip u) ≡ false
    → IsAdded u role s (add_with (strip u) (role_of (lower (strip role))) now s)
unfolding add_with
add_with-IsAdded u role now s e = elim (Option-cases (role_of (lower (strip role)))) [
  | inl n ↦
      subst (λ k. IsAdded u role s (add_with (strip u) k now s)) (sym n)
        (inr (role_of-IsKind role n))
  | inr (r, n) ↦
      subst (λ k. IsAdded u role s (add_with (strip u) k now s)) (sym n)
        (put_operator-is_operator u r now s e)
]

-- An addition fails only for a missing id or an unknown role. Otherwise it makes the person an
-- operator, and changes nobody else's standing.
pub add_operator-IsAdded :
    (u role : Text) (now : ℕ) (s : Operators) → IsAdded u role s (add_operator u role now s)
unfolding add_operator
add_operator-IsAdded u role now s = go (is_empty (strip u)) refl
  where
    go :
        (b : Bool)
        → is_empty (strip u) ≡ b
        → IsAdded u role s (
            if b
            then value_error user_id_is_required
            else add_with (strip u) (role_of (lower (strip role))) now s)
    go true e = inl e
    go false e = add_with-IsAdded u role now s e

added_role :
    (role_id : Text) (s t : Operators)
    → add_operator_role role_id s ≡ ok t
    → (t.people ≡ s.people) × (member (strip role_id) t.roles ≡ true)
unfolding add_operator_role
added_role role_id s t e =
    ground (
      arith,
      e,
      member-append (strip role_id) s.roles (strip role_id ∷ []),
      eq_self (strip role_id),
    )

removed_role :
    (role_id : Text) (s : Operators)
    → member (strip role_id) (remove_operator_role role_id s).1.roles ≡ false
unfolding remove_operator_role
removed_role role_id s =
    ground (arith, member-select (strip role_id) (strip role_id) s.roles, eq_self (strip role_id))

people-remove_operator_role :
    (role_id : Text) (s : Operators) → (remove_operator_role role_id s).1.people ≡ s.people
unfolding remove_operator_role
people-remove_operator_role role_id s = refl

-- A role that was added lets its holders in, and no longer does so once it is removed.
pub remove-add_operator_role :
    (role_id v : Text) (s t : Operators)
    → add_operator_role role_id s ≡ ok t
    → (is_operator v (role_id ∷ []) t ≡ true)
      × (is_operator v (role_id ∷ []) (remove_operator_role role_id t).1 ≡ is_operator v [] s)
unfolding is_operator
remove-add_operator_role role_id v s t e =
    let (people, held) = added_role role_id s t e in
    (
      ground (arith, held),
      ground (arith, removed_role role_id t, people-remove_operator_role role_id t, people),
    )

-- A call of the store or the service that may change the tables.
pub data Call : Type 0 where
  adding : Text → Text → ℕ → Call
  adding_role removing_role : Text → Call
  seeding : Text → Bool → Environment → ℕ → Call
  booting : Environment → ℕ → Call
  dispatching : Text → List Text → Environment → ℕ → Call

-- The tables after a call: an error leaves them as they are.
unfoldable pub after_result : Operators → Result Operators → Operators
after_result s (value_error why) = s
after_result s (ok t) = t

unfoldable pub perform : Call → Operators → Operators
unfolding add_operator add_operator_role remove_operator_role seed_owner_if_empty
    seed_owner_from_env author_may_dispatch after_result
perform (adding u role now) s = after_result s (add_operator u role now s)
perform (adding_role r) s = after_result s (add_operator_role r s)
perform (removing_role r) s = (remove_operator_role r s).1
perform (seeding u intentional env now) s = (seed_owner_if_empty u intentional env now s).1
perform (booting env now) s = seed_owner_from_env env now s
perform (dispatching u role_ids env now) s = (author_may_dispatch u role_ids env now s).1

unfoldable pub perform_all : List Call → Operators → Operators
unfolding perform
perform_all [] s = s
perform_all (c ∷ calls) s = perform_all calls (perform c s)

-- Somebody who is on the list.
abbrev pub IsListed : Text → Operators → Type 0
IsListed v s = has_row v s ≡ true

put_operator-IsListed :
    (u : Text) (r : Role) (now : ℕ) (v : Text) (s : Operators)
    → IsListed v s
    → IsListed v (put_operator u r now s)
put_operator-IsListed u r now v s h = ground (arith, has_row-put_operator u r now v s, h)

add_operator-IsListed :
    (u role : Text) (now : ℕ) (v : Text) (s : Operators)
    → IsListed v s
    → IsListed v (after_result s (add_operator u role now s))
unfolding add_operator add_with role_of after_result
add_operator-IsListed u role now v s h = ground (
  arith,
  h,
  put_operator-IsListed (strip u) owner now v s h,
  put_operator-IsListed (strip u) operator now v s h,
)

add_operator_role-people :
    (r : Text) (s : Operators) → (after_result s (add_operator_role r s)).people ≡ s.people
unfolding add_operator_role after_result
add_operator_role-people r s = ground arith

add_roles-people : (rs : List Text) (s : Operators) → (add_roles rs s).people ≡ s.people
unfolding add_roles add_operator_role
add_roles-people [] s = refl
add_roles-people (r ∷ rs) s = ground (
  arith,
  add_roles-people rs s,
  add_roles-people rs (record { people = s.people; roles = s.roles ++ strip r ∷ [] }),
)

seed_owner-IsListed :
    (u : Text) (now : ℕ) (v : Text) (s : Operators)
    → IsListed v s
    → IsListed v (seed_owner u now s).1
unfolding seed_owner
seed_owner-IsListed u now v s h = ground (arith, h, put_operator-IsListed (strip u) owner now v s h)

perform-IsListed : (c : Call) (v : Text) (s : Operators) → IsListed v s → IsListed v (perform c s)
unfolding perform seed_owner_if_empty seed_owner_from_env author_may_dispatch
perform-IsListed (adding u role now) v s h = add_operator-IsListed u role now v s h
perform-IsListed (adding_role r) v s h = rw (add_operator_role-people r s, h)
perform-IsListed (removing_role r) v s h = rw (people-remove_operator_role r s, h)
perform-IsListed (seeding u intentional env now) v s h =
    ground (arith, h, seed_owner-IsListed u now v s h)
perform-IsListed (booting env now) v s h = rw (
  add_roles-people (split (replace_char b',' b' ' env.operator_role_ids))
      (seed_owner env.owner_id now s).1,
  seed_owner-IsListed env.owner_id now v s h,
)
perform-IsListed (dispatching u role_ids env now) v s h =
    ground (arith, h, seed_owner-IsListed (strip u) now v s h)

perform_all-IsListed :
    (calls : List Call) (v : Text) (s : Operators) → IsListed v s → IsListed v (perform_all calls s)
unfolding perform_all
perform_all-IsListed [] v s h = h
perform_all-IsListed (c ∷ calls) v s h =
    perform_all-IsListed calls v (perform c s) (perform-IsListed c v s h)

added :
    (u role : Text) (now : ℕ) (s t : Operators)
    → add_operator u role now s ≡ ok t
    → (is_empty (strip u) ≡ false) × IsListed (strip u) t
unfolding is_operator
added u role now s t e =
    let known : is_operator u [] t ≡ (strip u == strip u || is_operator u [] s) =
      subst (IsAdded u role s) e (add_operator-IsAdded u role now s) u [] in
    ground (arith, known, eq_self (strip u))

-- Who was put on the list stays an operator through all later calls, of anybody.
pub perform_all-is_operator :
    (u role : Text) (now : ℕ) (s t : Operators) (calls : List Call)
    → add_operator u role now s ≡ ok t
    → is_operator u [] (perform_all calls t) ≡ true
unfolding is_operator
perform_all-is_operator u role now s t calls e =
    let (n, l) = added u role now s t e in
    ground (arith, n, perform_all-IsListed calls (strip u) t l)
