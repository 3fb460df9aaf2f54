-- ===== src/Operators/Gatekeeping.antt =====
-- orchestration/service.py: who is let in while nobody, or one person, is on the allowlist.
use discord_os.Prelude.{
  ℕ, ◌≡◌, refl, sym, ap, subst, ◌⊎◌, inl, inr, Bool, true, false, List, [], ◌∷◌, arith, nat_eq, All,
  any, member, Option, none, some,
}
use discord_os.Text.{Text, text_eq, text_beq_iff, strip}
use discord_os.Text.Strip.{strip-strip}
use discord_os.Table.{row_of, upsert}
use discord_os.Operators.{
  owner, Operator, Operators, Environment, operator_row, put_operator, is_listed, is_operator,
  seed_owner, author_is_operator, operators_configured, seed_owner_if_empty, author_may_dispatch,
}

-- Somebody who asks for a job.
pub record Attempt : Type 0 where
  pub user_id : Text
  pub role_ids : List Text
  pub env : Environment
  pub now : ℕ

unfoldable pub dispatch : Attempt → Operators → Bool × Operators
unfolding author_may_dispatch
dispatch a s = author_may_dispatch a.user_id a.role_ids a.env a.now s

-- The answers to attempts in turn, and the tables after them.
unfoldable pub dispatch_all : List Attempt → Operators → List (Attempt × Bool) × Operators
unfolding dispatch
dispatch_all [] s = ([], s)
dispatch_all (a ∷ attempts) s =
    let rest = dispatch_all attempts (dispatch a s).1 in ((a, (dispatch a s).0) ∷ rest.0, rest.1)

abbrev pub holds_role : List Text → List Text → Bool
holds_role roles role_ids = any (λ role_id. member (strip role_id) roles) role_ids

-- Whoever is let in is the person o or holds one of the roles.
abbrev pub IsLetIn : Text → List Text → Attempt × Bool → Type 0
IsLetIn o roles (a, allowed) =
    allowed ≡ true → (strip a.user_id ≡ o) ⊎ (holds_role roles a.role_ids ≡ true)

one_listed :
    (row : Operator) (roles : List Text) (a : Attempt)
    → (dispatch a (record { people = row ∷ []; roles = roles })).1
      ≡ record { people = row ∷ []; roles = roles }
unfolding dispatch author_may_dispatch operators_configured
one_listed row roles a = ground arith

first_row_admits :
    (row : Operator) (roles : List Text) (a : Attempt)
    → IsLetIn row.user_id roles (a, (dispatch a (record { people = row ∷ []; roles = roles })).0)
unfolding dispatch author_may_dispatch operators_configured author_is_operator is_operator is_listed
    row_of
first_row_admits row roles a h =
    ground (arith, h, strip-strip a.user_id, text_beq_iff row.user_id (strip a.user_id))

none_listed :
    (roles : List Text) (a : Attempt)
    → ((dispatch a (record { people = []; roles = roles }))
        ≡ (false, record { people = []; roles = roles }))
      ⊎ (dispatch a (record { people = []; roles = roles }) ≡ (
        true,
        record {
          people = record { user_id = strip a.user_id; role = owner; created_ms = a.now } ∷ [];
          roles = roles;
        },
      ))
unfolding dispatch author_may_dispatch operators_configured seed_owner_if_empty seed_owner
    put_operator operator_row row_of upsert
none_listed roles a = ground (arith, strip-strip a.user_id)

-- The first who was let in.
unfoldable pub first_in : List (Attempt × Bool) → Option Text
first_in [] = none
first_in ((a, true) ∷ answers) = some (strip a.user_id)
first_in ((a, false) ∷ answers) = first_in answers

-- Nobody is listed if nobody was let in, and else the person o alone, who is the owner and was let
-- in first.
abbrev pub IsOwned : Text → Option Text → List Operator → Type 0
IsOwned o none people = people ≡ []
IsOwned o (some u) people =
    (u ≡ o) × ((row : Operator) × (people ≡ row ∷ []) × (row.user_id ≡ o) × (row.role ≡ owner))

-- What is said of the answers to attempts, and of the tables after them.
abbrev pub IsGuarded : Text → List Text → List (Attempt × Bool) × Operators → Type 0
IsGuarded o roles (answers, s) =
    All (IsLetIn o roles) answers × IsOwned o (first_in answers) s.people × (s.roles ≡ roles)

-- What is said of them once a row is listed.
abbrev IsKept : Operator → List Text → List (Attempt × Bool) × Operators → Type 0
IsKept row roles (answers, s) =
    All (IsLetIn row.user_id roles) answers × (s.people ≡ row ∷ []) × (s.roles ≡ roles)

-- An attempt with its answer, before others.
dispatch_all-first :
    (Q : List (Attempt × Bool) × Operators → Type 0) (a : Attempt) (attempts : List Attempt)
    (s : Operators) (answer : Bool × Operators)
    → dispatch a s ≡ answer
    → (let rest = dispatch_all attempts answer.1 in Q ((a, answer.0) ∷ rest.0, rest.1))
    → Q (dispatch_all (a ∷ attempts) s)
unfolding dispatch_all
dispatch_all-first Q a attempts s answer e h =
    subst (λ p. Q ((a, p.0) ∷ (dispatch_all attempts p.1).0, (dispatch_all attempts p.1).1)) (sym e)
      h

one_listed-IsKept :
    (row : Operator) (roles : List Text) (attempts : List Attempt)
    → IsKept row roles (dispatch_all attempts (record { people = row ∷ []; roles = roles }))
unfolding dispatch_all
one_listed-IsKept row roles [] = (tt, refl, refl)
one_listed-IsKept row roles (a ∷ attempts) =
    let s : Operators = record { people = row ∷ []; roles = roles } in
    let rest = one_listed-IsKept row roles attempts in
    dispatch_all-first (IsKept row roles) a attempts s ((dispatch a s).0, s)
      (ap (λ t. ((dispatch a s).0, t)) (one_listed row roles a))
      ((first_row_admits row roles a, rest.0), rest.1, rest.2)

-- Nobody is listed at first. Then the first who is let in is listed as the owner, and stays the only
-- one who is listed; whoever is let in is that person or holds an operator role. While nobody is let
-- in, nobody is listed.
pub dispatch_all-first_come :
    (roles : List Text) (attempts : List Attempt)
    → (o : Text) × IsGuarded o roles (dispatch_all attempts (record { people = []; roles = roles }))
unfolding dispatch_all first_in
dispatch_all-first_come roles [] = ([], (tt, refl, refl))
dispatch_all-first_come roles (a ∷ attempts) = elim (none_listed roles a) [
  | inl e ↦
      let rest = dispatch_all-first_come roles attempts in
      (
        rest.0,
        dispatch_all-first (IsGuarded rest.0 roles) a attempts _ _ e
            (((λ h. cc h), rest.1.0), rest.1.1, rest.1.2),
      )
  | inr e ↦
      let row : Operator = record { user_id = strip a.user_id; role = owner; created_ms = a.now } in
      let rest = one_listed-IsKept row roles attempts in
      (
        strip a.user_id,
        dispatch_all-first (IsGuarded (strip a.user_id) roles) a attempts _ _ e
            (((λ h. inl refl), rest.0), (refl, (row, rest.1, refl, refl)), rest.2),
      )
]
