-- ===== src/Operators.antt =====
-- The allowlist of people who may put the host to work: the tables `operators` and
-- `operator_roles` of persistence/sqlite.py, and the questions that orchestration/service.py asks
-- of them.
pub mod Gatekeeping
pub mod Calls
pub mod Dispatched
mod Tests
use discord_os.Prelude.{
  ℕ, Bool, true, false, not, ◌&&◌, ◌||◌, Option, none, some, List, [], ◌∷◌, ◌++◌, nat_eq, ◌==◌,
  if◌then◌else◌, is_empty, any, select, member,
}
use discord_os.Text.{Text, txt, text_eq, strip, lower, split, replace_char}
use discord_os.Table.{row_of, upsert}

pub data Role : Type 0 where
  owner operator : Role

-- A row of `operators`.
pub record Operator : Type 0 where
  pub user_id : Text
  pub role : Role
  pub created_ms : ℕ

-- The two tables; of `operator_roles` the ids are kept.
pub record Operators : Type 0 where
  pub people : List Operator
  pub roles : List Text

-- What ValueError says.
pub data OperatorError : Type 0 where
  user_id_is_required unknown_role role_id_is_required : OperatorError

pub data Result (A : Type 0) : Type 0 where
  value_error : OperatorError → Result A
  ok : A → Result A

-- The values of the environment that are read, each empty where it is not set.
pub record Environment : Type 0 where
  pub require_operators_flag : Text
  pub require_allowlist_flag : Text
  pub interactions_flag : Text
  pub owner_id : Text
  pub operator_role_ids : Text

abbrev pub operator_key : Operator → Text
operator_key row = row.user_id

unfoldable pub role_of : Text → Option Role
role_of kind =
    if kind == txt "owner"
    then some owner
    else if kind == txt "operator"
    then some operator
    else none

-- INSERT INTO operators … ON CONFLICT(user_id) DO UPDATE SET role=excluded.role
unfoldable pub operator_row : Text → Role → ℕ → Option Operator → Operator
operator_row user_id role now none = record { user_id = user_id; role = role; created_ms = now }
operator_row user_id role now (some row) = record row { role = role }

unfoldable pub put_operator : Text → Role → ℕ → Operators → Operators
unfolding upsert operator_row row_of
put_operator user_id role now s = record s {
  people =
      upsert operator_key (operator_row user_id role now (row_of operator_key user_id s.people))
        s.people;
}

unfoldable pub add_with : Text → Option Role → ℕ → Operators → Result Operators
unfolding put_operator
add_with user_id none now s = value_error unknown_role
add_with user_id (some role) now s = ok (put_operator user_id role now s)

-- add_operator
unfoldable pub add_operator : Text → Text → ℕ → Operators → Result Operators
unfolding add_with role_of strip lower
add_operator user_id role now s =
    if is_empty (strip user_id)
    then value_error user_id_is_required
    else add_with (strip user_id) (role_of (lower (strip role))) now s

-- add_operator_role
unfoldable pub add_operator_role : Text → Operators → Result Operators
unfolding strip
add_operator_role role_id s =
    if is_empty (strip role_id)
    then value_error role_id_is_required
    else if member (strip role_id) s.roles
    then ok s
    else ok (record s { roles = s.roles ++ strip role_id ∷ [] })

-- remove_operator_role, with whether there was such a row
unfoldable pub remove_operator_role : Text → Operators → Bool × Operators
unfolding strip
remove_operator_role role_id s = (
  member (strip role_id) s.roles,
  record s { roles = select (λ r. not (r == strip role_id)) s.roles },
)

unfoldable pub is_listed : Option Operator → Bool
is_listed none = false
is_listed (some row) = true

-- is_operator
unfoldable pub is_operator : Text → List Text → Operators → Bool
unfolding strip is_listed row_of
is_operator user_id role_ids s =
    not (is_empty (strip user_id)) && is_listed (row_of operator_key (strip user_id) s.people)
    || any (λ role_id. member (strip role_id) s.roles) role_ids

-- The store's seed_owner_if_empty, with whether the owner was seeded.
unfoldable pub seed_owner : Text → ℕ → Operators → Bool × Operators
unfolding put_operator strip
seed_owner user_id now s =
    if is_empty (strip user_id)
    then (false, s)
    else if not (is_empty s.people)
    then (false, s)
    else (true, put_operator (strip user_id) owner now s)

-- The roles of DISCORD_OPERATOR_ROLE_IDS, one after another.
unfoldable pub add_roles : List Text → Operators → Operators
unfolding add_operator_role
add_roles [] s = s
add_roles (role_id ∷ role_ids) s = elim (add_operator_role role_id s) [
  | value_error why ↦ add_roles role_ids s
  | ok t ↦ add_roles role_ids t
]

-- seed_owner_from_env
unfoldable pub seed_owner_from_env : Environment → ℕ → Operators → Operators
unfolding seed_owner add_roles replace_char split
seed_owner_from_env env now s =
    add_roles (split (replace_char b',' b' ' env.operator_role_ids))
      (seed_owner env.owner_id now s).1

abbrev pub public_words : List Text
public_words =
    txt "http"
    ∷ txt "https"
    ∷ txt "public"
    ∷ txt "on"
    ∷ txt "1"
    ∷ txt "true"
    ∷ txt "yes"
    ∷ txt "gateway"
    ∷ txt "gw"
    ∷ []

-- _truthy
unfoldable pub truthy : Text → Bool
unfolding strip lower
truthy raw =
    member (lower (strip raw)) (txt "1" ∷ txt "true" ∷ txt "yes" ∷ txt "on" ∷ txt "halted" ∷ [])

-- interactions_public
unfoldable pub interactions_public : Environment → Bool
unfolding strip lower
interactions_public env = member (lower (strip env.interactions_flag)) public_words

-- require_operators
unfoldable pub require_operators : Environment → Bool
unfolding truthy interactions_public
require_operators env =
    truthy env.require_operators_flag
    || truthy env.require_allowlist_flag
    || interactions_public env

-- author_is_operator
unfoldable pub author_is_operator : Text → List Text → Operators → Bool
unfolding is_operator strip
author_is_operator user_id role_ids s =
    if is_empty (strip user_id) then false else is_operator (strip user_id) role_ids s

-- operators_configured
unfoldable pub operators_configured : Operators → Bool
operators_configured s = not (is_empty s.people)

-- seed_owner_if_empty of the service
unfoldable pub seed_owner_if_empty : Text → Bool → Environment → ℕ → Operators → Bool × Operators
unfolding seed_owner require_operators
seed_owner_if_empty user_id intentional env now s =
    if require_operators env && not intentional then (false, s) else seed_owner user_id now s

-- author_may_dispatch
unfoldable pub author_may_dispatch :
    Text → List Text → Environment → ℕ → Operators → Bool × Operators
unfolding strip operators_configured require_operators seed_owner_if_empty author_is_operator
author_may_dispatch user_id role_ids env now s =
    if is_empty (strip user_id)
    then (false, s)
    else if not (operators_configured s)
    then (if require_operators env
        then (false, s)
        else seed_owner_if_empty (strip user_id) false env now s)
    else (author_is_operator (strip user_id) role_ids s, s)

-- author_may_operate
unfoldable pub author_may_operate : Text → List Text → Environment → Operators → Bool
unfolding strip operators_configured require_operators author_is_operator
author_may_operate user_id role_ids env s =
    if not (operators_configured s)
    then not (require_operators env)
    else if is_empty (strip user_id)
    then false
    else author_is_operator (strip user_id) role_ids s
