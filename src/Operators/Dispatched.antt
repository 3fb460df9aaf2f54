-- ===== src/Operators/Dispatched.antt =====
-- orchestration/service.py: whoever may dispatch is an operator from then on.
use discord_os.Prelude.{
  ℕ, ◌≡◌, refl, sym, ap, ◌⊎◌, inl, inr, Bool, true, false, not, ◌&&◌, ◌||◌, List, [], ◌∷◌, arith,
  nat_eq, if◌then◌else◌, eq_self, is_empty, any, member,
}
use discord_os.Text.{Text, text_eq, strip}
use discord_os.Operators.{
  Operators, Environment, author_may_dispatch, seed_owner_if_empty, operator_row, put_operator,
  is_listed, is_operator, seed_owner, require_operators, author_is_operator, operator_key,
  operators_configured, Operator,
}
use discord_os.Text.Strip.{strip-strip}
use discord_os.Table.{row_of, upsert}

seeded-operator :
    (u : Text) (roles held : List Text) (now : ℕ)
    → is_empty (strip u) ≡ false
    → author_is_operator u roles (seed_owner (strip u) now (record { people = []; roles = held })).1
      ≡ true
unfolding seed_owner put_operator operator_row row_of upsert author_is_operator is_operator
    is_listed
seeded-operator u roles held now n = ground (arith, n, strip-strip u, eq_self (strip u))

operator-strip :
    (u : Text) (roles : List Text) (s : Operators)
    → author_is_operator (strip u) roles s ≡ author_is_operator u roles s
unfolding author_is_operator is_operator
operator-strip u roles s =
    ap
      (λ t.
        if is_empty t
        then false
        else not (is_empty (strip t)) && is_listed (row_of operator_key (strip t) s.people)
          || any (λ role_id. member (strip role_id) s.roles) roles)
      (strip-strip u)

-- An answer that was given to somebody.
abbrev pub IsFair : Text → List Text → Bool × Operators → Type 0
IsFair u roles (allowed, s) = (allowed ≡ false) ⊎ (author_is_operator u roles s ≡ true)

IsFair-if :
    (u : Text) (roles : List Text) (test : Bool) (x y : Bool × Operators)
    → IsFair u roles x
    → (test ≡ false → IsFair u roles y)
    → IsFair u roles (if test then x else y)
IsFair-if u roles true x y p q = p
IsFair-if u roles false x y p q = q refl

IsFair-same :
    (u : Text) (roles : List Text) (b : Bool) (s : Operators)
    → author_is_operator u roles s ≡ b
    → IsFair u roles (b, s)
IsFair-same u roles false s e = inl refl
IsFair-same u roles true s e = inr e

-- Whoever may dispatch is an operator from then on.
pub author_may_dispatch-IsFair :
    (u : Text) (roles : List Text) (env : Environment) (now : ℕ) (people : List Operator)
    (held : List Text)
    → IsFair u roles
        (author_may_dispatch u roles env now (record { people = people; roles = held }))
unfolding author_may_dispatch operators_configured seed_owner_if_empty
author_may_dispatch-IsFair u roles env now [] held =
    IsFair-if u roles (is_empty (strip u)) _ _ (inl refl) λ named.
      IsFair-if u roles (require_operators env) (false, record { people = []; roles = held }) _
        (inl refl)
        λ open_now.
          IsFair-if u roles (require_operators env && not false)
            (false, record { people = []; roles = held }) _ (inl refl)
            λ also_open. inr (seeded-operator u roles held now named)
author_may_dispatch-IsFair u roles env now (row ∷ people) held =
    IsFair-if u roles (is_empty (strip u)) _ _ (inl refl) λ named.
      IsFair-same u roles _ (record { people = row ∷ people; roles = held })
        (sym (operator-strip u roles (record { people = row ∷ people; roles = held })))
