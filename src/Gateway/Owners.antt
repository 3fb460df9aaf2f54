-- ===== src/Gateway/Owners.antt =====
-- discord/gateway.py and the ownership rows of persistence/sqlite.py: one Gateway owner for each bot
-- token, in memory and in SQLite. Whether a process has gone, which the code asks of the operating
-- system, is an argument.
pub mod Exclusive
mod Tests
use discord_os.Prelude.{
  ℕ, zero, suc, Bool, false, not, ◌&&◌, Option, none, some, List, [], ◌∷◌, nat_eq, ◌==◌,
  if◌then◌else◌, length, drop, is_empty,
}
use discord_os.Text.{Text, txt, text_eq, starts_with}
use discord_os.Text.Number.{ℤ, pos, negsuc, int_of}
use discord_os.Table.{row_of, upsert, delete}

-- A row of `gateway_owners`, and an entry of `_owners`.
pub record Owner : Type 0 where
  pub token : Text
  pub owner_id : Text

-- The cases of `GatewayOwnershipError`.
pub data OwnershipError : Type 0 where
  token_required owner_required : OwnershipError
  already_owned : Text → OwnershipError
  not_the_owner : Text → OwnershipError

abbrev pub token_of : Owner → Text
token_of o = o.token

-- current_owner, gateway_owner
unfoldable pub owner_of : Text → List Owner → Option Owner
unfolding row_of
owner_of token owners = row_of token_of token owners

-- `None`, or the error that is raised, and the owners afterwards.
abbrev pub Outcome : Type 0
Outcome = Option OwnershipError × List Owner

abbrev pub owned : Text → Text → Owner
owned token owner_id = record { token = token; owner_id = owner_id }

abbrev pub write_owner : Text → Text → List Owner → List Owner
write_owner token owner_id owners = upsert token_of (owned token owner_id) owners

-- What either registry does once it has read the current owner; `dead` says that the current
-- owner's process has gone.
unfoldable pub claim_over : (Text → Bool) → Text → Text → Option Owner → List Owner → Outcome
unfolding upsert
claim_over dead token owner_id none owners = (none, write_owner token owner_id owners)
claim_over dead token owner_id (some current) owners =
    if not (current.owner_id == owner_id) && not (dead current.owner_id)
    then (some (already_owned current.owner_id), owners)
    else (none, write_owner token owner_id owners)

unfoldable pub claim_checked : (Text → Bool) → Text → Text → List Owner → Outcome
unfolding claim_over owner_of
claim_checked dead token owner_id owners =
    if is_empty token
    then (some token_required, owners)
    else if is_empty owner_id
    then (some owner_required, owners)
    else claim_over dead token owner_id (owner_of token owners) owners

unfoldable pub release_over : Text → Text → Option Owner → List Owner → Outcome
unfolding delete
release_over token owner_id none owners = (none, owners)
release_over token owner_id (some current) owners =
    if not (current.owner_id == owner_id)
    then (some (not_the_owner current.owner_id), owners)
    else (none, delete token_of token owners)

-- InMemoryGatewayOwnerRegistry.claim: a current owner is never taken for dead
unfoldable pub claim : Text → Text → List Owner → Outcome
unfolding claim_checked
claim token owner_id owners = claim_checked (λ o. false) token owner_id owners

-- InMemoryGatewayOwnerRegistry.release, SQLiteStore.release_gateway
unfoldable pub release : Text → Text → List Owner → Outcome
unfolding release_over owner_of
release token owner_id owners = release_over token owner_id (owner_of token owners) owners

abbrev pub cli_owner_prefix : Text
cli_owner_prefix = txt "discord-os-cli-"

abbrev pub legacy_cli_owner_prefix : Text
legacy_cli_owner_prefix = txt "agent-discord-cli-"

-- What stands in front of the first `-`, if there is one.
unfoldable pub before_dash : Text → Option Text
before_dash [] = none
before_dash (c ∷ s) =
    let rest = before_dash s in
    if c == b'-' then some [] else elim rest [ none ↦ none | some t ↦ some (c ∷ t) ]

-- The end of `_cli_owner_is_dead`; `gone pid` says that `os.kill(pid, 0)` raises `OSError`.
unfoldable pub pid_is_dead : (ℕ → Bool) → Option ℤ → Bool
pid_is_dead gone none = false
pid_is_dead gone (some (negsuc n)) = false
pid_is_dead gone (some (pos zero)) = false
pid_is_dead gone (some (pos (suc n))) = gone (suc n)

unfoldable pub pid_of : Option Text → Option ℤ
unfolding int_of
pid_of none = none
pid_of (some text) = int_of text

unfoldable pub cli_owner_is_dead : (ℕ → Bool) → Text → Bool
unfolding starts_with before_dash pid_is_dead pid_of
cli_owner_is_dead gone owner_id =
    if starts_with cli_owner_prefix owner_id
    then pid_is_dead gone (pid_of (before_dash (drop (length cli_owner_prefix) owner_id)))
    else if starts_with legacy_cli_owner_prefix owner_id
    then pid_is_dead gone (pid_of (before_dash (drop (length legacy_cli_owner_prefix) owner_id)))
    else false

-- SQLiteStore.claim_gateway
unfoldable pub claim_gateway : (ℕ → Bool) → Text → Text → List Owner → Outcome
unfolding claim_checked
claim_gateway gone token owner_id owners =
    claim_checked (cli_owner_is_dead gone) token owner_id owners

-- A call by one process, with the processes that have gone by then.
pub data Call : Type 0 where
  claiming : (ℕ → Bool) → Text → Text → Call
  releasing : Text → Text → Call

abbrev pub caller : Call → Text
caller (claiming gone token owner_id) = owner_id
caller (releasing token owner_id) = owner_id

abbrev pub gone_at : Call → ℕ → Bool
gone_at (claiming gone token owner_id) = gone
gone_at (releasing token owner_id) = λ pid. false

unfoldable pub perform : Call → List Owner → Outcome
unfolding claim_gateway release
perform (claiming gone token owner_id) owners = claim_gateway gone token owner_id owners
perform (releasing token owner_id) owners = release token owner_id owners

unfoldable pub perform_all : List Call → List Owner → List Owner
unfolding perform
perform_all [] owners = owners
perform_all (c ∷ calls) owners = perform_all calls (perform c owners).1
