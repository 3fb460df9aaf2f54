-- ===== src/Gateway/Owners/Exclusive.antt =====
-- discord/gateway.py and persistence/sqlite.py: who owns a token keeps it.
use discord_os.Prelude.{
  ℕ, ◌≡◌, ◌≢◌, inl, inr, Bool, true, false, none, some, List, [], ◌∷◌, arith, nat_eq, ◌==◌,
  if◌then◌else◌, eq_self, Option-cases, All,
}
use discord_os.Text.{Text, text_eq, text_beq_iff}
use discord_os.Table.{row_of, row_of-upsert, row_of-delete}
use discord_os.Gateway.Owners.{
  Owner, already_owned, not_the_owner, token_of, owner_of, owned, claim_over, claim_checked,
  release_over, claim, release, cli_owner_is_dead, claim_gateway, Call, claiming, releasing, caller,
  gone_at, perform, perform_all,
}

perform-keeps :
    (c : Call) (token : Text) (o : Owner) (owners : List Owner)
    → owner_of token owners ≡ some o
    → caller c ≢ o.owner_id
    → cli_owner_is_dead (gone_at c) o.owner_id ≡ false
    → owner_of token (perform c owners).1 ≡ some o
unfolding perform claim_gateway claim_checked claim_over release release_over owner_of
perform-keeps (claiming gone t id) token o owners h ne alive =
    elim (Option-cases (row_of token_of t owners)) [
      | inl e ↦
          ground (arith, e, text_beq_iff t token, row_of-upsert token_of (owned t id) token owners)
      | inr (row, e) ↦ ground (
        arith,
        e,
        text_beq_iff t token,
        text_beq_iff row.owner_id id,
        row_of-upsert token_of (owned t id) token owners,
      )
    ]
perform-keeps (releasing t id) token o owners h ne alive =
    elim (Option-cases (row_of token_of t owners)) [
      | inl e ↦ ground (arith, e)
      | inr (row, e) ↦ ground (
        arith,
        e,
        text_beq_iff t token,
        text_beq_iff row.owner_id id,
        row_of-delete token_of t token owners,
      )
    ]

perform_all-keeps :
    (calls : List Call) (token : Text) (o : Owner) (owners : List Owner)
    → owner_of token owners ≡ some o
    → All (λ c. (caller c ≢ o.owner_id) × (cli_owner_is_dead (gone_at c) o.owner_id ≡ false)) calls
    → owner_of token (perform_all calls owners) ≡ some o
unfolding perform_all
perform_all-keeps [] token o owners h others = h
perform_all-keeps (c ∷ calls) token o owners h others =
    perform_all-keeps calls token o (perform c owners).1
      (perform-keeps c token o owners h others.0.0 others.0.1) others.1

claimed_row :
    (gone : ℕ → Bool) (token id : Text) (owners : List Owner)
    → (claim_gateway gone token id owners).0 ≡ none
    → owner_of token (claim_gateway gone token id owners).1 ≡ some (owned token id)
unfolding claim_gateway claim_checked claim_over owner_of
claimed_row gone token id owners h = elim (Option-cases (row_of token_of token owners)) [
  | inl e ↦ ground (arith, e, eq_self token, row_of-upsert token_of (owned token id) token owners)
  | inr (row, e) ↦
      ground (arith, e, eq_self token, row_of-upsert token_of (owned token id) token owners)
]

-- Once a claim has succeeded the token is its owner's: whatever others claim and release while the
-- owner's process is not found dead, the owner stays, and a further claim by another is refused
-- with the owner's name and changes nothing.
pub claim_gateway-exclusive :
    (gone gone' : ℕ → Bool) (token id other : Text) (owners : List Owner) (calls : List Call)
    → (claim_gateway gone token id owners).0 ≡ none
    → All (λ c. (caller c ≢ id) × (cli_owner_is_dead (gone_at c) id ≡ false)) calls
    → token ≢ []
    → other ≢ []
    → other ≢ id
    → cli_owner_is_dead gone' id ≡ false
    → let after = perform_all calls (claim_gateway gone token id owners).1 in
      (owner_of token after ≡ some (owned token id))
      × (claim_gateway gone' token other after ≡ (some (already_owned id), after))
      × (release token other after ≡ (some (not_the_owner id), after))
unfolding claim_gateway claim_checked claim_over release release_over
claim_gateway-exclusive gone gone' token id other owners calls ok others tn on ne alive =
    let start = (claim_gateway gone token id owners).1 in
    let kept : owner_of token (perform_all calls start) ≡ some (owned token id) =
      perform_all-keeps calls token (owned token id) start (claimed_row gone token id owners ok)
        others in
    (kept, ground (arith, kept, text_beq_iff id other), ground (arith, kept, text_beq_iff id other))

-- The registry in memory and the one in SQLite answer alike, and keep the same owners, except where
-- the token's owner is another one whose process has gone.
pub claim_gateway-claim :
    (gone : ℕ → Bool) (token id : Text) (owners : List Owner)
    → ((o : Owner) → owner_of token owners ≡ some o → cli_owner_is_dead gone o.owner_id ≡ false)
    → claim_gateway gone token id owners ≡ claim token id owners
unfolding claim_gateway claim claim_checked claim_over
claim_gateway-claim gone token id owners alive = elim (Option-cases (owner_of token owners)) [
  | inl e ↦ ground (arith, e)
  | inr (row, e) ↦ ground (arith, e, alive row e)
]

-- A command-line owner whose process has gone loses the token to the next claim.
pub claim_gateway-dead :
    (gone : ℕ → Bool) (token id : Text) (o : Owner) (owners : List Owner)
    → token ≢ []
    → id ≢ []
    → owner_of token owners ≡ some o
    → cli_owner_is_dead gone o.owner_id ≡ true
    → ((claim_gateway gone token id owners).0 ≡ none)
      × (owner_of token (claim_gateway gone token id owners).1 ≡ some (owned token id))
unfolding claim_gateway claim_checked claim_over owner_of
claim_gateway-dead gone token id o owners tn idn h dead =
    ground (arith, eq_self token, row_of-upsert token_of (owned token id) token owners)

owner_of-claim_gateway :
    (gone : ℕ → Bool) (token id j : Text) (owners : List Owner)
    → (claim_gateway gone token id owners).0 ≡ none
    → owner_of j (claim_gateway gone token id owners).1
      ≡ (if token == j then some (owned token id) else owner_of j owners)
unfolding claim_gateway claim_checked claim_over owner_of
owner_of-claim_gateway gone token id j owners h =
    elim (Option-cases (row_of token_of token owners)) [
      | inl e ↦ ground (arith, e, row_of-upsert token_of (owned token id) j owners)
      | inr (row, e) ↦ ground (arith, e, row_of-upsert token_of (owned token id) j owners)
    ]

-- A claim and a release by the claimer leave every token's owner as it was, the token's own none.
pub release-claim :
    (gone : ℕ → Bool) (token id j : Text) (owners : List Owner)
    → (claim_gateway gone token id owners).0 ≡ none
    → let (e, after) = release token id (claim_gateway gone token id owners).1 in
      (e ≡ none) × (owner_of j after ≡ (if token == j then none else owner_of j owners))
unfolding release release_over owner_of
release-claim gone token id j owners h =
    let row = claimed_row gone token id owners h in
    (
      ground (arith, row, eq_self id),
      ground (
        arith,
        row,
        eq_self id,
        owner_of-claim_gateway gone token id j owners h,
        row_of-delete token_of token j (claim_gateway gone token id owners).1,
      ),
    )
