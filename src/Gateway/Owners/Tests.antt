-- ===== src/Gateway/Owners/Tests.antt =====
-- discord/gateway.py and persistence/sqlite.py: two hosts on one token, and the theorems there.
use discord_os.Prelude.{
  ℕ, ◌≡◌, refl, ◌≢◌, Bool, true, false, none, some, List, [], ◌∷◌, nat_eq, ◌==◌,
}
use discord_os.Text.{Text, txt, text_eq, text_beq, text_ne, strip}
use discord_os.Gateway.Owners.{
  Owner, already_owned, not_the_owner, owner_of, owned, release, cli_owner_is_dead, claim_gateway,
  Call, claiming, releasing, perform_all,
}
use discord_os.Gateway.Owners.Exclusive.{claim_gateway-exclusive}

abbrev token : Text
token = txt "fp"

abbrev host : Text
host = txt "discord-os-cli-77-ab12"

abbrev rival : Text
rival = txt "agent-discord-cli-78-cd34"

-- Only process 99 has gone, or only process 77.
abbrev gone_99 : ℕ → Bool
gone_99 pid = pid == 99

abbrev gone_77 : ℕ → Bool
gone_77 pid = pid == 77

rival-ne-host : rival ≢ host
unfolding text_beq
rival-ne-host = text_ne rival host refl

alive : cli_owner_is_dead gone_99 host ≡ false
unfolding cli_owner_is_dead strip
alive = refl

alive_throughout : cli_owner_is_dead (λ pid. false) host ≡ false
unfolding cli_owner_is_dead strip
alive_throughout = refl

dead : cli_owner_is_dead gone_77 host ≡ true
unfolding cli_owner_is_dead strip
dead = refl

claimed : (claim_gateway gone_99 token host []).0 ≡ none
unfolding claim_gateway
claimed = refl

abbrev rivals : List Call
rivals = claiming gone_99 token rival ∷ releasing token rival ∷ []

claim_gateway-exclusive_example :
    let after = perform_all rivals (claim_gateway gone_99 token host []).1 in
    (owner_of token after ≡ some (owned token host))
    × (claim_gateway gone_99 token rival after ≡ (some (already_owned host), after))
    × (release token rival after ≡ (some (not_the_owner host), after))
claim_gateway-exclusive_example =
    claim_gateway-exclusive gone_99 gone_99 token host rival [] rivals claimed
      ((rival-ne-host, alive), ((rival-ne-host, alive_throughout), tt)) (λ e. cc) (λ e. cc)
      rival-ne-host alive

abbrev owners : List Owner
owners = owned token host ∷ []

owners_row : owner_of token owners ≡ some (owned token host)
unfolding owner_of text_beq
owners_row = refl
