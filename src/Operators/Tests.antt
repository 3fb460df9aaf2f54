-- ===== src/Operators/Tests.antt =====
-- orchestration/service.py: an allowlist on which the theorems are tried.
use discord_os.Prelude.{◌≡◌, refl, true, false, List, [], ◌∷◌, map}
use discord_os.Text.{Text, txt, text_beq}
use discord_os.Operators.{Operators, Environment}
use discord_os.Operators.Gatekeeping.{Attempt, dispatch_all, IsGuarded, dispatch_all-first_come}

abbrev nobody : Operators
nobody = record { people = []; roles = [] }

abbrev unset : Environment
unset = record {
  require_operators_flag = [];
  require_allowlist_flag = [];
  interactions_flag = [];
  owner_id = [];
  operator_role_ids = [];
}

abbrev public : Environment
public = record {
  require_operators_flag = [];
  require_allowlist_flag = [];
  interactions_flag = txt " HTTP ";
  owner_id = [];
  operator_role_ids = [];
}

abbrev attempts : Environment → List Attempt
attempts env =
    record { user_id = txt " 11"; role_ids = []; env = env; now = 5 }
    ∷ record { user_id = txt "22"; role_ids = txt "r1" ∷ []; env = env; now = 6 }
    ∷ record { user_id = txt "11"; role_ids = []; env = env; now = 7 }
    ∷ []

answers : map (λ p. p.1) (dispatch_all (attempts unset) nobody).0 ≡ true ∷ false ∷ true ∷ []
unfolding dispatch_all text_beq
answers = refl

dispatch_all-first_come_example :
    (o : Text) × IsGuarded o
      (txt "r1" ∷ [])
      (dispatch_all (attempts unset) (record { people = []; roles = txt "r1" ∷ [] }))
dispatch_all-first_come_example = dispatch_all-first_come (txt "r1" ∷ []) (attempts unset)
