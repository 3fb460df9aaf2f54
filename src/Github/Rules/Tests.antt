-- ===== src/Github/Rules/Tests.antt =====
-- orchestration/github_rules.py: a rule for merged pull requests.
use discord_os.Prelude.{
  ℕ, Option, some, ◌≡◌, refl, true, false, some, [], ◌∷◌, All, length, find_first,
}
use discord_os.Text.{Text, txt, text_beq}
use discord_os.Github.Wake.{PullSnapshot}
use discord_os.Github.Rules.Match.{Rule}
use discord_os.Github.Ledger.{Ledger, Host}
use discord_os.Github.Rules.{admit_github_rules}
use discord_os.Github.Rules.Approved.{IsVouched, admit_github_rules-AreVouched}

abbrev quiet_host : Host
quiet_host = record {
  place_of = λ task_id. some (txt "5", txt "6");
  latest_run = λ task_id. [];
  is_steered = λ run_id body. false;
  opened_thread = λ channel_id summary. txt "6";
  task_of = λ i. txt "t";
}

abbrev on_merge : Rule
on_merge = record {
  rule_id = txt "r";
  repo = txt "o/r";
  branch = [];
  conclusion = txt "merged";
  destination = [];
  channel_id = txt "5";
  workspace_id = [];
  prompt = txt "write the release notes";
}

abbrev pull : PullSnapshot
pull = record {
  repo = txt "o/r";
  number = 7;
  merged = true;
  checks = [];
  reviews = [];
  branch = txt "fix";
  base = txt "main";
}

abbrev no_ledger : Ledger
no_ledger = record { pulls = []; claims = []; runs = [] }

abbrev read_pull : Text → ℕ → Option PullSnapshot
read_pull repo number = some pull

-- The rule runs a task for the pull request, once.
runs_once :
    length
      (admit_github_rules quiet_host read_pull []
        (on_merge ∷ [])
        ((txt "o/r", 7) ∷ [])
        (pull ∷ [])
        no_ledger).runs
    ≡ 1
unfolding admit_github_rules text_beq find_first
runs_once = refl

admit_github_rules-AreVouched_example :
    All
      (IsVouched (on_merge ∷ []))
      (admit_github_rules quiet_host read_pull []
        (on_merge ∷ [])
        ((txt "o/r", 7) ∷ [])
        (pull ∷ [])
        no_ledger).runs
admit_github_rules-AreVouched_example =
    admit_github_rules-AreVouched quiet_host read_pull [] (on_merge ∷ []) ((txt "o/r", 7) ∷ [])
      (pull ∷ []) no_ledger tt
