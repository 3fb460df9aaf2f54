-- ===== src/Github/Ledger.antt =====
-- persistence/sqlite.py: the tables that the rules for GitHub use, and the tasks that were run.
use discord_os.Prelude.{
  ℕ, Bool, true, false, ◌&&◌, ◌||◌, Option, none, some, List, [], ◌∷◌, ◌++◌, nat_eq, ◌==◌,
  if◌then◌else◌, is_empty, any, member, find_first, replace_first,
}
use discord_os.Text.{Text, txt, text_eq, strip}
use discord_os.Text.Words.{rstrip_of}

-- The task that a rule runs.
pub record RuleIntake : Type 0 where
  pub text : Text
  pub channel_id : Text
  pub workspace_id : Text
  pub thread_id : Text
  pub event_id : Text
  pub approved : Bool
  pub replay_of : Text

-- A row of `job_pull_requests`.
pub record PullRow : Type 0 where
  pub repo : Text
  pub number : ℕ
  pub task_id : Text

-- The tables that the rules change, with the rows of `github_wake_events` by their ids, and the
-- tasks that were run.
pub record Ledger : Type 0 where
  pub pulls : List PullRow
  pub claims : List Text
  pub runs : List RuleIntake

-- What the tasks, the workers and Discord answer: the channel and the thread of a task, its latest
-- run, whether a run is steered by a text, the thread that is opened in a channel for a text, and
-- the task of a receipt, which is empty where there is none.
pub record Host : Type 0 where
  pub place_of : Text → Option (Text × Text)
  pub latest_run : Text → Text
  pub is_steered : Text → Text → Bool
  pub opened_thread : Text → Text → Text
  pub task_of : RuleIntake → Text

-- claim_github_wake
unfoldable pub claim_github_wake : Text → Text → Ledger → Bool × Ledger
unfolding strip
claim_github_wake event_id task_id l =
    if is_empty (strip event_id) || is_empty (strip task_id) || member (strip event_id) l.claims
    then (false, l)
    else (true, record l { claims = strip event_id ∷ l.claims })

unfoldable pub is_pull : Text → ℕ → PullRow → Bool
is_pull repo number row = row.repo == repo && row.number == number

-- A job that owns a pull request.
pub record PullOwner : Type 0 where
  pub task_id : Text
  pub channel_id : Text
  pub thread_id : Text

unfoldable pub pull_owner : Host → Option PullRow → Option PullOwner
pull_owner host none = none
pull_owner host (some row) = elim (host.place_of row.task_id) [
  | none ↦ none
  | some place ↦ some (record { task_id = row.task_id; channel_id = place.0; thread_id = place.1 })
]

-- job_for_pull_request
unfoldable pub job_for_pull_request : Host → Text → ℕ → Ledger → Option PullOwner
unfolding strip is_pull pull_owner
job_for_pull_request host repo number l =
    pull_owner host (find_first (is_pull (strip repo) number) l.pulls)

-- text.strip("/")
unfoldable pub strip_slashes : Text → Text
unfolding rstrip_of
strip_slashes [] = []
strip_slashes (c ∷ s) =
    let rest = strip_slashes s in if c == b'/' then rest else rstrip_of (txt "/") (c ∷ s)

-- bind_job_pull_request; branches and bases are not read here
unfoldable pub bind_job_pull_request : Text → Text → ℕ → List PullRow → List PullRow
unfolding strip strip_slashes is_pull
bind_job_pull_request task_id repo number pulls =
    let owned = strip_slashes (strip repo) in
    let row : PullRow = record { repo = owned; number = number; task_id = strip task_id } in
    if is_empty (strip task_id) || is_empty owned || number == 0
    then pulls
    else if any (is_pull owned number) pulls
    then replace_first (is_pull owned number) row pulls
    else pulls ++ row ∷ []

abbrev pub run_task : RuleIntake → Ledger → Ledger
run_task i l = record l { runs = i ∷ l.runs }
