-- ===== src/Github/Rules.antt =====
-- orchestration/github_rules.py: what the rules make of the events of pull requests.
pub mod Match
pub mod Safe
pub mod Approved
mod Tests
use discord_os.Prelude.{
  ℕ, Bool, true, false, not, ◌&&◌, ◌||◌, Option, none, some, List, [], ◌∷◌, ◌++◌, map, nat_eq, ◌==◌,
  if◌then◌else◌, is_empty, any,
}
use discord_os.Text.{Text, txt, text_eq, strip, lower}
use discord_os.Github.Wake.{PullSnapshot, waiting, WakeEvent, wake_events}
use discord_os.Github.Rules.Match.{
  Rule, same_kind, rule_matches, primary_event, rule_may_preapprove, cook_prompt,
}
use discord_os.Github.Ledger.{
  RuleIntake, Ledger, Host, claim_github_wake, PullOwner, job_for_pull_request,
  bind_job_pull_request, run_task,
}

-- (workspace_id or "default").strip() or "default"
unfoldable pub rule_workspace : Rule → Text
unfolding strip
rule_workspace rule =
    if is_empty (strip rule.workspace_id) then txt "default" else strip rule.workspace_id

module _ (host : Host) (rule : Rule) (e : WakeEvent) where
  -- The channel of a rule, or else that of the job.
  unfoldable pub rule_channel : Text → Text
  unfolding strip
  rule_channel channel_id =
      if is_empty rule.channel_id then strip channel_id else strip rule.channel_id

  -- "rule:<id>:<event>"
  unfoldable pub rule_claim : Text
  rule_claim =
      txt "rule:"
      ++ (if is_empty rule.rule_id then txt "anon" else rule.rule_id)
      ++ txt ":"
      ++ e.event_id

  unfoldable pub follow_intake : PullOwner → RuleIntake
  unfolding cook_prompt strip rule_channel rule_workspace rule_may_preapprove
  follow_intake owner = record {
    text = cook_prompt (strip rule.prompt) e;
    channel_id = rule_channel owner.channel_id;
    workspace_id = rule_workspace rule;
    thread_id = owner.thread_id;
    event_id = e.event_id;
    approved = rule_may_preapprove e;
    replay_of = host.latest_run owner.task_id;
  }

  -- follow_bound_job, once its event was claimed
  unfoldable pub follow_claimed : PullOwner → Bool × Ledger → Ledger
  unfolding follow_intake
  follow_claimed owner (false, l) = l
  follow_claimed owner (true, l) =
      let i = follow_intake owner in
      if not (is_empty i.replay_of) && host.is_steered i.replay_of i.text then l else run_task i l

  -- follow_bound_job
  unfoldable pub follow_bound_job : PullOwner → Ledger → Ledger
  unfolding follow_claimed claim_github_wake rule_claim rule_channel strip
  follow_bound_job owner l =
      if is_empty (strip rule.prompt)
        || is_empty owner.task_id
        || is_empty (rule_channel owner.channel_id)
      then l
      else follow_claimed owner (claim_github_wake rule_claim owner.task_id l)

  unfoldable pub open_intake : RuleIntake
  unfolding cook_prompt strip rule_workspace rule_may_preapprove
  open_intake = record {
    text = cook_prompt (strip rule.prompt) e;
    channel_id = strip rule.channel_id;
    workspace_id = rule_workspace rule;
    thread_id = host.opened_thread (strip rule.channel_id) e.summary;
    event_id = e.event_id;
    approved = rule_may_preapprove e;
    replay_of = [];
  }

  -- apply_wake, of which only the claim is kept
  unfoldable pub apply_wake : Text → Ledger → Ledger
  unfolding claim_github_wake same_kind
  apply_wake task_id l =
      if same_kind e.kind waiting then l else (claim_github_wake e.event_id task_id l).1

  -- open_unbound_job
  unfoldable pub open_unbound_job : PullSnapshot → Ledger → Ledger
  unfolding open_intake bind_job_pull_request apply_wake strip
  open_unbound_job s l =
      let opened = run_task open_intake l in
      let task_id = host.task_of open_intake in
      if is_empty (strip rule.channel_id)
      then l
      else if is_empty task_id
      then opened
      else apply_wake task_id
          (record opened { pulls = bind_job_pull_request task_id s.repo s.number l.pulls })

-- (destination or "new").strip().lower()
unfoldable pub destination_of : Rule → Text
unfolding strip lower
destination_of rule =
    if is_empty rule.destination then txt "new" else lower (strip rule.destination)

-- What a rule does that matches and has an event: whether it is the last one, and the ledger.
unfoldable pub fire :
    Host → Rule → PullSnapshot → Option PullOwner → Option WakeEvent → Ledger → Bool × Ledger
unfolding destination_of follow_bound_job open_unbound_job
fire host rule s owner none l = (false, l)
fire host rule s none (some e) l =
    if destination_of rule == txt "single"
    then (false, l)
    else if destination_of rule == txt "new"
    then (true, open_unbound_job host rule e s l)
    else (false, l)
fire host rule s (some owner) (some e) l =
    if destination_of rule == txt "single"
    then (true, follow_bound_job host rule e owner l)
    else (false, l)

-- The rules in turn, up to the first that fires.
unfoldable pub admit_one :
    Host → List Rule → PullSnapshot → List WakeEvent → Option PullOwner → Ledger → Ledger
unfolding rule_matches primary_event fire
admit_one host [] s events owner l = l
admit_one host (rule ∷ rules) s events owner l =
    let fired = fire host rule s owner (primary_event events rule.conclusion) l in
    let others = admit_one host rules s events owner l in
    if rule_matches rule s events && fired.0 then fired.1 else others

-- The snapshots in turn.
unfoldable pub admit_each : Host → List Text → List Rule → List PullSnapshot → Ledger → Ledger
unfolding admit_one wake_events job_for_pull_request
admit_each host allowlisted rules [] l = l
admit_each host allowlisted rules (s ∷ snapshots) l = admit_each host allowlisted rules snapshots (
    admit_one host rules s (wake_events allowlisted s) (job_for_pull_request host s.repo s.number l)
      l)

abbrev is_same_pull : PullSnapshot → PullSnapshot → Bool
is_same_pull s t = s.repo == t.repo && s.number == t.number

-- add, of _candidate_snapshots
unfoldable pub add_snapshot : Option PullSnapshot → List PullSnapshot → List PullSnapshot
add_snapshot none out = out
add_snapshot (some s) out = if any (is_same_pull s) out then out else out ++ s ∷ []

unfoldable pub add_all : List (Option PullSnapshot) → List PullSnapshot → List PullSnapshot
unfolding add_snapshot
add_all [] out = out
add_all (o ∷ snapshots) out = add_all snapshots (add_snapshot o out)

-- What is read of the rows that list_job_pull_requests returns.
unfoldable pub read_pulls :
    (Text → ℕ → Option PullSnapshot) → List (Text × ℕ) → List (Option PullSnapshot)
unfolding strip
read_pulls snapshotter [] = []
read_pulls snapshotter ((repo, number) ∷ rows) =
    let rest = read_pulls snapshotter rows in
    if is_empty (strip repo) || number == 0 then rest else snapshotter (strip repo) number ∷ rest

-- _candidate_snapshots
unfoldable pub candidate_snapshots :
    (Text → ℕ → Option PullSnapshot) → List (Text × ℕ) → List PullSnapshot → List PullSnapshot
unfolding add_all read_pulls
candidate_snapshots snapshotter rows snapshots =
    add_all (read_pulls snapshotter rows) (add_all (map (λ s. some s) snapshots) [])

-- admit_github_rules, with the rows of the pull requests that have jobs
unfoldable pub admit_github_rules :
    Host
    → (Text → ℕ → Option PullSnapshot)
    → List Text
    → List Rule
    → List (Text × ℕ)
    → List PullSnapshot
    → Ledger
    → Ledger
unfolding admit_each candidate_snapshots
admit_github_rules host snapshotter allowlisted rules rows snapshots l =
    if is_empty rules
    then l
    else admit_each host allowlisted rules (candidate_snapshots snapshotter rows snapshots) l
