-- ===== src/Github/Rules/Approved.antt =====
-- orchestration/github_rules.py: which tasks of the rules are approved beforehand.
use discord_os.Prelude.{
  ℕ, ◌≡◌, refl, sym, ◌∙◌, subst, ◌⊎◌, inl, inr, Bool, true, false, not, ◌&&◌, ◌||◌, Option, none,
  some, List, [], ◌∷◌, arith, nat_eq, ◌==◌, if◌then◌else◌, All, is_empty,
}
use discord_os.Text.{Text, txt, text_eq, strip, lower}
use discord_os.Github.Wake.{PullSnapshot, waiting, WakeEvent, wake_events}
use discord_os.Github.Rules.Match.{
  Rule, same_kind, kind_of, primary_event, rule_matches, rule_may_preapprove, cook_prompt,
}
use discord_os.Github.Ledger.{
  RuleIntake, Ledger, Host, PullOwner, claim_github_wake, job_for_pull_request, run_task,
}
use discord_os.Github.Rules.{
  follow_intake, follow_claimed, follow_bound_job, rule_claim, rule_channel, open_intake,
  apply_wake, open_unbound_job, destination_of, fire, admit_one, admit_each, candidate_snapshots,
  admit_github_rules,
}
use discord_os.Github.Rules.Safe.{IsOwn, IsSafe, IsSafe-of, wake_events-IsSafe, primary_of-IsSafe}

-- A rule stands in a list.
abbrev pub IsAmong : Rule → List Rule → Type 0
IsAmong rule [] = ⊥
IsAmong rule (r ∷ rules) = (rule ≡ r) ⊎ IsAmong rule rules

-- A task that waits for approval, or whose text is the prompt of one of the rules, with an event of
-- which the program wrote every word.
abbrev pub IsVouched : List Rule → RuleIntake → Type 0
IsVouched rules i =
    (i.approved ≡ false)
    ⊎ ((rule : Rule) × IsAmong rule rules
        × ((e : WakeEvent) × (i.text ≡ cook_prompt (strip rule.prompt) e) × IsOwn e.summary))

-- A task with the text of an event, approved as the event says.
safe-IsVouched :
    (rules : List Rule) (rule : Rule) (e : WakeEvent) (i : RuleIntake)
    → IsAmong rule rules
    → IsSafe e
    → i.approved ≡ rule_may_preapprove e
    → i.text ≡ cook_prompt (strip rule.prompt) e
    → IsVouched rules i
safe-IsVouched rules rule e i listed (inl held) a t = inl (a ∙ held)
safe-IsVouched rules rule e i listed (inr own) a t = inr (rule, listed, (e, t, own))

abbrev AreVouched : List Rule → Ledger → Type 0
AreVouched rules l = All (IsVouched rules) l.runs

AreVouched-if :
    (rules : List Rule) (b : Bool) (l m : Ledger)
    → AreVouched rules l
    → AreVouched rules m
    → AreVouched rules (if b then l else m)
AreVouched-if rules true l m p q = p
AreVouched-if rules false l m p q = q

fired-if :
    (rules : List Rule) (b : Bool) (x y : Bool × Ledger)
    → AreVouched rules x.1
    → AreVouched rules y.1
    → AreVouched rules (if b then x else y).1
fired-if rules true x y p q = p
fired-if rules false x y p q = q

claim_github_wake-runs :
    (event_id task_id : Text) (l : Ledger) → (claim_github_wake event_id task_id l).1.runs ≡ l.runs
unfolding claim_github_wake
claim_github_wake-runs event_id task_id l = ground arith

module _ (host : Host) (all_rules : List Rule) (rule : Rule) (e : WakeEvent)
    (listed : IsAmong rule all_rules) (safe : IsSafe e) where
  follow_claimed-AreVouched :
      (owner : PullOwner) (p : Bool × Ledger)
      → AreVouched all_rules p.1
      → AreVouched all_rules (follow_claimed host rule e owner p)
  unfolding follow_claimed follow_intake
  follow_claimed-AreVouched owner (false, l) a = a
  follow_claimed-AreVouched owner (true, l) a =
      let i = follow_intake host rule e owner in
      AreVouched-if all_rules (not (is_empty i.replay_of) && host.is_steered i.replay_of i.text) l
        (run_task i l) a (safe-IsVouched all_rules rule e i listed safe refl refl, a)

  follow_bound_job-AreVouched :
      (owner : PullOwner) (l : Ledger)
      → AreVouched all_rules l
      → AreVouched all_rules (follow_bound_job host rule e owner l)
  unfolding follow_bound_job
  follow_bound_job-AreVouched owner l a =
      let claim = claim_github_wake (rule_claim host rule e) owner.task_id l in
      AreVouched-if all_rules
        (is_empty (strip rule.prompt)
          || is_empty owner.task_id
          || is_empty (rule_channel host rule e owner.channel_id))
        l _ a
        (follow_claimed-AreVouched owner claim (
          subst (λ r. All (IsVouched all_rules) r)
            (sym (claim_github_wake-runs (rule_claim host rule e) owner.task_id l)) a))

  apply_wake-AreVouched :
      (task_id : Text) (l : Ledger)
      → AreVouched all_rules l
      → AreVouched all_rules (apply_wake host rule e task_id l)
  unfolding apply_wake
  apply_wake-AreVouched task_id l a = AreVouched-if all_rules (same_kind e.kind waiting) l _ a (
      subst (λ r. All (IsVouched all_rules) r) (sym (claim_github_wake-runs e.event_id task_id l))
        a)

  open_unbound_job-AreVouched :
      (s : PullSnapshot) (l : Ledger)
      → AreVouched all_rules l
      → AreVouched all_rules (open_unbound_job host rule e s l)
  unfolding open_unbound_job open_intake
  open_unbound_job-AreVouched s l a =
      let i = open_intake host rule e in
      let more : AreVouched all_rules (run_task i l) =
        (safe-IsVouched all_rules rule e i listed safe refl refl, a) in
      AreVouched-if all_rules (is_empty (strip rule.channel_id)) l _ a (
        AreVouched-if all_rules (is_empty (host.task_of i)) (run_task i l) _ more
          (apply_wake-AreVouched (host.task_of i) _ more))

fire-AreVouched :
    (host : Host) (all_rules : List Rule) (rule : Rule) (s : PullSnapshot)
    (owner : Option PullOwner) (o : Option WakeEvent) (l : Ledger)
    → IsAmong rule all_rules
    → IsSafe-of o
    → AreVouched all_rules l
    → AreVouched all_rules (fire host rule s owner o l).1
unfolding fire IsSafe-of
fire-AreVouched host all_rules rule s owner none l listed safe a = a
fire-AreVouched host all_rules rule s none (some e) l listed safe a =
    fired-if all_rules (destination_of rule == txt "single") (false, l) _ a
      (fired-if all_rules (destination_of rule == txt "new")
        (true, open_unbound_job host rule e s l) (false, l)
        (open_unbound_job-AreVouched host all_rules rule e listed safe s l a) a)
fire-AreVouched host all_rules rule s (some owner) (some e) l listed safe a =
    fired-if all_rules (destination_of rule == txt "single")
      (true, follow_bound_job host rule e owner l) (false, l)
      (follow_bound_job-AreVouched host all_rules rule e listed safe owner l a) a

admit_one-AreVouched :
    (host : Host) (all_rules rules : List Rule) (s : PullSnapshot) (events : List WakeEvent)
    (owner : Option PullOwner) (l : Ledger)
    → ((rule : Rule) → IsAmong rule rules → IsAmong rule all_rules)
    → All IsSafe events
    → AreVouched all_rules l
    → AreVouched all_rules (admit_one host rules s events owner l)
unfolding admit_one primary_event
admit_one-AreVouched host all_rules [] s events owner l listed safe a = a
admit_one-AreVouched host all_rules (rule ∷ rules) s events owner l listed safe a =
    let fired = fire host rule s owner (primary_event events rule.conclusion) l in
    AreVouched-if all_rules (rule_matches rule s events && fired.0) fired.1
      (admit_one host rules s events owner l)
      (fire-AreVouched host all_rules rule s owner (primary_event events rule.conclusion) l
        (listed rule (inl refl))
        (primary_of-IsSafe (kind_of (lower (strip rule.conclusion))) events safe) a)
      (admit_one-AreVouched host all_rules rules s events owner l (λ r h. listed r (inr h)) safe a)

admit_each-AreVouched :
    (host : Host) (allowlisted : List Text) (rules : List Rule) (snapshots : List PullSnapshot)
    (l : Ledger)
    → AreVouched rules l
    → AreVouched rules (admit_each host allowlisted rules snapshots l)
unfolding admit_each
admit_each-AreVouched host allowlisted rules [] l a = a
admit_each-AreVouched host allowlisted rules (s ∷ snapshots) l a =
    admit_each-AreVouched host allowlisted rules snapshots _ (
      admit_one-AreVouched host rules rules s (wake_events allowlisted s)
        (job_for_pull_request host s.repo s.number l) l (λ r h. h)
        (wake_events-IsSafe allowlisted s) a)

-- Whatever people write on GitHub, a task that the rules run waits for the write gate's approval,
-- unless its text is the prompt of one of the rules, with a line in the program's own words: that
-- the checks of a pull request are green or run, or that it was merged. It must have held of the
-- tasks before.
pub admit_github_rules-AreVouched :
    (host : Host) (snapshotter : Text → ℕ → Option PullSnapshot) (allowlisted : List Text)
    (rules : List Rule) (rows : List (Text × ℕ)) (snapshots : List PullSnapshot) (l : Ledger)
    → All (IsVouched rules) l.runs
    → All
        (IsVouched rules)
        (admit_github_rules host snapshotter allowlisted rules rows snapshots l).runs
unfolding admit_github_rules
admit_github_rules-AreVouched host snapshotter allowlisted rules rows snapshots l a =
    AreVouched-if rules (is_empty rules) l _ a (
      admit_each-AreVouched host allowlisted rules (candidate_snapshots snapshotter rows snapshots)
        l a)
