-- ===== src/Github/Wake.antt =====
-- orchestration/github_wake.py: the events of a pull request that may wake a job.
pub mod Trust
mod Tests
use discord_os.Prelude.{
  ℕ, ◌-◌, Bool, true, false, not, ◌&&◌, ◌||◌, List, [], ◌∷◌, ◌++◌, map, ltb, leb, nat_eq, ◌==◌,
  if◌then◌else◌, length, take, is_empty, any, select, member,
}
use discord_os.Text.{Text, txt, text_eq, text_beq, strip, lower, split}
use discord_os.Text.Number.{str_of}
use discord_os.Text.Words.{upper, join, ends_with, rstrip_of}

pub record CheckItem : Type 0 where
  pub name : Text
  pub status : Text
  pub conclusion : Text

pub record ReviewNote : Type 0 where
  pub comment_id : Text
  pub author : Text
  pub body : Text
  pub is_bot : Bool
  pub association : Text

pub record PullSnapshot : Type 0 where
  pub repo : Text
  pub number : ℕ
  pub merged : Bool
  pub checks : List CheckItem
  pub reviews : List ReviewNote
  pub branch : Text
  pub base : Text

-- KIND_*; the empty kind of an event that only waits is `waiting`.
pub data WakeKind : Type 0 where
  check_failed checks_green review merges waiting : WakeKind

-- What an event says; the attention that it asks for is not read here.
pub record WakeEvent : Type 0 where
  pub kind : WakeKind
  pub event_id : Text
  pub summary : Text

-- The names of an allowlist, as they are compared.
unfoldable pub allowed_names : List Text → List Text
unfolding strip lower
allowed_names [] = []
allowed_names (a ∷ names) =
    let rest = allowed_names names in if is_empty (strip a) then rest else lower (strip a) ∷ rest

-- is_bot_author, with nobody on the allowlist
unfoldable pub is_bot_author : Text → Bool
unfolding strip lower ends_with text_beq
is_bot_author author =
    if is_empty (strip author)
    then false
    else ends_with (txt "[bot]") (lower (strip author))
      || member (lower (strip author)) (txt "github-actions[bot]" ∷ txt "github-actions" ∷ [])

-- TRUSTED_ASSOCIATIONS
abbrev pub trusted_associations : List Text
trusted_associations = txt "OWNER" ∷ txt "MEMBER" ∷ txt "COLLABORATOR" ∷ []

-- _trusted_note
unfoldable pub trusted_note : List Text → ReviewNote → Bool
unfolding allowed_names is_bot_author strip lower upper
trusted_note allowlisted n =
    if member (lower (strip n.author)) (allowed_names allowlisted)
    then true
    else if n.is_bot || is_bot_author n.author
    then false
    else member (upper (strip n.association)) trusted_associations

-- The characters that a label may have.
unfoldable pub is_label_char : ℕ → Bool
is_label_char c =
    leb b'0' c && leb c b'9'
    || leb b'A' c && leb c b'Z'
    || leb b'a' c && leb c b'z'
    || member c (txt " ._/()-")

-- _CHECK_LABEL_UNSAFE.sub(" ", name), where `replaced` says that the run goes on
unfoldable pub label_from : Bool → Text → Text
unfolding is_label_char
label_from replaced [] = []
label_from replaced (c ∷ s) =
    let kept = label_from false s in
    let more = label_from true s in
    if is_label_char c then c ∷ kept else if replaced then more else b' ' ∷ more

-- _check_label
unfoldable pub check_label : Text → Text
unfolding label_from strip
check_label name =
    let label = strip (label_from false name) in
    take 60 (if is_empty label then txt "check" else label)

abbrev pub fail_conclusions : List Text
fail_conclusions = txt "failure" ∷ txt "cancelled" ∷ txt "timed_out" ∷ txt "action_required" ∷ []

unfoldable pub is_completed : CheckItem → Bool
unfolding lower
is_completed c = lower c.status == txt "completed"

unfoldable pub is_failed : CheckItem → Bool
unfolding is_completed lower
is_failed c = is_completed c && member (lower c.conclusion) fail_conclusions

unfoldable pub is_running : CheckItem → Bool
unfolding lower
is_running c = member (lower c.status) (txt "queued" ∷ txt "in_progress" ∷ txt "pending" ∷ [])

-- "PR #<number> "
unfoldable pub pr : ℕ → Text
unfolding str_of
pr n = txt "PR #" ++ str_of n ++ txt " "

-- "<repo>#<number>"
unfoldable pub pull_name : PullSnapshot → Text
unfolding str_of
pull_name s = s.repo ++ txt "#" ++ str_of s.number

unfoldable pub failed_event : PullSnapshot → CheckItem → List CheckItem → WakeEvent
unfolding pr pull_name join check_label
failed_event s first failed = record {
  kind = check_failed;
  event_id =
      txt "check-fail:" ++ pull_name s ++ txt ":" ++ first.name ++ txt ":" ++ first.conclusion;
  summary =
      pr s.number
      ++ txt "failed: "
      ++ join (txt ", ") (map (λ c. check_label c.name) (take 4 failed));
}

unfoldable pub green_event : PullSnapshot → WakeEvent
unfolding pr pull_name
green_event s = record {
  kind = checks_green;
  event_id = txt "check-green:" ++ pull_name s;
  summary = pr s.number ++ txt "checks green";
}

unfoldable pub waiting_event : PullSnapshot → WakeEvent
unfolding pr pull_name
waiting_event s = record {
  kind = waiting;
  event_id = txt "waiting:" ++ pull_name s;
  summary = pr s.number ++ txt "waiting on checks";
}

unfoldable pub merged_event : PullSnapshot → WakeEvent
unfolding pr pull_name
merged_event s = record {
  kind = merges;
  event_id = txt "merged:" ++ pull_name s;
  summary = pr s.number ++ txt "merged";
}

-- body[:117] + "..." of a long body
unfoldable pub short_body : Text → Text
unfolding join split
short_body body =
    let words = join (txt " ") (split body) in
    if ltb 120 (length words) then take 117 words ++ txt "..." else words

unfoldable pub review_event : PullSnapshot → ReviewNote → WakeEvent
unfolding pr pull_name short_body rstrip_of
review_event s n = record {
  kind = review;
  event_id = txt "review:" ++ pull_name s ++ txt ":" ++ n.comment_id;
  summary =
      rstrip_of (txt ": ")
        (pr s.number ++ txt "review from " ++ n.author ++ txt ": " ++ short_body n.body);
}

-- The event of the checks, by those that failed.
unfoldable pub check_events_of : PullSnapshot → List CheckItem → List WakeEvent
unfolding failed_event green_event waiting_event is_completed is_running
check_events_of s (first ∷ failed) = failed_event s first (first ∷ failed) ∷ []
check_events_of s [] =
    if any is_completed s.checks && not (any is_running s.checks)
    then green_event s ∷ []
    else if any is_running s.checks
    then waiting_event s ∷ []
    else []

unfoldable pub check_events : PullSnapshot → List WakeEvent
unfolding check_events_of is_failed
check_events s = check_events_of s (select is_failed s.checks)

unfoldable pub review_events : List Text → PullSnapshot → List ReviewNote → List WakeEvent
unfolding trusted_note review_event
review_events allowlisted s [] = []
review_events allowlisted s (n ∷ notes) =
    let rest = review_events allowlisted s notes in
    if not (trusted_note allowlisted n) then rest else review_event s n ∷ rest

unfoldable pub merge_events : PullSnapshot → List WakeEvent
unfolding merged_event
merge_events s = if s.merged then merged_event s ∷ [] else []

-- wake_events
unfoldable pub wake_events : List Text → PullSnapshot → List WakeEvent
unfolding check_events review_events merge_events
wake_events allowlisted s =
    check_events s ++ review_events allowlisted s s.reviews ++ merge_events s
