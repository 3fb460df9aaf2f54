-- ===== src/Github/Rules/Safe.antt =====
-- orchestration/github_wake.py and orchestration/github_rules.py: the events that may approve a task
-- say what the program says itself.
use discord_os.Prelude.{
  ℕ, ◌≡◌, refl, ◌⊎◌, inl, inr, Bool, true, false, not, ◌&&◌, Option, none, some, List, [], ◌∷◌,
  ◌++◌, nat_eq, if◌then◌else◌, All, any, select, member, find_first,
}
use discord_os.Text.{Text, txt, text_eq, text_beq}
use discord_os.Github.Wake.{
  CheckItem, ReviewNote, PullSnapshot, WakeKind, check_failed, waiting, WakeEvent, pr, failed_event,
  green_event, waiting_event, merged_event, review_event, check_events_of, check_events,
  review_events, merge_events, wake_events, is_failed, is_completed, is_running, trusted_note,
}
use discord_os.Github.Rules.Match.{same_kind, first_of, first_or, primary_of, rule_may_preapprove}

-- What the program itself says of a pull request, with nothing that anybody wrote on GitHub.
abbrev pub own_words : List Text
own_words = txt "checks green" ∷ txt "waiting on checks" ∷ txt "merged" ∷ []

abbrev pub IsOwn : Text → Type 0
IsOwn summary =
    (number : ℕ) × ((words : Text) × (member words own_words ≡ true)
      × (summary ≡ pr number ++ words))

-- An event that does not approve a task, or says what the program says itself.
abbrev pub IsSafe : WakeEvent → Type 0
IsSafe e = (rule_may_preapprove e ≡ false) ⊎ IsOwn e.summary

All-if :
    (b : Bool) (xs ys : List WakeEvent)
    → All IsSafe xs
    → All IsSafe ys
    → All IsSafe (if b then xs else ys)
All-if true xs ys p q = p
All-if false xs ys p q = q

All-append : (xs ys : List WakeEvent) → All IsSafe xs → All IsSafe ys → All IsSafe (xs ++ ys)
All-append [] ys a b = b
All-append (x ∷ xs) ys (p, a) b = (p, All-append xs ys a b)

check_events_of-IsSafe :
    (s : PullSnapshot) (failed : List CheckItem) → All IsSafe (check_events_of s failed)
unfolding check_events_of rule_may_preapprove failed_event green_event waiting_event text_beq
check_events_of-IsSafe s (first ∷ failed) = (inl refl, tt)
check_events_of-IsSafe s [] =
    All-if (any is_completed s.checks && not (any is_running s.checks)) (green_event s ∷ []) _
      (inr (s.number, (txt "checks green", refl, refl)), tt)
      (All-if (any is_running s.checks) (waiting_event s ∷ []) []
        (inr (s.number, (txt "waiting on checks", refl, refl)), tt) tt)

review_events-IsSafe :
    (allowlisted : List Text) (s : PullSnapshot) (notes : List ReviewNote)
    → All IsSafe (review_events allowlisted s notes)
unfolding review_events review_event rule_may_preapprove
review_events-IsSafe allowlisted s [] = tt
review_events-IsSafe allowlisted s (n ∷ notes) =
    let rest = review_events-IsSafe allowlisted s notes in
    All-if (not (trusted_note allowlisted n)) (review_events allowlisted s notes)
      (review_event s n ∷ review_events allowlisted s notes) rest (inl refl, rest)

merge_events-IsSafe : (s : PullSnapshot) → All IsSafe (merge_events s)
unfolding merge_events merged_event text_beq
merge_events-IsSafe s =
    All-if s.merged (merged_event s ∷ []) [] (inr (s.number, (txt "merged", refl, refl)), tt) tt

pub wake_events-IsSafe :
    (allowlisted : List Text) (s : PullSnapshot) → All IsSafe (wake_events allowlisted s)
unfolding wake_events check_events
wake_events-IsSafe allowlisted s =
    All-append (check_events s ++ review_events allowlisted s s.reviews) (merge_events s)
      (All-append (check_events s) (review_events allowlisted s s.reviews)
        (check_events_of-IsSafe s (select is_failed s.checks))
        (review_events-IsSafe allowlisted s s.reviews))
      (merge_events-IsSafe s)

-- An event that was looked up is safe where there is one.
unfoldable pub IsSafe-of : Option WakeEvent → Type 0
IsSafe-of none = Unit
IsSafe-of (some e) = IsSafe e

IsSafe-of-if :
    (b : Bool) (e : WakeEvent) (o : Option WakeEvent)
    → IsSafe e
    → IsSafe-of o
    → IsSafe-of (if b then some e else o)
unfolding IsSafe-of
IsSafe-of-if true e o p q = p
IsSafe-of-if false e o p q = q

found-IsSafe :
    (p : WakeEvent → Bool) (events : List WakeEvent)
    → All IsSafe events
    → IsSafe-of (find_first p events)
unfolding IsSafe-of find_first
found-IsSafe p [] a = tt
found-IsSafe p (e ∷ events) (safe, a) =
    IsSafe-of-if (p e) e (find_first p events) safe (found-IsSafe p events a)

first_or-IsSafe :
    (o : Option WakeEvent) (events : List WakeEvent)
    → IsSafe-of o
    → All IsSafe events
    → IsSafe-of (first_or o events)
unfolding first_or
first_or-IsSafe (some e) events h a = h
first_or-IsSafe none events h a = found-IsSafe (λ e. not (same_kind e.kind waiting)) events a

pub primary_of-IsSafe :
    (k : Option WakeKind) (events : List WakeEvent)
    → All IsSafe events
    → IsSafe-of (primary_of k events)
unfolding primary_of first_of
primary_of-IsSafe (some k) events a = found-IsSafe (λ e. same_kind e.kind k) events a
primary_of-IsSafe none events a =
    first_or-IsSafe (first_of check_failed events) events
      (found-IsSafe (λ e. same_kind e.kind check_failed) events a) a
