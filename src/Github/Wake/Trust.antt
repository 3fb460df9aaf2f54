-- ===== src/Github/Wake/Trust.antt =====
-- orchestration/github_wake.py: what strangers write does not wake a job.
use discord_os.Prelude.{
  ◌≡◌, refl, sym, ap, ◌∙◌, ◌⊎◌, inl, inr, Bool, true, false, not, ◌||◌, List, [], ◌∷◌, ◌++◌, arith,
  nat_eq, if◌then◌else◌, All, member,
}
use discord_os.Text.{Text, text_eq, strip, lower}
use discord_os.Text.Words.{upper}
use discord_os.Github.Wake.{
  ReviewNote, PullSnapshot, WakeEvent, allowed_names, is_bot_author, trusted_associations,
  trusted_note, review_event, review_events, check_events, merge_events, wake_events,
}

-- Whoever is not on the allowlist, and is a bot or neither owns the repository, nor is a member, nor
-- works on it.
abbrev pub IsStranger : List Text → ReviewNote → Type 0
IsStranger allowlisted n =
    (member (lower (strip n.author)) (allowed_names allowlisted) ≡ false)
    × ((n.is_bot ≡ true) ⊎ (member (upper (strip n.association)) trusted_associations ≡ false))

true_ne : true ≡ false → ⊥
true_ne e = cc e

nobody :
    (listed bot auto known : Bool)
    → listed ≡ false
    → (bot ≡ true) ⊎ (known ≡ false)
    → (if listed then true else if bot || auto then false else known) ≡ false
nobody listed bot auto known l (inl b) = ground (arith, l, b)
nobody listed bot auto known l (inr k) = ground (arith, l, k)

stranger_untrusted :
    (allowlisted : List Text) (n : ReviewNote)
    → IsStranger allowlisted n
    → trusted_note allowlisted n ≡ false
unfolding trusted_note
stranger_untrusted allowlisted n (unlisted, why) =
    nobody (member (lower (strip n.author)) (allowed_names allowlisted)) n.is_bot
      (is_bot_author n.author) (member (upper (strip n.association)) trusted_associations) unlisted
      why

skipped :
    (trusted : Bool) (e : WakeEvent) (rest : List WakeEvent)
    → trusted ≡ false
    → (if not trusted then rest else e ∷ rest) ≡ rest
skipped true e rest h = absurd (true_ne h)
skipped false e rest h = refl

strangers_skipped :
    (allowlisted : List Text) (s : PullSnapshot) (strangers after : List ReviewNote)
    → All (IsStranger allowlisted) strangers
    → review_events allowlisted s (strangers ++ after) ≡ review_events allowlisted s after
unfolding review_events
strangers_skipped allowlisted s [] after a = refl
strangers_skipped allowlisted s (n ∷ strangers) after (unknown, a) =
    skipped (trusted_note allowlisted n) (review_event s n) _
      (stranger_untrusted allowlisted n unknown)
    ∙ strangers_skipped allowlisted s strangers after a

strangers_dropped :
    (allowlisted : List Text) (s : PullSnapshot) (before strangers after : List ReviewNote)
    → All (IsStranger allowlisted) strangers
    → review_events allowlisted s (before ++ strangers ++ after)
      ≡ review_events allowlisted s (before ++ after)
unfolding review_events
strangers_dropped allowlisted s [] strangers after a =
    strangers_skipped allowlisted s strangers after a
strangers_dropped allowlisted s (n ∷ before) strangers after a =
    ap (λ rest. if not (trusted_note allowlisted n) then rest else review_event s n ∷ rest)
      (strangers_dropped allowlisted s before strangers after a)

-- The events of a pull request with other reviews.
abbrev with_reviews : PullSnapshot → List ReviewNote → PullSnapshot
with_reviews s notes = record s { reviews = notes }

review_events-same :
    (allowlisted : List Text) (s : PullSnapshot) (xs notes : List ReviewNote)
    → review_events allowlisted (with_reviews s xs) notes ≡ review_events allowlisted s notes
unfolding review_events review_event
review_events-same allowlisted s xs [] = refl
review_events-same allowlisted s xs (n ∷ notes) =
    ap (λ rest. if not (trusted_note allowlisted n) then rest else review_event s n ∷ rest)
      (review_events-same allowlisted s xs notes)

-- Reviews by strangers, wherever they stand among the others, do not change the events of a pull
-- request.
pub wake_events-strangers :
    (allowlisted : List Text) (s : PullSnapshot) (before strangers after : List ReviewNote)
    → All (IsStranger allowlisted) strangers
    → wake_events allowlisted (record s { reviews = before ++ strangers ++ after })
      ≡ wake_events allowlisted (record s { reviews = before ++ after })
unfolding wake_events check_events merge_events
wake_events-strangers allowlisted s before strangers after a =
    ap (λ r. check_events s ++ r ++ merge_events s)
      (review_events-same allowlisted s (before ++ strangers ++ after)
          (before ++ strangers ++ after)
        ∙ strangers_dropped allowlisted s before strangers after a
        ∙ sym (review_events-same allowlisted s (before ++ after) (before ++ after)))
