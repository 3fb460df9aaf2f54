-- ===== src/Github/Wake/Tests.antt =====
-- orchestration/github_wake.py: a stranger's review.
use discord_os.Prelude.{◌≡◌, refl, inr, true, false, [], ◌∷◌, ◌++◌, nat_eq, length}
use discord_os.Text.{txt, text_eq, text_beq, strip}
use discord_os.Text.Words.{upper}
use discord_os.Github.Wake.{ReviewNote, PullSnapshot, wake_events, allowed_names}
use discord_os.Github.Wake.Trust.{IsStranger, wake_events-strangers}

abbrev member_note : ReviewNote
member_note = record {
  comment_id = txt "1";
  author = txt "ann";
  body = txt "please  rebase";
  is_bot = false;
  association = txt "member";
}

abbrev stranger_note : ReviewNote
stranger_note = record member_note {
  comment_id = txt "2";
  author = txt "eve";
  association = txt "NONE";
}

abbrev pull : PullSnapshot
pull = record {
  repo = txt "o/r";
  number = 7;
  merged = true;
  checks = [];
  reviews = [];
  branch = txt "fix";
  base = txt "main";
}

eve_IsStranger : IsStranger [] stranger_note
unfolding allowed_names upper strip text_beq
eve_IsStranger = (refl, inr refl)

two_events :
    length (wake_events [] (record pull { reviews = member_note ∷ stranger_note ∷ [] })) ≡ 2
unfolding wake_events text_beq
two_events = refl

wake_events-strangers_example :
    wake_events [] (record pull { reviews = (member_note ∷ []) ++ (stranger_note ∷ []) ++ [] })
    ≡ wake_events [] (record pull { reviews = (member_note ∷ []) ++ [] })
wake_events-strangers_example =
    wake_events-strangers [] pull (member_note ∷ []) (stranger_note ∷ []) [] (eve_IsStranger, tt)
