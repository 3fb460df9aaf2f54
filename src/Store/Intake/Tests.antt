-- ===== src/Store/Intake/Tests.antt =====
-- persistence/sqlite.py: two messages, and the theorems there.
use discord_os.Prelude.{◌≡◌, refl, true, false, none, some, List, [], ◌∷◌, is_empty, All}
use discord_os.Text.{txt, text_beq, strip}
use discord_os.Store.Intake.{
  Intake, Messages, pending_of, claim_inbound_message, bind_inbound_message, record_pending_intake,
  Call, claiming, binding, recording, clearing, counting, perform_all,
}
use discord_os.Store.Intake.Kept.{claim_inbound_message-once}
use discord_os.Store.Intake.Waits.{is_pending, ends_wait, record_pending_intake-waits}

abbrev no_messages : Messages
no_messages = record { seen = []; pending = [] }

abbrev asked : Intake
asked = record {
  message_id = txt " 11 ";
  channel_id = txt "5";
  thread_id = [];
  workspace_id = [];
  guild_id = [];
  requester_id = txt "8";
  text = txt "fix the tests";
  metadata = txt "{}";
}

abbrev others : List Call
others =
    claiming (txt "12") none
    ∷ recording asked 70
    ∷ counting (txt "11")
    ∷ clearing (txt "12")
    ∷ binding (txt "12") (txt "t") (txt "r") none
    ∷ []

claim_inbound_message-once_example :
    let later = perform_all others (claim_inbound_message (txt "11") none no_messages).1 in
    claim_inbound_message (txt "11") (some (txt "5")) later ≡ (false, later)
claim_inbound_message-once_example =
    claim_inbound_message-once (txt "11") none (some (txt "5")) others no_messages refl

named : is_empty (strip (txt " 11 ")) ≡ false
unfolding strip
named = refl

worded : is_empty (strip (txt "fix the tests")) ≡ false
unfolding strip
worded = refl

kept_waiting : All (λ c. ends_wait (strip (txt " 11 ")) c ≡ false) others
unfolding ends_wait strip text_beq
kept_waiting = (refl, (refl, (refl, (refl, (refl, tt)))))

record_pending_intake-waits_example :
    let later = perform_all others (record_pending_intake asked 60 no_messages) in
    (is_pending (strip (txt " 11 ")) later ≡ true)
    × (pending_of
          (strip (txt " 11 "))
          (bind_inbound_message (strip (txt " 11 ")) (txt "t") (txt "r") none later)
        ≡ none)
record_pending_intake-waits_example =
    record_pending_intake-waits asked 60 others no_messages (txt "t") (txt "r") none named worded
      kept_waiting
