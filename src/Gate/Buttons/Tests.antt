-- ===== src/Gate/Buttons/Tests.antt =====
-- orchestration/ask_gate.py: the ids of one run, and the theorems there.
use discord_os.Prelude.{◌≡◌, refl, ◌≤◌, ◌-◌, some, arith, length}
use discord_os.Text.{Text, txt, strip}
use discord_os.Text.Number.{str_of}
use discord_os.Gate.Buttons.{
  ask_confirm_id_prefix, custom_id_max, option_prefix, ask_custom_id, ask_action_from_custom_id,
}
use discord_os.Gate.Buttons.RoundTrip.{ask_action_from_custom_id-ask_custom_id}

abbrev run : Text
run = txt "run:7"

run_stripped : strip run ≡ run
unfolding strip
run_stripped = refl

index_fits : length (str_of 12) ≤ custom_id_max - length (option_prefix run)
unfolding str_of
index_fits = omega arith

ask_action_from_custom_id-ask_custom_id_example :
    ask_action_from_custom_id (ask_custom_id run 12)
    ≡ some (record { run_id = run; option_index = 12 })
ask_action_from_custom_id-ask_custom_id_example =
    ask_action_from_custom_id-ask_custom_id run 12 run_stripped refl index_fits

run_fits : length run ≤ custom_id_max - length ask_confirm_id_prefix
run_fits = omega arith
