-- ===== src/Gate/Spoken/Tests.antt =====
-- orchestration/plan_approve.py and orchestration/ask_gate.py: spoken answers, and the theorem
-- there.
use discord_os.Prelude.{◌≡◌, refl, some}
use discord_os.Text.{txt, text_beq, strip}
use discord_os.Gate.Spoken.{always, parse_spoken_gate_verb}

said : parse_spoken_gate_verb (txt " Always  allow this ") ≡ some always
unfolding parse_spoken_gate_verb text_beq strip
said = refl
