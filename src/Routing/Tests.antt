-- ===== src/Routing/Tests.antt =====
-- orchestration/routing.py: the theorems at asks of each kind.
use discord_os.Prelude.{◌≡◌, refl, none, some, [], ◌∷◌, ◌++◌}
use discord_os.Text.{txt, strip, lower, split, contains}
use discord_os.Text.Number.{pos}
use discord_os.Routing.{number, swarm_worker_count}
use discord_os.Routing.Bounds.{IsSwarmSize, swarm_worker_count-IsSwarmSize}

nine_asked : swarm_worker_count (txt "audit this, 7 ways") (some (number (pos 9))) ≡ some 5
unfolding swarm_worker_count
nine_asked = refl

-- Two as an exponent is a digit that is no number.
exponent_raises : swarm_worker_count (txt "swarm " ++ 178 ∷ []) none ≡ none
unfolding swarm_worker_count strip lower split contains discord_os.Text.replace_char
exponent_raises = refl

swarm_worker_count-IsSwarmSize_example : IsSwarmSize 5
swarm_worker_count-IsSwarmSize_example =
    swarm_worker_count-IsSwarmSize (txt "audit this, 7 ways") (some (number (pos 9))) 5 nine_asked
