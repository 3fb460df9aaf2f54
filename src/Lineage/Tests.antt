-- ===== src/Lineage/Tests.antt =====
-- orchestration/lineage.py: a run that was steered, and the theorem there.
use discord_os.Prelude.{◌≡◌, refl, ◌↔◌, true, some, List, [], ◌∷◌, nat_eq, member}
use discord_os.Text.{Text, txt, text_eq, text_beq, strip}
use discord_os.Lineage.{LineageNode, tip_key, descendants_to_replay, node_by_key_prefix}
use discord_os.Lineage.Descends.{Descends}
use discord_os.Lineage.Complete.{distinct, descendants_to_replay-Descends}

abbrev node : Text → List Text → Text → LineageNode
node key parents status = record {
  node_key = key;
  run_id = txt "r";
  task_id = txt "t";
  step = txt "finding";
  parent_keys = parents;
  input_sha256 = [];
  artifact_id = [];
  status = status;
}

-- `dddd` has two parents, and `aaaa` is its own descendant.
abbrev nodes : List LineageNode
nodes =
    node (txt "aaaa") (txt "cccc" ∷ []) (txt "complete")
    ∷ node (txt "bbbb") (txt "aaaa" ∷ []) (txt "complete")
    ∷ node (txt "cccc") (txt "aaaa" ∷ []) (txt "stale")
    ∷ node (txt "dddd") (txt "bbbb" ∷ txt "cccc" ∷ []) (txt "complete")
    ∷ []

replayed :
    descendants_to_replay nodes (txt " aaaa")
    ≡ some (txt "bbbb" ∷ txt "cccc" ∷ txt "dddd" ∷ txt "aaaa" ∷ [])
unfolding descendants_to_replay discord_os.Lineage.children_of text_beq strip
replayed = refl

tip : tip_key nodes ≡ txt "dddd"
unfolding tip_key text_beq
tip = refl

prefixed :
    node_by_key_prefix nodes (txt "CCCC ")
    ≡ some (node (txt "cccc") (txt "aaaa" ∷ []) (txt "stale"))
unfolding node_by_key_prefix text_beq strip
prefixed = refl

descendants_to_replay-Descends_example :
    (out : List Text) × (descendants_to_replay nodes (txt "aaaa") ≡ some out)
    × (distinct out ≡ true)
    × ((k : Text) → (member k out ≡ true) ↔ Descends nodes (txt "aaaa") k)
descendants_to_replay-Descends_example = descendants_to_replay-Descends nodes (txt "aaaa")
