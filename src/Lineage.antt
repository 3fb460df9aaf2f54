-- ===== src/Lineage.antt =====
-- orchestration/lineage.py: the nodes of a run's lineage, its tip, and what is to be replayed after
-- an edit upstream.
pub mod Descends
pub mod Replay
pub mod Complete
mod Tests
use discord_os.Prelude.{
  ℕ, zero, suc, ◌+◌, ◌*◌, Bool, not, Option, none, some, List, [], ◌∷◌, ◌++◌, ltb, nat_eq, ◌==◌,
  if◌then◌else◌, length, is_empty, any, select, member,
}
use discord_os.Text.{Text, txt, text_eq, strip, lower, starts_with}

pub record LineageNode : Type 0 where
  pub node_key : Text
  pub run_id : Text
  pub task_id : Text
  pub step : Text
  pub parent_keys : List Text
  pub input_sha256 : Text
  pub artifact_id : Text
  pub status : Text

abbrev pub key_of : LineageNode → Text
key_of node = node.node_key

-- The last of the nodes that are given.
unfoldable pub last_key : List LineageNode → Text
last_key [] = []
last_key (n ∷ []) = n.node_key
last_key (n ∷ m ∷ nodes) = last_key (m ∷ nodes)

unfoldable pub is_complete : LineageNode → Bool
is_complete node = not (node.status == txt "stale")

-- key in {parent for node in nodes for parent in node.parent_keys}
unfoldable pub is_referenced : List LineageNode → Text → Bool
is_referenced nodes key = any (λ (n : LineageNode). member key n.parent_keys) nodes

-- tips[-1], or complete[-1] where there is no tip
unfoldable pub tip_among : List LineageNode → Text
unfolding last_key is_referenced
tip_among complete =
    let tips = select (λ n. not (is_referenced complete n.node_key)) complete in
    if is_empty tips then last_key complete else last_key tips

unfoldable pub tip_key : List LineageNode → Text
unfolding tip_among is_complete
tip_key nodes = tip_among (select is_complete nodes)

unfoldable pub children_of : List LineageNode → Text → List LineageNode
unfolding strip
children_of nodes parent_key =
    if is_empty (strip parent_key)
    then []
    else select (λ n. member (strip parent_key) n.parent_keys) nodes

-- The loop of `descendants_to_replay`, with fuel; `none` means that the fuel ran out. The keys of
-- `ordered` are those of the set `seen`.
unfoldable pub replay_loop :
    List LineageNode → ℕ → List LineageNode → List Text → Option (List Text)
replay_loop nodes fuel [] ordered = some ordered
replay_loop nodes zero (node ∷ pending) ordered = none
replay_loop nodes (suc fuel) (node ∷ pending) ordered =
    let skip = replay_loop nodes fuel pending ordered in
    let visit =
      replay_loop nodes fuel (pending ++ children_of nodes node.node_key)
        (ordered ++ node.node_key ∷ []) in
    if member node.node_key ordered then skip else visit

-- Each node is visited once and adds at most all nodes.
abbrev pub replay_fuel : List LineageNode → ℕ
replay_fuel nodes = length nodes + length nodes * length nodes

unfoldable pub descendants_to_replay : List LineageNode → Text → Option (List Text)
unfolding replay_loop
descendants_to_replay nodes parent_key =
    replay_loop nodes (replay_fuel nodes) (children_of nodes parent_key) []

-- node_at_step: the step numbers start at 1
unfoldable pub node_at_step : List LineageNode → ℕ → Option LineageNode
node_at_step [] n = none
node_at_step (node ∷ nodes) zero = none
node_at_step (node ∷ nodes) (suc zero) = some node
node_at_step (node ∷ nodes) (suc (suc n)) = node_at_step nodes (suc n)

unfoldable pub only : List LineageNode → Option LineageNode
only [] = none
only (node ∷ []) = some node
only (node ∷ other ∷ nodes) = none

unfoldable pub node_by_key_prefix : List LineageNode → Text → Option LineageNode
unfolding strip lower starts_with only
node_by_key_prefix nodes prefix =
    let token = lower (strip prefix) in
    if ltb (length token) 4
    then none
    else only (select (λ n. starts_with token (lower n.node_key)) nodes)
