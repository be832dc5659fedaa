-- ===== src/Game.antt =====
-- The methods of a game that search its tree for game info nodes (src/document/SgfcGame.cpp), and the
-- search of a node upwards (src/document/SgfcNode.cpp).
pub mod Found
use libsgfc.Common.{ℕ, zero, suc, Option, none, some, Bool, List, [], ◌∷◌, ◌++◌, if◌then◌else◌}
use libsgfc.Tree.Store.{Ref, Store}
use libsgfc.NodeIterator.{
  vertical_and_lateral, lateral, stop, Visit, iterate_over_nodes_depth_first,
}

-- The callback of `GetGameInfoNodes`; `has_game_info` is `HasTrait(SgfcNodeTrait::GameInfo)`.
unfoldable pub collect_game_info : (Ref → Bool) → Ref → List Ref → Visit (List Ref)
collect_game_info has_game_info n nodes =
    if has_game_info n
    then record { go_on = lateral; state = nodes ++ n ∷ [] }
    else record { go_on = vertical_and_lateral; state = nodes }

unfoldable pub get_game_info_nodes : (Ref → Bool) → Store → ℕ → Option Ref → Option (List Ref)
get_game_info_nodes has_game_info s fuel root =
    iterate_over_nodes_depth_first (collect_game_info has_game_info) s fuel root []

-- The callback of `GetFirstGameInfoNode`.
unfoldable pub find_game_info : (Ref → Bool) → Ref → Option Ref → Visit (Option Ref)
find_game_info has_game_info n found =
    if has_game_info n
    then record { go_on = stop; state = some n }
    else record { go_on = vertical_and_lateral; state = found }

unfoldable pub get_first_game_info_node :
    (Ref → Bool) → Store → ℕ → Option Ref → Option (Option Ref)
get_first_game_info_node has_game_info s fuel root =
    iterate_over_nodes_depth_first (find_game_info has_game_info) s fuel root none

-- `SgfcNode::GetGameInfoNode`, from the node and then from each node above it.
unfoldable pub get_game_info_node : (Ref → Bool) → ℕ → Store → Option Ref → Option (Option Ref)
get_game_info_node has_game_info zero s n = none
get_game_info_node has_game_info (suc fuel) s none = some none
get_game_info_node has_game_info (suc fuel) s (some n) =
    let above = get_game_info_node has_game_info fuel s (s.parent n) in
    if has_game_info n then some (some n) else above
