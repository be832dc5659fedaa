-- ===== src/Tests/NodeRuns.antt =====
-- Properties of the nodes of the small tree of TreeRuns, walks over it and its game info nodes.
use libsgfc.Common.{
  ◌≡◌, ◌==◌, ◌||◌, refl, none, some, Bool, false, List, [], ◌∷◌, arith, if◌then◌else◌,
}
use libsgfc.Text.Split.{Bytes}
use libsgfc.Tree.Store.{Ref}
use libsgfc.Property.{PropertyType, unknown, known}
use libsgfc.NodeProperties.{
  Held, Properties, find_if, changed, after, set_properties, set_property, get_property_of_type,
  get_inherited_properties,
}
use libsgfc.NodeProperties.Valid.{IsValid}
use libsgfc.NodeProperties.Valid.Edits.{
  set_all, set, append, remove, perform_all, perform_all_properties-IsValid, set_properties-IsValid,
}
use libsgfc.NodeProperties.Valid.Lookup.{set_property-get}
use libsgfc.NodeProperties.Inherited.{
  is_inherited, upward, named, listed, get_inherited_properties-named,
}
use libsgfc.NodeIterator.{
  vertical_and_lateral, lateral, ascend, Callback, iterate_over_nodes_depth_first,
}
use libsgfc.NodeIterator.Walk.{Kin, nobody, node, walk, iterate_over_nodes_depth_first-walk}
use libsgfc.Game.{get_game_info_nodes, get_first_game_info_node}
use libsgfc.Game.Found.{get_game_info_nodes-topmost}
use libsgfc.Tests.TreeRuns.{links, links-Rooted, links-Shape}

abbrev komi : Held
komi = record { identity = 10; type_of = known 1; name_of = b'K' ∷ b'M' ∷ [] }

abbrev other_komi : Held
other_komi = record { identity = 11; type_of = known 1; name_of = b'K' ∷ b'O' ∷ [] }

abbrev private_note : Held
private_note = record { identity = 12; type_of = unknown; name_of = b'X' ∷ [] }

perform_all_properties-IsValid_example : IsValid (
    perform_all
      (set_all (some komi ∷ some other_komi ∷ [])
        ∷ append (some private_note)
        ∷ set (some komi)
        ∷ set (some other_komi)
        ∷ remove none
        ∷ [])
      [])
perform_all_properties-IsValid_example = perform_all_properties-IsValid (
    set_all (some komi ∷ some other_komi ∷ [])
    ∷ append (some private_note)
    ∷ set (some komi)
    ∷ set (some other_komi)
    ∷ remove none
    ∷ [])

set_properties-IsValid_example :
    set_properties (some komi ∷ some private_note ∷ []) []
    ≡ changed (some komi ∷ some private_note ∷ [])
set_properties-IsValid_example =
    (set_properties-IsValid (some komi ∷ some private_note ∷ []) []).1 refl

set_property-get_example :
    get_property_of_type (known 1) (
      after
        (some komi ∷ some private_note ∷ [])
        (set_property (some other_komi) (some komi ∷ some private_note ∷ [])))
    ≡ some other_komi
set_property-get_example =
    (set_property-get other_komi (some komi ∷ some private_note ∷ []) refl).1 refl

abbrev held_by : Ref → Properties
held_by n =
    if n == 1
    then some komi ∷ some private_note ∷ []
    else if n == 2
    then some other_komi ∷ some komi ∷ []
    else []

abbrev is_first_type : PropertyType → Bool
is_first_type unknown = false
is_first_type (known n) = n == 1

get_inherited_properties-named_example :
    (result : Properties) × (get_inherited_properties 5 links held_by is_first_type 4 ≡ some result)
    × ((m : Bytes)
        → named m result
          ≡ listed (
              find_if
                (is_inherited is_first_type m)
                (upward links.parent held_by (links-Shape.rooted 4))))
unfolding links-Shape links-Rooted
get_inherited_properties-named_example =
    get_inherited_properties-named links-Shape held_by is_first_type 4 5 (omega arith)

abbrev whole : Kin
whole = node 1 (node 2 (node 4 nobody nobody) (node 3 nobody nobody)) nobody

-- A callback that notes each node, does not go below node 2, and leaves the level at node 3.
abbrev note : Callback (List Ref)
note n seen = record {
  go_on = if n == 2 then lateral else if n == 3 then ascend else vertical_and_lateral;
  state = n ∷ seen;
}

iterate_over_nodes_depth_first-walk_example :
    iterate_over_nodes_depth_first note links 9 (some 1) [] ≡ some (walk note whole []).state
iterate_over_nodes_depth_first-walk_example =
    iterate_over_nodes_depth_first-walk note links whole (some 1) [] 9
      (refl, (refl, (refl, refl, refl), (refl, refl, refl)), refl) (omega arith)

abbrev has_info : Ref → Bool
has_info n = (n == 2) || (n == 3) || (n == 4)

get_game_info_nodes-topmost_example :
    (get_game_info_nodes has_info links 9 (some 1) ≡ some (2 ∷ 3 ∷ []))
    × (get_first_game_info_node has_info links 9 (some 1) ≡ some (some 2))
get_game_info_nodes-topmost_example =
    get_game_info_nodes-topmost has_info links (some 1) whole 9
      (refl, (refl, (refl, refl, refl), (refl, refl, refl)), refl) (omega arith)
