-- ===== src/Constants/Categories.antt =====
-- The tables of src/SgfcConstants.cpp and src/SgfcPrivateConstants.cpp for the categories and the
-- traits of properties, the functions of src/SgfcUtility.cpp that look them up, and the traits of a
-- node (src/document/SgfcNode.cpp).
pub mod Traits
use libsgfc.Common.{
  ℕ, Option, none, some, Bool, true, false, ◌&&◌, ◌||◌, List, [], ◌∷◌, ◌==◌, if◌then◌else◌,
}
use libsgfc.Property.{PropertyType, unknown, known, type_eq}
use libsgfc.Constants.Names.{find_key}

-- SgfcPropertyCategory.
pub data PropertyCategory : Type 0 where
  root_category : PropertyCategory
  game_info_category : PropertyCategory
  move_category : PropertyCategory
  setup_category : PropertyCategory
  node_annotation_category : PropertyCategory
  move_annotation_category : PropertyCategory
  markup_category : PropertyCategory
  timing_category : PropertyCategory
  miscellaneous_category : PropertyCategory

-- SgfcNodeTrait.
pub data NodeTrait : Type 0 where
  root_trait : NodeTrait
  game_info_trait : NodeTrait
  move_trait : NodeTrait
  setup_trait : NodeTrait
  node_annotation_trait : NodeTrait
  move_annotation_trait : NodeTrait
  markup_trait : NodeTrait
  timing_trait : NodeTrait
  inheritable_trait : NodeTrait

abbrev trait_code : NodeTrait → ℕ
trait_code root_trait = 0
trait_code game_info_trait = 1
trait_code move_trait = 2
trait_code setup_trait = 3
trait_code node_annotation_trait = 4
trait_code move_annotation_trait = 5
trait_code markup_trait = 6
trait_code timing_trait = 7
trait_code inheritable_trait = 8

abbrev pub same_trait : NodeTrait → NodeTrait → Bool
same_trait a b = trait_code a == trait_code b

-- A bit mask of traits, by the bits that are set, and the `|=` of masks.
abbrev pub NodeTraits : Type 0
NodeTraits = NodeTrait → Bool

abbrev pub no_traits : NodeTraits
no_traits t = false

abbrev pub either : NodeTraits → NodeTraits → NodeTraits
either a b t = a t || b t

-- `PropertyTypeToPropertyCategoryMap`.
abbrev pub property_type_to_property_category_map : List (PropertyType × PropertyCategory)
property_type_to_property_category_map =
    ((known 0), move_category)
    ∷ ((known 1), move_category)
    ∷ ((known 2), move_category)
    ∷ ((known 3), move_category)
    ∷ ((known 4), setup_category)
    ∷ ((known 5), setup_category)
    ∷ ((known 6), setup_category)
    ∷ ((known 7), setup_category)
    ∷ ((known 8), node_annotation_category)
    ∷ ((known 9), node_annotation_category)
    ∷ ((known 10), node_annotation_category)
    ∷ ((known 11), node_annotation_category)
    ∷ ((known 12), node_annotation_category)
    ∷ ((known 13), node_annotation_category)
    ∷ ((known 14), node_annotation_category)
    ∷ ((known 15), node_annotation_category)
    ∷ ((known 16), move_annotation_category)
    ∷ ((known 17), move_annotation_category)
    ∷ ((known 18), move_annotation_category)
    ∷ ((known 19), move_annotation_category)
    ∷ ((known 20), markup_category)
    ∷ ((known 21), markup_category)
    ∷ ((known 22), markup_category)
    ∷ ((known 23), markup_category)
    ∷ ((known 24), markup_category)
    ∷ ((known 25), markup_category)
    ∷ ((known 26), markup_category)
    ∷ ((known 27), markup_category)
    ∷ ((known 28), markup_category)
    ∷ ((known 29), root_category)
    ∷ ((known 30), root_category)
    ∷ ((known 31), root_category)
    ∷ ((known 32), root_category)
    ∷ ((known 33), root_category)
    ∷ ((known 34), root_category)
    ∷ ((known 35), game_info_category)
    ∷ ((known 36), game_info_category)
    ∷ ((known 37), game_info_category)
    ∷ ((known 38), game_info_category)
    ∷ ((known 39), game_info_category)
    ∷ ((known 40), game_info_category)
    ∷ ((known 41), game_info_category)
    ∷ ((known 42), game_info_category)
    ∷ ((known 43), game_info_category)
    ∷ ((known 44), game_info_category)
    ∷ ((known 45), game_info_category)
    ∷ ((known 46), game_info_category)
    ∷ ((known 47), game_info_category)
    ∷ ((known 48), game_info_category)
    ∷ ((known 49), game_info_category)
    ∷ ((known 50), game_info_category)
    ∷ ((known 51), game_info_category)
    ∷ ((known 52), game_info_category)
    ∷ ((known 53), game_info_category)
    ∷ ((known 54), game_info_category)
    ∷ ((known 55), game_info_category)
    ∷ ((known 56), timing_category)
    ∷ ((known 57), timing_category)
    ∷ ((known 58), timing_category)
    ∷ ((known 59), timing_category)
    ∷ ((known 60), miscellaneous_category)
    ∷ ((known 61), miscellaneous_category)
    ∷ ((known 62), miscellaneous_category)
    ∷ ((known 63), game_info_category)
    ∷ ((known 64), move_annotation_category)
    ∷ ((known 65), miscellaneous_category)
    ∷ ((known 66), miscellaneous_category)
    ∷ ((known 67), game_info_category)
    ∷ ((known 68), markup_category)
    ∷ ((known 69), root_category)
    ∷ ((known 70), markup_category)
    ∷ ((known 71), timing_category)
    ∷ ((known 72), timing_category)
    ∷ ((known 73), timing_category)
    ∷ ((known 74), markup_category)
    ∷ ((known 75), markup_category)
    ∷ ((known 76), miscellaneous_category)
    ∷ ((known 77), move_annotation_category)
    ∷ ((known 78), miscellaneous_category)
    ∷ ((known 79), game_info_category)
    ∷ ((known 80), game_info_category)
    ∷ ((known 81), game_info_category)
    ∷ ((known 82), markup_category)
    ∷ ((known 83), markup_category)
    ∷ (unknown, miscellaneous_category)
    ∷ []

-- `PropertyTypeToPropertyTraitsMap`: whether the only trait, Inheritable, is set.
abbrev pub property_type_to_property_traits_map : List (PropertyType × Bool)
property_type_to_property_traits_map =
    ((known 0), false)
    ∷ ((known 1), false)
    ∷ ((known 2), false)
    ∷ ((known 3), false)
    ∷ ((known 4), false)
    ∷ ((known 5), false)
    ∷ ((known 6), false)
    ∷ ((known 7), false)
    ∷ ((known 8), false)
    ∷ ((known 9), false)
    ∷ ((known 10), false)
    ∷ ((known 11), false)
    ∷ ((known 12), false)
    ∷ ((known 13), false)
    ∷ ((known 14), false)
    ∷ ((known 15), false)
    ∷ ((known 16), false)
    ∷ ((known 17), false)
    ∷ ((known 18), false)
    ∷ ((known 19), false)
    ∷ ((known 20), false)
    ∷ ((known 21), false)
    ∷ ((known 22), true)
    ∷ ((known 23), false)
    ∷ ((known 24), false)
    ∷ ((known 25), false)
    ∷ ((known 26), false)
    ∷ ((known 27), false)
    ∷ ((known 28), false)
    ∷ ((known 29), false)
    ∷ ((known 30), false)
    ∷ ((known 31), false)
    ∷ ((known 32), false)
    ∷ ((known 33), false)
    ∷ ((known 34), false)
    ∷ ((known 35), false)
    ∷ ((known 36), false)
    ∷ ((known 37), false)
    ∷ ((known 38), false)
    ∷ ((known 39), false)
    ∷ ((known 40), false)
    ∷ ((known 41), false)
    ∷ ((known 42), false)
    ∷ ((known 43), false)
    ∷ ((known 44), false)
    ∷ ((known 45), false)
    ∷ ((known 46), false)
    ∷ ((known 47), false)
    ∷ ((known 48), false)
    ∷ ((known 49), false)
    ∷ ((known 50), false)
    ∷ ((known 51), false)
    ∷ ((known 52), false)
    ∷ ((known 53), false)
    ∷ ((known 54), false)
    ∷ ((known 55), false)
    ∷ ((known 56), false)
    ∷ ((known 57), false)
    ∷ ((known 58), false)
    ∷ ((known 59), false)
    ∷ ((known 60), false)
    ∷ ((known 61), true)
    ∷ ((known 62), true)
    ∷ ((known 63), false)
    ∷ ((known 64), false)
    ∷ ((known 65), false)
    ∷ ((known 66), false)
    ∷ ((known 67), false)
    ∷ ((known 68), false)
    ∷ ((known 69), false)
    ∷ ((known 70), false)
    ∷ ((known 71), false)
    ∷ ((known 72), false)
    ∷ ((known 73), false)
    ∷ ((known 74), false)
    ∷ ((known 75), false)
    ∷ ((known 76), false)
    ∷ ((known 77), false)
    ∷ ((known 78), false)
    ∷ ((known 79), false)
    ∷ ((known 80), false)
    ∷ ((known 81), false)
    ∷ ((known 82), false)
    ∷ ((known 83), false)
    ∷ (unknown, false)
    ∷ []

-- `MapPropertyTypeToPropertyCategory` and `MapPropertyTypeToPropertyTraits`; `none` stands for the
-- `std::invalid_argument`.
unfoldable pub map_property_type_to_property_category : PropertyType → Option PropertyCategory
map_property_type_to_property_category t =
    find_key (λ k. type_eq k t) property_type_to_property_category_map

unfoldable pub map_property_type_to_property_traits : PropertyType → Option Bool
map_property_type_to_property_traits t =
    find_key (λ k. type_eq k t) property_type_to_property_traits_map

-- `MapPropertyCategoryToNodeTraits` with its map.
unfoldable pub map_property_category_to_node_traits : PropertyCategory → NodeTraits
map_property_category_to_node_traits game_info_category t = same_trait game_info_trait t
map_property_category_to_node_traits move_category t = same_trait move_trait t
map_property_category_to_node_traits setup_category t = same_trait setup_trait t
map_property_category_to_node_traits node_annotation_category t = same_trait node_annotation_trait t
map_property_category_to_node_traits move_annotation_category t = same_trait move_annotation_trait t
map_property_category_to_node_traits markup_category t = same_trait markup_trait t
map_property_category_to_node_traits timing_category t = same_trait timing_trait t
map_property_category_to_node_traits root_category t = false
map_property_category_to_node_traits miscellaneous_category t = false

-- What one property adds to the traits of its node; `none` is an exception.
unfoldable pub add_traits : NodeTraits → Option PropertyCategory → Option Bool → Option NodeTraits
add_traits traits none inheritable = none
add_traits traits (some c) none = none
add_traits traits (some c) (some inheritable) = some (
    either (either traits (map_property_category_to_node_traits c))
      (if inheritable then same_trait inheritable_trait else no_traits))

-- The loop of `GetTraits` over the types of the properties.
unfoldable pub traits_loop : NodeTraits → List PropertyType → Option NodeTraits
traits_loop traits [] = some traits
traits_loop traits (p ∷ ps) =
    elim (add_traits traits (map_property_type_to_property_category p)
      (map_property_type_to_property_traits p)) [ none ↦ none | some more ↦ traits_loop more ps ]

-- `GetTraits`, for a node that is a root or not.
unfoldable pub get_traits : Bool → List PropertyType → Option NodeTraits
get_traits is_root ps = traits_loop (if is_root then same_trait root_trait else no_traits) ps

abbrev pub bit : NodeTrait → Option NodeTraits → Option Bool
bit t none = none
bit t (some traits) = some (traits t)

unfoldable pub has_trait : NodeTrait → Bool → List PropertyType → Option Bool
has_trait t is_root ps = bit t (get_traits is_root ps)
