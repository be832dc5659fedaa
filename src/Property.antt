-- ===== src/Property.antt =====
-- The class SgfcProperty (src/document/SgfcProperty.cpp).
pub mod Values
use libsgfc.Common.{
  ℕ, Option, none, some, Bool, true, false, not, List, [], ◌∷◌, ◌++◌, length, ◌==◌, if◌then◌else◌,
}
use libsgfc.Text.Split.{Bytes}
use libsgfc.Tree.Store.{Ref}
use libsgfc.Pointers.{Pointers, finds, erase_found, to_set, Edit, changed, refused}

-- SgfcPropertyType: `Unknown`, or another enumerator by its number.
pub data PropertyType : Type 0 where
  unknown : PropertyType
  known : ℕ → PropertyType

abbrev pub type_eq : PropertyType → PropertyType → Bool
type_eq unknown unknown = true
type_eq unknown (known b) = false
type_eq (known a) unknown = false
type_eq (known a) (known b) = a == b

-- The members of a property.
pub record Property : Type 0 where
  pub property_type : PropertyType
  pub property_name : Bytes
  pub property_values : Pointers

-- The reasons for a `std::invalid_argument`.
pub data ValueRefusal : Type 0 where
  duplicate_values : ValueRefusal
  null_in_values : ValueRefusal
  value_is_null : ValueRefusal
  value_is_present : ValueRefusal
  value_is_missing : ValueRefusal

unfoldable pub has_property_values : Property → Bool
has_property_values p = not (length p.property_values == 0)

-- The first value, or null.
unfoldable pub get_property_value : Pointers → Option Ref
get_property_value [] = none
get_property_value (v ∷ values) = v

unfoldable pub set_property_values : Pointers → Pointers → Edit ValueRefusal
set_property_values new values =
    if not (length (to_set new) == length new)
    then refused duplicate_values
    else if finds none new
    then refused null_in_values
    else changed new

unfoldable pub append_property_value : Option Ref → Pointers → Edit ValueRefusal
append_property_value none values = refused value_is_null
append_property_value (some v) values =
    if finds (some v) values then refused value_is_present else changed (values ++ some v ∷ [])

unfoldable pub remove_property_value : Option Ref → Pointers → Edit ValueRefusal
remove_property_value v values =
    if not (finds v values) then refused value_is_missing else changed (erase_found v values)

unfoldable pub remove_all_property_values : Pointers → Edit ValueRefusal
remove_all_property_values values = changed []

abbrev with_values : PropertyType → Bytes → Edit ValueRefusal → Option Property
with_values t name (changed values) =
    some (record { property_type = t; property_name = name; property_values = values })
with_values t name (refused e) = none

-- The constructor with values: `none` is the exception of `SetPropertyValues`.
unfoldable pub make_property : PropertyType → Bytes → Pointers → Option Property
make_property t name new = with_values t name (set_property_values new [])
