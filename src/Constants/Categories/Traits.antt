-- ===== src/Constants/Categories/Traits.antt =====
-- The traits of a node are those that its properties give it.
use libsgfc.Common.{
  ℕ, ◌<◌, ◌≡◌, refl, ◌∙◌, Option, none, some, Bool, true, false, ◌&&◌, ◌||◌, List, [], ◌∷◌, arith,
  All,
}
use libsgfc.Property.{PropertyType, unknown, known}
use libsgfc.Constants.Names.Inverse.{type_count, all_below, all_below-each}
use libsgfc.Constants.Categories.{
  PropertyCategory, NodeTrait, root_trait, inheritable_trait, same_trait, NodeTraits, no_traits,
  map_property_type_to_property_category, map_property_type_to_property_traits,
  map_property_category_to_node_traits, add_traits, traits_loop, get_traits, bit, has_trait,
}

-- An enumerator of SgfcPropertyType.
abbrev pub IsEnumerator : PropertyType → Type 0
IsEnumerator unknown = Unit
IsEnumerator (known n) = n < type_count

abbrev category_trait : NodeTrait → Option PropertyCategory → Bool
category_trait t none = false
category_trait t (some c) = map_property_category_to_node_traits c t

abbrev or_false : Option Bool → Bool
or_false none = false
or_false (some b) = b

-- Whether a property gives its node a trait: through its category, or because it is inheritable.
abbrev pub gives : NodeTrait → PropertyType → Bool
gives t p =
    category_trait t (map_property_type_to_property_category p)
    || (or_false (map_property_type_to_property_traits p) && same_trait inheritable_trait t)

abbrev pub any_gives : NodeTrait → List PropertyType → Bool
any_gives t [] = false
any_gives t (p ∷ ps) = gives t p || any_gives t ps

abbrev is_some : {A : Type 0} → Option A → Bool
is_some none = false
is_some (some a) = true

abbrev has_entries : PropertyType → Bool
has_entries p =
    is_some (map_property_type_to_property_category p)
    && is_some (map_property_type_to_property_traits p)

abbrev known_has_entries : ℕ → Bool
known_has_entries n = has_entries (known n)

all_have_entries : all_below type_count known_has_entries ≡ true
unfolding map_property_type_to_property_category map_property_type_to_property_traits
all_have_entries = refl

unknown_has_entries : has_entries unknown ≡ true
unfolding map_property_type_to_property_category map_property_type_to_property_traits
unknown_has_entries = refl

IsEnumerator-has_entries : (p : PropertyType) → IsEnumerator p → has_entries p ≡ true
IsEnumerator-has_entries unknown i = unknown_has_entries
IsEnumerator-has_entries (known n) i =
    all_below-each type_count known_has_entries n all_have_entries i

-- What one property adds.
add_traits-gives :
    (t : NodeTrait) (traits : NodeTraits) (c : Option PropertyCategory) (i : Option Bool)
    → (is_some c && is_some i) ≡ true
    → (more : NodeTraits) × (add_traits traits c i ≡ some more)
      × (more t
          ≡ (traits t || (category_trait t c || (or_false i && same_trait inheritable_trait t))))
unfolding add_traits
add_traits-gives t traits none i h = absurd (ground arith)
add_traits-gives t traits (some c) none h = absurd (ground arith)
add_traits-gives t traits (some c) (some true) h = (_, refl, ground arith)
add_traits-gives t traits (some c) (some false) h = (_, refl, ground arith)

traits_loop-any :
    (t : NodeTrait) (traits : NodeTraits) (ps : List PropertyType)
    → All IsEnumerator ps
    → bit t (traits_loop traits ps) ≡ some (traits t || any_gives t ps)
unfolding traits_loop
traits_loop-any t traits [] h = ground arith
traits_loop-any t traits (p ∷ ps) (i, is) =
    let (more, e, m) =
      add_traits-gives t traits (map_property_type_to_property_category p)
        (map_property_type_to_property_traits p) (IsEnumerator-has_entries p i) in
    rw (traits_loop, e) (traits_loop-any t more ps is ∙ ground arith)

-- The properties of a node being of types that SgfcPropertyType lists, HasTrait does not throw, and
-- it returns true just when the trait is Root and the node is a root, or one of the properties
-- belongs to the category of the trait, or the trait is Inheritable and one of the properties is.
pub has_trait-any_gives :
    (t : NodeTrait) (is_root : Bool) (ps : List PropertyType)
    → All IsEnumerator ps
    → has_trait t is_root ps ≡ some ((is_root && same_trait root_trait t) || any_gives t ps)
unfolding has_trait get_traits
has_trait-any_gives t true ps h = traits_loop-any t (same_trait root_trait) ps h
has_trait-any_gives t false ps h = traits_loop-any t no_traits ps h
