-- ===== src/NodeProperties.antt =====
-- The properties of a node (src/document/SgfcNode.cpp). A node holds pointers to property objects;
-- their types and names never change, so they stand beside the identity of the object.
pub mod Valid
pub mod Inherited
use libsgfc.Common.{
  ℕ, zero, suc, Option, none, some, Bool, true, false, not, ◌&&◌, ◌||◌, List, [], ◌∷◌, ◌++◌, ◌==◌,
  if◌then◌else◌,
}
use libsgfc.Text.Split.{Bytes, bytes_eq}
use libsgfc.Tree.Store.{Ref, Store}
use libsgfc.Property.{PropertyType, unknown, known, type_eq}

-- A property object: which object it is, its type and its name.
pub record Held : Type 0 where
  pub identity : Ref
  pub type_of : PropertyType
  pub name_of : Bytes

abbrev pub Properties : Type 0
Properties = List (Option Held)

-- The test for an element of a vector, where no element is null.
abbrev pub on_held : (Held → Bool) → Option Held → Bool
on_held test none = false
on_held test (some p) = test p

-- `std::find_if`, and `erase` at the position found.
abbrev pub finds_if : (Held → Bool) → Properties → Bool
finds_if test [] = false
finds_if test (q ∷ qs) = on_held test q || finds_if test qs

abbrev pub erase_if : (Held → Bool) → Properties → Properties
erase_if test [] = []
erase_if test (q ∷ qs) = if on_held test q then qs else q ∷ erase_if test qs

abbrev pub has_name : Bytes → Held → Bool
has_name n p = bytes_eq p.name_of n

abbrev pub has_type : PropertyType → Held → Bool
has_type t p = type_eq p.type_of t

abbrev pub is_object : Ref → Held → Bool
is_object r p = p.identity == r

abbrev pub is_known : PropertyType → Bool
is_known unknown = false
is_known (known i) = true

-- The reasons for a `std::invalid_argument`, and the outcome of a method that changes the vector.
pub data PropertyRefusal : Type 0 where
  property_is_null : PropertyRefusal
  property_is_present : PropertyRefusal
  property_is_missing : PropertyRefusal
  null_in_properties : PropertyRefusal
  duplicate_type : PropertyRefusal
  duplicate_name : PropertyRefusal

pub data PropertyEdit : Type 0 where
  changed : Properties → PropertyEdit
  refused : PropertyRefusal → PropertyEdit

abbrev pub after : Properties → PropertyEdit → Properties
after old (changed new) = new
after old (refused e) = old

-- The two maps of `ValidateProperties`, as lists of their keys.
abbrev pub seen_type : PropertyType → List PropertyType → Bool
seen_type t [] = false
seen_type t (u ∷ us) = type_eq u t || seen_type t us

abbrev pub seen_name : Bytes → List Bytes → Bool
seen_name n [] = false
seen_name n (m ∷ ms) = bytes_eq m n || seen_name n ms

-- The loop of `ValidateProperties`: `none`, or why the validation failed.
unfoldable pub validate_loop : List PropertyType → List Bytes → Properties → Option PropertyRefusal
validate_loop types names [] = none
validate_loop types names (none ∷ ps) = some null_in_properties
validate_loop types names (some p ∷ ps) =
    let rest = validate_loop (p.type_of ∷ types) (p.name_of ∷ names) ps in
    if is_known p.type_of && seen_type p.type_of types
    then some duplicate_type
    else if seen_name p.name_of names
    then some duplicate_name
    else rest

unfoldable pub validate_properties : Properties → Option PropertyRefusal
validate_properties ps = validate_loop [] [] ps

abbrev pub accept : Properties → Option PropertyRefusal → PropertyEdit
accept new none = changed new
accept new (some e) = refused e

unfoldable pub set_properties : Properties → Properties → PropertyEdit
set_properties new ps = accept new (validate_properties new)

unfoldable pub set_property : Option Held → Properties → PropertyEdit
set_property none ps = refused property_is_null
set_property (some p) ps =
    let unnamed = erase_if (has_name p.name_of) ps in
    let rest = if is_known p.type_of then erase_if (has_type p.type_of) unnamed else unnamed in
    changed (rest ++ some p ∷ [])

unfoldable pub append_property : Option Held → Properties → PropertyEdit
append_property none ps = refused property_is_null
append_property (some p) ps =
    if finds_if (is_object p.identity) ps
    then refused property_is_present
    else accept (ps ++ some p ∷ []) (validate_properties (ps ++ some p ∷ []))

-- A null pointer is found only if the vector has one.
abbrev pub finds_null : Properties → Bool
finds_null [] = false
finds_null (none ∷ ps) = true
finds_null (some p ∷ ps) = finds_null ps

abbrev pub erase_null : Properties → Properties
erase_null [] = []
erase_null (none ∷ ps) = ps
erase_null (some p ∷ ps) = some p ∷ erase_null ps

unfoldable pub remove_property : Option Held → Properties → PropertyEdit
remove_property none ps =
    if not (finds_null ps) then refused property_is_missing else changed (erase_null ps)
remove_property (some p) ps =
    if not (finds_if (is_object p.identity) ps)
    then refused property_is_missing
    else changed (erase_if (is_object p.identity) ps)

unfoldable pub remove_all_properties : Properties → PropertyEdit
remove_all_properties ps = changed []

unfoldable pub has_properties : Properties → Bool
has_properties [] = false
has_properties (p ∷ ps) = true

abbrev pub find_if : (Held → Bool) → Properties → Option Held
find_if test [] = none
find_if test (q ∷ qs) = if on_held test q then q else find_if test qs

-- The two `GetProperty`.
unfoldable pub get_property_of_type : PropertyType → Properties → Option Held
get_property_of_type t ps = find_if (has_type t) ps

unfoldable pub get_property_of_name : Bytes → Properties → Option Held
get_property_of_name n ps = find_if (has_name n) ps

-- `GetProperties` of a category; which category a type has is a table of SgfcConstants.
unfoldable pub get_properties_of_category : (PropertyType → Bool) → Properties → Properties
get_properties_of_category in_category [] = []
get_properties_of_category in_category (p ∷ ps) =
    let rest = get_properties_of_category in_category ps in
    if on_held (λ q. in_category q.type_of) p then p ∷ rest else rest

-- The inner loop of `GetInheritedProperties` over the properties of one node, with the names seen
-- and the vector built so far.
pub record Inheritance : Type 0 where
  pub collected : Properties
  pub names_seen : List Bytes

unfoldable pub inherit_one : (PropertyType → Bool) → Inheritance → Held → Inheritance
inherit_one inheritable i p =
    if seen_name p.name_of i.names_seen
    then i
    else if inheritable p.type_of
    then record { collected = i.collected ++ some p ∷ []; names_seen = p.name_of ∷ i.names_seen }
    else i

unfoldable pub inherit_from : (PropertyType → Bool) → Inheritance → Properties → Inheritance
inherit_from inheritable i [] = i
inherit_from inheritable i (none ∷ ps) = inherit_from inheritable i ps
inherit_from inheritable i (some p ∷ ps) = inherit_from inheritable (inherit_one inheritable i p) ps

-- The outer loop, up to the root.
unfoldable pub inherit_loop :
    ℕ
    → Store
    → (Ref → Properties)
    → (PropertyType → Bool)
    → Option Ref
    → Inheritance
    → Option Properties
inherit_loop zero s properties inheritable n i = none
inherit_loop (suc fuel) s properties inheritable none i = some i.collected
inherit_loop (suc fuel) s properties inheritable (some n) i =
    inherit_loop fuel s properties inheritable (s.parent n)
      (inherit_from inheritable i (properties n))

unfoldable pub get_inherited_properties :
    ℕ → Store → (Ref → Properties) → (PropertyType → Bool) → Ref → Option Properties
get_inherited_properties fuel s properties inheritable n =
    inherit_loop fuel s properties inheritable (some n) (record { collected = []; names_seen = [] })
