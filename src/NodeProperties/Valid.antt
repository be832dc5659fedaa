-- ===== src/NodeProperties/Valid.antt =====
-- No two properties of a node have the same name, or the same type unless it is unknown.
mod Erase
pub mod Edits
pub mod Lookup
use libsgfc.Common.{
  ℕ, ◌≡◌, ◌↔◌, ◌⊎◌, refl, sym, ap, inl, inr, Option, none, some, Bool, true, false, not, ◌&&◌, ◌||◌,
  List, [], ◌∷◌, ◌++◌, ◌==◌, ==_iff, if◌then◌else◌, arith, Bool-cases, ◌∙◌,
}
use libsgfc.Text.Split.{Bytes, bytes_eq}
use libsgfc.Tree.Store.{Ref}
use libsgfc.Property.{PropertyType, unknown, known, type_eq}
use libsgfc.NodeProperties.{
  Held, Properties, on_held, finds_if, erase_if, has_name, has_type, is_object, is_known,
  PropertyRefusal, PropertyEdit, changed, refused, after, seen_type, seen_name, validate_loop,
  validate_properties, accept, set_properties, set_property, append_property, finds_null,
  erase_null, remove_property, remove_all_properties, find_if, get_property_of_type,
  get_property_of_name, null_in_properties, duplicate_type, duplicate_name,
}

pub bytes_eq_iff : (a b : Bytes) → (bytes_eq a b ≡ true) ↔ (a ≡ b)
bytes_eq_iff [] [] = (λ h. refl, λ h. refl)
bytes_eq_iff [] (b ∷ bs) = ground arith
bytes_eq_iff (a ∷ as_) [] = ground arith
bytes_eq_iff (a ∷ as_) (b ∷ bs) = ground (arith, bytes_eq_iff as_ bs)

pub type_eq_iff : (a b : PropertyType) → (type_eq a b ≡ true) ↔ (a ≡ b)
type_eq_iff unknown unknown = (λ h. refl, λ h. refl)
type_eq_iff unknown (known b) = ground arith
type_eq_iff (known a) unknown = ground arith
type_eq_iff (known a) (known b) = ground arith

-- No property of the vector has the name or the known type.
abbrev pub is_free : PropertyType → Bytes → Properties → Bool
is_free t n ps = not (finds_if (has_name n) ps) && not (is_known t && finds_if (has_type t) ps)

abbrev pub is_valid : Properties → Bool
is_valid [] = true
is_valid (none ∷ ps) = false
is_valid (some p ∷ ps) = is_free p.type_of p.name_of ps && is_valid ps

abbrev pub IsValid : Properties → Type 0
IsValid ps = is_valid ps ≡ true

-- No property of the vector has one of these types, if known, or names.
abbrev is_unseen : List PropertyType → List Bytes → Properties → Bool
is_unseen types names [] = true
is_unseen types names (none ∷ ps) = is_unseen types names ps
is_unseen types names (some p ∷ ps) =
    not (is_known p.type_of && seen_type p.type_of types)
    && (not (seen_name p.name_of names) && is_unseen types names ps)

abbrev accepted : Option PropertyRefusal → Bool
accepted none = true
accepted (some e) = false

pub bytes_eq_comm : (a b : Bytes) → bytes_eq a b ≡ bytes_eq b a
bytes_eq_comm a b = ground (arith, bytes_eq_iff a b, bytes_eq_iff b a)

is_unseen-cons :
    (t : PropertyType) (n : Bytes) (types : List PropertyType) (names : List Bytes)
    (ps : Properties)
    → is_unseen (t ∷ types) (n ∷ names) ps ≡ (is_free t n ps && is_unseen types names ps)
is_unseen-cons t n types names [] = ground arith
is_unseen-cons t n types names (none ∷ ps) = is_unseen-cons t n types names ps
is_unseen-cons unknown n types names (some p ∷ ps) =
    ground (arith, is_unseen-cons unknown n types names ps, bytes_eq_comm n p.name_of)
is_unseen-cons (known i) n types names (some p ∷ ps) = ground (
  arith,
  is_unseen-cons (known i) n types names ps,
  bytes_eq_comm n p.name_of,
  type_eq_iff (known i) p.type_of,
  type_eq_iff p.type_of (known i),
)

validate_loop-is_valid :
    (types : List PropertyType) (names : List Bytes) (ps : Properties)
    → accepted (validate_loop types names ps) ≡ (is_unseen types names ps && is_valid ps)
unfolding validate_loop
validate_loop-is_valid types names [] = refl
validate_loop-is_valid types names (none ∷ ps) = ground arith
validate_loop-is_valid types names (some p ∷ ps) = ground (
  arith,
  validate_loop-is_valid (p.type_of ∷ types) (p.name_of ∷ names) ps,
  is_unseen-cons p.type_of p.name_of types names ps,
)

is_unseen-nil : (ps : Properties) → is_unseen [] [] ps ≡ true
is_unseen-nil [] = refl
is_unseen-nil (none ∷ ps) = is_unseen-nil ps
is_unseen-nil (some p ∷ ps) = ground (arith, is_unseen-nil ps)

pub validate_properties-is_valid :
    (ps : Properties) → accepted (validate_properties ps) ≡ is_valid ps
unfolding validate_properties
validate_properties-is_valid ps = ground (arith, validate_loop-is_valid [] [] ps, is_unseen-nil ps)
