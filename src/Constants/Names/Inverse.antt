-- ===== src/Constants/Names/Inverse.antt =====
-- The two tables of names are inverse to each other, and every type has a name.
use libsgfc.Common.{
  ℕ, zero, suc, ◌<◌, ◌≡◌, refl, sym, subst, ap, ◌∙◌, inl, inr, Option, none, some, Bool, true,
  false, ◌&&◌, List, [], ◌∷◌, ◌==◌, ==_iff, arith, Bool-cases,
}
use libsgfc.Text.Split.{Bytes, bytes_eq}
use libsgfc.Property.{PropertyType, known, type_eq}
use libsgfc.NodeProperties.Valid.{bytes_eq_iff, type_eq_iff}
use libsgfc.Constants.Names.{
  property_name_to_property_type_map, property_type_to_property_name_map, find_key,
  map_property_type_to_property_name, or_unknown, map_property_name_to_property_type,
}

abbrev all_pairs : {K A : Type 0} → (K → A → Bool) → List (K × A) → Bool
all_pairs ok [] = true
all_pairs ok ((k, a) ∷ rest) = ok k a && all_pairs ok rest

find_key-all :
    {K A : Type 0} (ok : K → A → Bool) (test : K → Bool) (a : A) (table : List (K × A))
    → all_pairs ok table ≡ true
    → find_key test table ≡ some a
    → (k : K) × (test k ≡ true) × (ok k a ≡ true)
find_key-all ok test a [] h e = absurd (ground arith)
find_key-all ok test a ((k, b) ∷ rest) h e = elim (Bool-cases (test k)) [
  | inl y ↦ (k, y, ground arith)
  | inr n ↦ find_key-all ok test a rest (ground arith) (ground arith)
]

-- A type's name, if it has one, is mapped back to it.
types_agree :
    all_pairs
      (λ t name. type_eq (map_property_name_to_property_type name) t)
      property_type_to_property_name_map
    ≡ true
unfolding map_property_name_to_property_type
types_agree = refl

abbrev is_name : Bytes → Option Bytes → Bool
is_name name none = false
is_name name (some other) = bytes_eq other name

is_name→eq : (name : Bytes) (o : Option Bytes) → is_name name o ≡ true → o ≡ some name
is_name→eq name none h = ground arith
is_name→eq name (some other) h = ap some ((bytes_eq_iff other name).0 h)

names_agree :
    all_pairs
      (λ name t. is_name name (map_property_type_to_property_name t))
      property_name_to_property_type_map
    ≡ true
unfolding map_property_type_to_property_name
names_agree = refl

abbrev pub all_below : ℕ → (ℕ → Bool) → Bool
all_below zero test = true
all_below (suc n) test = test n && all_below n test

pub all_below-each :
    (n : ℕ) (test : ℕ → Bool) (m : ℕ) → all_below n test ≡ true → m < n → test m ≡ true
all_below-each zero test m h lt = absurd (omega arith)
all_below-each (suc n) test m h lt = elim (Bool-cases (m == n)) [
  | inl e ↦ subst (λ k. test k ≡ true) (sym ((==_iff m n).0 e)) (ground arith)
  | inr e ↦ all_below-each n test m (ground arith) (ground arith)
]

abbrev is_some : Option Bytes → Bool
is_some none = false
is_some (some name) = true

some_of : (o : Option Bytes) → is_some o ≡ true → (name : Bytes) × (o ≡ some name)
some_of none h = absurd (ground arith)
some_of (some name) h = (name, refl)

-- The number of the enumerators of SgfcPropertyType in front of Unknown.
abbrev pub type_count : ℕ
type_count = 84

abbrev has_name : ℕ → Bool
has_name n = is_some (map_property_type_to_property_name (known n))

all_named : all_below type_count has_name ≡ true
unfolding map_property_type_to_property_name
all_named = refl

named-type :
    (t : PropertyType) (name : Bytes)
    → map_property_type_to_property_name t ≡ some name
    → map_property_name_to_property_type name ≡ t
unfolding map_property_type_to_property_name
named-type t name e =
    let (k, same, back) =
      find_key-all (λ k a. type_eq (map_property_name_to_property_type a) k) (λ k. type_eq k t) name
        property_type_to_property_name_map types_agree e in
    (type_eq_iff _ k).0 back ∙ (type_eq_iff k t).0 same

known_of : (o : Option PropertyType) (n : ℕ) → or_unknown o ≡ known n → o ≡ some (known n)
known_of none n e = absurd (cc)
known_of (some t) n e = ap some e

typed-name :
    (name : Bytes) (n : ℕ)
    → map_property_name_to_property_type name ≡ known n
    → map_property_type_to_property_name (known n) ≡ some name
unfolding map_property_name_to_property_type
typed-name name n e =
    let (k, same, back) =
      find_key-all (λ k t. is_name k (map_property_type_to_property_name t)) (λ k. bytes_eq k name)
        (known n) property_name_to_property_type_map names_agree (known_of _ n e) in
    is_name→eq k _ back ∙ ap some ((bytes_eq_iff k name).0 same)

-- The two maps of property names are inverse to each other: the name of a type is mapped back to
-- the type, a name that is mapped to another type than Unknown is the name of that type, and each
-- of the 84 types but Unknown has a name.
pub map_property_type_to_property_name-inverse :
    ((t : PropertyType) (name : Bytes)
      → map_property_type_to_property_name t ≡ some name
      → map_property_name_to_property_type name ≡ t)
    × ((name : Bytes) (n : ℕ)
        → map_property_name_to_property_type name ≡ known n
        → map_property_type_to_property_name (known n) ≡ some name)
    × ((n : ℕ)
        → n < type_count
        → (name : Bytes) × (map_property_type_to_property_name (known n) ≡ some name))
map_property_type_to_property_name-inverse =
    (named-type, typed-name, λ n lt. some_of _ (all_below-each type_count has_name n all_named lt))
