-- ===== src/Constants/Names.antt =====
-- The tables of src/SgfcConstants.cpp that map the types of properties to their names and back, and
-- the functions of src/SgfcUtility.cpp that look them up.
pub mod Inverse
use libsgfc.Common.{ℕ, Option, none, some, Bool, List, [], ◌∷◌, if◌then◌else◌}
use libsgfc.Text.Split.{Bytes, bytes_eq}
use libsgfc.Property.{PropertyType, unknown, known, type_eq}

-- `PropertyNameToPropertyTypeMap`.
abbrev pub property_name_to_property_type_map : List (Bytes × PropertyType)
property_name_to_property_type_map =
    ((b'B' ∷ []), (known 0))
    ∷ ((b'K' ∷ b'O' ∷ []), (known 1))
    ∷ ((b'M' ∷ b'N' ∷ []), (known 2))
    ∷ ((b'W' ∷ []), (known 3))
    ∷ ((b'A' ∷ b'B' ∷ []), (known 4))
    ∷ ((b'A' ∷ b'E' ∷ []), (known 5))
    ∷ ((b'A' ∷ b'W' ∷ []), (known 6))
    ∷ ((b'P' ∷ b'L' ∷ []), (known 7))
    ∷ ((b'C' ∷ []), (known 8))
    ∷ ((b'D' ∷ b'M' ∷ []), (known 9))
    ∷ ((b'G' ∷ b'B' ∷ []), (known 10))
    ∷ ((b'G' ∷ b'W' ∷ []), (known 11))
    ∷ ((b'H' ∷ b'O' ∷ []), (known 12))
    ∷ ((b'N' ∷ []), (known 13))
    ∷ ((b'U' ∷ b'C' ∷ []), (known 14))
    ∷ ((b'V' ∷ []), (known 15))
    ∷ ((b'B' ∷ b'M' ∷ []), (known 16))
    ∷ ((b'D' ∷ b'O' ∷ []), (known 17))
    ∷ ((b'I' ∷ b'T' ∷ []), (known 18))
    ∷ ((b'T' ∷ b'E' ∷ []), (known 19))
    ∷ ((b'A' ∷ b'R' ∷ []), (known 20))
    ∷ ((b'C' ∷ b'R' ∷ []), (known 21))
    ∷ ((b'D' ∷ b'D' ∷ []), (known 22))
    ∷ ((b'L' ∷ b'B' ∷ []), (known 23))
    ∷ ((b'L' ∷ b'N' ∷ []), (known 24))
    ∷ ((b'M' ∷ b'A' ∷ []), (known 25))
    ∷ ((b'S' ∷ b'L' ∷ []), (known 26))
    ∷ ((b'S' ∷ b'Q' ∷ []), (known 27))
    ∷ ((b'T' ∷ b'R' ∷ []), (known 28))
    ∷ ((b'A' ∷ b'P' ∷ []), (known 29))
    ∷ ((b'C' ∷ b'A' ∷ []), (known 30))
    ∷ ((b'F' ∷ b'F' ∷ []), (known 31))
    ∷ ((b'G' ∷ b'M' ∷ []), (known 32))
    ∷ ((b'S' ∷ b'T' ∷ []), (known 33))
    ∷ ((b'S' ∷ b'Z' ∷ []), (known 34))
    ∷ ((b'A' ∷ b'N' ∷ []), (known 35))
    ∷ ((b'B' ∷ b'R' ∷ []), (known 36))
    ∷ ((b'B' ∷ b'T' ∷ []), (known 37))
    ∷ ((b'C' ∷ b'P' ∷ []), (known 38))
    ∷ ((b'D' ∷ b'T' ∷ []), (known 39))
    ∷ ((b'E' ∷ b'V' ∷ []), (known 40))
    ∷ ((b'G' ∷ b'N' ∷ []), (known 41))
    ∷ ((b'G' ∷ b'C' ∷ []), (known 42))
    ∷ ((b'O' ∷ b'N' ∷ []), (known 43))
    ∷ ((b'O' ∷ b'T' ∷ []), (known 44))
    ∷ ((b'P' ∷ b'B' ∷ []), (known 45))
    ∷ ((b'P' ∷ b'C' ∷ []), (known 46))
    ∷ ((b'P' ∷ b'W' ∷ []), (known 47))
    ∷ ((b'R' ∷ b'E' ∷ []), (known 48))
    ∷ ((b'R' ∷ b'O' ∷ []), (known 49))
    ∷ ((b'R' ∷ b'U' ∷ []), (known 50))
    ∷ ((b'S' ∷ b'O' ∷ []), (known 51))
    ∷ ((b'T' ∷ b'M' ∷ []), (known 52))
    ∷ ((b'U' ∷ b'S' ∷ []), (known 53))
    ∷ ((b'W' ∷ b'R' ∷ []), (known 54))
    ∷ ((b'W' ∷ b'T' ∷ []), (known 55))
    ∷ ((b'B' ∷ b'L' ∷ []), (known 56))
    ∷ ((b'O' ∷ b'B' ∷ []), (known 57))
    ∷ ((b'O' ∷ b'W' ∷ []), (known 58))
    ∷ ((b'W' ∷ b'L' ∷ []), (known 59))
    ∷ ((b'F' ∷ b'G' ∷ []), (known 60))
    ∷ ((b'P' ∷ b'M' ∷ []), (known 61))
    ∷ ((b'V' ∷ b'W' ∷ []), (known 62))
    ∷ ((b'B' ∷ b'S' ∷ []), (known 63))
    ∷ ((b'C' ∷ b'H' ∷ []), (known 64))
    ∷ ((b'E' ∷ b'L' ∷ []), (known 65))
    ∷ ((b'E' ∷ b'X' ∷ []), (known 66))
    ∷ ((b'I' ∷ b'D' ∷ []), (known 67))
    ∷ ((b'L' ∷ []), (known 68))
    ∷ ((b'L' ∷ b'T' ∷ []), (known 69))
    ∷ ((b'M' ∷ []), (known 70))
    ∷ ((b'O' ∷ b'M' ∷ []), (known 71))
    ∷ ((b'O' ∷ b'P' ∷ []), (known 72))
    ∷ ((b'O' ∷ b'V' ∷ []), (known 73))
    ∷ ((b'R' ∷ b'G' ∷ []), (known 74))
    ∷ ((b'S' ∷ b'C' ∷ []), (known 75))
    ∷ ((b'S' ∷ b'E' ∷ []), (known 76))
    ∷ ((b'S' ∷ b'I' ∷ []), (known 77))
    ∷ ((b'T' ∷ b'C' ∷ []), (known 78))
    ∷ ((b'W' ∷ b'S' ∷ []), (known 79))
    ∷ ((b'H' ∷ b'A' ∷ []), (known 80))
    ∷ ((b'K' ∷ b'M' ∷ []), (known 81))
    ∷ ((b'T' ∷ b'B' ∷ []), (known 82))
    ∷ ((b'T' ∷ b'W' ∷ []), (known 83))
    ∷ []

-- `PropertyTypeToPropertyNameMap`.
abbrev pub property_type_to_property_name_map : List (PropertyType × Bytes)
property_type_to_property_name_map =
    ((known 0), (b'B' ∷ []))
    ∷ ((known 1), (b'K' ∷ b'O' ∷ []))
    ∷ ((known 2), (b'M' ∷ b'N' ∷ []))
    ∷ ((known 3), (b'W' ∷ []))
    ∷ ((known 4), (b'A' ∷ b'B' ∷ []))
    ∷ ((known 5), (b'A' ∷ b'E' ∷ []))
    ∷ ((known 6), (b'A' ∷ b'W' ∷ []))
    ∷ ((known 7), (b'P' ∷ b'L' ∷ []))
    ∷ ((known 8), (b'C' ∷ []))
    ∷ ((known 9), (b'D' ∷ b'M' ∷ []))
    ∷ ((known 10), (b'G' ∷ b'B' ∷ []))
    ∷ ((known 11), (b'G' ∷ b'W' ∷ []))
    ∷ ((known 12), (b'H' ∷ b'O' ∷ []))
    ∷ ((known 13), (b'N' ∷ []))
    ∷ ((known 14), (b'U' ∷ b'C' ∷ []))
    ∷ ((known 15), (b'V' ∷ []))
    ∷ ((known 16), (b'B' ∷ b'M' ∷ []))
    ∷ ((known 17), (b'D' ∷ b'O' ∷ []))
    ∷ ((known 18), (b'I' ∷ b'T' ∷ []))
    ∷ ((known 19), (b'T' ∷ b'E' ∷ []))
    ∷ ((known 20), (b'A' ∷ b'R' ∷ []))
    ∷ ((known 21), (b'C' ∷ b'R' ∷ []))
    ∷ ((known 22), (b'D' ∷ b'D' ∷ []))
    ∷ ((known 23), (b'L' ∷ b'B' ∷ []))
    ∷ ((known 24), (b'L' ∷ b'N' ∷ []))
    ∷ ((known 25), (b'M' ∷ b'A' ∷ []))
    ∷ ((known 26), (b'S' ∷ b'L' ∷ []))
    ∷ ((known 27), (b'S' ∷ b'Q' ∷ []))
    ∷ ((known 28), (b'T' ∷ b'R' ∷ []))
    ∷ ((known 29), (b'A' ∷ b'P' ∷ []))
    ∷ ((known 30), (b'C' ∷ b'A' ∷ []))
    ∷ ((known 31), (b'F' ∷ b'F' ∷ []))
    ∷ ((known 32), (b'G' ∷ b'M' ∷ []))
    ∷ ((known 33), (b'S' ∷ b'T' ∷ []))
    ∷ ((known 34), (b'S' ∷ b'Z' ∷ []))
    ∷ ((known 35), (b'A' ∷ b'N' ∷ []))
    ∷ ((known 36), (b'B' ∷ b'R' ∷ []))
    ∷ ((known 37), (b'B' ∷ b'T' ∷ []))
    ∷ ((known 38), (b'C' ∷ b'P' ∷ []))
    ∷ ((known 39), (b'D' ∷ b'T' ∷ []))
    ∷ ((known 40), (b'E' ∷ b'V' ∷ []))
    ∷ ((known 41), (b'G' ∷ b'N' ∷ []))
    ∷ ((known 42), (b'G' ∷ b'C' ∷ []))
    ∷ ((known 43), (b'O' ∷ b'N' ∷ []))
    ∷ ((known 44), (b'O' ∷ b'T' ∷ []))
    ∷ ((known 45), (b'P' ∷ b'B' ∷ []))
    ∷ ((known 46), (b'P' ∷ b'C' ∷ []))
    ∷ ((known 47), (b'P' ∷ b'W' ∷ []))
    ∷ ((known 48), (b'R' ∷ b'E' ∷ []))
    ∷ ((known 49), (b'R' ∷ b'O' ∷ []))
    ∷ ((known 50), (b'R' ∷ b'U' ∷ []))
    ∷ ((known 51), (b'S' ∷ b'O' ∷ []))
    ∷ ((known 52), (b'T' ∷ b'M' ∷ []))
    ∷ ((known 53), (b'U' ∷ b'S' ∷ []))
    ∷ ((known 54), (b'W' ∷ b'R' ∷ []))
    ∷ ((known 55), (b'W' ∷ b'T' ∷ []))
    ∷ ((known 56), (b'B' ∷ b'L' ∷ []))
    ∷ ((known 57), (b'O' ∷ b'B' ∷ []))
    ∷ ((known 58), (b'O' ∷ b'W' ∷ []))
    ∷ ((known 59), (b'W' ∷ b'L' ∷ []))
    ∷ ((known 60), (b'F' ∷ b'G' ∷ []))
    ∷ ((known 61), (b'P' ∷ b'M' ∷ []))
    ∷ ((known 62), (b'V' ∷ b'W' ∷ []))
    ∷ ((known 63), (b'B' ∷ b'S' ∷ []))
    ∷ ((known 64), (b'C' ∷ b'H' ∷ []))
    ∷ ((known 65), (b'E' ∷ b'L' ∷ []))
    ∷ ((known 66), (b'E' ∷ b'X' ∷ []))
    ∷ ((known 67), (b'I' ∷ b'D' ∷ []))
    ∷ ((known 68), (b'L' ∷ []))
    ∷ ((known 69), (b'L' ∷ b'T' ∷ []))
    ∷ ((known 70), (b'M' ∷ []))
    ∷ ((known 71), (b'O' ∷ b'M' ∷ []))
    ∷ ((known 72), (b'O' ∷ b'P' ∷ []))
    ∷ ((known 73), (b'O' ∷ b'V' ∷ []))
    ∷ ((known 74), (b'R' ∷ b'G' ∷ []))
    ∷ ((known 75), (b'S' ∷ b'C' ∷ []))
    ∷ ((known 76), (b'S' ∷ b'E' ∷ []))
    ∷ ((known 77), (b'S' ∷ b'I' ∷ []))
    ∷ ((known 78), (b'T' ∷ b'C' ∷ []))
    ∷ ((known 79), (b'W' ∷ b'S' ∷ []))
    ∷ ((known 80), (b'H' ∷ b'A' ∷ []))
    ∷ ((known 81), (b'K' ∷ b'M' ∷ []))
    ∷ ((known 82), (b'T' ∷ b'B' ∷ []))
    ∷ ((known 83), (b'T' ∷ b'W' ∷ []))
    ∷ []

-- `find` on a map: the value of the first key that the test accepts.
abbrev pub find_key : {K A : Type 0} → (K → Bool) → List (K × A) → Option A
find_key test [] = none
find_key test ((k, a) ∷ rest) = let later = find_key test rest in if test k then some a else later

-- `MapPropertyTypeToPropertyName`; `none` stands for the `std::invalid_argument`.
unfoldable pub map_property_type_to_property_name : PropertyType → Option Bytes
map_property_type_to_property_name t =
    find_key (λ k. type_eq k t) property_type_to_property_name_map

abbrev pub or_unknown : Option PropertyType → PropertyType
or_unknown none = unknown
or_unknown (some t) = t

-- `MapPropertyNameToPropertyType`.
unfoldable pub map_property_name_to_property_type : Bytes → PropertyType
map_property_name_to_property_type name =
    or_unknown (find_key (λ k. bytes_eq k name) property_name_to_property_type_map)
