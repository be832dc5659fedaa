-- ===== src/Text/Split.antt =====
-- `SplitString`, `StringStartsWith` and `StringEndsWith` of src/SgfcUtility.cpp. A position in a
-- text is the rest of the text from there on.
pub mod Laws
use libsgfc.Common.{
  ℕ, zero, suc, ◌+◌, ◌-◌, Bool, true, false, ◌&&◌, Option, none, some, List, [], ◌∷◌, ◌++◌, ltb,
  ◌==◌, if◌then◌else◌, length, take, drop,
}

abbrev pub Bytes : Type 0
Bytes = List ℕ

abbrev pub bytes_eq : Bytes → Bytes → Bool
bytes_eq [] [] = true
bytes_eq [] (y ∷ ys) = false
bytes_eq (x ∷ xs) [] = false
bytes_eq (x ∷ xs) (y ∷ ys) = (x == y) && bytes_eq xs ys

-- `string.compare(0, prefix.size(), prefix) == 0`.
unfoldable pub string_starts_with : Bytes → Bytes → Bool
string_starts_with string prefix =
    if ltb (length string) (length prefix)
    then false
    else bytes_eq (take (length prefix) string) prefix

unfoldable pub string_ends_with : Bytes → Bytes → Bool
string_ends_with string suffix =
    if ltb (length string) (length suffix)
    then false
    else bytes_eq (drop (length string - length suffix) string) suffix

-- `std::string::find`: how far from here the first occurrence is.
unfoldable pub find : Bytes → Bytes → Option ℕ
unfolding string_starts_with
find delimiter [] = if string_starts_with [] delimiter then some 0 else none
find delimiter (x ∷ xs) =
    if string_starts_with (x ∷ xs) delimiter then some 0 else later (find delimiter xs)
  where
    later : Option ℕ → Option ℕ
    later none = none
    later (some i) = some (suc i)

-- The loop of `SplitString` at a start position; `none` says that the fuel ran out.
unfoldable pub split_loop : ℕ → Bytes → Bytes → List Bytes → Option (List Bytes)
unfolding find
split_loop zero delimiter rest substrings = none
split_loop (suc fuel) delimiter [] substrings = some (substrings ++ [] ∷ [])
split_loop (suc fuel) delimiter (x ∷ xs) substrings = elim (find delimiter (x ∷ xs)) [
  | none ↦ some (substrings ++ (x ∷ xs) ∷ [])
  | some i ↦ split_loop fuel delimiter (drop (i + 1) (x ∷ xs)) (substrings ++ take i (x ∷ xs) ∷ [])
]

-- `SplitString` with a text as the delimiter.
unfoldable pub split_at : Bytes → Bytes → Option (List Bytes)
unfolding split_loop
split_at string delimiter = split_loop (suc (length string)) delimiter string []

abbrev pub or_empty : Option (List Bytes) → List Bytes
or_empty none = []
or_empty (some substrings) = substrings

-- `SplitString` with a character as the delimiter. It never runs out of fuel: `split_at-fields`.
unfoldable pub split_string : Bytes → ℕ → List Bytes
unfolding split_at
split_string string delimiter = or_empty (split_at string (delimiter ∷ []))
