-- ===== src/RoundInformation.antt =====
-- The round of a game as a property value (src/game/SgfcRoundInformation.cpp, with the regular
-- expression of src/SgfcPrivateConstants.cpp).
pub mod Trips
use libsgfc.Common.{
  Option, none, some, Bool, true, false, ◌&&◌, ◌||◌, not, List, [], ◌∷◌, ◌++◌, ◌==◌, if◌then◌else◌,
}
use libsgfc.Text.Split.{Bytes}

-- The members of SgfcRoundInformation.
pub record Round : Type 0 where
  pub round_number : Bytes
  pub round_type : Bytes
  pub is_valid : Bool

abbrev pub no_round : Round
no_round = record { round_number = []; round_type = []; is_valid = false }

abbrev pub valid : Bytes × Bytes → Round
valid (number, type) = record { round_number = number; round_type = type; is_valid = true }

-- What `.` of a regular expression does not match, in the C locale.
abbrev pub has_line_end : Bytes → Bool
has_line_end [] = false
has_line_end (c ∷ cs) = (c == 10) || (c == 13) || has_line_end cs

abbrev pub cons_if : Bytes → Option Bytes → Option Bytes
cons_if c none = none
cons_if c (some s) = some (c ++ s)

-- The text in front of a closing parenthesis at its end.
unfoldable pub without_parenthesis : Bytes → Option Bytes
without_parenthesis [] = none
without_parenthesis (c ∷ []) = if c == b')' then some [] else none
without_parenthesis (c ∷ d ∷ ds) = cons_if (c ∷ []) (without_parenthesis (d ∷ ds))

abbrev pub put_front :
    Bytes → Option (Bytes × Bytes) → Option (Bytes × Bytes) → Option (Bytes × Bytes)
put_front c found (some (a, b)) = some (c ++ a, b)
put_front c found none = found

-- The text behind an opening parenthesis at its start.
abbrev pub behind_parenthesis : Bytes → Option (Bytes × Bytes)
behind_parenthesis [] = none
behind_parenthesis (c ∷ cs) = if c == b'(' then some ([], cs) else none

-- The last " (", what is in front of it and what is behind: the first `.*` is greedy.
unfoldable pub split_last : Bytes → Option (Bytes × Bytes)
split_last [] = none
split_last (c ∷ cs) =
    put_front (c ∷ []) (if c == b' ' then behind_parenthesis cs else none) (split_last cs)

abbrev pub split_if : Option Bytes → Option (Bytes × Bytes)
split_if none = none
split_if (some s) = split_last s

-- `(.*) \((.*)\)`, matched by the whole text.
unfoldable pub match_round : Bytes → Option (Bytes × Bytes)
match_round s = if has_line_end s then none else split_if (without_parenthesis s)

abbrev pub or_no_round : Option (Bytes × Bytes) → Round
or_no_round none = no_round
or_no_round (some m) = valid m

unfoldable pub round_from_property_value : Bytes → Round
round_from_property_value s = or_no_round (match_round s)

unfoldable pub round_to_property_value : Round → Bytes
round_to_property_value r =
    if r.is_valid then r.round_number ++ b' ' ∷ b'(' ∷ (r.round_type ++ b')' ∷ []) else []
