-- ===== src/PlayerRank.antt =====
-- The rank of a Go player as a property value (src/game/go/SgfcGoPlayerRank.cpp, with the regular
-- expression of src/SgfcPrivateConstants.cpp).
pub mod RoundTrip
use libsgfc.Common.{
  ℕ, zero, suc, Option, none, some, Bool, true, false, List, [], ◌∷◌, ◌++◌, ◌==◌, if◌then◌else◌,
}
use libsgfc.Common.Int.{ℤ, pos, negsuc}
use libsgfc.Text.Split.{Bytes}
use libsgfc.Text.Number.{
  is_digit, Conversion, number, not_a_number, out_of_range, try_convert_string_to_number_value,
  decimal,
}

pub data RankType : Type 0 where
  kyu : RankType
  amateur_dan : RankType
  professional_dan : RankType

pub data RatingType : Type 0 where
  uncertain : RatingType
  established : RatingType
  unspecified : RatingType

pub record PlayerRank : Type 0 where
  pub rank : ℤ
  pub rank_type : RankType
  pub rating_type : RatingType
  pub is_valid : Bool

-- The default values of the struct.
abbrev pub no_rank : PlayerRank
no_rank = record { rank = pos 30; rank_type = kyu; rating_type = unspecified; is_valid = false }

-- The expression's last group, up to the end of the text.
unfoldable pub match_rating : Bytes → Option RatingType
match_rating [] = some unspecified
match_rating (c ∷ []) =
    if c == b'?' then some uncertain else if c == b'*' then some established else none
match_rating (c ∷ d ∷ rest) = none

pub record Suffix : Type 0 where
  pub of_rank : RankType
  pub of_rating : RatingType

abbrev with_type : RankType → Option RatingType → Option Suffix
with_type t none = none
with_type t (some r) = some (record { of_rank = t; of_rating = r })

abbrev or_else : Option Suffix → Option Suffix → Option Suffix
or_else none o = o
or_else (some x) o = some x

-- The text behind two given characters.
abbrev behind : ℕ → ℕ → Bytes → Option RatingType
behind a b [] = none
behind a b (x ∷ []) = none
behind a b (x ∷ y ∷ rest) =
    let found = match_rating rest in if x == a then (if y == b then found else none) else none

-- `((k|kyu)|(d|dan)|(p))((\?)|(\*))?` up to the end: the alternatives in their order.
unfoldable pub match_suffix : Bytes → Option Suffix
match_suffix [] = none
match_suffix (c ∷ rest) =
    if c == b'k'
    then or_else (with_type kyu (match_rating rest)) (with_type kyu (behind b'y' b'u' rest))
    else if c == b'd'
    then or_else (with_type amateur_dan (match_rating rest))
        (with_type amateur_dan (behind b'a' b'n' rest))
    else if c == b'p'
    then with_type professional_dan (match_rating rest)
    else none

pub record RankMatch : Type 0 where
  pub digits : Bytes
  pub suffix : Suffix

abbrev matched : Bytes → Option Suffix → Option RankMatch
matched digits none = none
matched digits (some s) = some (record { digits = digits; suffix = s })

-- `[[:digit:]]+` takes all digits, since no suffix starts with one; `digits` are those taken.
unfoldable pub match_digits : Bytes → Bytes → Option RankMatch
match_digits digits [] = none
match_digits digits (c ∷ rest) =
    let more = match_digits (digits ++ c ∷ []) rest in
    let suffix = matched digits (match_suffix (c ∷ rest)) in if is_digit c then more else suffix

-- An empty text of digits is no match.
abbrev with_digits : Option RankMatch → Option RankMatch
with_digits none = none
with_digits (some m) = elim m.digits [ [] ↦ none | c ∷ cs ↦ some m ]

pub data ParsedRank : Type 0 where
  parsed : PlayerRank → ParsedRank
  logic_error : ParsedRank

abbrev make_rank : Suffix → Conversion → ParsedRank
make_rank s (number n) =
    parsed (record { rank = n; rank_type = s.of_rank; rating_type = s.of_rating; is_valid = true })
make_rank s not_a_number = logic_error
make_rank s out_of_range = logic_error

abbrev after_match : Option RankMatch → ParsedRank
after_match none = parsed no_rank
after_match (some m) = make_rank m.suffix (try_convert_string_to_number_value m.digits)

unfoldable pub rank_from_property_value : Bytes → ParsedRank
rank_from_property_value value = after_match (with_digits (match_digits [] value))

abbrev type_text : RankType → Bytes
type_text kyu = b'k' ∷ []
type_text amateur_dan = b'd' ∷ []
type_text professional_dan = b'p' ∷ []

abbrev rating_text : RatingType → Bytes
rating_text uncertain = b'?' ∷ []
rating_text established = b'*' ∷ []
rating_text unspecified = []

-- How a stream prints an `int`.
abbrev int_text : ℤ → Bytes
int_text (pos n) = decimal n
int_text (negsuc n) = b'-' ∷ decimal (suc n)

unfoldable pub rank_to_property_value : PlayerRank → Bytes
rank_to_property_value r =
    if r.is_valid
    then int_text r.rank ++ (type_text r.rank_type ++ rating_text r.rating_type)
    else []
