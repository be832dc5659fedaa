-- ===== src/Tests/RankRuns.antt =====
-- Ranks of Go players on concrete inputs.
use libsgfc.Common.{◌≡◌, refl, true, [], ◌∷◌}
use libsgfc.Common.Int.{pos}
use libsgfc.Text.Split.{Bytes}
use libsgfc.Text.Number.{try_convert_string_to_number_value, scan_digits}
use libsgfc.PlayerRank.{
  PlayerRank, kyu, amateur_dan, uncertain, established, parsed, logic_error,
  rank_from_property_value, match_digits, match_suffix, match_rating,
}

abbrev strong_dan : PlayerRank
strong_dan = record {
  rank = pos 6;
  rank_type = amateur_dan;
  rating_type = established;
  is_valid = true;
}

-- The long suffixes are read too.
long_suffix :
    rank_from_property_value (b'1' ∷ b'2' ∷ b'k' ∷ b'y' ∷ b'u' ∷ b'?' ∷ [])
    ≡ parsed (record { rank = pos 12; rank_type = kyu; rating_type = uncertain; is_valid = true })
unfolding rank_from_property_value match_digits match_suffix match_rating
    try_convert_string_to_number_value scan_digits
long_suffix = refl

-- A rank that is too large for an `int` is an exception.
abbrev nines : Bytes
nines = b'9' ∷ b'9' ∷ b'9' ∷ b'9' ∷ b'9' ∷ b'9' ∷ b'9' ∷ b'9' ∷ b'9' ∷ b'9' ∷ b'k' ∷ []

too_large : rank_from_property_value nines ≡ logic_error
unfolding rank_from_property_value match_digits match_suffix match_rating
    try_convert_string_to_number_value scan_digits
too_large = refl
