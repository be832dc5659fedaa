-- ===== src/PlayerRank/RoundTrip.antt =====
-- A valid rank is read back from its property value.
use libsgfc.Common.{ℕ, Bool, true, false, [], ◌∷◌}
use libsgfc.Common.Int.{pos}
use libsgfc.Text.Split.{Bytes}
use libsgfc.Text.Number.Digits.{Digits}
use libsgfc.PlayerRank.{RankType, RatingType, PlayerRank}

abbrev is_empty : Bytes → Bool
is_empty [] = true
is_empty (c ∷ cs) = false

-- A rank that was printed, between its match and its value.
abbrev printed : ℕ → RankType → RatingType → PlayerRank
printed n t g = record { rank = pos n; rank_type = t; rating_type = g; is_valid = true }
