-- ===== src/Tests/ResultRuns.antt =====
-- A concrete game result.
use libsgfc.Common.{ℕ, ◌≡◌, refl, Option, some, [], ◌∷◌}
use libsgfc.Text.Split.{Bytes}
use libsgfc.GameResult.{
  black_win, win_with_score, result, decoded, match_score, result_from_property_value,
  result_to_property_value,
}
use libsgfc.GameResult.RoundTrip.{
  IsScore, kept, result_from_property_value-result_to_property_value,
}

-- Scores are numbers of one digit.
abbrev print_digit : ℕ → Bytes
print_digit n = b'3' ∷ []

abbrev read_digit : Bytes → Option ℕ
read_digit s = some 3

three-IsScore : IsScore (print_digit 3)
unfolding match_score
three-IsScore = refl

result_from_property_value-result_to_property_value_example :
    result_from_property_value 0 read_digit print_digit (
      result_to_property_value 0 read_digit print_digit
        (result 0 read_digit print_digit black_win win_with_score 3))
    ≡ decoded (kept 0 read_digit print_digit black_win win_with_score 3)
result_from_property_value-result_to_property_value_example =
    result_from_property_value-result_to_property_value 0 read_digit print_digit black_win
      win_with_score 3 three-IsScore refl
