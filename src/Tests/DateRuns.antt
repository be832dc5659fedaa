-- ===== src/Tests/DateRuns.antt =====
-- Concrete runs of the date functions and the text functions.
use libsgfc.Common.{◌≡◌, refl, List, [], ◌∷◌}
use libsgfc.Common.Int.{pos}
use libsgfc.Text.Split.{Bytes}
use libsgfc.Date.Valid.{value, GameDate, date, is_valid_day, is_valid_sgf_date}
use libsgfc.Date.Valid.Calendar.{is_sgf_date, is_valid_sgf_date-total}
use libsgfc.Date.Decode.{from_property_value}
use libsgfc.Date.Decode.Total.{IsDecoded, from_property_value-IsDecoded}
use libsgfc.Date.Encode.{
  to_property_value, encode_loop, encode_date, completed_date, output_date, print_date,
  print_reference, reduce_same_year, print_shortcut,
}
use libsgfc.Date.Encode.Trip.{IsReadBack, to_property_value-IsReadBack}

abbrev two_days_text : Bytes
two_days_text =
    b'2' ∷ b'0' ∷ b'2' ∷ b'0' ∷ b'-' ∷ b'0' ∷ b'1' ∷ b'-' ∷ b'3' ∷ b'1' ∷ b',' ∷ b'0' ∷ b'2' ∷ b'-'
    ∷ b'0' ∷ b'1' ∷ []

abbrev two_days : List GameDate
two_days = date (pos 2020) (pos 1) (pos 31) ∷ date (pos 2020) (pos 2) (pos 1) ∷ []

-- A month without a day cannot follow a full date of another month of the year.
month_after_day :
    to_property_value (date (pos 2019) (pos 1) (pos 1) ∷ date (pos 2019) (pos 2) (pos 0) ∷ [])
    ≡ value []
unfolding to_property_value encode_loop encode_date is_valid_sgf_date completed_date is_valid_day
    output_date print_date print_reference reduce_same_year print_shortcut
month_after_day = refl

from_property_value-IsDecoded_example : IsDecoded (from_property_value two_days_text)
from_property_value-IsDecoded_example = from_property_value-IsDecoded two_days_text

to_property_value-IsReadBack_example : IsReadBack two_days (to_property_value two_days)
to_property_value-IsReadBack_example = to_property_value-IsReadBack two_days

is_valid_sgf_date-total_example :
    is_valid_sgf_date (date (pos 2020) (pos 2) (pos 29))
    ≡ value (is_sgf_date (date (pos 2020) (pos 2) (pos 29)))
is_valid_sgf_date-total_example = is_valid_sgf_date-total (date (pos 2020) (pos 2) (pos 29))
