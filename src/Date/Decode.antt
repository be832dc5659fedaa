-- ===== src/Date/Decode.antt =====
-- `SgfcDate::FromPropertyValue` of src/game/SgfcDate.cpp.
pub mod Total
use libsgfc.Common.{
  ℕ, zero, suc, Bool, true, false, not, ◌&&◌, ◌||◌, List, [], ◌∷◌, Option, none, some, ltb, ◌==◌,
  if◌then◌else◌, length,
}
use libsgfc.Common.Int.{ℤ, pos}
use libsgfc.Text.Split.{Bytes, split_string}
use libsgfc.Text.Number.{
  Conversion, number, not_a_number, out_of_range, try_convert_string_to_number_value,
}
use libsgfc.Date.Valid.{Attempt, value, logic_error, GameDate, date, is_zero, is_valid_sgf_date}

-- How a part of the function ends: it goes on with a result, it makes the function return early
-- (with no dates, or no text), or it throws `std::logic_error`.
pub data Outcome (A : Type 0) : Type 0 where
  goes_on : A → Outcome A
  gives_up : Outcome A
  throws : Outcome A

module _ {A B : Type 0} where
  infixl 5 ◌>>=◌
  abbrev pub ◌>>=◌ : Outcome A → (A → Outcome B) → Outcome B
  goes_on a >>= f = f a
  gives_up >>= f = gives_up
  throws >>= f = throws

-- The variables that the loop keeps from one date to the next.
pub record Preceding : Type 0 where
  pub is_present : Bool
  pub preceding_date : GameDate
  pub had_year : Bool
  pub had_month : Bool
  pub had_day : Bool

abbrev pub had : GameDate → Bool → Bool → Bool → Preceding
had t y m d = record {
  is_present = true;
  preceding_date = t;
  had_year = y;
  had_month = m;
  had_day = d;
}

abbrev pub no_preceding : Preceding
no_preceding = record {
  is_present = false;
  preceding_date = date (pos 0) (pos 0) (pos 0);
  had_year = false;
  had_month = false;
  had_day = false;
}

abbrev pub part_of : Conversion → Outcome ℤ
part_of (number n) = goes_on n
part_of not_a_number = gives_up
part_of out_of_range = gives_up

unfoldable pub read_part : Bytes → Outcome ℤ
read_part s = part_of (try_convert_string_to_number_value s)

unfoldable pub read_later_parts : List Bytes → Outcome (List ℤ)
read_later_parts [] = goes_on []
read_later_parts (s ∷ rest) =
    let later = read_later_parts rest in
    if length s == 2 then (read_part s >>= λ n. later >>= λ ns. goes_on (n ∷ ns)) else gives_up

-- `dateHasYear`, from the length of the first part.
unfoldable pub has_year : ℕ → Bytes → Outcome Bool
has_year count s =
    if length s == 4
    then goes_on true
    else if length s == 2
    then (if count == 3 then gives_up else goes_on false)
    else gives_up

pub record Parts : Type 0 where
  pub with_year : Bool
  pub numbers : List ℤ

unfoldable pub read_parts : List Bytes → Outcome Parts
read_parts [] = gives_up
read_parts (s ∷ rest) = if ltb 3 (length (s ∷ rest)) then gives_up else do
  y ← has_year (length (s ∷ rest)) s
  n ← read_part s
  ns ← read_later_parts rest
  goes_on (record { with_year = y; numbers = n ∷ ns })

unfoldable pub reference_date : List ℤ → Outcome Preceding
reference_date (y ∷ []) = goes_on (had (date y (pos 0) (pos 0)) true false false)
reference_date (y ∷ m ∷ []) = goes_on (had (date y m (pos 0)) true true false)
reference_date (y ∷ m ∷ d ∷ []) = goes_on (had (date y m d) true true true)
reference_date ns = throws

unfoldable pub shortcut_date : Preceding → List ℤ → Outcome Preceding
shortcut_date p (m ∷ d ∷ []) =
    if p.had_year && (not p.had_month && p.had_day)
    then gives_up
    else if p.had_year && (not p.had_month && not p.had_day)
    then gives_up
    else goes_on (had (date p.preceding_date.year m d) false true true)
shortcut_date p (n ∷ []) =
    if (p.had_year && (p.had_month && not p.had_day))
      || (not p.had_year && (p.had_month && not p.had_day))
    then goes_on (had (date p.preceding_date.year n (pos 0)) false true false)
    else if (p.had_year && (p.had_month && p.had_day))
        || ((not p.had_year && (p.had_month && p.had_day))
            || (not p.had_year && (not p.had_month && p.had_day)))
    then goes_on (had (date p.preceding_date.year p.preceding_date.month n) false false true)
    else gives_up
shortcut_date p ns = throws

unfoldable pub complete_date : Preceding → Parts → Outcome Preceding
complete_date p parts =
    if parts.with_year
    then reference_date parts.numbers
    else if not p.is_present
    then gives_up
    else shortcut_date p parts.numbers

abbrev pub keep_if : Preceding → Attempt Bool → Outcome Preceding
keep_if q (value b) = if b then goes_on q else gives_up
keep_if q logic_error = throws

-- The first date must have a year, and each date must be valid.
unfoldable pub check_date : Preceding → Preceding → Outcome Preceding
check_date p q =
    if not p.is_present && is_zero q.preceding_date.year
    then gives_up
    else keep_if q (is_valid_sgf_date q.preceding_date)

-- One round of the loop; the date is the `preceding_date` of the result.
unfoldable pub decode_date : Preceding → Bytes → Outcome Preceding
decode_date p s = do
  parts ← read_parts (split_string s b'-')
  q ← complete_date p parts
  check_date p q

unfoldable pub decode_loop : Preceding → List Bytes → Outcome (List GameDate)
decode_loop p [] = goes_on []
decode_loop p (s ∷ rest) = do
  q ← decode_date p s
  later ← decode_loop q rest
  goes_on (q.preceding_date ∷ later)

abbrev pub or_no_dates : Outcome (List GameDate) → Attempt (List GameDate)
or_no_dates (goes_on ts) = value ts
or_no_dates gives_up = value []
or_no_dates throws = logic_error

unfoldable pub from_property_value : Bytes → Attempt (List GameDate)
from_property_value s = or_no_dates (decode_loop no_preceding (split_string s b','))
