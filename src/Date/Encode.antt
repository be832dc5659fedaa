-- ===== src/Date/Encode.antt =====
-- `SgfcDate::ToPropertyValue` of src/game/SgfcDate.cpp. The loop's variables are those of the
-- decoder, with the completed date and the way the date was output.
pub mod Pieces
pub mod Back
pub mod Shortcut
pub mod Round
pub mod Trip
use libsgfc.Common.{ℕ, Bool, true, false, not, ◌&&◌, ◌||◌, List, [], ◌∷◌, ◌++◌, if◌then◌else◌}
use libsgfc.Common.Int.{ℤ, pos, pos_part, eqb_ℤ}
use libsgfc.Text.Split.{Bytes}
use libsgfc.Text.Number.{padded}
use libsgfc.Date.Valid.{Attempt, value, logic_error, GameDate, date, is_zero, is_valid_sgf_date}
use libsgfc.Date.Decode.{Outcome, goes_on, gives_up, throws, ◌>>=◌, Preceding, had, no_preceding}

-- A two-digit or four-digit part; the stream gets no negative number.
abbrev pub two : ℤ → Bytes
two n = padded 2 (pos_part n)

abbrev pub four : ℤ → Bytes
four n = padded 4 (pos_part n)

unfoldable pub completed_date : Preceding → GameDate → GameDate
completed_date p t =
    if is_zero t.year
    then date p.preceding_date.year (if is_zero t.month then p.preceding_date.month else t.month)
        t.day
    else t

-- Step 2 for a date with the year of the preceding completed date `c`.
unfoldable pub reduce_same_year : GameDate → GameDate → Outcome GameDate
reduce_same_year c t =
    if not (is_zero t.month) && not (is_zero c.month)
    then (if eqb_ℤ t.month c.month
        then (if not (is_zero t.day) && not (is_zero c.day)
            then (if eqb_ℤ t.day c.day then gives_up else goes_on (date (pos 0) (pos 0) t.day))
            else if is_zero t.day && is_zero c.day
            then gives_up
            else goes_on t)
        else if not (is_zero t.day)
        then goes_on (date (pos 0) t.month t.day)
        else goes_on (date (pos 0) t.month (pos 0)))
    else if not (is_zero t.month) && is_zero c.month
    then goes_on t
    else if is_zero t.month && not (is_zero c.month)
    then goes_on t
    else if is_zero t.day && is_zero c.day
    then gives_up
    else goes_on t

-- Step 2: a full date is reduced to a shortcut if that is possible.
unfoldable pub output_date : Preceding → GameDate → Outcome GameDate
output_date p t =
    if not (is_zero t.year) && p.is_present
    then (if not (is_zero t.year)
          && (not (is_zero p.preceding_date.year) && eqb_ℤ t.year p.preceding_date.year)
        then reduce_same_year p.preceding_date t
        else goes_on t)
    else goes_on t

-- A printed date, with the loop's variables for the next one.
pub record Printed : Type 0 where
  pub text : Bytes
  pub next : Preceding

abbrev pub printed : Bytes → GameDate → Bool → Bool → Bool → Printed
printed s c y m d = record { text = s; next = had c y m d }

-- Step 3 for a date `o` with a year; `c` is the completed date.
unfoldable pub print_reference : GameDate → GameDate → Outcome Printed
print_reference c o =
    if not (is_zero o.month) && not (is_zero o.day)
    then goes_on
        (printed (four o.year ++ b'-' ∷ (two o.month ++ b'-' ∷ two o.day)) c true true true)
    else if not (is_zero o.month)
    then goes_on (printed (four o.year ++ b'-' ∷ two o.month) c true true false)
    else if not (is_zero o.day)
    then throws
    else goes_on (printed (four o.year) c true false false)

-- Step 3 for a shortcut.
unfoldable pub print_shortcut : Preceding → GameDate → GameDate → Outcome Printed
print_shortcut p c o =
    if not p.is_present
    then gives_up
    else if not (is_zero o.month) && not (is_zero o.day)
    then (if p.had_year && (not p.had_month && p.had_day)
        then gives_up
        else if p.had_year && (not p.had_month && not p.had_day)
        then gives_up
        else goes_on (printed (two o.month ++ b'-' ∷ two o.day) c false true true))
    else if (p.had_year && (p.had_month && not p.had_day))
        || (not p.had_year && (p.had_month && not p.had_day))
    then (if not (is_zero o.month)
        then goes_on (printed (two o.month) c false true false)
        else gives_up)
    else if (p.had_year && (p.had_month && p.had_day))
        || ((not p.had_year && (p.had_month && p.had_day))
            || (not p.had_year && (not p.had_month && p.had_day)))
    then (if not (is_zero o.day)
        then goes_on (printed (two o.day) c false false true)
        else gives_up)
    else gives_up

unfoldable pub print_date : Preceding → GameDate → GameDate → Outcome Printed
print_date p c o = if is_zero o.year then print_shortcut p c o else print_reference c o

abbrev pub go_on_if : Attempt Bool → Outcome Bool
go_on_if (value b) = if b then goes_on b else gives_up
go_on_if logic_error = throws

-- One round of the loop, without the comma.
unfoldable pub encode_date : Preceding → GameDate → Outcome Printed
encode_date p t = if is_zero t.year && not p.is_present then gives_up else do
  valid ← go_on_if (is_valid_sgf_date (completed_date p t))
  o ← output_date p t
  print_date p (completed_date p t) o

-- The loop, with the text written so far.
unfoldable pub encode_loop : Preceding → Bytes → List GameDate → Outcome Bytes
encode_loop p s [] = goes_on s
encode_loop p s (t ∷ ts) = do
  r ← encode_date p t
  encode_loop r.next (s ++ (if p.is_present then b',' ∷ r.text else r.text)) ts

abbrev pub or_no_text : Outcome Bytes → Attempt Bytes
or_no_text (goes_on s) = value s
or_no_text gives_up = value []
or_no_text throws = logic_error

unfoldable pub to_property_value : List GameDate → Attempt Bytes
to_property_value ts = or_no_text (encode_loop no_preceding [] ts)
