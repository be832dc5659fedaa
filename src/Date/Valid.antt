-- ===== src/Date/Valid.antt =====
-- The struct SgfcDate and its tests (include/SgfcDate.h, src/game/SgfcDate.cpp).
pub mod Calendar
use libsgfc.Common.{ℕ, ◌+◌, ◌%◌, Bool, true, false, not, ◌&&◌, ◌||◌, ◌==◌, leb, if◌then◌else◌}
use libsgfc.Common.Int.{ℤ, pos, negsuc, pos_part, ltb_ℤ, eqb_ℤ}

-- A call that returns, or throws `std::logic_error`.
pub data Attempt (A : Type 0) : Type 0 where
  value : A → Attempt A
  logic_error : Attempt A

module _ {A B : Type 0} where
  infixl 5 ◌>>=◌
  abbrev pub ◌>>=◌ : Attempt A → (A → Attempt B) → Attempt B
  value a >>= f = f a
  logic_error >>= f = logic_error

-- The members are of type `SgfcNumber`, a signed number.
pub record GameDate : Type 0 where
  pub year : ℤ
  pub month : ℤ
  pub day : ℤ

abbrev pub date : ℤ → ℤ → ℤ → GameDate
date y m d = record { year = y; month = m; day = d }

abbrev pub is_zero : ℤ → Bool
is_zero a = eqb_ℤ a (pos 0)

unfoldable pub is_partial_date : GameDate → Bool
is_partial_date t = is_zero t.day || is_zero t.month || is_zero t.year

-- The `switch` over the month, for a month and a day that are not negative.
unfoldable pub is_valid_day : ℕ → ℕ → ℕ → Attempt Bool
is_valid_day year month day =
    if (month == 1)
      || (month == 3)
      || (month == 5)
      || (month == 7)
      || (month == 8)
      || (month == 10)
      || (month == 12)
    then value (leb day 31)
    else if (month == 4) || (month == 6) || (month == 9) || (month == 11)
    then value (leb day 30)
    else if month == 2
    then (if day == 29
        then (if year % 4 == 0
            then (if year % 100 == 0
                then (if year % 400 == 0 then value true else value false)
                else value true)
            else value false)
        else value (leb day 28))
    else logic_error

-- The range test; past it no member is negative, and `pos_part` is the member itself.
unfoldable pub is_valid_sgf_date : GameDate → Attempt Bool
is_valid_sgf_date t =
    if ltb_ℤ t.year (pos 0)
      || ltb_ℤ (pos 9999) t.year
      || ltb_ℤ t.month (pos 0)
      || ltb_ℤ (pos 12) t.month
      || ltb_ℤ t.day (pos 0)
    then value false
    else if is_zero t.year
    then (if is_zero t.month
        then (if is_zero t.day then value false else value (leb (pos_part t.day) 31))
        else if is_zero t.day
        then value true
        else is_valid_day (pos_part t.year) (pos_part t.month) (pos_part t.day))
    else if is_zero t.month
    then value (is_zero t.day)
    else if is_zero t.day
    then value true
    else is_valid_day (pos_part t.year) (pos_part t.month) (pos_part t.day)

unfoldable pub is_valid_calendar_date : GameDate → Attempt Bool
is_valid_calendar_date t = if is_partial_date t then value false else is_valid_sgf_date t

unfoldable pub date_eq : GameDate → GameDate → Bool
date_eq a b =
    if not (eqb_ℤ a.year b.year)
    then false
    else if not (eqb_ℤ a.month b.month)
    then false
    else if not (eqb_ℤ a.day b.day)
    then false
    else true
