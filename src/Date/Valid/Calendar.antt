-- ===== src/Date/Valid/Calendar.antt =====
-- The tests of SgfcDate against the Gregorian calendar.
use libsgfc.Common.{
  ℕ, zero, suc, ◌%◌, ◌≤◌, ◌≡◌, refl, inl, inr, Bool, ◌&&◌, ◌||◌, ◌==◌, if◌then◌else◌, arith, leb,
  not, Bool-cases,
}
use libsgfc.Common.Int.{ℤ, pos, negsuc, pos_part, neg_part}
use libsgfc.Date.Valid.{value, GameDate, date, is_valid_day, is_valid_sgf_date}

-- The Gregorian rule for leap years.
abbrev pub is_leap : ℕ → Bool
is_leap y = ((y % 4 == 0) && not (y % 100 == 0)) || (y % 400 == 0)

unfoldable pub month_length : ℕ → ℕ → ℕ
month_length y m =
    if m == 2
    then (if is_leap y then 29 else 28)
    else if (m == 4) || (m == 6) || (m == 9) || (m == 11)
    then 30
    else 31

is_valid_day-month_length :
    (y m d : ℕ) → 1 ≤ m → m ≤ 12 → is_valid_day y m d ≡ value (leb d (month_length y m))
unfolding is_valid_day month_length
is_valid_day-month_length y zero d lo hi = absurd (omega arith)
is_valid_day-month_length y (suc zero) d lo hi = refl
is_valid_day-month_length y (suc (suc zero)) d lo hi = ground arith
is_valid_day-month_length y (suc (suc (suc m))) d lo hi = ground arith

-- The dates that the SGF format allows: a part that is left out is 0.
abbrev pub sgf_date_test : ℕ → ℕ → ℕ → Bool
sgf_date_test y m d =
    leb y 9999
    && (leb m 12
        && (if m == 0
            then (if y == 0 then leb 1 d && leb d 31 else d == 0)
            else leb d (month_length y m)))

is_valid_sgf_date-positive :
    (y m d : ℕ) → is_valid_sgf_date (date (pos y) (pos m) (pos d)) ≡ value (sgf_date_test y m d)
unfolding is_valid_sgf_date
is_valid_sgf_date-positive y zero d = ground arith
is_valid_sgf_date-positive y (suc m) zero = ground arith
is_valid_sgf_date-positive y (suc m) (suc d) = elim (Bool-cases (leb (suc m) 12)) [
  | inl e ↦
      rw (is_valid_day-month_length y (suc m) (suc d) (omega arith) (ground arith)) ground arith
  | inr n ↦ ground arith
]

-- No member is negative and the parts are those of a date of the SGF format.
abbrev pub is_sgf_date : GameDate → Bool
is_sgf_date t =
    (neg_part t.year == 0)
    && ((neg_part t.month == 0)
        && ((neg_part t.day == 0)
            && sgf_date_test (pos_part t.year) (pos_part t.month) (pos_part t.day)))

is_valid_sgf_date-parts :
    (y m d : ℤ) → is_valid_sgf_date (date y m d) ≡ value (is_sgf_date (date y m d))
unfolding is_valid_sgf_date
is_valid_sgf_date-parts (pos y) (pos m) (pos d) = is_valid_sgf_date-positive y m d
is_valid_sgf_date-parts (negsuc y) m d = ground arith
is_valid_sgf_date-parts (pos y) (negsuc m) d = ground arith
is_valid_sgf_date-parts (pos y) (pos m) (negsuc d) = ground arith

-- IsValidSgfDate never throws: it returns whether the parts are those of a date of the SGF format,
-- where the day is tested against the length of the month in the Gregorian calendar.
pub is_valid_sgf_date-total : (t : GameDate) → is_valid_sgf_date t ≡ value (is_sgf_date t)
is_valid_sgf_date-total t = is_valid_sgf_date-parts t.year t.month t.day
