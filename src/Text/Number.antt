-- ===== src/Text/Number.antt =====
-- Numbers as text: `TryConvertStringToNumberValue` of src/parsing/SgfcValueConverter.cpp with the
-- `stoi` and the stream output of the C++ standard library, for a 32-bit `int`.
pub mod Digits
use libsgfc.Common.{
  ℕ, zero, suc, ◌+◌, ◌-◌, ◌*◌, ◌/◌, ◌%◌, ◌^◌, Bool, true, false, ◌&&◌, ◌||◌, Option, none, some,
  List, [], ◌∷◌, ◌++◌, ltb, leb, ◌==◌, if◌then◌else◌, length,
}
use libsgfc.Common.Int.{ℤ, pos, negsuc}
use libsgfc.Text.Split.{Bytes}

-- The outcome of a conversion: a number, or one of the two exceptions of `stoi`.
pub data Conversion : Type 0 where
  number : ℤ → Conversion
  not_a_number : Conversion
  out_of_range : Conversion

abbrev pub is_digit : ℕ → Bool
is_digit c = leb b'0' c && leb c b'9'

abbrev pub is_space : ℕ → Bool
is_space c = (c == 32) || (leb 9 c && leb c 13)

unfoldable pub skip_spaces : Bytes → Bytes
skip_spaces [] = []
skip_spaces (c ∷ cs) = if is_space c then skip_spaces cs else c ∷ cs

-- The value of the digits at the start of a text, behind those read already.
unfoldable pub scan_digits : ℕ → Bytes → ℕ
scan_digits n [] = n
scan_digits n (c ∷ cs) =
    let rest = scan_digits (n * 10 + (c - b'0')) cs in if is_digit c then rest else n

abbrev pub starts_with_digit : Bytes → Bool
starts_with_digit [] = false
starts_with_digit (c ∷ cs) = is_digit c

abbrev negate : ℕ → ℤ
negate zero = pos 0
negate (suc n) = negsuc n

unfoldable pub in_range : Bool → ℕ → Conversion
in_range false n = if ltb n (2 ^ 31) then number (pos n) else out_of_range
in_range true n = if leb n (2 ^ 31) then number (negate n) else out_of_range

unfoldable pub convert_digits : Bool → Bytes → Conversion
unfolding in_range
convert_digits minus s =
    if starts_with_digit s then in_range minus (scan_digits 0 s) else not_a_number

unfoldable pub convert_signed : Bytes → Conversion
unfolding convert_digits
convert_signed [] = not_a_number
convert_signed (c ∷ cs) =
    if c == b'-'
    then convert_digits true cs
    else if c == b'+'
    then convert_digits false cs
    else convert_digits false (c ∷ cs)

-- `stoi`: spaces are skipped, and what follows the digits is ignored.
unfoldable pub stoi : Bytes → Conversion
unfolding skip_spaces convert_signed
stoi s = convert_signed (skip_spaces s)

-- A text as `c_str` shows it, up to the first NUL.
unfoldable pub c_str : Bytes → Bytes
c_str [] = []
c_str (c ∷ cs) = if c == 0 then [] else c ∷ c_str cs

unfoldable pub drop_plus : Bytes → Bytes
drop_plus [] = []
drop_plus (c ∷ cs) = if c == b'+' then cs else c ∷ cs

unfoldable pub try_convert_string_to_number_value : Bytes → Conversion
unfolding stoi c_str drop_plus
try_convert_string_to_number_value s = stoi (drop_plus (c_str s))

-- The decimal digits of a number below 10 ^ 10, as a stream prints an `unsigned int`.
unfoldable pub decimal_loop : ℕ → ℕ → Bytes → Bytes
decimal_loop zero n digits = digits
decimal_loop (suc rounds) n digits =
    let rest = decimal_loop rounds (n / 10) ((b'0' + n % 10) ∷ digits) in
    if ltb n 10 then (b'0' + n) ∷ digits else rest

unfoldable pub decimal : ℕ → Bytes
unfolding decimal_loop
decimal n = decimal_loop 10 n []

abbrev fill : ℕ → Bytes → Bytes
fill zero s = s
fill (suc n) s = b'0' ∷ fill n s

-- A number behind `std::setw(width)` with the fill character '0'.
unfoldable pub padded : ℕ → ℕ → Bytes
unfolding decimal
padded width n = let digits = decimal n in fill (width - length digits) digits
