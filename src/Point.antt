-- ===== src/Point.antt =====
-- The class SgfcGoPoint (src/game/go/SgfcGoPoint.cpp): a point value of a property, given in one of
-- three notations, and its positions. Bytes are below 128, where `char` is the byte.
pub mod Notation
pub mod Letters
pub mod Again
use libsgfc.Common.{
  ℕ, zero, suc, ◌+◌, ◌-◌, ◌*◌, ◌%◌, ◌^◌, Bool, true, false, not, ◌&&◌, ◌||◌, List, [], ◌∷◌, ◌++◌,
  ltb, leb, ◌==◌, if◌then◌else◌, length,
}
use libsgfc.Common.Int.{ℤ, pos, negsuc, pos_part, neg_part, ltb_ℤ, ◌+ℤ◌, ◌-ℤ◌}
use libsgfc.Text.Split.{Bytes, split_string}
use libsgfc.Text.Number.{Conversion, number, not_a_number, out_of_range, is_digit, stoi, decimal}

-- The exceptions of the constructor: `std::invalid_argument`, which its documentation announces,
-- and the `std::out_of_range` of `stoi`; and the overflow of an `int` in `Rows + 1`.
pub data Made (A : Type 0) : Type 0 where
  made : A → Made A
  invalid_argument : Made A
  stoi_out_of_range : Made A
  overflows : Made A

module _ {A B : Type 0} where
  infixl 5 ◌>>=◌
  abbrev pub ◌>>=◌ : Made A → (A → Made B) → Made B
  made a >>= f = f a
  invalid_argument >>= f = invalid_argument
  stoi_out_of_range >>= f = stoi_out_of_range
  overflows >>= f = overflows

pub record BoardSize : Type 0 where
  pub columns : ℤ
  pub rows : ℤ

-- The members of the point; a notation is empty when the point has none.
pub record GoPoint : Type 0 where
  pub x_upper_left : ℕ
  pub y_upper_left : ℕ
  pub y_lower_left : ℕ
  pub x_sgf : Bytes
  pub y_sgf : Bytes
  pub sgf : Bytes
  pub x_figure : Bytes
  pub y_figure : Bytes
  pub figure : Bytes
  pub x_hybrid : Bytes
  pub y_hybrid : Bytes
  pub hybrid : Bytes

abbrev pub is_valid_sgf_character : ℕ → Bool
is_valid_sgf_character c =
    if leb b'a' c && leb c b'z' then true else if leb b'A' c && leb c b'Z' then true else false

unfoldable pub map_sgf_character_to_position : ℕ → ℕ
map_sgf_character_to_position c =
    if leb b'a' c && leb c b'z'
    then c - b'a' + 1
    else if leb b'A' c && leb c b'Z'
    then c - b'A' + 26 + 1
    else 0

-- For positions from 1 on: the number converted to a `char` of 8 bits, here without its sign.
unfoldable pub map_position_to_sgf_character : ℕ → ℕ
map_position_to_sgf_character position =
    if leb position 26 then (b'a' + position - 1) % 2 ^ 8 else (b'A' + position - 26 - 1) % 2 ^ 8

abbrev pub is_valid_x_compound_hybrid : ℕ → Bool
is_valid_x_compound_hybrid c =
    if leb b'A' c && leb c b'H' then true else if leb b'J' c && leb c b'Z' then true else false

unfoldable pub map_x_compound_hybrid_to_position : ℕ → ℕ
map_x_compound_hybrid_to_position c =
    if leb b'A' c && leb c b'H'
    then c - b'A' + 1
    else if leb b'J' c && leb c b'Z'
    then c - b'J' + 8 + 1
    else 0

-- For positions from 1 on.
unfoldable pub map_position_to_x_compound_hybrid : ℕ → ℕ
map_position_to_x_compound_hybrid position =
    if leb 9 position then b'A' + (position + 1) - 1 else b'A' + position - 1

abbrev pub contains_non_digits : Bytes → Bool
contains_non_digits [] = false
contains_non_digits (c ∷ cs) = if not (is_digit c) then true else contains_non_digits cs

-- `stoi`, whose two exceptions leave the constructor.
unfoldable pub stoi_or_throw : Conversion → Made ℤ
stoi_or_throw (number n) = made n
stoi_or_throw not_a_number = invalid_argument
stoi_or_throw out_of_range = stoi_out_of_range

-- The guard of `BuildHybridNotation`.
abbrev pub hybrid_fits : ℕ → ℕ → Bool
hybrid_fits x y_low = not (ltb 25 x || ltb 25 y_low)

abbrev pub x_hybrid_of : ℕ → ℕ → Bytes
x_hybrid_of x y_low = if hybrid_fits x y_low then map_position_to_x_compound_hybrid x ∷ [] else []

abbrev pub y_hybrid_of : ℕ → ℕ → Bytes
y_hybrid_of x y_low = if hybrid_fits x y_low then decimal y_low else []

-- `BuildSgfNotation`, `BuildFigureNotation` and `BuildHybridNotation`.
unfoldable pub build_notations : ℕ → ℕ → ℕ → GoPoint
build_notations x y y_low = record {
  x_upper_left = x;
  y_upper_left = y;
  y_lower_left = y_low;
  x_sgf = map_position_to_sgf_character x ∷ [];
  y_sgf = map_position_to_sgf_character y ∷ [];
  sgf = map_position_to_sgf_character x ∷ map_position_to_sgf_character y ∷ [];
  x_figure = decimal x;
  y_figure = decimal y;
  figure = decimal x ++ b'-' ∷ decimal y;
  x_hybrid = x_hybrid_of x y_low;
  y_hybrid = y_hybrid_of x y_low;
  hybrid = x_hybrid_of x y_low ++ y_hybrid_of x y_low;
}

-- `Rows + 1` is an `int`.
abbrev pub row_fits : BoardSize → Bool
row_fits size = ltb_ℤ size.rows (pos (2 ^ 31 - 1))

-- The positions are `int` parameters; past the tests no number is negative.
unfoldable pub set_position : ℤ → ℤ → BoardSize → Made GoPoint
set_position x y size =
    if ltb_ℤ x (pos 1)
    then invalid_argument
    else if ltb_ℤ size.columns x
    then invalid_argument
    else if ltb_ℤ y (pos 1)
    then invalid_argument
    else if ltb_ℤ size.rows y
    then invalid_argument
    else if row_fits size
    then made (build_notations (pos_part x) (pos_part y) (pos_part size.rows + 1 - pos_part y))
    else overflows

unfoldable pub parse_sgf : ℕ → ℕ → BoardSize → Made GoPoint
parse_sgf x y size =
    if not (is_valid_sgf_character x)
    then invalid_argument
    else if not (is_valid_sgf_character y)
    then invalid_argument
    else set_position (pos (map_sgf_character_to_position x))
        (pos (map_sgf_character_to_position y)) size

unfoldable pub parse_figure : Bytes → Bytes → BoardSize → Made GoPoint
parse_figure x y size =
    if contains_non_digits x
    then invalid_argument
    else if contains_non_digits y
    then invalid_argument
    else (stoi_or_throw (stoi x) >>= λ i. stoi_or_throw (stoi y) >>= λ j. set_position i j size)

-- A number stored in a 32-bit `unsigned int` and read as an `int` again.
unfoldable pub as_int : ℤ → ℤ
as_int n =
    let u = (pos_part n % 2 ^ 32 + (2 ^ 32 - neg_part n % 2 ^ 32)) % 2 ^ 32 in
    if ltb u (2 ^ 31) then pos u else negsuc (2 ^ 32 - u - 1)

-- From the `yPositionLowerLeftOrigin` that was read; digits alone give no negative number.
unfoldable pub set_hybrid_position : ℕ → ℤ → BoardSize → Made GoPoint
set_hybrid_position x y_low size =
    if ltb_ℤ (pos 25) y_low
    then invalid_argument
    else if row_fits size
    then set_position (pos (map_x_compound_hybrid_to_position x))
        (as_int (size.rows +ℤ pos 1 -ℤ y_low)) size
    else overflows

unfoldable pub parse_hybrid : ℕ → Bytes → BoardSize → Made GoPoint
parse_hybrid x y size =
    if not (is_valid_x_compound_hybrid x)
    then invalid_argument
    else if contains_non_digits y
    then invalid_argument
    else (stoi_or_throw (stoi y) >>= λ j. set_hybrid_position x j size)

-- `DecomposePointValue` for a text without a hyphen.
unfoldable pub decompose_compact : Bytes → BoardSize → Made GoPoint
decompose_compact (a ∷ b ∷ []) size =
    if is_digit b then parse_hybrid a (b ∷ []) size else parse_sgf a b size
decompose_compact (a ∷ b ∷ c ∷ []) size =
    if is_digit b then parse_hybrid a (b ∷ c ∷ []) size else invalid_argument
decompose_compact s size = invalid_argument

unfoldable pub decompose_parts : List Bytes → Bytes → BoardSize → Made GoPoint
decompose_parts [] s size = decompose_compact s size
decompose_parts (x ∷ []) s size = decompose_compact s size
decompose_parts (x ∷ y ∷ []) s size = parse_figure x y size
decompose_parts parts s size = invalid_argument

unfoldable pub decompose_point_value : Bytes → BoardSize → Made GoPoint
decompose_point_value s size = decompose_parts (split_string s b'-') s size

-- The constructor; of the board size it tests the columns only.
unfoldable pub make_point : Bytes → BoardSize → Made GoPoint
make_point s size =
    if ltb_ℤ size.columns (pos 1)
    then invalid_argument
    else if ltb_ℤ (pos 52) size.columns
    then invalid_argument
    else decompose_point_value s size

-- SgfcCoordinateSystem and SgfcGoPointNotation, without the values outside the enumerations.
pub data CoordinateSystem : Type 0 where
  upper_left_origin : CoordinateSystem
  lower_left_origin : CoordinateSystem

pub data GoPointNotation : Type 0 where
  sgf_notation : GoPointNotation
  figure_notation : GoPointNotation
  hybrid_notation : GoPointNotation

unfoldable pub get_x_position : GoPoint → CoordinateSystem → ℕ
get_x_position p upper_left_origin = p.x_upper_left
get_x_position p lower_left_origin = p.x_upper_left

unfoldable pub get_y_position : GoPoint → CoordinateSystem → ℕ
get_y_position p upper_left_origin = p.y_upper_left
get_y_position p lower_left_origin = p.y_lower_left

abbrev pub is_empty : Bytes → Bool
is_empty [] = true
is_empty (c ∷ cs) = false

unfoldable pub has_position : GoPoint → GoPointNotation → Bool
has_position p sgf_notation = not (is_empty p.sgf)
has_position p figure_notation = not (is_empty p.figure)
has_position p hybrid_notation = not (is_empty p.hybrid)

unfoldable pub get_position : GoPoint → GoPointNotation → Bytes
get_position p sgf_notation = if not (has_position p sgf_notation) then [] else p.sgf
get_position p figure_notation = if not (has_position p figure_notation) then [] else p.figure
get_position p hybrid_notation = if not (has_position p hybrid_notation) then [] else p.hybrid

unfoldable pub get_x_compound : GoPoint → GoPointNotation → Bytes
get_x_compound p sgf_notation = if not (has_position p sgf_notation) then [] else p.x_sgf
get_x_compound p figure_notation = if not (has_position p figure_notation) then [] else p.x_figure
get_x_compound p hybrid_notation = if not (has_position p hybrid_notation) then [] else p.x_hybrid

unfoldable pub get_y_compound : GoPoint → GoPointNotation → Bytes
get_y_compound p sgf_notation = if not (has_position p sgf_notation) then [] else p.y_sgf
get_y_compound p figure_notation = if not (has_position p figure_notation) then [] else p.y_figure
get_y_compound p hybrid_notation = if not (has_position p hybrid_notation) then [] else p.y_hybrid
