-- ===== src/Point/Notation.antt =====
-- The positions and the notations of a point that SgfcGoPoint's constructor makes.
use libsgfc.Common.{
  ℕ, ◌+◌, ◌-◌, ◌≤◌, ◌≡◌, refl, inl, inr, Bool, true, false, not, List, [], ◌∷◌, if◌then◌else◌,
  arith, Bool-cases,
}
use libsgfc.Common.Int.{ℤ, pos, pos_part, ltb_ℤ}
use libsgfc.Text.Split.{Bytes, split_string}
use libsgfc.Text.Number.{Conversion, number, not_a_number, out_of_range, is_digit, stoi}
use libsgfc.Point.{
  Made, made, invalid_argument, stoi_out_of_range, overflows, row_fits, ◌>>=◌, BoardSize, GoPoint,
  is_valid_sgf_character, is_valid_x_compound_hybrid, stoi_or_throw, contains_non_digits,
  build_notations, set_position, parse_sgf, parse_figure, set_hybrid_position, parse_hybrid,
  decompose_compact, decompose_parts, decompose_point_value, make_point,
}

-- The point is on the board, its two y-positions add up to the rows and one, and its notations are
-- those of the positions.
abbrev pub OnBoard : BoardSize → GoPoint → Type 0
OnBoard size p =
    (1 ≤ p.x_upper_left)
    × (p.x_upper_left ≤ pos_part size.columns)
    × (1 ≤ p.y_upper_left)
    × (p.y_upper_left ≤ pos_part size.rows)
    × (p.y_upper_left + p.y_lower_left ≡ pos_part size.rows + 1)
    × (p ≡ build_notations p.x_upper_left p.y_upper_left p.y_lower_left)

abbrev pub IsPlaced : BoardSize → Made GoPoint → Type 0
IsPlaced size (made p) = OnBoard size p
IsPlaced size invalid_argument = Unit
IsPlaced size stoi_out_of_range = Unit
IsPlaced size overflows = row_fits size ≡ false

IsPlaced-if :
    (size : BoardSize) (b : Bool) (x y : Made GoPoint)
    → IsPlaced size x
    → IsPlaced size y
    → IsPlaced size (if b then x else y)
IsPlaced-if size true x y h k = h
IsPlaced-if size false x y h k = k

stoi_or_throw-IsPlaced :
    (size : BoardSize) (c : Conversion) (f : ℤ → Made GoPoint)
    → ((n : ℤ) → IsPlaced size (f n))
    → IsPlaced size (stoi_or_throw c >>= f)
unfolding stoi_or_throw
stoi_or_throw-IsPlaced size (number n) f h = h n
stoi_or_throw-IsPlaced size not_a_number f h = tt
stoi_or_throw-IsPlaced size out_of_range f h = tt

IsPlaced-if_fits :
    (size : BoardSize) (x : Made GoPoint)
    → IsPlaced size x
    → IsPlaced size (if row_fits size then x else overflows)
IsPlaced-if_fits size x h = elim (Bool-cases (row_fits size)) [ inl e ↦ rw e h | inr n ↦ rw n n ]

build_notations-OnBoard :
    (x y : ℕ) (size : BoardSize)
    → 1 ≤ x
    → x ≤ pos_part size.columns
    → 1 ≤ y
    → y ≤ pos_part size.rows
    → OnBoard size (build_notations x y (pos_part size.rows + 1 - y))
unfolding build_notations
build_notations-OnBoard x y size a b c d = (a, b, c, d, omega arith, refl)

set_position-IsPlaced : (x y : ℤ) (size : BoardSize) → IsPlaced size (set_position x y size)
unfolding set_position
set_position-IsPlaced x y size = elim (Bool-cases (ltb_ℤ x (pos 1))) [
  | inl e ↦ rw e tt
  | inr a ↦ elim (Bool-cases (ltb_ℤ size.columns x)) [
    | inl e ↦ rw (a, e) tt
    | inr b ↦ elim (Bool-cases (ltb_ℤ y (pos 1))) [
      | inl e ↦ rw (a, b, e) tt
      | inr c ↦ elim (Bool-cases (ltb_ℤ size.rows y)) [
        | inl e ↦ rw (a, b, c, e) tt
        | inr d ↦
            rw (a, b, c, d)
              (IsPlaced-if_fits size _ (
                build_notations-OnBoard (pos_part x) (pos_part y) size (ground arith) (ground arith)
                  (ground arith) (ground arith)))
      ]
    ]
  ]
]

parse_sgf-IsPlaced : (x y : ℕ) (size : BoardSize) → IsPlaced size (parse_sgf x y size)
unfolding parse_sgf
parse_sgf-IsPlaced x y size =
    IsPlaced-if size (not (is_valid_sgf_character x)) _ _ tt
      (IsPlaced-if size (not (is_valid_sgf_character y)) _ _ tt (set_position-IsPlaced _ _ size))

parse_figure-IsPlaced : (x y : Bytes) (size : BoardSize) → IsPlaced size (parse_figure x y size)
unfolding parse_figure
parse_figure-IsPlaced x y size = IsPlaced-if size (contains_non_digits x) _ _ tt (
    IsPlaced-if size (contains_non_digits y) _ _ tt (
      stoi_or_throw-IsPlaced size (stoi x) _
        (λ i. stoi_or_throw-IsPlaced size (stoi y) _ (λ j. set_position-IsPlaced i j size))))

parse_hybrid-IsPlaced :
    (x : ℕ) (y : Bytes) (size : BoardSize) → IsPlaced size (parse_hybrid x y size)
unfolding parse_hybrid set_hybrid_position
parse_hybrid-IsPlaced x y size = IsPlaced-if size (not (is_valid_x_compound_hybrid x)) _ _ tt (
    IsPlaced-if size (contains_non_digits y) _ _ tt (
      stoi_or_throw-IsPlaced size (stoi y) _ (λ j.
        IsPlaced-if size (ltb_ℤ (pos 25) j) _ _ tt
          (IsPlaced-if_fits size _ (set_position-IsPlaced _ _ size)))))

decompose_compact-IsPlaced :
    (s : Bytes) (size : BoardSize) → IsPlaced size (decompose_compact s size)
unfolding decompose_compact
decompose_compact-IsPlaced [] size = tt
decompose_compact-IsPlaced (a ∷ []) size = tt
decompose_compact-IsPlaced (a ∷ b ∷ []) size =
    IsPlaced-if size (is_digit b) _ _ (parse_hybrid-IsPlaced a (b ∷ []) size)
      (parse_sgf-IsPlaced a b size)
decompose_compact-IsPlaced (a ∷ b ∷ c ∷ []) size =
    IsPlaced-if size (is_digit b) _ _ (parse_hybrid-IsPlaced a (b ∷ c ∷ []) size) tt
decompose_compact-IsPlaced (a ∷ b ∷ c ∷ d ∷ s) size = tt

decompose_parts-IsPlaced :
    (ps : List Bytes) (s : Bytes) (size : BoardSize) → IsPlaced size (decompose_parts ps s size)
unfolding decompose_parts
decompose_parts-IsPlaced [] s size = decompose_compact-IsPlaced s size
decompose_parts-IsPlaced (x ∷ []) s size = decompose_compact-IsPlaced s size
decompose_parts-IsPlaced (x ∷ y ∷ []) s size = parse_figure-IsPlaced x y size
decompose_parts-IsPlaced (x ∷ y ∷ z ∷ ps) s size = tt

pub make_point-IsPlaced : (s : Bytes) (size : BoardSize) → IsPlaced size (make_point s size)
unfolding make_point decompose_point_value
make_point-IsPlaced s size = IsPlaced-if size (ltb_ℤ size.columns (pos 1)) _ _ tt (
    IsPlaced-if size (ltb_ℤ (pos 52) size.columns) _ _ tt
      (decompose_parts-IsPlaced (split_string s b'-') s size))
