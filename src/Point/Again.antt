-- ===== src/Point/Again.antt =====
-- src/game/SgfcBoardSize.cpp, and the points on the boards that it finds valid.
use libsgfc.Common.{
  ◌+◌, ◌-◌, ◌≡◌, sym, ap, subst, Bool, true, false, not, ◌||◌, if◌then◌else◌, arith, ◌∙◌,
}
use libsgfc.Common.Int.{ℤ, pos, negsuc, ltb_ℤ, eqb_ℤ}
use libsgfc.Text.Split.{Bytes}
use libsgfc.Point.{
  Made, made, invalid_argument, stoi_out_of_range, overflows, row_fits, BoardSize, GoPoint,
  build_notations, make_point,
}
use libsgfc.Point.Notation.{OnBoard, IsPlaced, make_point-IsPlaced}
use libsgfc.Point.Letters.{make_point-build_notations}

-- SgfcGameType, as far as the board size depends on it.
pub data GameType : Type 0 where
  go : GameType
  chess : GameType
  other_game : GameType

abbrev pub size_of : ℤ → ℤ → BoardSize
size_of c r = record { columns = c; rows = r }

unfoldable pub is_square : BoardSize → Bool
is_square s = eqb_ℤ s.columns s.rows

-- The test of the maximum, for the game of Go only.
abbrev exceeds_maximum : BoardSize → GameType → Bool
exceeds_maximum s go = ltb_ℤ (pos 52) s.columns || ltb_ℤ (pos 52) s.rows
exceeds_maximum s chess = false
exceeds_maximum s other_game = false

unfoldable pub is_valid_board_size : BoardSize → GameType → Bool
is_valid_board_size s game =
    if ltb_ℤ s.columns (pos 1) || ltb_ℤ s.rows (pos 1)
    then false
    else if exceeds_maximum s game
    then false
    else true

unfoldable pub get_default_board_size : GameType → BoardSize
get_default_board_size go = size_of (pos 19) (pos 19)
get_default_board_size chess = size_of (pos 8) (pos 8)
get_default_board_size other_game = size_of (negsuc 0) (negsuc 0)

unfoldable pub board_size_eq : BoardSize → BoardSize → Bool
board_size_eq a b =
    if not (eqb_ℤ a.columns b.columns)
    then false
    else if not (eqb_ℤ a.rows b.rows)
    then false
    else true

-- The SGF notation of the point, if one is made, gives that point again.
abbrev pub IsMadeAgain : BoardSize → Made GoPoint → Type 0
IsMadeAgain size (made p) = make_point p.sgf size ≡ made p
IsMadeAgain size invalid_argument = Unit
IsMadeAgain size stoi_out_of_range = Unit
IsMadeAgain size overflows = true ≡ false

OnBoard-again :
    (c r : ℤ) (p : GoPoint)
    → is_valid_board_size (size_of c r) go ≡ true
    → OnBoard (size_of c r) p
    → make_point p.sgf (size_of c r) ≡ made p
unfolding is_valid_board_size
OnBoard-again (pos c) (pos r) p v o =
    subst (λ q. make_point q.sgf (size_of (pos c) (pos r)) ≡ made q) (sym built)
      (make_point-build_notations p.x_upper_left p.y_upper_left c r o.0 o.1 (ground arith) o.2 o.3
        (ground arith))
  where
    low : p.y_lower_left ≡ r + 1 - p.y_upper_left
    low = omega (arith, o.4)

    built : p ≡ build_notations p.x_upper_left p.y_upper_left (r + 1 - p.y_upper_left)
    built = o.5 ∙ ap (build_notations p.x_upper_left p.y_upper_left) low
OnBoard-again (negsuc c) r p v o = absurd (ground arith)
OnBoard-again (pos c) (negsuc r) p v o = absurd (ground arith)

valid-row_fits :
    (c r : ℤ) → is_valid_board_size (size_of c r) go ≡ true → true ≡ row_fits (size_of c r)
unfolding is_valid_board_size
valid-row_fits c (pos r) v = ground arith
valid-row_fits c (negsuc r) v = ground arith

IsPlaced-again :
    (c r : ℤ) (m : Made GoPoint)
    → is_valid_board_size (size_of c r) go ≡ true
    → IsPlaced (size_of c r) m
    → IsMadeAgain (size_of c r) m
IsPlaced-again c r (made p) v o = OnBoard-again c r p v o
IsPlaced-again c r invalid_argument v o = tt
IsPlaced-again c r stoi_out_of_range v o = tt
IsPlaced-again c r overflows v o = valid-row_fits c r v ∙ o

-- On a board whose size is valid for Go, whatever the text and its notation, the constructor of
-- SgfcGoPoint throws or makes a point whose SGF notation gives that point again.
pub make_point-IsMadeAgain :
    (s : Bytes) (size : BoardSize)
    → is_valid_board_size size go ≡ true
    → IsMadeAgain size (make_point s size)
make_point-IsMadeAgain s size v =
    IsPlaced-again size.columns size.rows (make_point s size) v (make_point-IsPlaced s size)
