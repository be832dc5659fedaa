-- ===== src/Tests/PointRuns.antt =====
-- Concrete runs of the constructor of SgfcGoPoint.
use libsgfc.Common.{[], ◌∷◌, ◌≡◌, refl}
use libsgfc.Common.Int.{pos}
use libsgfc.Text.Split.{Bytes}
use libsgfc.Point.{BoardSize, overflows, map_position_to_sgf_character, set_position, make_point}
use libsgfc.Point.Again.{is_valid_board_size, IsMadeAgain, make_point-IsMadeAgain}

abbrev board : BoardSize
board = record { columns = pos 19; rows = pos 19 }

abbrev hybrid_text : Bytes
hybrid_text = b'Q' ∷ b'1' ∷ b'6' ∷ []

make_point-IsMadeAgain_example : IsMadeAgain board (make_point hybrid_text board)
unfolding is_valid_board_size
make_point-IsMadeAgain_example = make_point-IsMadeAgain hybrid_text board refl

-- The letter of a row far down a tall board wraps around.
wrapped_letter : map_position_to_sgf_character 250 ≡ b' '
unfolding map_position_to_sgf_character
wrapped_letter = refl

-- On a board of the greatest number of rows every position on it overflows.
overflow :
    set_position (pos 1) (pos 1) (record { columns = pos 1; rows = pos 2147483647 }) ≡ overflows
unfolding set_position
overflow = refl
