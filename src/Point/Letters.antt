-- ===== src/Point/Letters.antt =====
-- The SGF notation of a made point gives the same point again.
use libsgfc.Common.{
  ℕ, ◌+◌, ◌-◌, ◌≤◌, ◌≡◌, inl, inr, true, false, [], ◌∷◌, leb, ◌==◌, arith, Bool-cases, ◌∙◌,
}
use libsgfc.Common.Int.{pos, ltb_ℤ}
use libsgfc.Text.Split.{split_string}
use libsgfc.Text.Split.Laws.{split_string-fields, fields_whole}
use libsgfc.Text.Number.{is_digit}
use libsgfc.Point.{
  made, is_valid_sgf_character, map_sgf_character_to_position, map_position_to_sgf_character,
  build_notations, set_position, parse_sgf, decompose_compact, decompose_parts,
  decompose_point_value, make_point,
}

-- A position is the one of its letter, which is neither a digit nor a hyphen.
abbrev IsLetterOf : ℕ → ℕ → Type 0
IsLetterOf n c =
    (is_valid_sgf_character c ≡ true)
    × (map_sgf_character_to_position c ≡ n)
    × (is_digit c ≡ false)
    × ((c == b'-') ≡ false)

map_position_to_sgf_character-IsLetterOf :
    (n : ℕ) → 1 ≤ n → n ≤ 52 → IsLetterOf n (map_position_to_sgf_character n)
unfolding map_position_to_sgf_character map_sgf_character_to_position
map_position_to_sgf_character-IsLetterOf n a b = elim (Bool-cases (leb n 26)) [
  | inl e ↦ rw e (ground arith, ground arith, ground arith, ground arith)
  | inr e ↦ rw e (ground arith, ground arith, ground arith, ground arith)
]

set_position-made :
    (x y : ℕ) (c r : ℕ)
    → 1 ≤ x
    → x ≤ c
    → 1 ≤ y
    → y ≤ r
    → r ≤ 52
    → set_position (pos x) (pos y) (record { columns = pos c; rows = pos r })
      ≡ made (build_notations x y (r + 1 - y))
unfolding set_position
set_position-made x y c r a b d e l = ground arith

letters-made :
    (x y i j c r : ℕ)
    → IsLetterOf x i
    → IsLetterOf y j
    → 1 ≤ x
    → x ≤ c
    → c ≤ 52
    → 1 ≤ y
    → y ≤ r
    → r ≤ 52
    → make_point (i ∷ j ∷ []) (record { columns = pos c; rows = pos r })
      ≡ made (build_notations x y (r + 1 - y))
unfolding make_point decompose_point_value decompose_parts decompose_compact parse_sgf
letters-made x y i j c r p q a b b' d e l = rw low (
    rw high
      (rw split (rw q.2 (rw (p.0, q.0) (rw (p.1, q.1) (set_position-made x y c r a b d e l))))))
  where
    low : ltb_ℤ (pos c) (pos 1) ≡ false
    low = ground arith

    high : ltb_ℤ (pos 52) (pos c) ≡ false
    high = ground arith

    split : split_string (i ∷ j ∷ []) b'-' ≡ (i ∷ j ∷ []) ∷ []
    split =
        (split_string-fields b'-' (i ∷ j ∷ [])).1
        ∙ fields_whole b'-' (i ∷ j ∷ []) (ground (arith, p.3, q.3))

-- On a board of at most 52 columns and rows the SGF notation of the point at a position, read by
-- the constructor, gives that point again.
pub make_point-build_notations :
    (x y c r : ℕ)
    → 1 ≤ x
    → x ≤ c
    → c ≤ 52
    → 1 ≤ y
    → y ≤ r
    → r ≤ 52
    → make_point ((build_notations x y (r + 1 - y)).sgf) (record { columns = pos c; rows = pos r })
      ≡ made (build_notations x y (r + 1 - y))
unfolding build_notations
make_point-build_notations x y c r a b k d e l =
    letters-made x y (map_position_to_sgf_character x) (map_position_to_sgf_character y) c r
      (map_position_to_sgf_character-IsLetterOf x a (omega arith))
      (map_position_to_sgf_character-IsLetterOf y d (omega arith)) a b k d e l
