-- ===== src/GameResult/RoundTrip.antt =====
-- Results are read back from their texts.
use libsgfc.Common.{ℕ, ◌≡◌, refl, Option, some, Bool, true, false, [], ◌∷◌, ◌==◌, arith}
use libsgfc.Text.Split.{Bytes}
use libsgfc.GameResult.{
  ResultType, black_win, white_win, draw, no_result, unknown_result, WinType, win_with_score,
  win_without_score, win_by_resignation, win_on_time, win_by_forfeit, GameResult, decoded,
  match_score, result, decode_win, decode_winner, result_from_property_value, win_text, result_text,
  result_to_property_value,
}

-- A text of digits with at most one point.
abbrev pub IsScore : Bytes → Type 0
IsScore [] = Bool.false ≡ true
IsScore (c ∷ cs) = match_score true (c ∷ cs) ≡ true

score-first :
    (c : ℕ) (cs : Bytes)
    → match_score true (c ∷ cs) ≡ true
    → ((c == b'R') ≡ false) × ((c == b'T') ≡ false) × ((c == b'F') ≡ false)
unfolding match_score
score-first c cs h = (ground arith, ground arith, ground arith)

module _ {Real : Type 0} (zero_real : Real) (to_real : Bytes → Option Real)
    (print_real : Real → Bytes) where
  -- The win type and the score that a decoded result has: the default values where none is given.
  abbrev pub kept : ResultType → WinType → Real → GameResult Real
  kept black_win win_with_score s = result zero_real to_real print_real black_win win_with_score s
  kept white_win win_with_score s = result zero_real to_real print_real white_win win_with_score s
  kept black_win w s = result zero_real to_real print_real black_win w zero_real
  kept white_win w s = result zero_real to_real print_real white_win w zero_real
  kept t w s = result zero_real to_real print_real t win_with_score zero_real

  decode_win-score :
      (t : ResultType) (text : Bytes) (s : Real)
      → IsScore text
      → to_real text ≡ some s
      → decode_win zero_real to_real print_real t text
        ≡ decoded (result zero_real to_real print_real t win_with_score s)
  unfolding decode_win
  decode_win-score t [] s h e = absurd (cc)
  decode_win-score t (c ∷ cs) s h e = let (r, l, f) = score-first c cs h in rw (r, l, f, h, e) refl

  -- A result that says it is valid is read back from its text, with the default win type and the
  -- default score where it has none, if its score is printed as digits with at most one point that
  -- are converted to it again.
  pub result_from_property_value-result_to_property_value :
      (t : ResultType) (w : WinType) (s : Real)
      → IsScore (print_real s)
      → to_real (print_real s) ≡ some s
      → result_from_property_value zero_real to_real print_real (
          result_to_property_value zero_real to_real print_real
            (result zero_real to_real print_real t w s))
        ≡ decoded (kept t w s)
  unfolding result_from_property_value result_to_property_value result_text win_text decode_winner
      decode_win
  result_from_property_value-result_to_property_value black_win win_with_score s h e =
      decode_win-score black_win (print_real s) s h e
  result_from_property_value-result_to_property_value white_win win_with_score s h e =
      decode_win-score white_win (print_real s) s h e
  result_from_property_value-result_to_property_value black_win win_without_score s h e = refl
  result_from_property_value-result_to_property_value black_win win_by_resignation s h e = refl
  result_from_property_value-result_to_property_value black_win win_on_time s h e = refl
  result_from_property_value-result_to_property_value black_win win_by_forfeit s h e = refl
  result_from_property_value-result_to_property_value white_win win_without_score s h e = refl
  result_from_property_value-result_to_property_value white_win win_by_resignation s h e = refl
  result_from_property_value-result_to_property_value white_win win_on_time s h e = refl
  result_from_property_value-result_to_property_value white_win win_by_forfeit s h e = refl
  result_from_property_value-result_to_property_value draw w s h e = refl
  result_from_property_value-result_to_property_value no_result w s h e = refl
  result_from_property_value-result_to_property_value unknown_result w s h e = refl
