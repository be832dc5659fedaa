-- ===== src/GameResult.antt =====
-- The result of a game as a property value (src/game/SgfcGameResult.cpp, with the regular expression
-- of src/SgfcPrivateConstants.cpp). The numbers of type SgfcReal, `stod` and the stream output of
-- them are parameters.
pub mod RoundTrip
use libsgfc.Common.{
  Option, none, some, Bool, true, false, ◌&&◌, ◌||◌, List, [], ◌∷◌, ◌++◌, ◌==◌, if◌then◌else◌,
}
use libsgfc.Text.Split.{Bytes, bytes_eq}
use libsgfc.Text.Number.{is_digit}

-- SgfcGameResultType and SgfcWinType.
pub data ResultType : Type 0 where
  black_win : ResultType
  white_win : ResultType
  draw : ResultType
  no_result : ResultType
  unknown_result : ResultType

pub data WinType : Type 0 where
  win_with_score : WinType
  win_without_score : WinType
  win_by_resignation : WinType
  win_on_time : WinType
  win_by_forfeit : WinType

-- The members of SgfcGameResult.
pub record GameResult (Real : Type 0) : Type 0 where
  pub result_type : ResultType
  pub win_type : WinType
  pub score : Real
  pub is_valid : Bool

-- A decoded result, or the `std::logic_error` for a score that cannot be converted.
pub data Decoded (Real : Type 0) : Type 0 where
  decoded : GameResult Real → Decoded Real
  score_not_converted : Decoded Real

-- `[[:digit:]]*\.?[[:digit:]]*`; the Boolean says whether the point may still follow.
unfoldable pub match_score : Bool → Bytes → Bool
match_score point [] = true
match_score point (c ∷ cs) =
    let digits = match_score point cs in
    let fraction = match_score false cs in
    if is_digit c then digits else (c == b'.') && point && fraction

module _ {Real : Type 0} (zero_real : Real) (to_real : Bytes → Option Real)
    (print_real : Real → Bytes) where
  abbrev pub result : ResultType → WinType → Real → GameResult Real
  result t w s = record { result_type = t; win_type = w; score = s; is_valid = true }

  -- A new result with its default values.
  abbrev pub no_game_result : GameResult Real
  no_game_result = record {
    result_type = unknown_result;
    win_type = win_with_score;
    score = zero_real;
    is_valid = false;
  }

  abbrev pub scored : ResultType → Option Real → Decoded Real
  scored t none = score_not_converted
  scored t (some s) = decoded (result t win_with_score s)

  -- The groups 8 to 12, for what stands behind "B+" or "W+"; nothing there leaves group 12 empty.
  unfoldable pub decode_win : ResultType → Bytes → Decoded Real
  decode_win t [] = decoded (result t win_without_score zero_real)
  decode_win t (c ∷ cs) =
      let s = c ∷ cs in
      if bytes_eq s (b'R' ∷ []) || bytes_eq s (b'R' ∷ b'e' ∷ b's' ∷ b'i' ∷ b'g' ∷ b'n' ∷ [])
      then decoded (result t win_by_resignation zero_real)
      else if bytes_eq s (b'T' ∷ []) || bytes_eq s (b'T' ∷ b'i' ∷ b'm' ∷ b'e' ∷ [])
      then decoded (result t win_on_time zero_real)
      else if bytes_eq s (b'F' ∷ [])
          || bytes_eq s (b'F' ∷ b'o' ∷ b'r' ∷ b'f' ∷ b'e' ∷ b'i' ∷ b't' ∷ [])
      then decoded (result t win_by_forfeit zero_real)
      else if match_score true s
      then scored t (to_real s)
      else decoded no_game_result

  -- The groups 6 and 7.
  unfoldable pub decode_winner : Bytes → Decoded Real
  decode_winner [] = decoded no_game_result
  decode_winner (c ∷ []) = decoded no_game_result
  decode_winner (c ∷ d ∷ rest) =
      if (c == b'B') && (d == b'+')
      then decode_win black_win rest
      else if (c == b'W') && (d == b'+')
      then decode_win white_win rest
      else decoded no_game_result

  -- `FromPropertyValue`: the alternatives of the regular expression in their order.
  unfoldable pub result_from_property_value : Bytes → Decoded Real
  result_from_property_value s =
      if bytes_eq s (b'0' ∷ []) || bytes_eq s (b'D' ∷ b'r' ∷ b'a' ∷ b'w' ∷ [])
      then decoded (result draw win_with_score zero_real)
      else if bytes_eq s (b'V' ∷ b'o' ∷ b'i' ∷ b'd' ∷ [])
      then decoded (result no_result win_with_score zero_real)
      else if bytes_eq s (b'?' ∷ [])
      then decoded (result unknown_result win_with_score zero_real)
      else decode_winner s

  unfoldable pub win_text : WinType → Real → Bytes
  win_text win_with_score s = print_real s
  win_text win_without_score s = []
  win_text win_by_resignation s = (b'R' ∷ b'e' ∷ b's' ∷ b'i' ∷ b'g' ∷ b'n' ∷ [])
  win_text win_on_time s = (b'T' ∷ b'i' ∷ b'm' ∷ b'e' ∷ [])
  win_text win_by_forfeit s = (b'F' ∷ b'o' ∷ b'r' ∷ b'f' ∷ b'e' ∷ b'i' ∷ b't' ∷ [])

  unfoldable pub result_text : ResultType → WinType → Real → Bytes
  result_text black_win w s = b'B' ∷ b'+' ∷ win_text w s
  result_text white_win w s = b'W' ∷ b'+' ∷ win_text w s
  result_text draw w s = (b'D' ∷ b'r' ∷ b'a' ∷ b'w' ∷ [])
  result_text no_result w s = (b'V' ∷ b'o' ∷ b'i' ∷ b'd' ∷ [])
  result_text unknown_result w s = (b'?' ∷ [])

  -- `ToPropertyValue`.
  unfoldable pub result_to_property_value : GameResult Real → Bytes
  result_to_property_value g =
      if g.is_valid then result_text g.result_type g.win_type g.score else []
