-- ===== src/Unescape.antt =====
-- The methods of the property decoder that take line breaks and escape characters out of the raw
-- text of a value (src/parsing/SgfcPropertyDecoder.cpp). Each regular expression stands for one or two
-- characters behind a backslash, so the replacement is written out.
pub mod Back
pub mod LineBreaks
use libsgfc.Common.{ℕ, Bool, true, false, ◌&&◌, ◌||◌, List, [], ◌∷◌, ◌==◌, if◌then◌else◌}
use libsgfc.Text.Split.{Bytes}
use libsgfc.Encoder.{
  ValueContext, first_value_of_composed_value, second_value_of_composed_value, standalone,
}

-- `std::regex_replace` of a backslash and a character by the character, from left to right.
unfoldable pub unescape_all : ℕ → Bytes → Bytes
unescape_all d [] = []
unescape_all d (x ∷ []) = x ∷ []
unescape_all d (x ∷ y ∷ rest) =
    let found = unescape_all d rest in
    let next = unescape_all d (y ∷ rest) in if (x == b'\\') && (y == d) then d ∷ found else x ∷ next

unfoldable pub remove_mandatory_escape_characters : Bytes → Bytes
remove_mandatory_escape_characters raw = unescape_all b']' raw

abbrev unescape_separator : Bytes → ValueContext → Bytes
unescape_separator raw first_value_of_composed_value = unescape_all b':' raw
unescape_separator raw second_value_of_composed_value = unescape_all b':' raw
unescape_separator raw standalone = raw

-- `RemoveSimpleTextAndTextEscapeCharacters`.
unfoldable pub remove_text_escape_characters : Bytes → ValueContext → Bytes
remove_text_escape_characters raw context =
    unescape_all b'\\' (unescape_separator (remove_mandatory_escape_characters raw) context)

-- `RemoveMoveAndPointAndStoneEscapeCharactersForNonGoGameTypes`.
unfoldable pub remove_board_value_escape_characters : Bytes → ValueContext → Bytes
remove_board_value_escape_characters raw first_value_of_composed_value =
    unescape_all b':' (remove_mandatory_escape_characters raw)
remove_board_value_escape_characters raw second_value_of_composed_value =
    remove_mandatory_escape_characters raw
remove_board_value_escape_characters raw standalone = remove_mandatory_escape_characters raw

abbrev pub is_line_end : ℕ → Bool
is_line_end c = (c == b'\n') || (c == b'\r')

-- The second character of a line ending of two: the other one.
abbrev completes : ℕ → ℕ → Bool
completes x y = ((x == b'\r') && (y == b'\n')) || ((x == b'\n') && (y == b'\r'))

-- A backslash and the line ending behind it, removed: `\r\n` and `\n\r` are one line ending.
unfoldable pub remove_escaped_line_ends : Bytes → Bytes
remove_escaped_line_ends [] = []
remove_escaped_line_ends (x ∷ []) = x ∷ []
remove_escaped_line_ends (x ∷ y ∷ []) =
    let next = remove_escaped_line_ends (y ∷ []) in
    if (x == b'\\') && is_line_end y then [] else x ∷ next
remove_escaped_line_ends (x ∷ y ∷ z ∷ rest) =
    let longer = remove_escaped_line_ends rest in
    let shorter = remove_escaped_line_ends (z ∷ rest) in
    let next = remove_escaped_line_ends (y ∷ z ∷ rest) in
    if (x == b'\\') && is_line_end y then (if completes y z then longer else shorter) else x ∷ next

-- Each line ending, replaced by a space.
unfoldable pub replace_line_ends : Bytes → Bytes
replace_line_ends [] = []
replace_line_ends (x ∷ []) = if is_line_end x then b' ' ∷ [] else x ∷ []
replace_line_ends (x ∷ y ∷ rest) =
    let longer = replace_line_ends rest in
    let shorter = replace_line_ends (y ∷ rest) in
    if is_line_end x then (if completes x y then b' ' ∷ longer else b' ' ∷ shorter) else x ∷ shorter

unfoldable pub remove_text_line_breaks : Bytes → Bytes
remove_text_line_breaks raw = remove_escaped_line_ends raw

unfoldable pub remove_simple_text_line_breaks : Bytes → Bytes
remove_simple_text_line_breaks raw = replace_line_ends (remove_escaped_line_ends raw)

-- A SimpleText or Text value: the raw value, and the parsed one.
pub record DecodedText : Type 0 where
  pub raw_value : Bytes
  pub parsed_value : Bytes

-- The member `escapeProcessingEnabled`, which is false in a new decoder, is the first argument.
unfoldable pub get_simple_text_value : Bool → Bytes → ValueContext → DecodedText
get_simple_text_value escape_processing_enabled raw context =
    let unbroken = remove_simple_text_line_breaks raw in
    record {
      raw_value = raw;
      parsed_value =
          if escape_processing_enabled
          then remove_text_escape_characters unbroken context
          else unbroken;
    }

unfoldable pub get_text_value : Bool → Bytes → ValueContext → DecodedText
get_text_value escape_processing_enabled raw context =
    let unbroken = remove_text_line_breaks raw in
    record {
      raw_value = raw;
      parsed_value =
          if escape_processing_enabled
          then remove_text_escape_characters unbroken context
          else unbroken;
    }
