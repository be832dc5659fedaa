-- ===== src/Arguments/Shown.antt =====
-- The arguments as SGFC reads them on a command line (`ToString` of src/sgfc/argument/SgfcArgument.cpp,
-- the table of src/SgfcPrivateConstants.cpp, and `ConvertArgumentsToArgvStyle` of
-- src/sgfc/backend/SgfcBackendController.cpp).
use libsgfc.Common.{Option, none, some, List, [], ◌∷◌, ◌++◌}
use libsgfc.Text.Split.{Bytes}
use libsgfc.Message.Captured.{print_ℤ}
use libsgfc.Constants.Names.{map_property_type_to_property_name}
use libsgfc.Arguments.{
  ArgumentType, Parameter, nothing, integer, string, property, message, Argument, Arguments,
  beginning_of_sgf_data, disable_message_id, disable_warning_messages, hard_line_break_mode,
  line_break_at_end_of_node, no_soft_line_breaks_in_text_values, delete_markup_on_current_move,
  delete_empty_nodes, delete_obsolete_properties, delete_unknown_properties, delete_property_type,
  use_old_pass_move_notation, enable_restrictive_checking, correct_variation_level_and_root_moves,
  reverse_variation_ordering, expand_compressed_point_lists, encoding_mode, default_encoding,
  forced_encoding,
}

-- `MapArgumentTypeToCmdlineOption` with its map, which has all types.
unfoldable pub map_argument_type_to_cmdline_option : ArgumentType → Bytes
map_argument_type_to_cmdline_option beginning_of_sgf_data = b'-' ∷ b'b' ∷ []
map_argument_type_to_cmdline_option disable_message_id = b'-' ∷ b'd' ∷ []
map_argument_type_to_cmdline_option disable_warning_messages = b'-' ∷ b'w' ∷ []
map_argument_type_to_cmdline_option hard_line_break_mode = b'-' ∷ b'l' ∷ []
map_argument_type_to_cmdline_option line_break_at_end_of_node = b'-' ∷ b'L' ∷ []
map_argument_type_to_cmdline_option no_soft_line_breaks_in_text_values = b'-' ∷ b't' ∷ []
map_argument_type_to_cmdline_option delete_markup_on_current_move = b'-' ∷ b'm' ∷ []
map_argument_type_to_cmdline_option delete_empty_nodes = b'-' ∷ b'n' ∷ []
map_argument_type_to_cmdline_option delete_obsolete_properties = b'-' ∷ b'o' ∷ []
map_argument_type_to_cmdline_option delete_unknown_properties = b'-' ∷ b'u' ∷ []
map_argument_type_to_cmdline_option delete_property_type = b'-' ∷ b'y' ∷ []
map_argument_type_to_cmdline_option use_old_pass_move_notation = b'-' ∷ b'p' ∷ []
map_argument_type_to_cmdline_option enable_restrictive_checking = b'-' ∷ b'r' ∷ []
map_argument_type_to_cmdline_option correct_variation_level_and_root_moves = b'-' ∷ b'v' ∷ []
map_argument_type_to_cmdline_option reverse_variation_ordering = b'-' ∷ b'z' ∷ []
map_argument_type_to_cmdline_option expand_compressed_point_lists = b'-' ∷ b'e' ∷ []
map_argument_type_to_cmdline_option encoding_mode = b'-' ∷ b'E' ∷ []
map_argument_type_to_cmdline_option default_encoding =
    b'-' ∷ b'-' ∷ b'd' ∷ b'e' ∷ b'f' ∷ b'a' ∷ b'u' ∷ b'l' ∷ b't' ∷ b'-' ∷ b'e' ∷ b'n' ∷ b'c' ∷ b'o'
    ∷ b'd' ∷ b'i' ∷ b'n' ∷ b'g' ∷ []
map_argument_type_to_cmdline_option forced_encoding =
    b'-' ∷ b'-' ∷ b'e' ∷ b'n' ∷ b'c' ∷ b'o' ∷ b'd' ∷ b'i' ∷ b'n' ∷ b'g' ∷ []

-- What stands behind the option; `none` stands for the `std::invalid_argument` of the map of
-- property names.
unfoldable pub parameter_text : Parameter → Option Bytes
parameter_text nothing = some []
parameter_text (integer i) = some (print_ℤ i)
parameter_text (string s) = some (b'=' ∷ s)
parameter_text (property t) = map_property_type_to_property_name t
parameter_text (message m) = some (print_ℤ m)

abbrev behind_option : Bytes → Option Bytes → Option Bytes
behind_option option none = none
behind_option option (some s) = some (option ++ s)

-- `ToString`.
unfoldable pub to_string : Argument → Option Bytes
to_string a =
    behind_option (map_argument_type_to_cmdline_option a.argument_type) (parameter_text a.parameter)

abbrev and_text : Option Bytes → Option (List Bytes) → Option (List Bytes)
and_text none rest = none
and_text (some s) none = none
and_text (some s) (some rest) = some (s ∷ rest)

unfoldable pub argument_texts : Arguments → Option (List Bytes)
argument_texts [] = some []
argument_texts (a ∷ as_) = and_text (to_string a) (argument_texts as_)

-- "libsgfc++", the name of the program.
abbrev library_name : Bytes
library_name = b'l' ∷ b'i' ∷ b'b' ∷ b's' ∷ b'g' ∷ b'f' ∷ b'c' ∷ b'+' ∷ b'+' ∷ []

-- `ConvertArgumentsToArgvStyle`.
unfoldable pub convert_arguments_to_argv_style : Arguments → Option (List Bytes)
convert_arguments_to_argv_style args = and_text (some library_name) (argument_texts args)
