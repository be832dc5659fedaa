-- ===== src/Arguments.antt =====
-- The arguments for SGFC: the constructors of an argument (src/sgfc/argument/SgfcArgument.cpp) and the
-- collection that takes them (src/sgfc/argument/SgfcArguments.cpp).
pub mod Kinds
pub mod Accepted
pub mod Added
pub mod Shown
use libsgfc.Common.{
  ℕ, Option, none, some, Bool, true, false, not, ◌&&◌, ◌||◌, List, [], ◌∷◌, ◌++◌, ◌==◌,
  if◌then◌else◌,
}
use libsgfc.Common.Int.{ℤ, pos, negsuc, eqb_ℤ}
use libsgfc.Text.Split.{Bytes, bytes_eq}
use libsgfc.Property.{PropertyType, unknown, type_eq}

-- include/SgfcArgumentType.h.
pub data ArgumentType : Type 0 where
  beginning_of_sgf_data : ArgumentType
  disable_message_id : ArgumentType
  disable_warning_messages : ArgumentType
  hard_line_break_mode : ArgumentType
  line_break_at_end_of_node : ArgumentType
  no_soft_line_breaks_in_text_values : ArgumentType
  delete_markup_on_current_move : ArgumentType
  delete_empty_nodes : ArgumentType
  delete_obsolete_properties : ArgumentType
  delete_unknown_properties : ArgumentType
  delete_property_type : ArgumentType
  use_old_pass_move_notation : ArgumentType
  enable_restrictive_checking : ArgumentType
  correct_variation_level_and_root_moves : ArgumentType
  reverse_variation_ordering : ArgumentType
  expand_compressed_point_lists : ArgumentType
  encoding_mode : ArgumentType
  default_encoding : ArgumentType
  forced_encoding : ArgumentType

-- The integer value of the enumeration.
unfoldable pub code : ArgumentType → ℕ
code beginning_of_sgf_data = 0
code disable_message_id = 1
code disable_warning_messages = 2
code hard_line_break_mode = 3
code line_break_at_end_of_node = 4
code no_soft_line_breaks_in_text_values = 5
code delete_markup_on_current_move = 6
code delete_empty_nodes = 7
code delete_obsolete_properties = 8
code delete_unknown_properties = 9
code delete_property_type = 10
code use_old_pass_move_notation = 11
code enable_restrictive_checking = 12
code correct_variation_level_and_root_moves = 13
code reverse_variation_ordering = 14
code expand_compressed_point_lists = 15
code encoding_mode = 16
code default_encoding = 17
code forced_encoding = 18

abbrev pub is_type : ArgumentType → ArgumentType → Bool
is_type t u = code t == code u

-- The parameter of an argument; a message ID by its integer value.
pub data Parameter : Type 0 where
  nothing : Parameter
  integer : ℤ → Parameter
  string : Bytes → Parameter
  property : PropertyType → Parameter
  message : ℤ → Parameter

pub record Argument : Type 0 where
  pub argument_type : ArgumentType
  pub parameter : Parameter

-- The switch statements of the five constructors.
unfoldable pub takes_nothing : ArgumentType → Bool
takes_nothing disable_warning_messages = true
takes_nothing line_break_at_end_of_node = true
takes_nothing no_soft_line_breaks_in_text_values = true
takes_nothing delete_markup_on_current_move = true
takes_nothing delete_empty_nodes = true
takes_nothing delete_obsolete_properties = true
takes_nothing delete_unknown_properties = true
takes_nothing use_old_pass_move_notation = true
takes_nothing enable_restrictive_checking = true
takes_nothing correct_variation_level_and_root_moves = true
takes_nothing reverse_variation_ordering = true
takes_nothing expand_compressed_point_lists = true
takes_nothing t = false

unfoldable pub takes_integer : ArgumentType → Bool
takes_integer beginning_of_sgf_data = true
takes_integer hard_line_break_mode = true
takes_integer encoding_mode = true
takes_integer t = false

unfoldable pub takes_string : ArgumentType → Bool
takes_string default_encoding = true
takes_string forced_encoding = true
takes_string t = false

unfoldable pub takes_property : ArgumentType → Bool
takes_property delete_property_type = true
takes_property t = false

unfoldable pub takes_message : ArgumentType → Bool
takes_message disable_message_id = true
takes_message t = false

unfoldable pub takes : ArgumentType → Parameter → Bool
takes t nothing = takes_nothing t
takes t (integer i) = takes_integer t
takes t (string s) = takes_string t
takes t (property p) = takes_property t
takes t (message m) = takes_message t

-- The constructor that the parameter calls for; `none` stands for the `std::invalid_argument`.
unfoldable pub make_argument : ArgumentType → Parameter → Option Argument
make_argument t p = if takes t p then some (record { argument_type = t; parameter = p }) else none

-- The getters, with the values that the constructors for other parameters store.
unfoldable pub get_integer_type_parameter : Parameter → ℤ
get_integer_type_parameter (integer i) = i
get_integer_type_parameter p = negsuc 0

unfoldable pub get_string_type_parameter : Parameter → Bytes
get_string_type_parameter (string s) = s
get_string_type_parameter p = []

unfoldable pub get_property_type_parameter : Parameter → PropertyType
get_property_type_parameter (property t) = t
get_property_type_parameter p = unknown

-- The value of SgfcMessageID::UnknownSgfcMessageID.
abbrev unknown_message_id : ℤ
unknown_message_id = pos 2147483647

unfoldable pub get_message_id_parameter : Parameter → ℤ
get_message_id_parameter (message m) = m
get_message_id_parameter p = unknown_message_id

unfoldable pub can_be_added_multiple_times : ArgumentType → Bool
can_be_added_multiple_times disable_message_id = true
can_be_added_multiple_times delete_property_type = true
can_be_added_multiple_times t = false

-- Whether the getter for a parameter, called on another argument's, returns the same value.
unfoldable pub getter_returns : Parameter → Parameter → Bool
getter_returns nothing old = false
getter_returns (integer i) old = eqb_ℤ (get_integer_type_parameter old) i
getter_returns (string s) old = bytes_eq (get_string_type_parameter old) s
getter_returns (property t) old = type_eq (get_property_type_parameter old) t
getter_returns (message m) old = eqb_ℤ (get_message_id_parameter old) m

abbrev pub Arguments : Type 0
Arguments = List Argument

abbrev has_type : ArgumentType → Arguments → Bool
has_type t [] = false
has_type t (a ∷ as_) = is_type a.argument_type t || has_type t as_

-- The loop of `ThrowIfMultiplicityViolated` for a type with a parameter: whether it throws.
abbrev violation_loop : ArgumentType → Parameter → Arguments → Bool
violation_loop t p [] = false
violation_loop t p (a ∷ as_) =
    let rest = violation_loop t p as_ in
    if is_type a.argument_type t
    then (if not (can_be_added_multiple_times t)
        then true
        else if getter_returns p a.parameter
        then true
        else rest)
    else rest

-- The two `ThrowIfMultiplicityViolated`.
unfoldable pub is_multiplicity_violated : ArgumentType → Parameter → Arguments → Bool
is_multiplicity_violated t nothing args =
    if can_be_added_multiple_times t then false else has_type t args
is_multiplicity_violated t (integer i) args = violation_loop t (integer i) args
is_multiplicity_violated t (string s) args = violation_loop t (string s) args
is_multiplicity_violated t (property u) args = violation_loop t (property u) args
is_multiplicity_violated t (message m) args = violation_loop t (message m) args

-- The two reasons for a `std::invalid_argument`.
pub data ArgumentRefusal : Type 0 where
  is_present : ArgumentRefusal
  wrong_parameter : ArgumentRefusal

pub data ArgumentEdit : Type 0 where
  changed : Arguments → ArgumentEdit
  refused : ArgumentRefusal → ArgumentEdit

abbrev pub after : Arguments → ArgumentEdit → Arguments
after old (changed new) = new
after old (refused e) = old

abbrev push_back : Arguments → Option Argument → ArgumentEdit
push_back args none = refused wrong_parameter
push_back args (some a) = changed (args ++ a ∷ [])

-- The five `AddArgument`.
unfoldable pub add_argument : ArgumentType → Parameter → Arguments → ArgumentEdit
add_argument t p args =
    if is_multiplicity_violated t p args
    then refused is_present
    else push_back args (make_argument t p)

unfoldable pub clear_arguments : Arguments → Arguments
clear_arguments args = []

unfoldable pub has_arguments : Arguments → Bool
has_arguments [] = false
has_arguments (a ∷ as_) = true
