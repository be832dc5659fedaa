-- ===== src/Arguments/Kinds.antt =====
-- The types of arguments by their integer values, and those that may be added several times.
use libsgfc.Common.{
  ℕ, zero, suc, List, [], ◌∷◌, ◌≡◌, ◌⊎◌, refl, sym, ap, inl, inr, Option, none, some, true, ==_iff,
  ◌∙◌,
}
use libsgfc.Arguments.{
  ArgumentType, code, can_be_added_multiple_times, is_type, beginning_of_sgf_data,
  disable_message_id, disable_warning_messages, hard_line_break_mode, line_break_at_end_of_node,
  no_soft_line_breaks_in_text_values, delete_markup_on_current_move, delete_empty_nodes,
  delete_obsolete_properties, delete_unknown_properties, delete_property_type,
  use_old_pass_move_notation, enable_restrictive_checking, correct_variation_level_and_root_moves,
  reverse_variation_ordering, expand_compressed_point_lists, encoding_mode, default_encoding,
  forced_encoding,
}

abbrev all_types : List ArgumentType
all_types =
    beginning_of_sgf_data ∷ disable_message_id ∷ disable_warning_messages ∷ hard_line_break_mode
    ∷ line_break_at_end_of_node ∷ no_soft_line_breaks_in_text_values ∷ delete_markup_on_current_move
    ∷ delete_empty_nodes ∷ delete_obsolete_properties ∷ delete_unknown_properties
    ∷ delete_property_type ∷ use_old_pass_move_notation ∷ enable_restrictive_checking
    ∷ correct_variation_level_and_root_moves ∷ reverse_variation_ordering
    ∷ expand_compressed_point_lists ∷ encoding_mode ∷ default_encoding ∷ forced_encoding ∷ []

abbrev entry : ℕ → List ArgumentType → Option ArgumentType
entry n [] = none
entry zero (t ∷ ts) = some t
entry (suc n) (t ∷ ts) = entry n ts

abbrev type_of_code : ℕ → Option ArgumentType
type_of_code n = entry n all_types

type_of_code-code : (t : ArgumentType) → type_of_code (code t) ≡ some t
unfolding code
type_of_code-code beginning_of_sgf_data = refl
type_of_code-code disable_message_id = refl
type_of_code-code disable_warning_messages = refl
type_of_code-code hard_line_break_mode = refl
type_of_code-code line_break_at_end_of_node = refl
type_of_code-code no_soft_line_breaks_in_text_values = refl
type_of_code-code delete_markup_on_current_move = refl
type_of_code-code delete_empty_nodes = refl
type_of_code-code delete_obsolete_properties = refl
type_of_code-code delete_unknown_properties = refl
type_of_code-code delete_property_type = refl
type_of_code-code use_old_pass_move_notation = refl
type_of_code-code enable_restrictive_checking = refl
type_of_code-code correct_variation_level_and_root_moves = refl
type_of_code-code reverse_variation_ordering = refl
type_of_code-code expand_compressed_point_lists = refl
type_of_code-code encoding_mode = refl
type_of_code-code default_encoding = refl
type_of_code-code forced_encoding = refl

abbrev type_or : ArgumentType → Option ArgumentType → ArgumentType
type_or t none = t
type_or t (some u) = u

pub is_type-eq : (t u : ArgumentType) → is_type t u ≡ true → t ≡ u
is_type-eq t u h = ap (type_or t) (
    sym (type_of_code-code t)
    ∙ ap type_of_code ((==_iff (code t) (code u)).0 h)
    ∙ type_of_code-code u)

pub can_be_added_multiple_times_cases :
    (t : ArgumentType)
    → can_be_added_multiple_times t ≡ true
    → (t ≡ disable_message_id) ⊎ (t ≡ delete_property_type)
unfolding can_be_added_multiple_times
can_be_added_multiple_times_cases beginning_of_sgf_data h = absurd cc
can_be_added_multiple_times_cases disable_message_id h = inl refl
can_be_added_multiple_times_cases disable_warning_messages h = absurd cc
can_be_added_multiple_times_cases hard_line_break_mode h = absurd cc
can_be_added_multiple_times_cases line_break_at_end_of_node h = absurd cc
can_be_added_multiple_times_cases no_soft_line_breaks_in_text_values h = absurd cc
can_be_added_multiple_times_cases delete_markup_on_current_move h = absurd cc
can_be_added_multiple_times_cases delete_empty_nodes h = absurd cc
can_be_added_multiple_times_cases delete_obsolete_properties h = absurd cc
can_be_added_multiple_times_cases delete_unknown_properties h = absurd cc
can_be_added_multiple_times_cases delete_property_type h = inr refl
can_be_added_multiple_times_cases use_old_pass_move_notation h = absurd cc
can_be_added_multiple_times_cases enable_restrictive_checking h = absurd cc
can_be_added_multiple_times_cases correct_variation_level_and_root_moves h = absurd cc
can_be_added_multiple_times_cases reverse_variation_ordering h = absurd cc
can_be_added_multiple_times_cases expand_compressed_point_lists h = absurd cc
can_be_added_multiple_times_cases encoding_mode h = absurd cc
can_be_added_multiple_times_cases default_encoding h = absurd cc
can_be_added_multiple_times_cases forced_encoding h = absurd cc
