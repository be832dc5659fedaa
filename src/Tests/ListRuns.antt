-- ===== src/Tests/ListRuns.antt =====
-- Arguments for SGFC.
use libsgfc.Common.{◌≡◌, refl, List, [], ◌∷◌}
use libsgfc.Common.Int.{pos, negsuc}
use libsgfc.Arguments.{
  disable_message_id, delete_empty_nodes, hard_line_break_mode, nothing, integer, message, Argument,
  add_argument, takes, takes_nothing, takes_integer, takes_message, code,
}
use libsgfc.Arguments.Accepted.{new_argument}
use libsgfc.Arguments.Added

abbrev argument_calls : List Added.Call
argument_calls =
    Added.add disable_message_id (message (pos 5))
    ∷ Added.add disable_message_id (message (pos 5))
    ∷ Added.add disable_message_id (message (pos 6))
    ∷ Added.add delete_empty_nodes (integer (pos 1))
    ∷ Added.add delete_empty_nodes nothing
    ∷ []

perform_all_arguments-IsAccepted_example : Added.IsAccepted (Added.perform_all argument_calls [])
perform_all_arguments-IsAccepted_example = Added.perform_all_arguments-IsAccepted argument_calls

add_argument-IsAccepted_example :
    add_argument hard_line_break_mode
      (integer (pos 2))
      (new_argument delete_empty_nodes nothing ∷ [])
    ≡ libsgfc.Arguments.changed (
        new_argument delete_empty_nodes nothing
        ∷ new_argument hard_line_break_mode (integer (pos 2))
        ∷ [])
unfolding takes takes_nothing takes_integer code
add_argument-IsAccepted_example =
    (Added.add_argument-IsAccepted hard_line_break_mode (integer (pos 2))
        (new_argument delete_empty_nodes nothing ∷ []) refl).0
      refl

-- A message ID of the library, which SGFC does not know, is appended.
unknown_message :
    add_argument disable_message_id (message (negsuc 0)) []
    ≡ libsgfc.Arguments.changed (new_argument disable_message_id (message (negsuc 0)) ∷ [])
unfolding takes takes_message code
unknown_message =
    (Added.add_argument-IsAccepted disable_message_id (message (negsuc 0)) [] refl).0 refl
