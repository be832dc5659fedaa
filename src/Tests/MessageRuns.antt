-- ===== src/Tests/MessageRuns.antt =====
-- A concrete list of messages.
use libsgfc.Common.{◌≡◌, List, [], ◌∷◌, ltb}
use libsgfc.Message.{
  MessageType, warning_message, error_message, get_sgfc_exit_code, is_sgf_data_valid,
}
use libsgfc.Message.Worst.{code_number, worst, get_sgfc_exit_code-worst}

abbrev messages : List MessageType
messages = warning_message ∷ error_message ∷ warning_message ∷ []

get_sgfc_exit_code-worst_example :
    (code_number (get_sgfc_exit_code messages) ≡ worst messages)
    × (is_sgf_data_valid messages ≡ ltb (worst messages) 20)
get_sgfc_exit_code-worst_example = get_sgfc_exit_code-worst messages
