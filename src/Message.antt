-- ===== src/Message.antt =====
-- What src/SgfcUtility.cpp concludes from the messages of a run: the exit code and the validity of
-- the SGF data.
pub mod Worst
pub mod Captured
use libsgfc.Common.{Bool, true, false, List, [], ◌∷◌, if◌then◌else◌}

-- SgfcMessageType.
pub data MessageType : Type 0 where
  warning_message : MessageType
  error_message : MessageType
  fatal_error_message : MessageType

-- SgfcExitCode.
pub data ExitCode : Type 0 where
  ok_code : ExitCode
  warning_code : ExitCode
  error_code : ExitCode
  fatal_error_code : ExitCode

-- The tests behind the loop.
unfoldable pub exit_code_of : Bool → Bool → Bool → ExitCode
exit_code_of warning error fatal =
    if fatal
    then fatal_error_code
    else if error
    then error_code
    else if warning
    then warning_code
    else ok_code

-- The loop, with its three variables.
unfoldable pub exit_code_loop : Bool → Bool → Bool → List MessageType → ExitCode
exit_code_loop warning error fatal [] = exit_code_of warning error fatal
exit_code_loop warning error fatal (warning_message ∷ ms) = exit_code_loop true error fatal ms
exit_code_loop warning error fatal (error_message ∷ ms) = exit_code_loop warning true fatal ms
exit_code_loop warning error fatal (fatal_error_message ∷ ms) = exit_code_loop warning error true ms

unfoldable pub get_sgfc_exit_code : List MessageType → ExitCode
get_sgfc_exit_code ms = exit_code_loop false false false ms

unfoldable pub is_sgf_data_valid : List MessageType → Bool
is_sgf_data_valid [] = true
is_sgf_data_valid (fatal_error_message ∷ ms) = false
is_sgf_data_valid (warning_message ∷ ms) = is_sgf_data_valid ms
is_sgf_data_valid (error_message ∷ ms) = is_sgf_data_valid ms
