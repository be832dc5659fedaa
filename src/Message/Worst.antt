-- ===== src/Message/Worst.antt =====
-- The exit code is that of the worst message.
use libsgfc.Common.{ℕ, ◌≡◌, ◌∙◌, Bool, true, false, List, [], ◌∷◌, ltb, if◌then◌else◌, arith}
use libsgfc.Message.{
  MessageType, warning_message, error_message, fatal_error_message, ExitCode, ok_code, warning_code,
  error_code, fatal_error_code, exit_code_of, exit_code_loop, get_sgfc_exit_code, is_sgf_data_valid,
}

-- The exit code that a message alone gives, and the numbers of SgfcExitCode.
abbrev pub severity : MessageType → ℕ
severity warning_message = 5
severity error_message = 10
severity fatal_error_message = 20

abbrev pub code_number : ExitCode → ℕ
code_number ok_code = 0
code_number warning_code = 5
code_number error_code = 10
code_number fatal_error_code = 20

abbrev pub larger : ℕ → ℕ → ℕ
larger a b = if ltb a b then b else a

abbrev pub worst : List MessageType → ℕ
worst [] = 0
worst (m ∷ ms) = larger (severity m) (worst ms)

exit_code_loop-worst :
    (w e f : Bool) (ms : List MessageType)
    → code_number (exit_code_loop w e f ms) ≡ larger (code_number (exit_code_of w e f)) (worst ms)
unfolding exit_code_loop exit_code_of
exit_code_loop-worst w e f [] = ground arith
exit_code_loop-worst w e f (warning_message ∷ ms) = ground (arith, exit_code_loop-worst true e f ms)
exit_code_loop-worst w e f (error_message ∷ ms) = ground (arith, exit_code_loop-worst w true f ms)
exit_code_loop-worst w e f (fatal_error_message ∷ ms) =
    ground (arith, exit_code_loop-worst w e true ms)

is_sgf_data_valid-worst : (ms : List MessageType) → is_sgf_data_valid ms ≡ ltb (worst ms) 20
unfolding is_sgf_data_valid
is_sgf_data_valid-worst [] = ground arith
is_sgf_data_valid-worst (warning_message ∷ ms) = ground (arith, is_sgf_data_valid-worst ms)
is_sgf_data_valid-worst (error_message ∷ ms) = ground (arith, is_sgf_data_valid-worst ms)
is_sgf_data_valid-worst (fatal_error_message ∷ ms) = ground arith

-- The exit code is that of the most severe message, and the SGF data are valid just when that is no
-- fatal error.
pub get_sgfc_exit_code-worst :
    (ms : List MessageType)
    → (code_number (get_sgfc_exit_code ms) ≡ worst ms) × (is_sgf_data_valid ms ≡ ltb (worst ms) 20)
unfolding get_sgfc_exit_code exit_code_of
get_sgfc_exit_code-worst ms =
    (exit_code_loop-worst false false false ms ∙ ground arith, is_sgf_data_valid-worst ms)
