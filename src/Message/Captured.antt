-- ===== src/Message/Captured.antt =====
-- A message and its two constructors (src/sgfc/message/SgfcMessage.cpp), and the message made of a
-- report of SGFC (`PrintErrorOutputHook` of src/sgfc/message/SgfcMessageStream.cpp).
use libsgfc.Common.{
  ℕ, suc, Option, none, some, Bool, true, false, ◌&&◌, ◌||◌, not, [], ◌∷◌, ◌++◌, ltb, ◌==◌,
  if◌then◌else◌,
}
use libsgfc.Common.Int.{ℤ, pos, negsuc, ltb_ℤ, eqb_ℤ}
use libsgfc.Text.Split.{Bytes}
use libsgfc.Text.Number.{decimal, decimal_loop}
use libsgfc.Message.{MessageType, warning_message, error_message, fatal_error_message}

-- The members of SgfcMessage; a message ID by its integer value.
pub record Message : Type 0 where
  pub message_id : ℤ
  pub message_type : MessageType
  pub line_number : ℕ
  pub column_number : ℕ
  pub is_critical_message : Bool
  pub library_error_number : ℤ
  pub message_text : Bytes
  pub formatted_message_text : Bytes

abbrev pub is_fatal : MessageType → Bool
is_fatal warning_message = false
is_fatal error_message = false
is_fatal fatal_error_message = true

-- The first constructor, for messages of SGFC; `none` stands for the `std::invalid_argument`.
unfoldable pub make_sgfc_message : Message → Option Message
make_sgfc_message m =
    if ltb_ℤ m.message_id (pos 0)
    then none
    else if is_fatal m.message_type && m.is_critical_message
    then none
    else some m

-- The members that the second constructor, for messages of the library, initializes.
unfoldable pub library_message : ℤ → Bytes → Message
library_message id text = record {
  message_id = id;
  message_type = fatal_error_message;
  line_number = 0;
  column_number = 0;
  is_critical_message = false;
  library_error_number = pos 0;
  message_text = text;
  formatted_message_text = text;
}

-- The second constructor; `none` stands for the `std::invalid_argument`.
unfoldable pub make_library_message : ℤ → Bytes → Option Message
make_library_message id text =
    if not (ltb_ℤ id (pos 0)) then none else some (library_message id text)

-- E_ERROR, E_WARNING, E_FATAL_ERROR, or another value of the bits that M_ERROR_TYPE selects.
pub data ErrorType : Type 0 where
  sgfc_error : ErrorType
  sgfc_warning : ErrorType
  sgfc_fatal_error : ErrorType
  other_error_type : ErrorType

-- SGFCError, its member `error` split up by the masks M_ERROR_NUM, M_ERROR_TYPE, E_CRITICAL and
-- E_ERRNO.
pub record Report : Type 0 where
  pub row : ℕ
  pub col : ℕ
  pub error_number : ℤ
  pub error_type : ErrorType
  pub has_critical : Bool
  pub has_errno : Bool
  pub lib_errno : ℤ
  pub message : Bytes

unfoldable pub message_type_of : ErrorType → MessageType
message_type_of sgfc_error = error_message
message_type_of sgfc_warning = warning_message
message_type_of sgfc_fatal_error = fatal_error_message
message_type_of other_error_type = fatal_error_message

-- A number as the stream prints it; 20 digits are enough for an `unsigned long`.
unfoldable pub print_ℤ : ℤ → Bytes
unfolding decimal
print_ℤ (pos n) = decimal n
print_ℤ (negsuc n) = b'-' ∷ decimal (suc n)

abbrev print_long : ℕ → Bytes
unfolding decimal_loop
print_long n = decimal_loop 20 n []

abbrev pub has_line_and_column : Report → Bool
has_line_and_column r = ltb 0 r.row && ltb 0 r.col

-- "Line:", " Col:" and " - ".
unfoldable pub position_text : Report → Bytes
unfolding decimal_loop
position_text r =
    if has_line_and_column r
    then (b'L' ∷ b'i' ∷ b'n' ∷ b'e' ∷ b':' ∷ [])
      ++ print_long r.row
      ++ (b' ' ∷ b'C' ∷ b'o' ∷ b'l' ∷ b':' ∷ [])
      ++ print_long r.col
      ++ b' ' ∷ b'-' ∷ b' ' ∷ []
    else []

-- "Error ", "Warning " and "Fatal error ".
unfoldable pub type_text : MessageType → Bytes
type_text error_message = b'E' ∷ b'r' ∷ b'r' ∷ b'o' ∷ b'r' ∷ b' ' ∷ []
type_text warning_message = b'W' ∷ b'a' ∷ b'r' ∷ b'n' ∷ b'i' ∷ b'n' ∷ b'g' ∷ b' ' ∷ []
type_text fatal_error_message =
    b'F' ∷ b'a' ∷ b't' ∷ b'a' ∷ b'l' ∷ b' ' ∷ b'e' ∷ b'r' ∷ b'r' ∷ b'o' ∷ b'r' ∷ b' ' ∷ []

-- " (critical): " or ": ".
unfoldable pub critical_text : Bool → Bytes
critical_text true =
    b' ' ∷ b'(' ∷ b'c' ∷ b'r' ∷ b'i' ∷ b't' ∷ b'i' ∷ b'c' ∷ b'a' ∷ b'l' ∷ b')' ∷ b':' ∷ b' ' ∷ []
critical_text false = b':' ∷ b' ' ∷ []

abbrev line_end_or : ℕ → Bytes → Bytes
line_end_or c [] = if (c == 10) || (c == 13) then [] else c ∷ []
line_end_or c (d ∷ ds) = c ∷ d ∷ ds

-- The text without the line endings at its end.
unfoldable pub without_line_endings_at_end : Bytes → Bytes
without_line_endings_at_end [] = []
without_line_endings_at_end (c ∷ cs) = line_end_or c (without_line_endings_at_end cs)

-- The number of the library's error, which is 0 if there is none.
unfoldable pub library_error_of : Report → ℤ
library_error_of r = if r.has_errno then r.lib_errno else pos 0

-- "error code:".
abbrev described : ℤ → Option Bytes → Bytes
described n (some s) = s
described n none =
    (b'e' ∷ b'r' ∷ b'r' ∷ b'o' ∷ b'r' ∷ b' ' ∷ b'c' ∷ b'o' ∷ b'd' ∷ b'e' ∷ b':' ∷ []) ++ print_ℤ n

-- The description of the library's error; `strerror` is a parameter.
unfoldable pub library_error_text : (ℤ → Option Bytes) → ℤ → Bytes
library_error_text strerror n = if eqb_ℤ n (pos 0) then [] else described n (strerror n)

-- SgfcMessageID::UnknownSgfcMessageID.
abbrev pub unknown_sgfc_message_id : ℤ
unknown_sgfc_message_id = pos 2147483647

unfoldable pub message_id_of : ℤ → ℤ
message_id_of n = if ltb_ℤ n (pos 0) then unknown_sgfc_message_id else n

-- The message that the hook makes of a report; `none` stands for the `std::invalid_argument` of the
-- constructor.
unfoldable pub message_of : (ℤ → Option Bytes) → Report → Option Message
message_of strerror r =
    let type : MessageType = message_type_of r.error_type in
    let text : Bytes = without_line_endings_at_end r.message in
    make_sgfc_message (record {
      message_id = message_id_of r.error_number;
      message_type = type;
      line_number = if has_line_and_column r then r.row else 0;
      column_number = if has_line_and_column r then r.col else 0;
      is_critical_message = r.has_critical;
      library_error_number = library_error_of r;
      message_text = text;
      formatted_message_text =
          position_text r
          ++ type_text type
          ++ print_ℤ r.error_number
          ++ critical_text r.has_critical
          ++ text
          ++ library_error_text strerror (library_error_of r);
    })
