-- ===== src/Backend.antt =====
-- The interface to SGFC (src/sgfc/backend/SgfcBackendController.cpp, and SgfcBackendDataWrapper.cpp
-- beside it).
pub mod Options
pub mod Load
pub mod Save
use libsgfc.Common.{
  ℕ, Option, none, some, Bool, true, false, not, List, [], ◌∷◌, ◌++◌, if◌then◌else◌,
}
use libsgfc.Common.Int.{ℤ, negsuc}
use libsgfc.Text.Split.{Bytes}
use libsgfc.Message.Captured.{Message, is_fatal, library_message}
use libsgfc.Sgfc.{Sgfc, Run}
use libsgfc.Streams.{
  Exception, runtime_error, invalid_argument, logic_error, Ended, returns, throws, crashes, Statics,
  open_message_stream, close_message_stream, open_save_stream, close_save_stream, SgfContent,
  get_sgf_contents, Ran, execute,
}
use libsgfc.Backend.Options.{StoredOptions, make_options, capture_options, restore_options}

-- SgfcBackendDataState and the members of SgfcBackendDataWrapper.
pub data DataState : Type 0 where
  not_loaded : DataState
  partially_loaded : DataState
  fully_loaded : DataState

pub record DataWrapper (Info : Type 0) : Type 0 where
  pub sgf_data : Info
  pub data_state : DataState

pub data DataLocation : Type 0 where
  filesystem : DataLocation
  in_memory_buffer : DataLocation

-- The members of the controller that change: the options and the reason, which is null as long as
-- the command line is valid.
pub record Controller : Type 0 where
  pub sgfc_options : StoredOptions
  pub invalid_command_line_reason : Option Message

pub record LoadResult (Info : Type 0) : Type 0 where
  pub parse_result : List Message
  pub sgf_data_wrapper : Option (DataWrapper Info)

-- The static variables and the files.
pub record World (Disk : Type 0) : Type 0 where
  pub statics : Statics
  pub disk : Disk

-- The values of SgfcMessageID::OutOfMemoryError, ParseArgumentError and SaveSgfContentToFilesystemError.
abbrev pub out_of_memory_error : ℤ
out_of_memory_error = negsuc 5

abbrev pub parse_argument_error : ℤ
parse_argument_error = negsuc 1

abbrev pub save_sgf_content_to_filesystem_error : ℤ
save_sgf_content_to_filesystem_error = negsuc 2

unfoldable pub is_command_line_valid : Controller → Bool
is_command_line_valid c = elim c.invalid_command_line_reason [ none ↦ true | some m ↦ false ]

-- "Memory allocation failed during argument parsing".
abbrev no_memory_for_arguments : Bytes
no_memory_for_arguments =
    b'M' ∷ b'e' ∷ b'm' ∷ b'o' ∷ b'r' ∷ b'y' ∷ b' ' ∷ b'a' ∷ b'l' ∷ b'l' ∷ b'o' ∷ b'c' ∷ b'a' ∷ b't'
    ∷ b'i' ∷ b'o' ∷ b'n' ∷ b' ' ∷ b'f' ∷ b'a' ∷ b'i' ∷ b'l' ∷ b'e' ∷ b'd' ∷ b' ' ∷ b'd' ∷ b'u'
    ∷ b'r' ∷ b'i' ∷ b'n' ∷ b'g' ∷ b' ' ∷ b'a' ∷ b'r' ∷ b'g' ∷ b'u' ∷ b'm' ∷ b'e' ∷ b'n' ∷ b't'
    ∷ b' ' ∷ b'p' ∷ b'a' ∷ b'r' ∷ b's' ∷ b'i' ∷ b'n' ∷ b'g' ∷ []

-- "Memory allocation failed during load operation".
abbrev no_memory_for_load : Bytes
no_memory_for_load =
    b'M' ∷ b'e' ∷ b'm' ∷ b'o' ∷ b'r' ∷ b'y' ∷ b' ' ∷ b'a' ∷ b'l' ∷ b'l' ∷ b'o' ∷ b'c' ∷ b'a' ∷ b't'
    ∷ b'i' ∷ b'o' ∷ b'n' ∷ b' ' ∷ b'f' ∷ b'a' ∷ b'i' ∷ b'l' ∷ b'e' ∷ b'd' ∷ b' ' ∷ b'd' ∷ b'u'
    ∷ b'r' ∷ b'i' ∷ b'n' ∷ b'g' ∷ b' ' ∷ b'l' ∷ b'o' ∷ b'a' ∷ b'd' ∷ b' ' ∷ b'o' ∷ b'p' ∷ b'e'
    ∷ b'r' ∷ b'a' ∷ b't' ∷ b'i' ∷ b'o' ∷ b'n' ∷ []

-- "SGFC failed to parse the specified arguments".
abbrev arguments_not_parsed : Bytes
arguments_not_parsed =
    b'S' ∷ b'G' ∷ b'F' ∷ b'C' ∷ b' ' ∷ b'f' ∷ b'a' ∷ b'i' ∷ b'l' ∷ b'e' ∷ b'd' ∷ b' ' ∷ b't' ∷ b'o'
    ∷ b' ' ∷ b'p' ∷ b'a' ∷ b'r' ∷ b's' ∷ b'e' ∷ b' ' ∷ b't' ∷ b'h' ∷ b'e' ∷ b' ' ∷ b's' ∷ b'p'
    ∷ b'e' ∷ b'c' ∷ b'i' ∷ b'f' ∷ b'i' ∷ b'e' ∷ b'd' ∷ b' ' ∷ b'a' ∷ b'r' ∷ b'g' ∷ b'u' ∷ b'm'
    ∷ b'e' ∷ b'n' ∷ b't' ∷ b's' ∷ []

-- "Writing SGF file failed: ".
abbrev pub writing_failed : Bytes
writing_failed =
    b'W' ∷ b'r' ∷ b'i' ∷ b't' ∷ b'i' ∷ b'n' ∷ b'g' ∷ b' ' ∷ b'S' ∷ b'G' ∷ b'F' ∷ b' ' ∷ b'f' ∷ b'i'
    ∷ b'l' ∷ b'e' ∷ b' ' ∷ b'f' ∷ b'a' ∷ b'i' ∷ b'l' ∷ b'e' ∷ b'd' ∷ b':' ∷ b' ' ∷ []

-- `SetInvalidCommandLineReasonBecauseMemoryAllocationFailed`. The IDs of the messages that the
-- controller makes are negative, so that their constructor does not throw.
unfoldable pub out_of_memory_reason : Message
out_of_memory_reason = library_message out_of_memory_error no_memory_for_arguments

unfoldable pub load_out_of_memory : Message
load_out_of_memory = library_message out_of_memory_error no_memory_for_load

-- `SetInvalidCommandLineReasonFromParseArgsMessages`.
unfoldable pub reason_from_messages : List Message → Message
reason_from_messages [] = library_message parse_argument_error arguments_not_parsed
reason_from_messages (m ∷ ms) = if is_fatal m.message_type then m else reason_from_messages ms

unfoldable pub get_invalid_command_line_reason : Controller → Ended Message
get_invalid_command_line_reason c = elim c.invalid_command_line_reason [
  | none ↦ throws logic_error
  | some m ↦ returns m
]

-- A block with a message stream or a save stream, whose destructor runs whatever way the block
-- ends; `refused` is the end if the constructor throws.
abbrev pub with_message_stream : {A : Type 0} → A → (Statics → A × Statics) → Statics → A × Statics
with_message_stream refused block s = elim (open_message_stream s) [
  | none ↦ (refused, s)
  | some o ↦ let r = block o in (r.0, close_message_stream r.1)
]

abbrev pub with_save_stream : {A : Type 0} → A → (Statics → A × Statics) → Statics → A × Statics
with_save_stream refused block s = elim (open_save_stream s) [
  | none ↦ (refused, s)
  | some o ↦ let r = block o in (r.0, close_save_stream r.1)
]

module _ {Info Disk : Type 0} (sgfc : Sgfc Info Disk) where
  -- What `InvokeSgfcParseArgs` makes of the result of ParseArgs, with its catch block.
  unfoldable pub captured_arguments : StoredOptions → Ended Bool → Info → Statics → Ended Controller
  captured_arguments o (returns true) i s = returns (record {
    sgfc_options = capture_options (sgfc.get_options i) o;
    invalid_command_line_reason = none;
  })
  captured_arguments o (returns false) i s = returns (record {
    sgfc_options = o;
    invalid_command_line_reason = some (reason_from_messages s.messages);
  })
  captured_arguments o (throws runtime_error) i s =
      returns (record { sgfc_options = o; invalid_command_line_reason = some out_of_memory_reason })
  captured_arguments o (throws invalid_argument) i s = throws invalid_argument
  captured_arguments o (throws logic_error) i s = throws logic_error
  captured_arguments o crashes i s = crashes

  abbrev pub parse_with :
      StoredOptions → List Bytes → Option Info → Statics → Ended Controller × Statics
  parse_with o argv none s = (
    returns (record { sgfc_options = o; invalid_command_line_reason = some out_of_memory_reason }),
    s,
  )
  parse_with o argv (some i) s =
      let r = execute sgfc.strerror (sgfc.parse_args argv i) s in
      (captured_arguments o r.0.ran_ended r.0.ran_info r.1, r.1)

  -- `InvokeSgfcParseArgs`.
  unfoldable pub invoke_sgfc_parse_args :
      StoredOptions → List Bytes → Statics → Ended Controller × Statics
  invoke_sgfc_parse_args o argv s =
      with_message_stream (throws logic_error) (parse_with o argv sgfc.setup_sgf_info) s

  abbrev pub parse_with_options :
      Option StoredOptions → List Bytes → Statics → Ended Controller × Statics
  parse_with_options none argv s = (throws runtime_error, s)
  parse_with_options (some o) argv s = invoke_sgfc_parse_args o argv s

  -- The constructor, with the arguments in the style of argv.
  unfoldable pub make_controller : List Bytes → Statics → Ended Controller × Statics
  make_controller argv s = parse_with_options (make_options sgfc.sgfc_default_options) argv s

  -- The constructors of SgfcBackendDataWrapper, the second with the content; `none` stands for the
  -- exception of SetupSGFInfo.
  unfoldable pub make_data_wrapper : DataLocation → Bytes → Option (DataWrapper Info)
  make_data_wrapper location content = elim sgfc.setup_sgf_info [
    | none ↦ none
    | some i ↦ elim location [
      | filesystem ↦ some (record { sgf_data = i; data_state = not_loaded })
      | in_memory_buffer ↦
          some (record { sgf_data = sgfc.put_buffer content i; data_state = partially_loaded })
    ]
  ]

  -- `RestoreOptions` on the options of a data wrapper.
  unfoldable pub with_options : Controller → DataWrapper Info → DataWrapper Info
  with_options c d = record d {
    sgf_data =
        sgfc.put_options (restore_options c.sgfc_options (sgfc.get_options d.sgf_data)) d.sgf_data;
  }
