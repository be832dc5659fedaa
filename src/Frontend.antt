-- ===== src/Frontend.antt =====
-- Reading and writing a document (src/sgfc/frontend/SgfcDocumentReader.cpp,
-- src/sgfc/frontend/SgfcDocumentWriter.cpp, and the two result classes beside them).
pub mod Ends
pub mod Writes
use libsgfc.Common.{
  Option, none, some, Bool, true, false, ◌&&◌, ◌||◌, not, List, [], ◌∷◌, ◌++◌, map, if◌then◌else◌,
}
use libsgfc.Common.Int.{ℤ, pos, negsuc, eqb_ℤ}
use libsgfc.Text.Split.{Bytes}
use libsgfc.Message.{ExitCode, fatal_error_code, get_sgfc_exit_code, is_sgf_data_valid}
use libsgfc.Message.Captured.{Message, library_message}
use libsgfc.Arguments.{
  Arguments, Parameter, is_type, encoding_mode, default_encoding, get_integer_type_parameter,
  string, add_argument, after,
}
use libsgfc.Arguments.Shown.{convert_arguments_to_argv_style}
use libsgfc.Sgfc.{Sgfc}
use libsgfc.Streams.{
  Exception, invalid_argument, runtime_error, logic_error, Ended, returns, throws, crashes, Statics,
}
use libsgfc.Backend.{
  DataLocation, in_memory_buffer, DataWrapper, Controller, LoadResult, World, is_command_line_valid,
  make_controller, make_data_wrapper,
}
use libsgfc.Backend.Load.{load_sgf_content}
use libsgfc.Backend.Save.{save_sgf_content}
use libsgfc.CommandLine.{types, exit_code}

-- How the constructor of SgfcDocument from the data of SGFC ends: a document, one of the two
-- exceptions that the reader catches, with its text, or a `std::logic_error` that is neither, which
-- the property decoder throws and the reader does not catch. Document.Parse has the nodes that the
-- constructor makes.
pub data Construction (D : Type 0) : Type 0 where
  constructed : D → Construction D
  failed_invalid : Bytes → Construction D
  failed_domain : Bytes → Construction D
  failed_logic : Construction D

-- The members of SgfcDocumentReadResult.
pub record ReadResult (D : Type 0) : Type 0 where
  pub read_parse_result : List Message
  pub read_exit_code : ExitCode
  pub read_is_valid : Bool
  pub read_document : D

-- The values of ParseSgfContentError and SGFCInterfacingError.
abbrev parse_sgf_content_error : ℤ
parse_sgf_content_error = negsuc 6

abbrev sgfc_interfacing_error : ℤ
sgfc_interfacing_error = negsuc 7

-- `SgfcPrivateConstants::EncodingModeNoDecoding` as an argument turns post-processing off.
unfoldable pub has_no_decoding : Arguments → Bool
has_no_decoding [] = false
has_no_decoding (a ∷ as_) =
    (is_type a.argument_type encoding_mode
      && eqb_ℤ (get_integer_type_parameter a.parameter) (pos 3))
    || has_no_decoding as_

-- The constructor of the result.
unfoldable pub make_read_result : {D : Type 0} → List Message → D → ReadResult D
make_read_result ms d = record {
  read_parse_result = ms;
  read_exit_code = exit_code ms;
  read_is_valid = is_sgf_data_valid (types ms);
  read_document = d;
}

abbrev pub is_fatal_code : ExitCode → Bool
is_fatal_code fatal_error_code = true
is_fatal_code c = false

-- "UTF-8", and the constructor of the writer with its arguments.
abbrev utf_8 : Bytes
utf_8 = b'U' ∷ b'T' ∷ b'F' ∷ b'-' ∷ b'8' ∷ []

unfoldable pub writer_arguments : Arguments
writer_arguments = after [] (add_argument default_encoding (string utf_8) [])

-- `make_document` is the constructor of SgfcDocument, `empty_document` a new document, and
-- `with_encoding` sets the CA property of each root node of a document.
module _ {Info Disk D : Type 0} (sgfc : Sgfc Info Disk) (make_document : Info → Construction D)
    (empty_document : D) (with_encoding : D → D) where
  -- `PostProcessDocument`.
  unfoldable pub post_process_document : Arguments → D → D
  post_process_document args d = if has_no_decoding args then d else with_encoding d

  unfoldable pub read_constructed : Arguments → List Message → Construction D → Ended (ReadResult D)
  read_constructed args ms (constructed d) =
      returns (make_read_result ms (post_process_document args d))
  read_constructed args ms (failed_invalid what) = returns (
      make_read_result (ms ++ library_message parse_sgf_content_error what ∷ [])
        (post_process_document args empty_document))
  read_constructed args ms (failed_domain what) = returns (
      make_read_result (ms ++ library_message sgfc_interfacing_error what ∷ [])
        (post_process_document args empty_document))
  read_constructed args ms failed_logic = throws logic_error

  abbrev pub read_data : Arguments → List Message → Option (DataWrapper Info) → Ended (ReadResult D)
  read_data args ms none = crashes
  read_data args ms (some d) = read_constructed args ms (make_document d.sgf_data)

  -- From the load result on; the data wrapper is used unguarded.
  unfoldable pub read_loaded : Arguments → LoadResult Info → Ended (ReadResult D)
  read_loaded args l =
      if is_fatal_code (exit_code l.parse_result)
      then returns (make_read_result l.parse_result (post_process_document args empty_document))
      else read_data args l.parse_result l.sgf_data_wrapper

  abbrev pub read_if_loaded : Arguments → Ended (LoadResult Info) → Ended (ReadResult D)
  read_if_loaded args (returns l) = read_loaded args l
  read_if_loaded args (throws e) = throws e
  read_if_loaded args crashes = crashes

  abbrev pub read_if_valid :
      Option Message
      → Arguments
      → DataLocation
      → Bytes
      → Bytes
      → Controller
      → World Disk
      → Ended (ReadResult D) × World Disk
  read_if_valid (some reason) args location path content c w =
      (returns (make_read_result (reason ∷ []) empty_document), w)
  read_if_valid none args location path content c w =
      let r = load_sgf_content sgfc c location path content w in (read_if_loaded args r.0, r.1)

  abbrev pub read_with :
      Arguments
      → DataLocation
      → Bytes
      → Bytes
      → Ended Controller
      → World Disk
      → Ended (ReadResult D) × World Disk
  read_with args location path content (returns c) w =
      read_if_valid c.invalid_command_line_reason args location path content c w
  read_with args location path content (throws e) w = (throws e, w)
  read_with args location path content crashes w = (crashes, w)

  abbrev pub read_argv :
      Arguments
      → DataLocation
      → Bytes
      → Bytes
      → Option (List Bytes)
      → World Disk
      → Ended (ReadResult D) × World Disk
  read_argv args location path content none w = (throws invalid_argument, w)
  read_argv args location path content (some argv) w =
      let c = make_controller sgfc argv w.statics in
      read_with args location path content c.0 (record w { statics = c.1 })

  -- `ReadSgfContentFromFilesystemOrInMemoryBuffer` of the reader.
  unfoldable pub read_sgf_content :
      Arguments → DataLocation → Bytes → Bytes → World Disk → Ended (ReadResult D) × World Disk
  read_sgf_content args location path content w =
      read_argv args location path content (convert_arguments_to_argv_style args) w

-- What the writer leaves: how it ended, with the messages if it returns, and the out variable.
pub record Written : Type 0 where
  pub write_ended : Ended (List Message)
  pub written_content : Bytes

-- `encoded` is the text that `Encode` of SgfcDocumentEncoder returns for the document, or none if it
-- throws its `std::logic_error` because a game has no root node. Encoder has what it returns.
module _ {Info Disk : Type 0} (sgfc : Sgfc Info Disk) (encoded : Option Bytes) where
  abbrev pub written : Ended (List Message) → Bytes → Written
  written e content = record { write_ended = e; written_content = content }

  abbrev pub write_wrapper :
      DataLocation
      → Bytes
      → Bytes
      → Controller
      → Option (DataWrapper Info)
      → World Disk
      → Written × World Disk
  write_wrapper location path text c none w = (written (throws runtime_error) text, w)
  write_wrapper location path text c (some d) w =
      let r = save_sgf_content sgfc c location path text (some d) w in (written r.0.0 r.0.1.1, r.1)

  -- An exception of `Encode` leaves before the out variable is assigned.
  abbrev pub write_encoded :
      Option Bytes → DataLocation → Bytes → Bytes → Controller → World Disk → Written × World Disk
  write_encoded none location path content c w = (written (throws logic_error) content, w)
  write_encoded (some text) location path content c w =
      write_wrapper location path text c (make_data_wrapper sgfc in_memory_buffer text) w

  abbrev pub write_if_valid :
      Option Message → DataLocation → Bytes → Bytes → Controller → World Disk → Written × World Disk
  write_if_valid (some reason) location path content c w =
      (written (returns (reason ∷ [])) content, w)
  write_if_valid none location path content c w = write_encoded encoded location path content c w

  abbrev pub write_with :
      DataLocation → Bytes → Bytes → Ended Controller → World Disk → Written × World Disk
  write_with location path content (returns c) w =
      write_if_valid c.invalid_command_line_reason location path content c w
  write_with location path content (throws e) w = (written (throws e) content, w)
  write_with location path content crashes w = (written crashes content, w)

  abbrev pub write_argv :
      DataLocation → Bytes → Bytes → Option (List Bytes) → World Disk → Written × World Disk
  write_argv location path content none w = (written (throws invalid_argument) content, w)
  write_argv location path content (some argv) w =
      let c = make_controller sgfc argv w.statics in
      write_with location path content c.0 (record w { statics = c.1 })

  -- `WriteSgfContentToFilesystemOrInMemoryBuffer` of the writer. The data wrapper is constructed
  -- outside every try block.
  unfoldable pub write_sgf_content :
      Arguments → DataLocation → Bytes → Bytes → World Disk → Written × World Disk
  write_sgf_content args location path content w =
      write_argv location path content (convert_arguments_to_argv_style args) w
