-- ===== src/CommandLine.antt =====
-- The command line (src/sgfc/frontend/SgfcCommandLine.cpp).
pub mod Idle
pub mod Regular
pub mod Saving
pub mod Sound
pub mod Session
pub mod Saved
use libsgfc.Common.{Option, none, some, Bool, true, false, not, List, [], ◌∷◌, map, if◌then◌else◌}
use libsgfc.Text.Split.{Bytes}
use libsgfc.Message.{MessageType, ExitCode, get_sgfc_exit_code, is_sgf_data_valid}
use libsgfc.Message.Captured.{Message}
use libsgfc.Sgfc.{Sgfc}
use libsgfc.Streams.{Exception, logic_error, Ended, returns, throws, crashes, Statics}
use libsgfc.Backend.{
  DataLocation, filesystem, in_memory_buffer, DataWrapper, Controller, LoadResult, World,
  is_command_line_valid, make_controller,
}
use libsgfc.Backend.Load.{load_sgf_content}
use libsgfc.Backend.Save.{save_sgf_content}

-- The members of SgfcCommandLine. The data wrapper of the load result is shared with nobody else.
pub record CommandLine (Info : Type 0) : Type 0 where
  pub backend_controller : Controller
  pub backend_load_result : Option (LoadResult Info)
  pub backend_save_result : Option (List Message)

abbrev pub types : List Message → List MessageType
types ms = map (λ (m : Message). m.message_type) ms

abbrev pub exit_code : List Message → ExitCode
exit_code ms = get_sgfc_exit_code (types ms)

module _ {Info : Type 0} where
  unfoldable pub is_sgf_content_valid : CommandLine Info → Ended Bool
  is_sgf_content_valid cl =
      if not (is_command_line_valid cl.backend_controller)
      then throws logic_error
      else elim cl.backend_load_result [
        | none ↦ returns false
        | some r ↦ returns (is_sgf_data_valid (types r.parse_result))
      ]

  unfoldable pub get_parse_result : CommandLine Info → Ended (List Message)
  get_parse_result cl =
      if not (is_command_line_valid cl.backend_controller)
      then throws logic_error
      else elim cl.backend_load_result [ none ↦ returns [] | some r ↦ returns r.parse_result ]

  unfoldable pub get_save_result : CommandLine Info → Ended (List Message)
  get_save_result cl =
      if not (is_command_line_valid cl.backend_controller)
      then throws logic_error
      else elim cl.backend_save_result [ none ↦ returns [] | some ms ↦ returns ms ]

  -- A load result whose data wrapper has changed.
  abbrev pub shared : Option (DataWrapper Info) → LoadResult Info → LoadResult Info
  shared d r = record r { sgf_data_wrapper = d }

-- The four methods that change the command line; SaveSgfContent has the out variable.
pub data Call : Type 0 where
  load : DataLocation → Bytes → Bytes → Call
  save : DataLocation → Bytes → Bytes → Call

-- What a call leaves: how it ended, the command line, the out variable and the world.
pub record Left (Info Disk : Type 0) : Type 0 where
  pub left_ended : Ended ExitCode
  pub left_command_line : CommandLine Info
  pub left_content : Bytes
  pub left_world : World Disk

module _ {Info Disk : Type 0} (sgfc : Sgfc Info Disk) where
  abbrev pub with_controller : Ended Controller × Statics → Ended (CommandLine Info) × Statics
  with_controller (returns c, s) = (
    returns
        (record { backend_controller = c; backend_load_result = none; backend_save_result = none }),
    s,
  )
  with_controller (throws e, s) = (throws e, s)
  with_controller (crashes, s) = (crashes, s)

  -- The constructor.
  unfoldable pub make_command_line : List Bytes → Statics → Ended (CommandLine Info) × Statics
  make_command_line argv s = with_controller (make_controller sgfc argv s)

  abbrev pub left : Ended ExitCode → CommandLine Info → Bytes → World Disk → Left Info Disk
  left e cl content w = record {
    left_ended = e;
    left_command_line = cl;
    left_content = content;
    left_world = w;
  }

  abbrev pub with_load_result :
      Bytes → CommandLine Info → Ended (LoadResult Info) × World Disk → Left Info Disk
  with_load_result content cl (returns l, w) =
      left (returns (exit_code l.parse_result)) (record cl { backend_load_result = some l }) content
        w
  with_load_result content cl (throws e, w) = left (throws e) cl content w
  with_load_result content cl (crashes, w) = left crashes cl content w

  -- LoadSgfFile and LoadSgfContent.
  unfoldable pub load_sgf_file_or_content :
      DataLocation → Bytes → Bytes → CommandLine Info → World Disk → Left Info Disk
  load_sgf_file_or_content location path content cl w =
      with_load_result content cl
        (load_sgf_content sgfc cl.backend_controller location path content w)

  abbrev pub with_save_result :
      LoadResult Info
      → CommandLine Info
      → Ended (List Message)
      → Option (DataWrapper Info) × Bytes
      → World Disk
      → Left Info Disk
  with_save_result l cl (returns ms) (d, content) w =
      left (returns (exit_code ms))
        (record cl { backend_load_result = some (shared d l); backend_save_result = some ms })
        content w
  with_save_result l cl (throws e) (d, content) w =
      left (throws e) (record cl { backend_load_result = some (shared d l) }) content w
  with_save_result l cl crashes (d, content) w = left crashes cl content w

  abbrev pub save_loaded :
      DataLocation
      → Bytes
      → Bytes
      → Option (LoadResult Info)
      → CommandLine Info
      → World Disk
      → Left Info Disk
  save_loaded location path content none cl w = left crashes cl content w
  save_loaded location path content (some l) cl w =
      let r =
        save_sgf_content sgfc cl.backend_controller location path content l.sgf_data_wrapper w in
      with_save_result l cl r.0.0 r.0.1 r.1

  abbrev pub save_if_valid :
      Ended Bool → DataLocation → Bytes → Bytes → CommandLine Info → World Disk → Left Info Disk
  save_if_valid (returns true) location path content cl w =
      save_loaded location path content cl.backend_load_result cl w
  save_if_valid (returns false) location path content cl w = left (throws logic_error) cl content w
  save_if_valid (throws e) location path content cl w = left (throws e) cl content w
  save_if_valid crashes location path content cl w = left crashes cl content w

  -- SaveSgfFile and SaveSgfContent: `ThrowIfIsSgfContentValidReturnsFalse`, and the rest, which
  -- uses the load result unguarded.
  unfoldable pub save_sgf_file_or_content :
      DataLocation → Bytes → Bytes → CommandLine Info → World Disk → Left Info Disk
  save_sgf_file_or_content location path content cl w =
      save_if_valid (is_sgf_content_valid cl) location path content cl w

  unfoldable pub perform : Call → CommandLine Info → World Disk → Left Info Disk
  perform (load location path content) cl w = load_sgf_file_or_content location path content cl w
  perform (save location path content) cl w = save_sgf_file_or_content location path content cl w

  -- A sequence of calls, each of which may throw.
  abbrev pub perform_all : List Call → CommandLine Info → World Disk → CommandLine Info × World Disk
  perform_all [] cl w = (cl, w)
  perform_all (k ∷ ks) cl w =
      let l = perform k cl w in perform_all ks l.left_command_line l.left_world
