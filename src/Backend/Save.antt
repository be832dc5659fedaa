-- ===== src/Backend/Save.antt =====
-- The save operation of src/sgfc/backend/SgfcBackendController.cpp.
use libsgfc.Common.{Option, none, some, Bool, true, false, not, List, [], ◌∷◌, ◌++◌, if◌then◌else◌}
use libsgfc.Text.Split.{Bytes}
use libsgfc.Message.Captured.{Message, library_message}
use libsgfc.Sgfc.{Sgfc}
use libsgfc.Streams.{
  runtime_error, invalid_argument, logic_error, Ended, returns, throws, crashes, Statics,
  SgfContent, get_sgf_contents, execute,
}
use libsgfc.Backend.{
  DataLocation, filesystem, in_memory_buffer, DataWrapper, DataState, not_loaded, partially_loaded,
  fully_loaded, Controller, World, is_command_line_valid, load_out_of_memory, writing_failed,
  save_sgf_content_to_filesystem_error, with_message_stream, with_save_stream, with_options,
}
use libsgfc.Backend.Load.{Loading, load_and_parse}

-- What a save leaves: how it ended, with the messages if it returns, the data wrapper that it
-- shares with its caller, and the out variable for the content.
pub record SaveOutcome (Info : Type 0) : Type 0 where
  pub save_ended : Ended (List Message)
  pub saved_wrapper : DataWrapper Info
  pub saved_content : Bytes

-- What the try block has before it writes: the messages, and the contents that SGFC saved.
pub record Collected : Type 0 where
  pub save_messages : List Message
  pub save_contents : List SgfContent

unfoldable pub writing_failed_message : Bytes → Message
writing_failed_message path =
    library_message save_sgf_content_to_filesystem_error (writing_failed ++ path)

-- The loop over the contents for an in-memory buffer.
unfoldable pub append_contents : Bytes → List SgfContent → Bytes
append_contents out [] = out
append_contents out (c ∷ cs) = append_contents (out ++ c.sgf_content) cs

abbrev pub contents_if_saved : Ended Bool → Statics → Ended (List SgfContent)
contents_if_saved (returns true) s = returns (get_sgf_contents s)
contents_if_saved (returns false) s = returns []
contents_if_saved (throws e) s = throws e
contents_if_saved crashes s = crashes

abbrev pub collected : Ended (List SgfContent) → Statics → Ended Collected
collected (returns cs) s = returns (record { save_messages = s.messages; save_contents = cs })
collected (throws e) s = throws e
collected crashes s = crashes

module _ {Info Disk : Type 0} (sgfc : Sgfc Info Disk) where
  -- `SaveSgfContentToFilesystem`: whether both the opening and the writing succeed.
  unfoldable pub save_sgf_content_to_filesystem : SgfContent → Disk → Bool × Disk
  save_sgf_content_to_filesystem c disk =
      let o = sgfc.open_file c.file_path disk in
      if not o.0 then (false, o.1) else sgfc.write_file c.file_path c.sgf_content o.1

  -- The loop over the contents for the filesystem.
  unfoldable pub write_contents : List Message → List SgfContent → Disk → List Message × Disk
  write_contents ms [] disk = (ms, disk)
  write_contents ms (c ∷ cs) disk =
      let r = save_sgf_content_to_filesystem c disk in
      write_contents (if r.0 then ms else ms ++ writing_failed_message c.file_path ∷ []) cs r.1

  abbrev pub load_in_state : DataState → DataWrapper Info → Statics → Loading Info × Statics
  load_in_state partially_loaded d s =
      load_and_parse sgfc (sgfc.load_sgf_from_file_buffer d.sgf_data) d s
  load_in_state not_loaded d s = (record { is_loaded = returns true; wrapper = d }, s)
  load_in_state fully_loaded d s = (record { is_loaded = returns true; wrapper = d }, s)

  -- A partially loaded data wrapper is loaded first.
  unfoldable pub load_if_partial : DataWrapper Info → Statics → Loading Info × Statics
  load_if_partial d s = load_in_state d.data_state d s

  -- The block of the save stream: SaveSGF, and the contents if it returns true.
  unfoldable pub save_block : Bytes → Info → Statics → (Ended (List SgfContent) × Info) × Statics
  save_block path i s =
      let r = execute sgfc.strerror (sgfc.save_sgf path i) s in
      ((contents_if_saved r.0.ran_ended r.1, r.0.ran_info), r.1)

  abbrev pub save_if_loaded :
      Bytes
      → Ended Bool
      → DataWrapper Info
      → Statics
      → (Ended Collected × DataWrapper Info) × Statics
  save_if_loaded path (returns true) d s =
      let r = with_save_stream (throws logic_error, d.sgf_data) (save_block path d.sgf_data) s in
      ((collected r.0.0 r.1, record d { sgf_data = r.0.1 }), r.1)
  save_if_loaded path (returns false) d s =
      ((returns (record { save_messages = s.messages; save_contents = [] }), d), s)
  save_if_loaded path (throws e) d s = ((throws e, d), s)
  save_if_loaded path crashes d s = ((crashes, d), s)

  -- The try block up to the messages: nothing is saved if loading was not successful.
  unfoldable pub collect :
      Bytes → DataWrapper Info → Statics → (Ended Collected × DataWrapper Info) × Statics
  collect path d s =
      let l = load_if_partial d s in save_if_loaded path l.0.is_loaded l.0.wrapper l.1

  -- The rest of the try block, and the catch block.
  unfoldable pub finish_save :
      DataLocation → Bytes → Ended Collected → Disk → (Ended (List Message) × Bytes) × Disk
  finish_save filesystem content (returns k) disk =
      let r = write_contents k.save_messages k.save_contents disk in ((returns r.0, content), r.1)
  finish_save in_memory_buffer content (returns k) disk =
      ((returns k.save_messages, append_contents [] k.save_contents), disk)
  finish_save location content (throws runtime_error) disk =
      ((returns (load_out_of_memory ∷ []), content), disk)
  finish_save location content (throws invalid_argument) disk =
      ((throws invalid_argument, content), disk)
  finish_save location content (throws logic_error) disk = ((throws logic_error, content), disk)
  finish_save location content crashes disk = ((crashes, content), disk)

  abbrev outcome :
      Disk
      → DataLocation
      → Bytes
      → (Ended Collected × DataWrapper Info) × Statics
      → SaveOutcome Info × World Disk
  outcome disk location content k =
      let f = finish_save location content k.0.0 disk in
      (
        record { save_ended = f.0.0; saved_wrapper = k.0.1; saved_content = f.0.1 },
        record { statics = k.1; disk = f.1 },
      )

  -- `SaveSgfContentToFilesystemOrInMemoryBuffer`, for a data wrapper that is not null. The message
  -- stream stands outside the try block; it is destroyed at the end, whereupon nothing reads it.
  unfoldable pub save_wrapped :
      Controller
      → DataLocation
      → Bytes
      → Bytes
      → DataWrapper Info
      → World Disk
      → SaveOutcome Info × World Disk
  save_wrapped c location path content d w =
      let e = with_options sgfc c d in
      outcome w.disk location content
        (with_message_stream (throws logic_error, e) (collect path e) w.statics)

  -- The whole method: the command line is tested first, and a null data wrapper is used unguarded.
  unfoldable pub save_sgf_content :
      Controller
      → DataLocation
      → Bytes
      → Bytes
      → Option (DataWrapper Info)
      → World Disk
      → (Ended (List Message) × (Option (DataWrapper Info) × Bytes)) × World Disk
  save_sgf_content c location path content none w =
      ((if not (is_command_line_valid c) then throws logic_error else crashes, (none, content)), w)
  save_sgf_content c location path content (some d) w =
      if not (is_command_line_valid c)
      then ((throws logic_error, (some d, content)), w)
      else let r = save_wrapped c location path content d w in
        ((r.0.save_ended, (some r.0.saved_wrapper, r.0.saved_content)), r.1)
