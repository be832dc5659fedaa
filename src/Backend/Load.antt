-- ===== src/Backend/Load.antt =====
-- The load operation of src/sgfc/backend/SgfcBackendController.cpp.
use libsgfc.Common.{Option, none, some, Bool, true, false, not, [], ◌∷◌, if◌then◌else◌}
use libsgfc.Text.Split.{Bytes}
use libsgfc.Sgfc.{Sgfc, Run}
use libsgfc.Streams.{
  runtime_error, invalid_argument, logic_error, Ended, returns, throws, crashes, Statics, execute,
}
use libsgfc.Backend.{
  DataLocation, filesystem, in_memory_buffer, DataWrapper, fully_loaded, Controller, LoadResult,
  World, is_command_line_valid, load_out_of_memory, with_message_stream, make_data_wrapper,
  with_options,
}

-- A data wrapper behind a call of a function of SGFC that loads or parses, and how that ended.
pub record Loading (Info : Type 0) : Type 0 where
  pub is_loaded : Ended Bool
  pub wrapper : DataWrapper Info

module _ {Info : Type 0} where
  abbrev pub parsed : Ended Bool → Info → DataWrapper Info → Loading Info
  parsed (returns ok) i d = record {
    is_loaded = returns true;
    wrapper = record { sgf_data = i; data_state = fully_loaded };
  }
  parsed (throws e) i d = record { is_loaded = throws e; wrapper = record d { sgf_data = i } }
  parsed crashes i d = record { is_loaded = crashes; wrapper = record d { sgf_data = i } }

  -- The catch block of the load operation.
  unfoldable pub catch_load : Ended (LoadResult Info) → Ended (LoadResult Info)
  catch_load (throws runtime_error) =
      returns (record { parse_result = load_out_of_memory ∷ []; sgf_data_wrapper = none })
  catch_load (throws invalid_argument) = throws invalid_argument
  catch_load (throws logic_error) = throws logic_error
  catch_load (returns r) = returns r
  catch_load crashes = crashes

  -- The end of the load block: the messages are those that the stream has captured.
  unfoldable pub load_result : Ended Bool → DataWrapper Info → Statics → Ended (LoadResult Info)
  load_result (returns ok) d s =
      returns (record { parse_result = s.messages; sgf_data_wrapper = some d })
  load_result (throws e) d s = throws e
  load_result crashes d s = crashes

module _ {Info Disk : Type 0} (sgfc : Sgfc Info Disk) where
  abbrev pub parse_if_loaded : Ended Bool → DataWrapper Info → Statics → Loading Info × Statics
  parse_if_loaded (returns true) d s =
      let q = execute sgfc.strerror (sgfc.parse_sgf d.sgf_data) s in
      (parsed q.0.ran_ended q.0.ran_info d, q.1)
  parse_if_loaded (returns false) d s = (record { is_loaded = returns false; wrapper = d }, s)
  parse_if_loaded (throws e) d s = (record { is_loaded = throws e; wrapper = d }, s)
  parse_if_loaded crashes d s = (record { is_loaded = crashes; wrapper = d }, s)

  -- What both operations do with a run that loads: if it returns true, ParseSGF follows and the
  -- state of the data is FullyLoaded.
  unfoldable pub load_and_parse : Run Info → DataWrapper Info → Statics → Loading Info × Statics
  load_and_parse run d s =
      let r = execute sgfc.strerror run s in
      parse_if_loaded r.0.ran_ended (record d { sgf_data = r.0.ran_info }) r.1

  unfoldable pub load_run : DataLocation → Bytes → Disk → Info → Run Info
  load_run filesystem path disk i = sgfc.load_sgf path disk i
  load_run in_memory_buffer path disk i = sgfc.load_sgf_from_file_buffer i

  unfoldable pub load_block :
      Run Info → DataWrapper Info → Statics → Ended (LoadResult Info) × Statics
  load_block run d s =
      let l = load_and_parse run d s in (load_result l.0.is_loaded l.0.wrapper l.1, l.1)

  abbrev pub load_into :
      Controller
      → DataLocation
      → Bytes
      → Option (DataWrapper Info)
      → World Disk
      → Ended (LoadResult Info) × Statics
  load_into c location path none w = (throws runtime_error, w.statics)
  load_into c location path (some d) w =
      let e = with_options sgfc c d in
      with_message_stream (throws logic_error)
        (load_block (load_run location path w.disk e.sgf_data) e) w.statics

  -- The try block, from the construction of the data wrapper on.
  unfoldable pub attempt_load :
      Controller → DataLocation → Bytes → Bytes → World Disk → Ended (LoadResult Info) × Statics
  attempt_load c location path content w =
      load_into c location path (make_data_wrapper sgfc location content) w

  -- `LoadSgfContentFromFilesystemOrInMemoryBuffer`.
  unfoldable pub load_sgf_content :
      Controller → DataLocation → Bytes → Bytes → World Disk → Ended (LoadResult Info) × World Disk
  load_sgf_content c location path content w =
      if not (is_command_line_valid c)
      then (throws logic_error, w)
      else let r = attempt_load c location path content w in
        (catch_load r.0, record w { statics = r.1 })
