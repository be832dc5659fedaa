-- ===== src/CommandLine/Saving.antt =====
-- How the save operation ends when no stream is open.
use libsgfc.Common.{◌≡◌, refl, Bool, true, false, List}
use libsgfc.Text.Split.{Bytes}
use libsgfc.Sgfc.{Sgfc}
use libsgfc.Streams.{
  runtime_error, invalid_argument, logic_error, Ended, returns, throws, crashes, Statics,
  SgfContent,
}
use libsgfc.Backend.{
  DataLocation, filesystem, in_memory_buffer, DataWrapper, DataState, not_loaded, partially_loaded,
  fully_loaded, Controller, World, with_options,
}
use libsgfc.Backend.Save.{
  Collected, contents_if_saved, save_block, collected, save_if_loaded, load_in_state,
  load_if_partial, collect, finish_save, save_wrapped,
}
use libsgfc.CommandLine.Idle.{
  Capturing, IsIdle, execute-Capturing, with_message_stream-opens, with_message_stream-IsIdle,
  with_save_stream-opens, with_save_stream-Capturing, with_messages_open,
}
use libsgfc.CommandLine.Regular.{
  is_regular, execute-is_regular, load_and_parse-Capturing, load_and_parse-is_regular,
}

module _ {Info Disk : Type 0} (sgfc : Sgfc Info Disk) where
  load_in_state-Capturing :
      {m c : Bool} (state : DataState) (d : DataWrapper Info) (s : Statics)
      → Capturing m c s
      → Capturing m c (load_in_state sgfc state d s).1
  load_in_state-Capturing not_loaded d s h = h
  load_in_state-Capturing partially_loaded d s h = load_and_parse-Capturing sgfc _ d s h
  load_in_state-Capturing fully_loaded d s h = h

  load_in_state-is_regular :
      (state : DataState) (d : DataWrapper Info) (s : Statics)
      → is_regular (load_in_state sgfc state d s).0.is_loaded ≡ true
  load_in_state-is_regular not_loaded d s = refl
  load_in_state-is_regular partially_loaded d s = load_and_parse-is_regular sgfc _ d s
  load_in_state-is_regular fully_loaded d s = refl

  contents_if_saved-is_regular :
      (e : Ended Bool) (s : Statics)
      → is_regular e ≡ true
      → is_regular (contents_if_saved e s) ≡ true
  contents_if_saved-is_regular (returns true) s h = refl
  contents_if_saved-is_regular (returns false) s h = refl
  contents_if_saved-is_regular (throws e) s h = h
  contents_if_saved-is_regular crashes s h = h

  collected-is_regular :
      (e : Ended (List SgfContent)) (s : Statics)
      → is_regular e ≡ true
      → is_regular (collected e s) ≡ true
  collected-is_regular (returns cs) s h = refl
  collected-is_regular (throws e) s h = h
  collected-is_regular crashes s h = h

  save_if_loaded-Capturing :
      (path : Bytes) (e : Ended Bool) (d : DataWrapper Info) (s : Statics)
      → Capturing true false s
      → Capturing true false (save_if_loaded sgfc path e d s).1
  unfolding save_block
  save_if_loaded-Capturing path (returns true) d s h =
      with_save_stream-Capturing _ _ s h (λ o k. execute-Capturing sgfc.strerror _ o k)
  save_if_loaded-Capturing path (returns false) d s h = h
  save_if_loaded-Capturing path (throws e) d s h = h
  save_if_loaded-Capturing path crashes d s h = h

  save_if_loaded-is_regular :
      (path : Bytes) (e : Ended Bool) (d : DataWrapper Info) (s : Statics)
      → s.is_capturing_contents ≡ false
      → is_regular e ≡ true
      → is_regular (save_if_loaded sgfc path e d s).0.0 ≡ true
  unfolding save_block
  save_if_loaded-is_regular path (returns true) d s n h =
      rw
        (with_save_stream-opens (throws logic_error, d.sgf_data) (save_block sgfc path d.sgf_data) s
          n)
        (collected-is_regular _ _
          (contents_if_saved-is_regular _ _ (execute-is_regular sgfc.strerror _ _)))
  save_if_loaded-is_regular path (returns false) d s n h = refl
  save_if_loaded-is_regular path (throws e) d s n h = h
  save_if_loaded-is_regular path crashes d s n h = h

  collect-Capturing :
      (path : Bytes) (d : DataWrapper Info) (s : Statics)
      → Capturing true false s
      → Capturing true false (collect sgfc path d s).1
  unfolding collect load_if_partial
  collect-Capturing path d s h =
      save_if_loaded-Capturing path _ _ _ (load_in_state-Capturing d.data_state d s h)

  collect-is_regular :
      (path : Bytes) (d : DataWrapper Info) (s : Statics)
      → Capturing true false s
      → is_regular (collect sgfc path d s).0.0 ≡ true
  unfolding collect load_if_partial
  collect-is_regular path d s h =
      save_if_loaded-is_regular path _ _ _
        (load_in_state-Capturing d.data_state d s h).capturing_contents
        (load_in_state-is_regular d.data_state d s)

  finish_save-is_regular :
      (location : DataLocation) (content : Bytes) (e : Ended Collected) (disk : Disk)
      → is_regular e ≡ true
      → is_regular (finish_save sgfc location content e disk).0.0 ≡ true
  unfolding finish_save
  finish_save-is_regular filesystem content (returns k) disk h = refl
  finish_save-is_regular in_memory_buffer content (returns k) disk h = refl
  finish_save-is_regular filesystem content (throws runtime_error) disk h = refl
  finish_save-is_regular in_memory_buffer content (throws runtime_error) disk h = refl
  finish_save-is_regular filesystem content (throws invalid_argument) disk h = refl
  finish_save-is_regular in_memory_buffer content (throws invalid_argument) disk h = refl
  finish_save-is_regular filesystem content (throws logic_error) disk h = h
  finish_save-is_regular in_memory_buffer content (throws logic_error) disk h = h
  finish_save-is_regular filesystem content crashes disk h = h
  finish_save-is_regular in_memory_buffer content crashes disk h = h

  -- A save of a data wrapper.
  pub save_wrapped-is_regular :
      (c : Controller) (location : DataLocation) (path content : Bytes) (d : DataWrapper Info)
      (w : World Disk)
      → IsIdle w.statics
      → is_regular (save_wrapped sgfc c location path content d w).0.save_ended ≡ true
  unfolding save_wrapped
  save_wrapped-is_regular c location path content d w i =
      rw
        (with_message_stream-opens (throws logic_error, with_options sgfc c d)
          (collect sgfc path (with_options sgfc c d)) w.statics i.capturing_messages)
        (finish_save-is_regular location content _ w.disk (
          collect-is_regular path (with_options sgfc c d) (with_messages_open w.statics)
            (record { capturing_messages = refl; capturing_contents = i.capturing_contents })))

  pub save_wrapped-IsIdle :
      (c : Controller) (location : DataLocation) (path content : Bytes) (d : DataWrapper Info)
      (w : World Disk)
      → IsIdle w.statics
      → IsIdle (save_wrapped sgfc c location path content d w).1.statics
  unfolding save_wrapped
  save_wrapped-IsIdle c location path content d w i =
      with_message_stream-IsIdle _ _ _ i (λ o h. collect-Capturing path _ o h)
