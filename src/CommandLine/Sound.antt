-- ===== src/CommandLine/Sound.antt =====
-- What holds of a command line after any calls.
use libsgfc.Common.{
  ◌≡◌, refl, Option, none, some, Bool, true, false, ◌&&◌, List, Bool-cases, inl, inr, arith,
}
use libsgfc.Text.Split.{Bytes}
use libsgfc.Sgfc.{Sgfc}
use libsgfc.Message.{is_sgf_data_valid}
use libsgfc.Message.Captured.{Message}
use libsgfc.Streams.{runtime_error, invalid_argument, logic_error, Ended, returns, throws, crashes}
use libsgfc.Backend.{
  DataLocation, DataWrapper, Controller, LoadResult, World, is_command_line_valid,
}
use libsgfc.Backend.Load.{load_sgf_content}
use libsgfc.Backend.Save.{save_sgf_content}
use libsgfc.CommandLine.{
  CommandLine, types, Call, load, save, left, with_load_result, load_sgf_file_or_content,
  with_save_result, save_loaded, perform,
}
use libsgfc.CommandLine.Idle.{IsIdle}
use libsgfc.CommandLine.Regular.{
  is_regular, HasData, IsLoaded, load_sgf_content-IsLoaded, load_sgf_content-IsIdle,
}
use libsgfc.CommandLine.Saving.{save_wrapped-is_regular, save_wrapped-IsIdle}

abbrev pub HasDataIfLoaded : {Info : Type 0} → Option (LoadResult Info) → Type 0
HasDataIfLoaded none = Unit
HasDataIfLoaded (some l) = HasData l

-- No stream is open, and a load result without a data wrapper has a fatal error.
pub record IsSound {Info Disk : Type 0} (cl : CommandLine Info) (w : World Disk) : Type 0 where
  pub is_idle : IsIdle w.statics
  pub has_data : HasDataIfLoaded cl.backend_load_result

abbrev pub is_data_valid : {Info : Type 0} → Option (LoadResult Info) → Bool
is_data_valid none = false
is_data_valid (some l) = is_sgf_data_valid (types l.parse_result)

-- The interface protocol: a call needs a valid command line, a save also data that were loaded
-- without a fatal error.
abbrev pub is_allowed : {Info : Type 0} → Call → CommandLine Info → Bool
is_allowed (load location path content) cl = is_command_line_valid cl.backend_controller
is_allowed (save location path content) cl =
    is_command_line_valid cl.backend_controller && is_data_valid cl.backend_load_result

abbrev pub content_of : Call → Bytes
content_of (load location path content) = content
content_of (save location path content) = content

-- A call that the protocol allows returns, or throws a `std::runtime_error` or a
-- `std::invalid_argument`; one that it forbids throws a `std::logic_error` and changes nothing.
pub record IsGuarded {Info Disk : Type 0} (sgfc : Sgfc Info Disk) (k : Call) (cl : CommandLine Info)
    (w : World Disk) : Type 0 where
  pub if_allowed : is_allowed k cl ≡ true → is_regular (perform sgfc k cl w).left_ended ≡ true
  pub if_forbidden :
      is_allowed k cl ≡ false
      → perform sgfc k cl w ≡ left sgfc (throws logic_error) cl (content_of k) w

module _ {Info Disk : Type 0} (sgfc : Sgfc Info Disk) where
  with_load_result-is_regular :
      (content : Bytes) (cl : CommandLine Info) (e : Ended (LoadResult Info)) (w : World Disk)
      → IsLoaded e
      → is_regular (with_load_result sgfc content cl (e, w)).left_ended ≡ true
  with_load_result-is_regular content cl (returns l) w h = refl
  with_load_result-is_regular content cl (throws runtime_error) w h = refl
  with_load_result-is_regular content cl (throws invalid_argument) w h = refl
  with_load_result-is_regular content cl (throws logic_error) w h = h
  with_load_result-is_regular content cl crashes w h = h

  with_load_result-IsSound :
      (content : Bytes) (cl : CommandLine Info) (e : Ended (LoadResult Info)) (w v : World Disk)
      → IsLoaded e
      → IsSound cl v
      → IsIdle w.statics
      → IsSound
          (with_load_result sgfc content cl (e, w)).left_command_line
          (with_load_result sgfc content cl (e, w)).left_world
  with_load_result-IsSound content cl (returns l) w v h s i = record { is_idle = i; has_data = h }
  with_load_result-IsSound content cl (throws e) w v h s i = record {
    is_idle = i;
    has_data = s.has_data;
  }
  with_load_result-IsSound content cl crashes w v h s i = record {
    is_idle = i;
    has_data = s.has_data;
  }

  load_sgf_content-refused :
      (location : DataLocation) (path content : Bytes) (c : Controller) (w : World Disk)
      → is_command_line_valid c ≡ false
      → load_sgf_content sgfc c location path content w ≡ (throws logic_error, w)
  unfolding load_sgf_content
  load_sgf_content-refused location path content c w n = rw n refl

  pub load-IsGuarded :
      (location : DataLocation) (path content : Bytes) (cl : CommandLine Info) (w : World Disk)
      → IsSound cl w
      → IsGuarded sgfc (load location path content) cl w
  unfolding perform load_sgf_file_or_content
  load-IsGuarded location path content cl w s = record {
    if_allowed = λ v.
        with_load_result-is_regular content cl _ _ (
          load_sgf_content-IsLoaded sgfc cl.backend_controller location path content w s.is_idle v);
    if_forbidden =
        λ n. rw (load_sgf_content-refused location path content cl.backend_controller w n) refl;
  }

  pub load-IsSound :
      (location : DataLocation) (path content : Bytes) (cl : CommandLine Info) (w : World Disk)
      → IsSound cl w
      → IsSound
          (perform sgfc (load location path content) cl w).left_command_line
          (perform sgfc (load location path content) cl w).left_world
  unfolding perform load_sgf_file_or_content
  load-IsSound location path content cl w s =
      elim (Bool-cases (is_command_line_valid cl.backend_controller)) [
        | inl v ↦
            with_load_result-IsSound content cl _ _ w
              (load_sgf_content-IsLoaded sgfc cl.backend_controller location path content w
                s.is_idle v)
              s
              (load_sgf_content-IsIdle sgfc cl.backend_controller location path content w s.is_idle)
        | inr n ↦ rw (load_sgf_content-refused location path content cl.backend_controller w n) s
      ]

  with_save_result-is_regular :
      (l : LoadResult Info) (cl : CommandLine Info) (e : Ended (List Message))
      (d : Option (DataWrapper Info)) (content : Bytes) (w : World Disk)
      → is_regular e ≡ true
      → is_regular (with_save_result sgfc l cl e (d, content) w).left_ended ≡ true
  with_save_result-is_regular l cl (returns ms) d content w h = refl
  with_save_result-is_regular l cl (throws runtime_error) d content w h = refl
  with_save_result-is_regular l cl (throws invalid_argument) d content w h = refl
  with_save_result-is_regular l cl (throws logic_error) d content w h = h
  with_save_result-is_regular l cl crashes d content w h = h

  with_save_result-IsSound :
      (l : LoadResult Info) (cl : CommandLine Info) (e : Ended (List Message))
      (d : DataWrapper Info) (content : Bytes) (w v : World Disk)
      → IsSound cl v
      → IsIdle w.statics
      → IsSound
          (with_save_result sgfc l cl e (some d, content) w).left_command_line
          (with_save_result sgfc l cl e (some d, content) w).left_world
  with_save_result-IsSound l cl (returns ms) d content w v s i = record {
    is_idle = i;
    has_data = inr (d, refl);
  }
  with_save_result-IsSound l cl (throws e) d content w v s i = record {
    is_idle = i;
    has_data = inr (d, refl);
  }
  with_save_result-IsSound l cl crashes d content w v s i = record {
    is_idle = i;
    has_data = s.has_data;
  }

  -- A save of a load result without a fatal error.
  pub save_loaded-is_regular :
      (location : DataLocation) (path content : Bytes) (o : Option (LoadResult Info))
      (cl : CommandLine Info) (w : World Disk)
      → IsIdle w.statics
      → HasDataIfLoaded o
      → is_data_valid o ≡ true
      → is_command_line_valid cl.backend_controller ≡ true
      → is_regular (save_loaded sgfc location path content o cl w).left_ended ≡ true
  unfolding save_sgf_content
  save_loaded-is_regular location path content none cl w i h n v = n
  save_loaded-is_regular location path content (some l) cl w i (inl f) n v = ground arith
  save_loaded-is_regular location path content (some l) cl w i (inr (d, e)) n v =
      rw (e, v)
        (with_save_result-is_regular l cl _ _ _ _
          (save_wrapped-is_regular sgfc cl.backend_controller location path content d w i))

  pub save_loaded-IsSound :
      (location : DataLocation) (path content : Bytes) (o : Option (LoadResult Info))
      (cl : CommandLine Info) (w : World Disk)
      → IsSound cl w
      → HasDataIfLoaded o
      → is_data_valid o ≡ true
      → is_command_line_valid cl.backend_controller ≡ true
      → IsSound
          (save_loaded sgfc location path content o cl w).left_command_line
          (save_loaded sgfc location path content o cl w).left_world
  unfolding save_sgf_content
  save_loaded-IsSound location path content none cl w s h n v = s
  save_loaded-IsSound location path content (some l) cl w s (inl f) n v = ground arith
  save_loaded-IsSound location path content (some l) cl w s (inr (d, e)) n v =
      rw (e, v)
        (with_save_result-IsSound l cl _ _ _ _ w s
          (save_wrapped-IsIdle sgfc cl.backend_controller location path content d w s.is_idle))
