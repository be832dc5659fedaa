-- ===== src/CommandLine/Regular.antt =====
-- How the functions of the interface to SGFC end when no stream is open.
use libsgfc.Common.{
  ◌≡◌, refl, Option, none, some, Bool, true, false, Option-cases, ◌⊎◌, inl, inr, Bool-cases,
}
use libsgfc.Common.Int.{ℤ}
use libsgfc.Text.Split.{Bytes}
use libsgfc.Sgfc.{Run, returned, exhausted, hooks, Sgfc}
use libsgfc.Message.{is_sgf_data_valid}
use libsgfc.Message.Captured.{library_message}
use libsgfc.Streams.{
  runtime_error, invalid_argument, logic_error, Ended, returns, throws, crashes, Statics, call_hook,
  execute,
}
use libsgfc.Backend.{
  DataLocation, DataWrapper, Controller, LoadResult, World, is_command_line_valid,
  load_out_of_memory,
}
use libsgfc.Backend.Load.{
  load_result, catch_load, load_and_parse, load_block, attempt_load, parsed, parse_if_loaded,
  load_into, load_sgf_content,
}
use libsgfc.CommandLine.{types}
use libsgfc.CommandLine.Idle.{
  Capturing, IsIdle, execute-Capturing, with_message_stream-opens, with_message_stream-IsIdle,
}

-- A call that returns, or throws a `std::runtime_error`, because of a failed allocation, or a
-- `std::invalid_argument`, because of a report that makes no message. That class is derived from
-- `std::logic_error`; `logic_error` stands for the exceptions of that class that are none of it.
abbrev pub is_regular : {A : Type 0} → Ended A → Bool
is_regular (returns a) = true
is_regular (throws runtime_error) = true
is_regular (throws invalid_argument) = true
is_regular (throws logic_error) = false
is_regular crashes = false

-- A load result has a data wrapper, or its messages have a fatal error.
abbrev pub HasData : {Info : Type 0} → LoadResult Info → Type 0
HasData {Info} l =
    (is_sgf_data_valid (types l.parse_result) ≡ false)
    ⊎ ((d : DataWrapper Info) × (l.sgf_data_wrapper ≡ some d))

-- What a load leaves.
abbrev pub IsLoaded : {Info : Type 0} → Ended (LoadResult Info) → Type 0
IsLoaded (returns l) = HasData l
IsLoaded (throws e) = is_regular {A = Unit {0}} (throws e) ≡ true
IsLoaded crashes = Bool.false ≡ true

pub execute-is_regular :
    {Info : Type 0} (strerror : ℤ → Option Bytes) (run : Run Info) (s : Statics)
    → is_regular (execute strerror run s).0.ran_ended ≡ true
unfolding execute
execute-is_regular strerror (returned i ok) s = refl
execute-is_regular strerror (exhausted i) s = refl
execute-is_regular strerror (hooks k i rest) s = elim (Option-cases (call_hook strerror k s)) [
  | inl e ↦ rw (execute, e) refl
  | inr (s', e) ↦ rw (execute, e) (execute-is_regular strerror rest s')
]

module _ {Info Disk : Type 0} (sgfc : Sgfc Info Disk) where
  parse_if_loaded-Capturing :
      {m c : Bool} (e : Ended Bool) (d : DataWrapper Info) (s : Statics)
      → Capturing m c s
      → Capturing m c (parse_if_loaded sgfc e d s).1
  parse_if_loaded-Capturing (returns true) d s h =
      execute-Capturing sgfc.strerror (sgfc.parse_sgf d.sgf_data) s h
  parse_if_loaded-Capturing (returns false) d s h = h
  parse_if_loaded-Capturing (throws e) d s h = h
  parse_if_loaded-Capturing crashes d s h = h

  pub load_and_parse-Capturing :
      {m c : Bool} (run : Run Info) (d : DataWrapper Info) (s : Statics)
      → Capturing m c s
      → Capturing m c (load_and_parse sgfc run d s).1
  unfolding load_and_parse
  load_and_parse-Capturing run d s h =
      parse_if_loaded-Capturing _ _ _ (execute-Capturing sgfc.strerror run s h)

  parsed-is_regular :
      (e : Ended Bool) (i : Info) (d : DataWrapper Info)
      → is_regular e ≡ true
      → is_regular (parsed e i d).is_loaded ≡ true
  parsed-is_regular (returns ok) i d h = refl
  parsed-is_regular (throws e) i d h = h
  parsed-is_regular crashes i d h = h

  parse_if_loaded-is_regular :
      (e : Ended Bool) (d : DataWrapper Info) (s : Statics)
      → is_regular e ≡ true
      → is_regular (parse_if_loaded sgfc e d s).0.is_loaded ≡ true
  parse_if_loaded-is_regular (returns true) d s h =
      parsed-is_regular _ _ d (execute-is_regular sgfc.strerror (sgfc.parse_sgf d.sgf_data) s)
  parse_if_loaded-is_regular (returns false) d s h = h
  parse_if_loaded-is_regular (throws e) d s h = h
  parse_if_loaded-is_regular crashes d s h = h

  pub load_and_parse-is_regular :
      (run : Run Info) (d : DataWrapper Info) (s : Statics)
      → is_regular (load_and_parse sgfc run d s).0.is_loaded ≡ true
  unfolding load_and_parse
  load_and_parse-is_regular run d s =
      parse_if_loaded-is_regular _ _ _ (execute-is_regular sgfc.strerror run s)

  load_result-IsLoaded :
      (e : Ended Bool) (d : DataWrapper Info) (s : Statics)
      → is_regular e ≡ true
      → IsLoaded (load_result e d s)
  unfolding load_result
  load_result-IsLoaded (returns ok) d s h = inr (d, refl)
  load_result-IsLoaded (throws runtime_error) d s h = h
  load_result-IsLoaded (throws invalid_argument) d s h = h
  load_result-IsLoaded (throws logic_error) d s h = h
  load_result-IsLoaded crashes d s h = h

  load_into-IsLoaded :
      (c : Controller) (location : DataLocation) (path : Bytes) (d : Option (DataWrapper Info))
      (w : World Disk)
      → IsIdle w.statics
      → IsLoaded (load_into sgfc c location path d w).0
  unfolding load_block
  load_into-IsLoaded c location path none w i = refl
  load_into-IsLoaded c location path (some d) w i =
      rw (with_message_stream-opens _ _ w.statics i.capturing_messages)
        (load_result-IsLoaded _ _ _ (load_and_parse-is_regular _ _ _))

  load_into-IsIdle :
      (c : Controller) (location : DataLocation) (path : Bytes) (d : Option (DataWrapper Info))
      (w : World Disk)
      → IsIdle w.statics
      → IsIdle (load_into sgfc c location path d w).1
  unfolding load_block
  load_into-IsIdle c location path none w i = i
  load_into-IsIdle c location path (some d) w i =
      with_message_stream-IsIdle _ _ _ i (λ o h. load_and_parse-Capturing _ _ o h)

  catch_load-IsLoaded : (e : Ended (LoadResult Info)) → IsLoaded e → IsLoaded (catch_load e)
  unfolding catch_load is_sgf_data_valid load_out_of_memory library_message
  catch_load-IsLoaded (returns l) h = h
  catch_load-IsLoaded (throws runtime_error) h = inl refl
  catch_load-IsLoaded (throws invalid_argument) h = h
  catch_load-IsLoaded (throws logic_error) h = h
  catch_load-IsLoaded crashes h = h

  -- A load with a valid command line.
  pub load_sgf_content-IsLoaded :
      (c : Controller) (location : DataLocation) (path content : Bytes) (w : World Disk)
      → IsIdle w.statics
      → is_command_line_valid c ≡ true
      → IsLoaded (load_sgf_content sgfc c location path content w).0
  unfolding load_sgf_content attempt_load
  load_sgf_content-IsLoaded c location path content w i v =
      rw v (catch_load-IsLoaded _ (load_into-IsLoaded c location path _ w i))

  pub load_sgf_content-IsIdle :
      (c : Controller) (location : DataLocation) (path content : Bytes) (w : World Disk)
      → IsIdle w.statics
      → IsIdle (load_sgf_content sgfc c location path content w).1.statics
  unfolding load_sgf_content attempt_load
  load_sgf_content-IsIdle c location path content w i =
      elim (Bool-cases (is_command_line_valid c)) [
        | inl v ↦ rw v (load_into-IsIdle c location path _ w i)
        | inr n ↦ rw n i
      ]
