-- ===== src/Frontend/Writes.antt =====
-- How writing a document ends.
use libsgfc.Common.{◌≡◌, refl, Option, none, some, Bool, true, List, [], ◌∷◌, arith}
use libsgfc.Text.Split.{Bytes}
use libsgfc.Message.Captured.{Message}
use libsgfc.Arguments.{Arguments}
use libsgfc.Arguments.Shown.{convert_arguments_to_argv_style}
use libsgfc.Sgfc.{Sgfc}
use libsgfc.Streams.{runtime_error, invalid_argument, logic_error, Ended, returns, throws, crashes}
use libsgfc.Backend.{DataLocation, DataWrapper, Controller, World, is_command_line_valid}
use libsgfc.Backend.Save.{save_sgf_content}
use libsgfc.CommandLine.Idle.{IsIdle}
use libsgfc.CommandLine.Regular.{is_regular}
use libsgfc.CommandLine.Saving.{save_wrapped-is_regular, save_wrapped-IsIdle}
use libsgfc.CommandLine.Session.{make_controller-IsIdle}
use libsgfc.Frontend.{
  Written, write_wrapper, write_encoded, write_if_valid, write_with, write_argv, write_sgf_content,
}
use libsgfc.Frontend.Ends.{make_controller-is_regular}

module _ {Info Disk : Type 0} (sgfc : Sgfc Info Disk) (encoded : Option Bytes) where
  -- How a write may end: without an encoded document with a single message at most.
  abbrev pub IsWritten : Ended (List Message) → Type 0
  IsWritten (returns ms) = encoded ≡ none → (m : Message) × (ms ≡ m ∷ [])
  IsWritten (throws runtime_error) = Unit
  IsWritten (throws invalid_argument) = Unit
  IsWritten (throws logic_error) = encoded ≡ none
  IsWritten crashes = Bool.false ≡ true

  -- What a write leaves, from an out variable and a file system before it.
  abbrev pub IsSafelyWritten : Bytes → Disk → Written × World Disk → Type 0
  IsSafelyWritten content disk r =
      IsWritten r.0.write_ended
      × IsIdle r.1.statics
      × (encoded ≡ none → (r.0.written_content ≡ content) × (r.1.disk ≡ disk))

  regular-IsWritten :
      (text : Bytes) (e : Ended (List Message))
      → encoded ≡ some text
      → is_regular e ≡ true
      → IsWritten e
  regular-IsWritten text (returns ms) k h = λ n. absurd (ground arith)
  regular-IsWritten text (throws runtime_error) k h = tt
  regular-IsWritten text (throws invalid_argument) k h = tt
  regular-IsWritten text (throws logic_error) k h = absurd (ground arith)
  regular-IsWritten text crashes k h = h

  write_wrapper-IsSafelyWritten :
      (location : DataLocation) (path content text : Bytes) (disk : Disk) (c : Controller)
      (d : Option (DataWrapper Info)) (w : World Disk)
      → encoded ≡ some text
      → is_command_line_valid c ≡ true
      → IsIdle w.statics
      → IsSafelyWritten content disk (write_wrapper sgfc encoded location path text c d w)
  unfolding save_sgf_content
  write_wrapper-IsSafelyWritten location path content text disk c none w k v i =
      (tt, i, λ n. absurd (ground arith))
  write_wrapper-IsSafelyWritten location path content text disk c (some d) w k v i = rw v (
    regular-IsWritten text _ k (save_wrapped-is_regular sgfc c location path text d w i),
    save_wrapped-IsIdle sgfc c location path text d w i,
    λ n. absurd (ground arith),
  )

  write_encoded-IsSafelyWritten :
      (e : Option Bytes) (location : DataLocation) (path content : Bytes) (c : Controller)
      (w : World Disk)
      → encoded ≡ e
      → is_command_line_valid c ≡ true
      → IsIdle w.statics
      → IsSafelyWritten content w.disk (write_encoded sgfc encoded e location path content c w)
  write_encoded-IsSafelyWritten none location path content c w k v i = (k, i, λ n. (refl, refl))
  write_encoded-IsSafelyWritten (some text) location path content c w k v i =
      write_wrapper-IsSafelyWritten location path content text w.disk c _ w k v i

  write_if_valid-IsSafelyWritten :
      (reason : Option Message) (location : DataLocation) (path content : Bytes) (c : Controller)
      (w : World Disk)
      → c.invalid_command_line_reason ≡ reason
      → IsIdle w.statics
      → IsSafelyWritten content w.disk
          (write_if_valid sgfc encoded reason location path content c w)
  unfolding is_command_line_valid
  write_if_valid-IsSafelyWritten (some m) location path content c w e i =
      (λ n. (m, refl), i, λ n. (refl, refl))
  write_if_valid-IsSafelyWritten none location path content c w e i =
      write_encoded-IsSafelyWritten encoded location path content c w refl (rw e refl) i

  write_with-IsSafelyWritten :
      (location : DataLocation) (path content : Bytes) (c : Ended Controller) (w : World Disk)
      → is_regular c ≡ true
      → IsIdle w.statics
      → IsSafelyWritten content w.disk (write_with sgfc encoded location path content c w)
  write_with-IsSafelyWritten location path content (returns c) w h i =
      write_if_valid-IsSafelyWritten c.invalid_command_line_reason location path content c w refl i
  write_with-IsSafelyWritten location path content (throws runtime_error) w h i =
      (tt, i, λ n. (refl, refl))
  write_with-IsSafelyWritten location path content (throws invalid_argument) w h i =
      (tt, i, λ n. (refl, refl))
  write_with-IsSafelyWritten location path content (throws logic_error) w h i =
      absurd (ground arith)
  write_with-IsSafelyWritten location path content crashes w h i = (h, i, λ n. (refl, refl))

  write_argv-IsSafelyWritten :
      (location : DataLocation) (path content : Bytes) (argv : Option (List Bytes)) (w : World Disk)
      → IsIdle w.statics
      → IsSafelyWritten content w.disk (write_argv sgfc encoded location path content argv w)
  write_argv-IsSafelyWritten location path content none w i = (tt, i, λ n. (refl, refl))
  write_argv-IsSafelyWritten location path content (some argv) w i =
      write_with-IsSafelyWritten location path content _ _
        (make_controller-is_regular sgfc argv w.statics i)
        (make_controller-IsIdle sgfc argv w.statics i)

  -- For every behaviour of SGFC: writing a document, begun with no stream open, uses no null pointer
  -- and leaves no stream open. It throws only a `std::runtime_error`, a `std::invalid_argument` or,
  -- if `Encode` throws it, a `std::logic_error`. If `Encode` throws it, then the write throws or
  -- returns a single message, and the out variable and the file system are unchanged.
  pub write_sgf_content-IsSafelyWritten :
      (args : Arguments) (location : DataLocation) (path content : Bytes) (w : World Disk)
      → IsIdle w.statics
      → IsSafelyWritten content w.disk (write_sgf_content sgfc encoded args location path content w)
  unfolding write_sgf_content
  write_sgf_content-IsSafelyWritten args location path content w i =
      write_argv-IsSafelyWritten location path content (convert_arguments_to_argv_style args) w i
