-- ===== src/Frontend/Ends.antt =====
-- How reading and writing a document end.
use libsgfc.Common.{
  ◌≡◌, refl, ◌∙◌, ◌⊎◌, inl, inr, Option, none, some, Bool, true, false, not, List, ltb, arith,
  Bool-cases,
}
use libsgfc.Text.Split.{Bytes}
use libsgfc.Message.{
  MessageType, ExitCode, ok_code, warning_code, error_code, fatal_error_code, get_sgfc_exit_code,
  is_sgf_data_valid,
}
use libsgfc.Message.Worst.{code_number, get_sgfc_exit_code-worst}
use libsgfc.Message.Captured.{Message}
use libsgfc.Arguments.{Arguments}
use libsgfc.Arguments.Shown.{convert_arguments_to_argv_style}
use libsgfc.Sgfc.{Sgfc}
use libsgfc.Streams.{
  runtime_error, invalid_argument, logic_error, Ended, returns, throws, crashes, Statics,
}
use libsgfc.Backend.{
  DataLocation, Controller, LoadResult, World, is_command_line_valid, captured_arguments,
  parse_with, parse_with_options, invoke_sgfc_parse_args, make_controller,
}
use libsgfc.Backend.Options.{StoredOptions}
use libsgfc.CommandLine.{types}
use libsgfc.CommandLine.Idle.{IsIdle, with_message_stream-opens}
use libsgfc.CommandLine.Regular.{
  is_regular, HasData, IsLoaded, execute-is_regular, load_sgf_content-IsLoaded,
  load_sgf_content-IsIdle,
}
use libsgfc.CommandLine.Session.{make_controller-IsIdle}
use libsgfc.Frontend.{
  Construction, constructed, failed_invalid, failed_domain, failed_logic, ReadResult,
  make_read_result, is_fatal_code, has_no_decoding, post_process_document, read_constructed,
  read_data, read_loaded, read_if_loaded, read_if_valid, read_with, read_argv, read_sgf_content,
}

is_fatal_code-number : (c : ExitCode) → is_fatal_code c ≡ not (ltb (code_number c) 20)
is_fatal_code-number ok_code = refl
is_fatal_code-number warning_code = refl
is_fatal_code-number error_code = refl
is_fatal_code-number fatal_error_code = refl

is_fatal_code-is_sgf_data_valid :
    (ms : List MessageType) → is_fatal_code (get_sgfc_exit_code ms) ≡ not (is_sgf_data_valid ms)
is_fatal_code-is_sgf_data_valid ms =
    let (e, v) = get_sgfc_exit_code-worst ms in
    is_fatal_code-number (get_sgfc_exit_code ms) ∙ rw (e, v) refl

module _ {Info Disk : Type 0} (sgfc : Sgfc Info Disk) where
  captured_arguments-is_regular :
      (o : StoredOptions) (e : Ended Bool) (i : Info) (s : Statics)
      → is_regular e ≡ true
      → is_regular (captured_arguments sgfc o e i s) ≡ true
  unfolding captured_arguments
  captured_arguments-is_regular o (returns true) i s h = refl
  captured_arguments-is_regular o (returns false) i s h = refl
  captured_arguments-is_regular o (throws runtime_error) i s h = refl
  captured_arguments-is_regular o (throws invalid_argument) i s h = refl
  captured_arguments-is_regular o (throws logic_error) i s h = h
  captured_arguments-is_regular o crashes i s h = h

  parse_with-is_regular :
      (o : StoredOptions) (argv : List Bytes) (i : Option Info) (s : Statics)
      → is_regular (parse_with sgfc o argv i s).0 ≡ true
  parse_with-is_regular o argv none s = refl
  parse_with-is_regular o argv (some i) s =
      captured_arguments-is_regular o _ _ _ (execute-is_regular sgfc.strerror _ s)

  parse_with_options-is_regular :
      (o : Option StoredOptions) (argv : List Bytes) (s : Statics)
      → IsIdle s
      → is_regular (parse_with_options sgfc o argv s).0 ≡ true
  unfolding invoke_sgfc_parse_args
  parse_with_options-is_regular none argv s i = refl
  parse_with_options-is_regular (some o) argv s i =
      rw (with_message_stream-opens _ _ s i.capturing_messages)
        (parse_with-is_regular o argv sgfc.setup_sgf_info _)

  pub make_controller-is_regular :
      (argv : List Bytes) (s : Statics)
      → IsIdle s
      → is_regular (make_controller sgfc argv s).0 ≡ true
  unfolding make_controller
  make_controller-is_regular argv s i = parse_with_options-is_regular _ argv s i

module _ {Info Disk D : Type 0} (sgfc : Sgfc Info Disk) (make_document : Info → Construction D)
    (empty_document : D) (with_encoding : D → D) where
  -- A result with a fatal error has an empty document, with or without the encoding property, and a
  -- `std::logic_error` is one of the constructor of the document.
  abbrev pub IsRead : Ended (ReadResult D) → Type 0
  IsRead (returns r) =
      r.read_is_valid ≡ false
      → (r.read_document ≡ empty_document) ⊎ (r.read_document ≡ with_encoding empty_document)
  IsRead (throws runtime_error) = Unit
  IsRead (throws invalid_argument) = Unit
  IsRead (throws logic_error) = (i : Info) × (make_document i ≡ failed_logic)
  IsRead crashes = Bool.false ≡ true

  post_process_document-either :
      (args : Arguments) (d : D)
      → (post_process_document sgfc make_document empty_document with_encoding args d ≡ d)
        ⊎ (post_process_document sgfc make_document empty_document with_encoding args d
            ≡ with_encoding d)
  unfolding post_process_document
  post_process_document-either args d = elim (Bool-cases (has_no_decoding args)) [
    | inl e ↦ inl (rw e refl)
    | inr e ↦ inr (rw e refl)
  ]

  read_constructed-IsRead :
      (args : Arguments) (ms : List Message) (i : Info) (c : Construction D)
      → is_sgf_data_valid (types ms) ≡ true
      → make_document i ≡ c
      → IsRead (read_constructed sgfc make_document empty_document with_encoding args ms c)
  unfolding read_constructed make_read_result
  read_constructed-IsRead args ms i (constructed d) v e = λ n. absurd (ground arith)
  read_constructed-IsRead args ms i (failed_invalid what) v e =
      λ n. post_process_document-either args empty_document
  read_constructed-IsRead args ms i (failed_domain what) v e =
      λ n. post_process_document-either args empty_document
  read_constructed-IsRead args ms i failed_logic v e = (i, e)

  read_loaded-IsRead :
      (args : Arguments) (l : LoadResult Info)
      → HasData l
      → IsRead (read_loaded sgfc make_document empty_document with_encoding args l)
  unfolding read_loaded make_read_result
  read_loaded-IsRead args l h = elim (Bool-cases (is_sgf_data_valid (types l.parse_result))) [
    | inr n ↦
        rw (is_fatal_code-is_sgf_data_valid (types l.parse_result), n)
          (λ e. post_process_document-either args empty_document)
    | inl v ↦ rw (is_fatal_code-is_sgf_data_valid (types l.parse_result), v) (with_data h v)
  ]
    where
      with_data :
          HasData l
          → is_sgf_data_valid (types l.parse_result) ≡ true
          → IsRead (
              read_data sgfc make_document empty_document with_encoding args l.parse_result
                l.sgf_data_wrapper)
      with_data (inl f) v = absurd (ground arith)
      with_data (inr (d, e)) v =
          rw e (read_constructed-IsRead args l.parse_result d.sgf_data _ v refl)

  read_if_loaded-IsRead :
      (args : Arguments) (e : Ended (LoadResult Info))
      → IsLoaded e
      → IsRead (read_if_loaded sgfc make_document empty_document with_encoding args e)
  read_if_loaded-IsRead args (returns l) h = read_loaded-IsRead args l h
  read_if_loaded-IsRead args (throws runtime_error) h = tt
  read_if_loaded-IsRead args (throws invalid_argument) h = tt
  read_if_loaded-IsRead args (throws logic_error) h = absurd (ground arith)
  read_if_loaded-IsRead args crashes h = h

  -- What a read leaves.
  abbrev pub IsSafe : Ended (ReadResult D) × World Disk → Type 0
  IsSafe r = IsRead r.0 × IsIdle r.1.statics

  read_if_valid-IsSafe :
      (reason : Option Message) (args : Arguments) (location : DataLocation) (path content : Bytes)
      (c : Controller) (w : World Disk)
      → c.invalid_command_line_reason ≡ reason
      → IsIdle w.statics
      → IsSafe (
          read_if_valid sgfc make_document empty_document with_encoding reason args location path
            content c w)
  unfolding is_command_line_valid make_read_result
  read_if_valid-IsSafe (some m) args location path content c w e i = ((λ n. inl refl), i)
  read_if_valid-IsSafe none args location path content c w e i = (
    read_if_loaded-IsRead args _
        (load_sgf_content-IsLoaded sgfc c location path content w i (rw e refl)),
    load_sgf_content-IsIdle sgfc c location path content w i,
  )

  read_with-IsSafe :
      (args : Arguments) (location : DataLocation) (path content : Bytes) (c : Ended Controller)
      (w : World Disk)
      → is_regular c ≡ true
      → IsIdle w.statics
      → IsSafe
          (read_with sgfc make_document empty_document with_encoding args location path content c w)
  read_with-IsSafe args location path content (returns c) w h i =
      read_if_valid-IsSafe c.invalid_command_line_reason args location path content c w refl i
  read_with-IsSafe args location path content (throws runtime_error) w h i = (tt, i)
  read_with-IsSafe args location path content (throws invalid_argument) w h i = (tt, i)
  read_with-IsSafe args location path content (throws logic_error) w h i =
      (absurd (ground arith), i)
  read_with-IsSafe args location path content crashes w h i = (h, i)

  read_argv-IsSafe :
      (args : Arguments) (location : DataLocation) (path content : Bytes)
      (argv : Option (List Bytes)) (w : World Disk)
      → IsIdle w.statics
      → IsSafe (
          read_argv sgfc make_document empty_document with_encoding args location path content argv
            w)
  read_argv-IsSafe args location path content none w i = (tt, i)
  read_argv-IsSafe args location path content (some argv) w i =
      read_with-IsSafe args location path content _ _
        (make_controller-is_regular sgfc argv w.statics i)
        (make_controller-IsIdle sgfc argv w.statics i)

  -- For every behaviour of SGFC, and for a constructor of SgfcDocument that gives a document or throws
  -- a `std::invalid_argument`, a `std::domain_error` or another `std::logic_error`: reading SGF
  -- content, begun with no stream open, uses no null pointer and leaves no stream open. If it
  -- returns and its result says that the SGF data are not valid, then the document of the result is
  -- an empty one, post-processed or not. If it throws, it throws a `std::runtime_error`, a
  -- `std::invalid_argument`, or a `std::logic_error` that the constructor of SgfcDocument throws.
  pub read_sgf_content-IsSafe :
      (args : Arguments) (location : DataLocation) (path content : Bytes) (w : World Disk)
      → IsIdle w.statics
      → IsSafe (
          read_sgf_content sgfc make_document empty_document with_encoding args location path
            content w)
  unfolding read_sgf_content
  read_sgf_content-IsSafe args location path content w i =
      read_argv-IsSafe args location path content (convert_arguments_to_argv_style args) w i
