-- ===== src/CommandLine/Session.antt =====
-- Sequences of calls of a command line.
use libsgfc.Common.{
  ◌≡◌, refl, subst, Option, none, some, Bool, true, false, List, [], ◌∷◌, Bool-cases, Option-cases,
  inl, inr, arith,
}
use libsgfc.Text.Split.{Bytes}
use libsgfc.Sgfc.{Sgfc}
use libsgfc.Streams.{logic_error, Ended, returns, throws, crashes, Statics}
use libsgfc.Backend.{
  DataLocation, Controller, World, is_command_line_valid, make_controller, captured_arguments,
  invoke_sgfc_parse_args, parse_with_options, parse_with,
}
use libsgfc.Backend.Options.{StoredOptions}
use libsgfc.CommandLine.{
  CommandLine, is_sgf_content_valid, Call, load, save, save_sgf_file_or_content, perform,
  perform_all, make_command_line, with_controller,
}
use libsgfc.CommandLine.Idle.{Capturing, IsIdle, execute-Capturing, with_message_stream-IsIdle}
use libsgfc.CommandLine.Sound.{
  IsSound, IsGuarded, is_data_valid, load-IsGuarded, load-IsSound, save_loaded-IsSound,
  save_loaded-is_regular,
}

module _ {Info : Type 0} where
  is_sgf_content_valid-valid :
      (cl : CommandLine Info)
      → is_command_line_valid cl.backend_controller ≡ true
      → is_sgf_content_valid cl ≡ returns (is_data_valid cl.backend_load_result)
  unfolding is_sgf_content_valid
  is_sgf_content_valid-valid cl v = elim (Option-cases cl.backend_load_result) [
    | inl e ↦ rw (v, e) refl
    | inr (l, e) ↦ rw (v, e) refl
  ]

  is_sgf_content_valid-invalid :
      (cl : CommandLine Info)
      → is_command_line_valid cl.backend_controller ≡ false
      → is_sgf_content_valid cl ≡ throws logic_error
  unfolding is_sgf_content_valid
  is_sgf_content_valid-invalid cl n = rw n refl

module _ {Info Disk : Type 0} (sgfc : Sgfc Info Disk) where
  save-IsGuarded :
      (location : DataLocation) (path content : Bytes) (cl : CommandLine Info) (w : World Disk)
      → IsSound cl w
      → IsGuarded sgfc (save location path content) cl w
  unfolding perform save_sgf_file_or_content
  save-IsGuarded location path content cl w s =
      elim (Bool-cases (is_command_line_valid cl.backend_controller)) [
        | inr n ↦ record {
          if_allowed = λ a. ground arith;
          if_forbidden = λ a. rw (is_sgf_content_valid-invalid cl n) refl;
        }
        | inl v ↦ elim (Bool-cases (is_data_valid cl.backend_load_result)) [
          | inl d ↦ record {
            if_allowed = λ a.
                rw (is_sgf_content_valid-valid cl v, d)
                  (save_loaded-is_regular sgfc location path content _ cl w s.is_idle s.has_data d
                    v);
            if_forbidden = λ a. ground arith;
          }
          | inr f ↦ record {
            if_allowed = λ a. ground arith;
            if_forbidden = λ a. rw (is_sgf_content_valid-valid cl v, f) refl;
          }
        ]
      ]

  save-IsSound :
      (location : DataLocation) (path content : Bytes) (cl : CommandLine Info) (w : World Disk)
      → IsSound cl w
      → IsSound
          (perform sgfc (save location path content) cl w).left_command_line
          (perform sgfc (save location path content) cl w).left_world
  unfolding perform save_sgf_file_or_content
  save-IsSound location path content cl w s =
      elim (Bool-cases (is_command_line_valid cl.backend_controller)) [
        | inr n ↦ rw (is_sgf_content_valid-invalid cl n) s
        | inl v ↦ elim (Bool-cases (is_data_valid cl.backend_load_result)) [
          | inl d ↦
              rw (is_sgf_content_valid-valid cl v, d)
                (save_loaded-IsSound sgfc location path content _ cl w s s.has_data d v)
          | inr f ↦ rw (is_sgf_content_valid-valid cl v, f) s
        ]
      ]

  perform-IsGuarded :
      (k : Call) (cl : CommandLine Info) (w : World Disk) → IsSound cl w → IsGuarded sgfc k cl w
  perform-IsGuarded (load location path content) cl w s =
      load-IsGuarded sgfc location path content cl w s
  perform-IsGuarded (save location path content) cl w s =
      save-IsGuarded location path content cl w s

  perform-IsSound :
      (k : Call) (cl : CommandLine Info) (w : World Disk)
      → IsSound cl w
      → IsSound (perform sgfc k cl w).left_command_line (perform sgfc k cl w).left_world
  perform-IsSound (load location path content) cl w s =
      load-IsSound sgfc location path content cl w s
  perform-IsSound (save location path content) cl w s = save-IsSound location path content cl w s

  perform_all-from :
      (ks : List Call) (cl : CommandLine Info) (w : World Disk)
      → IsSound cl w
      → IsSound (perform_all sgfc ks cl w).0 (perform_all sgfc ks cl w).1
  perform_all-from [] cl w s = s
  perform_all-from (k ∷ ks) cl w s = perform_all-from ks _ _ (perform-IsSound k cl w s)

  -- What the constructor leaves, whether or not it throws.
  abbrev Starts : Ended (CommandLine Info) × Statics → Type 0
  Starts (returns cl, s) = (disk : Disk) → IsSound cl (record { statics = s; disk = disk })
  Starts (throws e, s) = IsIdle s
  Starts (crashes, s) = IsIdle s

  parse_with-Capturing :
      {m c : Bool} (o : StoredOptions) (argv : List Bytes) (i : Option Info) (s : Statics)
      → Capturing m c s
      → Capturing m c (parse_with sgfc o argv i s).1
  unfolding captured_arguments
  parse_with-Capturing o argv none s h = h
  parse_with-Capturing o argv (some i) s h = execute-Capturing sgfc.strerror _ s h

  parse_with_options-IsIdle :
      (o : Option StoredOptions) (argv : List Bytes) (s : Statics)
      → IsIdle s
      → IsIdle (parse_with_options sgfc o argv s).1
  unfolding invoke_sgfc_parse_args
  parse_with_options-IsIdle none argv s h = h
  parse_with_options-IsIdle (some o) argv s h =
      with_message_stream-IsIdle _ _ s h
        (λ u k. parse_with-Capturing o argv sgfc.setup_sgf_info u k)

  pub make_controller-IsIdle :
      (argv : List Bytes) (s : Statics) → IsIdle s → IsIdle (make_controller sgfc argv s).1
  unfolding make_controller
  make_controller-IsIdle argv s h = parse_with_options-IsIdle _ argv s h

  with_controller-Starts :
      (c : Ended Controller) (s : Statics) → IsIdle s → Starts (with_controller sgfc (c, s))
  with_controller-Starts (returns c) s h = λ disk. record { is_idle = h; has_data = tt }
  with_controller-Starts (throws e) s h = h
  with_controller-Starts crashes s h = h

  make_command_line-Starts :
      (argv : List Bytes) (s : Statics) → IsIdle s → Starts (make_command_line sgfc argv s)
  unfolding make_command_line
  make_command_line-Starts argv s h = with_controller-Starts _ _ (make_controller-IsIdle argv s h)

  -- For every behaviour of SGFC: after the constructor, which begins with no stream open and does
  -- not throw, and any sequence of loads and saves, whether or not they throw, no stream is open,
  -- and a next call that the interface protocol allows uses no null pointer and throws no exception
  -- but a `std::runtime_error` or a `std::invalid_argument`; one that it forbids throws a
  -- `std::logic_error` and changes nothing.
  pub perform_all-IsGuarded :
      (argv : List Bytes) (s s' : Statics) (cl : CommandLine Info) (disk : Disk) (ks : List Call)
      (k : Call)
      → IsIdle s
      → make_command_line sgfc argv s ≡ (returns cl, s')
      → (let after = perform_all sgfc ks cl (record { statics = s'; disk = disk }) in
          IsIdle after.1.statics × IsGuarded sgfc k after.0 after.1)
  perform_all-IsGuarded argv s s' cl disk ks k i e =
      let start : IsSound cl (record { statics = s'; disk = disk }) =
        subst Starts e (make_command_line-Starts argv s i) disk in
      let sound = perform_all-from ks cl _ start in (sound.is_idle, perform-IsGuarded k _ _ sound)
