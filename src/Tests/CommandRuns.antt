-- ===== src/Tests/CommandRuns.antt =====
-- A concrete SGFC, with one session of a command line.
use libsgfc.Common.{ℕ, ◌+◌, ◌≡◌, refl, none, some, true, List, [], ◌∷◌, arith}
use libsgfc.Common.Int.{pos}
use libsgfc.Text.Split.{Bytes}
use libsgfc.Frontend.{
  Construction, constructed, read_sgf_content, write_sgf_content, writer_arguments,
}
use libsgfc.Frontend.Ends.{IsSafe, read_sgf_content-IsSafe}
use libsgfc.Frontend.Writes.{IsSafelyWritten, write_sgf_content-IsSafelyWritten}
use libsgfc.Message.Captured.{Message}
use libsgfc.Sgfc.{Options, Sgfc, returned, hooks, opens, closes}
use libsgfc.Streams.{idle, SgfContent, returns, execute, open_message_stream, close_message_stream}
use libsgfc.Backend.{
  World, Controller, DataWrapper, fully_loaded, filesystem, in_memory_buffer, is_command_line_valid,
  make_controller, invoke_sgfc_parse_args, captured_arguments,
}
use libsgfc.Backend.Options.{
  StoredOptions, capture_options, restore_options, make_options, copy_options,
}
use libsgfc.Backend.Options.Restored.{with_files, restore_options-capture_options}
use libsgfc.Backend.Save.{save_sgf_content}
use libsgfc.CommandLine.{CommandLine, Call, load, save, perform_all, make_command_line}
use libsgfc.CommandLine.Idle.{IsIdle}
use libsgfc.CommandLine.Sound.{IsGuarded}
use libsgfc.CommandLine.Session.{perform_all-IsGuarded}
use libsgfc.CommandLine.Saved.{done, opened, closed, joined, save_sgf_content-Saves}

abbrev utf_8 : Bytes
utf_8 = b'U' ∷ b'T' ∷ b'F' ∷ b'-' ∷ b'8' ∷ []

abbrev plain : Options
plain = record {
  linebreaks = pos 0;
  find_start = pos 1;
  encoding = pos 2;
  help = pos 0;
  warnings = pos 1;
  keep_head = pos 2;
  keep_unknown_props = pos 0;
  keep_obsolete_props = pos 1;
  del_empty_nodes = pos 2;
  del_move_markup = pos 0;
  split_file = pos 1;
  write_critical = pos 2;
  interactive = pos 0;
  soft_linebreaks = pos 1;
  node_linebreaks = pos 2;
  expand_cpl = pos 0;
  pass_tt = pos 1;
  fix_variation = pos 2;
  game_signature = pos 0;
  strict_checking = pos 1;
  reorder_variations = pos 2;
  add_sgfc_ap_property = pos 0;
  error_enabled = pos 1 ∷ pos 0 ∷ [];
  delete_property = pos 0 ∷ [];
  default_encoding = some utf_8;
  forced_encoding = none;
  infile = none;
  outfile = none;
}

abbrev empty_game : Bytes
empty_game = b'(' ∷ b';' ∷ b')' ∷ []

abbrev file_name : Bytes
file_name = b'a' ∷ []

-- An SGFC that saves one file.
abbrev sgfc : Sgfc Options ℕ
sgfc = record {
  sgfc_default_options = some plain;
  setup_sgf_info = some plain;
  get_options = λ i. i;
  put_options = λ o i. o;
  put_buffer = λ b i. i;
  parse_args = λ argv i. returned i true;
  load_sgf = λ path disk i. returned i true;
  load_sgf_from_file_buffer = λ i. returned i true;
  parse_sgf = λ i. returned i true;
  save_sgf = λ path i. hooks (opens path) i (hooks (closes true empty_game) i (returned i true));
  strerror = λ n. none;
  open_file = λ path disk. (true, disk);
  write_file = λ path content disk. (true, disk);
}

idle-IsIdle : IsIdle idle
idle-IsIdle = record { capturing_messages = refl; capturing_contents = refl }

abbrev stored : StoredOptions
stored = record { options = plain; stored_default_encoding = utf_8; stored_forced_encoding = [] }

abbrev controller : Controller
controller = record { sgfc_options = stored; invalid_command_line_reason = none }

abbrev command_line : CommandLine Options
command_line = record {
  backend_controller = controller;
  backend_load_result = none;
  backend_save_result = none;
}

abbrev calls : List Call
calls =
    save filesystem file_name []
    ∷ load in_memory_buffer [] empty_game
    ∷ save in_memory_buffer file_name []
    ∷ []

command_line-made : make_command_line sgfc [] idle ≡ (returns command_line, idle)
unfolding make_command_line make_controller invoke_sgfc_parse_args captured_arguments execute
    open_message_stream close_message_stream make_options capture_options copy_options
command_line-made = refl

abbrev world : World ℕ
world = record { statics = idle; disk = 0 }

perform_all-IsGuarded_example :
    let after = perform_all sgfc calls command_line world in
    IsIdle after.1.statics × IsGuarded sgfc (save filesystem file_name []) after.0 after.1
perform_all-IsGuarded_example =
    perform_all-IsGuarded sgfc [] idle idle command_line 0 calls (save filesystem file_name [])
      idle-IsIdle command_line-made

abbrev wrapper : DataWrapper Options
wrapper = record { sgf_data = plain; data_state = fully_loaded }

abbrev saved : List SgfContent
saved = record { sgf_content = empty_game; file_path = file_name } ∷ []

save_sgf_content-Saves_example :
    let r = save_sgf_content sgfc controller in_memory_buffer file_name [] (some wrapper) world in
    ((ms : List Message) × (r.0.0 ≡ returns ms)) × (r.0.1.1 ≡ joined saved)
unfolding is_command_line_valid
save_sgf_content-Saves_example =
    save_sgf_content-Saves sgfc controller file_name [] wrapper world saved refl idle-IsIdle refl
      (opened file_name _ (closed file_name empty_game _ (done _)))

restore_options-capture_options_example :
    restore_options (capture_options plain stored) plain ≡ with_files plain plain
restore_options-capture_options_example =
    restore_options-capture_options plain plain stored (omega arith) tt

abbrev make_number : Options → Construction ℕ
make_number i = constructed 5

-- A document is a number here, and a property that is set adds one.
read_sgf_content-IsSafe_example :
    IsSafe sgfc make_number 0
      (λ d. d + 1)
      (read_sgf_content sgfc make_number 0
        (λ d. d + 1)
        writer_arguments
        in_memory_buffer
        []
        empty_game
        world)
read_sgf_content-IsSafe_example =
    read_sgf_content-IsSafe sgfc make_number 0 (λ d. d + 1) writer_arguments in_memory_buffer []
      empty_game world idle-IsIdle

write_sgf_content-IsSafelyWritten_example :
    IsSafelyWritten sgfc
      (some empty_game)
      []
      world.disk
      (write_sgf_content sgfc (some empty_game) writer_arguments filesystem file_name [] world)
write_sgf_content-IsSafelyWritten_example =
    write_sgf_content-IsSafelyWritten sgfc (some empty_game) writer_arguments filesystem file_name
      [] world idle-IsIdle
