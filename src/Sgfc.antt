-- ===== src/Sgfc.antt =====
-- The C program SGFC, which is no part of the repository, as the library calls it
-- (src/sgfc/backend/SgfcBackendController.cpp, src/sgfc/backend/SgfcOptions.cpp): its functions are
-- a parameter, and the hooks that it calls while it runs make up a trace.
use libsgfc.Common.{Option, Bool, List}
use libsgfc.Common.Int.{ℤ}
use libsgfc.Text.Split.{Bytes}
use libsgfc.Message.Captured.{Report}

-- The calls of the hooks: the report of a message, and the opening and the closing of a file that
-- is saved; with a closing goes whether the error is E_NO_ERROR, and the content of the buffer.
pub data HookCall : Type 0 where
  reports : Report → HookCall
  opens : Bytes → HookCall
  closes : Bool → Bytes → HookCall

-- A run of a function of SGFC on a SGFInfo: it returns, or fails to allocate memory (whereupon the
-- library's out of memory hook throws), or calls a hook and goes on. The SGFInfo is the one at that
-- moment.
pub data Run (Info : Type 0) : Type 0 where
  returned : Info → Bool → Run Info
  exhausted : Info → Run Info
  hooks : HookCall → Info → Run Info → Run Info

-- SGFCOptions: the members that the library copies, numbers, Booleans and enumerators by their
-- integer values; the tables `error_enabled` and `delete_property`; the two encodings and the two
-- names of files, where a null pointer is `none`.
pub record Options : Type 0 where
  pub linebreaks : ℤ
  pub find_start : ℤ
  pub encoding : ℤ
  pub help : ℤ
  pub warnings : ℤ
  pub keep_head : ℤ
  pub keep_unknown_props : ℤ
  pub keep_obsolete_props : ℤ
  pub del_empty_nodes : ℤ
  pub del_move_markup : ℤ
  pub split_file : ℤ
  pub write_critical : ℤ
  pub interactive : ℤ
  pub soft_linebreaks : ℤ
  pub node_linebreaks : ℤ
  pub expand_cpl : ℤ
  pub pass_tt : ℤ
  pub fix_variation : ℤ
  pub game_signature : ℤ
  pub strict_checking : ℤ
  pub reorder_variations : ℤ
  pub add_sgfc_ap_property : ℤ
  pub error_enabled : List ℤ
  pub delete_property : List ℤ
  pub default_encoding : Option Bytes
  pub forced_encoding : Option Bytes
  pub infile : Option Bytes
  pub outfile : Option Bytes

-- The functions of SGFC, the C library's `strerror`, and the files. `none` is a failed allocation.
pub record Sgfc (Info Disk : Type 0) : Type 0 where
  pub sgfc_default_options : Option Options
  pub setup_sgf_info : Option Info
  pub get_options : Info → Options
  pub put_options : Options → Info → Info
  pub put_buffer : Bytes → Info → Info
  pub parse_args : List Bytes → Info → Run Info
  pub load_sgf : Bytes → Disk → Info → Run Info
  pub load_sgf_from_file_buffer : Info → Run Info
  pub parse_sgf : Info → Run Info
  pub save_sgf : Bytes → Info → Run Info
  pub strerror : ℤ → Option Bytes
  pub open_file : Bytes → Disk → Bool × Disk
  pub write_file : Bytes → Bytes → Disk → Bool × Disk
