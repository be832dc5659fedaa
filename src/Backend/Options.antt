-- ===== src/Backend/Options.antt =====
-- The options of SGFC between two runs (src/sgfc/backend/SgfcOptions.cpp).
pub mod Restored
use libsgfc.Common.{Option, none, some, [], ltb, if◌then◌else◌, length}
use libsgfc.Text.Split.{Bytes}
use libsgfc.Sgfc.{Options}

-- The members of SgfcOptions.
pub record StoredOptions : Type 0 where
  pub options : Options
  pub stored_default_encoding : Bytes
  pub stored_forced_encoding : Bytes

-- A new `std::string` of a pointer that may be null.
abbrev pub string_of : Option Bytes → Bytes
string_of none = []
string_of (some s) = s

-- `CopyOptions source target`: the new target.
unfoldable pub copy_options : Options → Options → Options
copy_options source target = record {
  linebreaks = source.linebreaks;
  find_start = source.find_start;
  encoding = source.encoding;
  help = source.help;
  warnings = source.warnings;
  keep_head = source.keep_head;
  keep_unknown_props = source.keep_unknown_props;
  keep_obsolete_props = source.keep_obsolete_props;
  del_empty_nodes = source.del_empty_nodes;
  del_move_markup = source.del_move_markup;
  split_file = source.split_file;
  write_critical = source.write_critical;
  interactive = source.interactive;
  soft_linebreaks = source.soft_linebreaks;
  node_linebreaks = source.node_linebreaks;
  expand_cpl = source.expand_cpl;
  pass_tt = source.pass_tt;
  fix_variation = source.fix_variation;
  game_signature = source.game_signature;
  strict_checking = source.strict_checking;
  reorder_variations = source.reorder_variations;
  add_sgfc_ap_property = source.add_sgfc_ap_property;
  error_enabled = source.error_enabled;
  delete_property = source.delete_property;
  default_encoding = target.default_encoding;
  forced_encoding = target.forced_encoding;
  infile = target.infile;
  outfile = target.outfile;
}

-- The constructor, from what SGFCDefaultOptions returns; `none` is a failed allocation.
unfoldable pub make_options : Option Options → Option StoredOptions
make_options none = none
make_options (some o) = some (record {
  options = o;
  stored_default_encoding = string_of o.default_encoding;
  stored_forced_encoding = string_of o.forced_encoding;
})

unfoldable pub capture_options : Options → StoredOptions → StoredOptions
capture_options source stored = record {
  options = copy_options source stored.options;
  stored_default_encoding = string_of source.default_encoding;
  stored_forced_encoding = string_of source.forced_encoding;
}

-- The pointer that a stored encoding is restored to.
unfoldable pub restored_encoding : Bytes → Option Bytes
restored_encoding s = if ltb 1 (length s) then some s else none

abbrev with_encodings : Option Bytes → Option Bytes → Options → Options
with_encodings default forced o = record {
  linebreaks = o.linebreaks;
  find_start = o.find_start;
  encoding = o.encoding;
  help = o.help;
  warnings = o.warnings;
  keep_head = o.keep_head;
  keep_unknown_props = o.keep_unknown_props;
  keep_obsolete_props = o.keep_obsolete_props;
  del_empty_nodes = o.del_empty_nodes;
  del_move_markup = o.del_move_markup;
  split_file = o.split_file;
  write_critical = o.write_critical;
  interactive = o.interactive;
  soft_linebreaks = o.soft_linebreaks;
  node_linebreaks = o.node_linebreaks;
  expand_cpl = o.expand_cpl;
  pass_tt = o.pass_tt;
  fix_variation = o.fix_variation;
  game_signature = o.game_signature;
  strict_checking = o.strict_checking;
  reorder_variations = o.reorder_variations;
  add_sgfc_ap_property = o.add_sgfc_ap_property;
  error_enabled = o.error_enabled;
  delete_property = o.delete_property;
  default_encoding = default;
  forced_encoding = forced;
  infile = o.infile;
  outfile = o.outfile;
}

unfoldable pub restore_options : StoredOptions → Options → Options
restore_options stored target =
    with_encodings (restored_encoding stored.stored_default_encoding)
      (restored_encoding stored.stored_forced_encoding) (copy_options stored.options target)
