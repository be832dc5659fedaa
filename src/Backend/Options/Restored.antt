-- ===== src/Backend/Options/Restored.antt =====
-- Options that are captured and restored.
use libsgfc.Common.{◌≡◌, refl, ◌<◌, Option, none, some, length, lt→ltb}
use libsgfc.Text.Split.{Bytes}
use libsgfc.Sgfc.{Options}
use libsgfc.Backend.Options.{
  StoredOptions, string_of, copy_options, capture_options, restored_encoding, restore_options,
}

-- A pointer to an encoding that is null or has more than one character.
abbrev pub IsEncoding : Option Bytes → Type 0
IsEncoding none = Unit
IsEncoding (some s) = 1 < length s

-- The options with the names of files of other ones.
abbrev pub with_files : Options → Options → Options
with_files files o = record o { infile = files.infile; outfile = files.outfile }

restored_encoding-IsEncoding :
    (o : Option Bytes) → IsEncoding o → restored_encoding (string_of o) ≡ o
unfolding restored_encoding
restored_encoding-IsEncoding none h = refl
restored_encoding-IsEncoding (some s) h = rw (lt→ltb 1 (length s) h) refl

-- If both encodings of the source are null or have more than one character, then capturing the
-- source and restoring it to a target gives the source with the target's two names of files,
-- whatever was captured before.
pub restore_options-capture_options :
    (source target : Options) (stored : StoredOptions)
    → IsEncoding source.default_encoding
    → IsEncoding source.forced_encoding
    → restore_options (capture_options source stored) target ≡ with_files target source
unfolding restore_options capture_options copy_options
restore_options-capture_options source target stored d f =
    rw
      (
        restored_encoding-IsEncoding source.default_encoding d,
        restored_encoding-IsEncoding source.forced_encoding f,
      )
      refl
