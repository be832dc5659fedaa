-- ===== src/Streams.antt =====
-- The two streams that capture what SGFC tells its hooks (src/sgfc/message/SgfcMessageStream.cpp,
-- src/sgfc/save/SgfcSaveStream.cpp).
use libsgfc.Common.{Option, none, some, Bool, true, false, List, [], ◌∷◌, ◌++◌, if◌then◌else◌}
use libsgfc.Common.Int.{ℤ}
use libsgfc.Text.Split.{Bytes}
use libsgfc.Message.Captured.{Message, message_of}
use libsgfc.Sgfc.{HookCall, reports, opens, closes, Run, returned, exhausted, hooks}

-- The classes of exceptions that leave a method.
pub data Exception : Type 0 where
  runtime_error : Exception
  invalid_argument : Exception
  logic_error : Exception

-- How a call ends; `crashes` is the use of a null pointer.
pub data Ended (A : Type 0) : Type 0 where
  returns : A → Ended A
  throws : Exception → Ended A
  crashes : Ended A

-- The static variables of both files.
pub record Statics : Type 0 where
  pub messages : List Message
  pub is_capturing_messages : Bool
  pub file_paths : List Bytes
  pub contents : List Bytes
  pub is_capturing_contents : Bool

-- The initial values.
abbrev pub idle : Statics
idle = record {
  messages = [];
  is_capturing_messages = false;
  file_paths = [];
  contents = [];
  is_capturing_contents = false;
}

-- The constructor and the destructor of SgfcMessageStream; `none` stands for the
-- `std::logic_error`.
unfoldable pub open_message_stream : Statics → Option Statics
open_message_stream s =
    if s.is_capturing_messages
    then none
    else some (record s { messages = []; is_capturing_messages = true })

unfoldable pub close_message_stream : Statics → Statics
close_message_stream s = record s { messages = []; is_capturing_messages = false }

-- The constructor and the destructor of SgfcSaveStream.
unfoldable pub open_save_stream : Statics → Option Statics
open_save_stream s =
    if s.is_capturing_contents
    then none
    else some (record s { file_paths = []; contents = []; is_capturing_contents = true })

unfoldable pub close_save_stream : Statics → Statics
close_save_stream s = record s { file_paths = []; contents = []; is_capturing_contents = false }

-- SgfcSgfContent.
pub record SgfContent : Type 0 where
  pub sgf_content : Bytes
  pub file_path : Bytes

-- The loop of `GetSgfContents` on the two vectors.
unfoldable pub sgf_contents_loop : List Bytes → List Bytes → List SgfContent
sgf_contents_loop [] paths = []
sgf_contents_loop (c ∷ cs) [] = []
sgf_contents_loop (c ∷ cs) (p ∷ ps) =
    record { sgf_content = c; file_path = p } ∷ sgf_contents_loop cs ps

unfoldable pub get_sgf_contents : Statics → List SgfContent
get_sgf_contents s = sgf_contents_loop s.contents s.file_paths

abbrev print_error_output_hook : Option Message → Statics → Option Statics
print_error_output_hook none s = none
print_error_output_hook (some m) s = some (record s { messages = s.messages ++ m ∷ [] })

-- The hooks `PrintErrorOutputHook`, `openHook` and `closeHook`; `none` stands for the
-- `std::invalid_argument` of the first.
unfoldable pub call_hook : (ℤ → Option Bytes) → HookCall → Statics → Option Statics
call_hook strerror (reports r) s = print_error_output_hook (message_of strerror r) s
call_hook strerror (opens path) s = some (record s { file_paths = s.file_paths ++ path ∷ [] })
call_hook strerror (closes ok content) s =
    some (if ok then record s { contents = s.contents ++ content ∷ [] } else s)

-- A function of SGFC that has run: its SGFInfo, and how it ended.
pub record Ran (Info : Type 0) : Type 0 where
  pub ran_info : Info
  pub ran_ended : Ended Bool

abbrev ran : {Info : Type 0} → Info → Ended Bool → Ran Info
ran i e = record { ran_info = i; ran_ended = e }

-- A run of a function of SGFC with the library's hooks installed. An exception of a hook leaves the
-- function.
unfoldable pub execute :
    {Info : Type 0} → (ℤ → Option Bytes) → Run Info → Statics → Ran Info × Statics
execute strerror (returned i ok) s = (ran i (returns ok), s)
execute strerror (exhausted i) s = (ran i (throws runtime_error), s)
execute strerror (hooks call i rest) s = elim (call_hook strerror call s) [
  | none ↦ (ran i (throws invalid_argument), s)
  | some s' ↦ execute strerror rest s'
]
