-- ===== src/CommandLine/Idle.antt =====
-- The streams are closed again behind every call.
use libsgfc.Common.{◌≡◌, refl, Option, Bool, true, false, Option-cases, [], inl, inr}
use libsgfc.Common.Int.{ℤ}
use libsgfc.Text.Split.{Bytes}
use libsgfc.Sgfc.{reports, opens, closes, Run, returned, exhausted, hooks}
use libsgfc.Message.Captured.{message_of}
use libsgfc.Streams.{
  Statics, call_hook, execute, open_message_stream, close_message_stream, open_save_stream,
  close_save_stream,
}
use libsgfc.Backend.{with_message_stream, with_save_stream}

-- Which of the two streams are open.
pub record Capturing (messages contents : Bool) (s : Statics) : Type 0 where
  pub capturing_messages : s.is_capturing_messages ≡ messages
  pub capturing_contents : s.is_capturing_contents ≡ contents

-- No stream is open.
abbrev pub IsIdle : Statics → Type 0
IsIdle s = Capturing false false s

-- A function of SGFC opens and closes no stream.
pub execute-Capturing :
    {Info : Type 0} {m c : Bool} (strerror : ℤ → Option Bytes) (run : Run Info) (s : Statics)
    → Capturing m c s
    → Capturing m c (execute strerror run s).1
unfolding execute call_hook
execute-Capturing strerror (returned i ok) s h = h
execute-Capturing strerror (exhausted i) s h = h
execute-Capturing strerror (hooks (opens p) i rest) s h =
    execute-Capturing strerror rest _ (record {
      capturing_messages = h.capturing_messages;
      capturing_contents = h.capturing_contents;
    })
execute-Capturing strerror (hooks (closes true t) i rest) s h =
    execute-Capturing strerror rest _ (record {
      capturing_messages = h.capturing_messages;
      capturing_contents = h.capturing_contents;
    })
execute-Capturing strerror (hooks (closes false t) i rest) s h = execute-Capturing strerror rest s h
execute-Capturing strerror (hooks (reports r) i rest) s h =
    elim (Option-cases (message_of strerror r)) [
      | inl e ↦ rw (execute, call_hook, e) h
      | inr (m, e) ↦
          rw (execute, call_hook, e)
            (execute-Capturing strerror rest _ (record {
              capturing_messages = h.capturing_messages;
              capturing_contents = h.capturing_contents;
            }))
    ]

-- The static variables with an open message stream, and with an open save stream beside it.
abbrev pub with_messages_open : Statics → Statics
with_messages_open s = record s { messages = []; is_capturing_messages = true }

abbrev pub with_contents_open : Statics → Statics
with_contents_open s = record s { file_paths = []; contents = []; is_capturing_contents = true }

-- The constructors of the streams do not throw when no stream of their kind is open.
pub with_message_stream-opens :
    {A : Type 0} (a : A) (block : Statics → A × Statics) (s : Statics)
    → s.is_capturing_messages ≡ false
    → with_message_stream a block s
      ≡ ((block (with_messages_open s)).0, close_message_stream (block (with_messages_open s)).1)
unfolding open_message_stream
with_message_stream-opens a block s h = rw h refl

pub with_save_stream-opens :
    {A : Type 0} (a : A) (block : Statics → A × Statics) (s : Statics)
    → s.is_capturing_contents ≡ false
    → with_save_stream a block s
      ≡ ((block (with_contents_open s)).0, close_save_stream (block (with_contents_open s)).1)
unfolding open_save_stream
with_save_stream-opens a block s h = rw h refl

pub close_message_stream-IsIdle :
    (s : Statics) → Capturing true false s → IsIdle (close_message_stream s)
unfolding close_message_stream
close_message_stream-IsIdle s h = record {
  capturing_messages = refl;
  capturing_contents = h.capturing_contents;
}

pub with_message_stream-IsIdle :
    {A : Type 0} (a : A) (block : Statics → A × Statics) (s : Statics)
    → IsIdle s
    → ((o : Statics) → Capturing true false o → Capturing true false (block o).1)
    → IsIdle (with_message_stream a block s).1
with_message_stream-IsIdle a block s i keeps =
    rw (with_message_stream-opens a block s i.capturing_messages) (
      close_message_stream-IsIdle _ (
        keeps (with_messages_open s)
          (record { capturing_messages = refl; capturing_contents = i.capturing_contents })))

pub with_save_stream-Capturing :
    {A : Type 0} (a : A) (block : Statics → A × Statics) (s : Statics)
    → Capturing true false s
    → ((o : Statics) → Capturing true true o → Capturing true true (block o).1)
    → Capturing true false (with_save_stream a block s).1
unfolding close_save_stream
with_save_stream-Capturing a block s c keeps =
    rw (with_save_stream-opens a block s c.capturing_contents) (record {
      capturing_messages =
          (keeps (with_contents_open s) (record {
            capturing_messages = c.capturing_messages;
            capturing_contents = refl;
          })).capturing_messages;
      capturing_contents = refl;
    })
