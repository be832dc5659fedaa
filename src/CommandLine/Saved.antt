-- ===== src/CommandLine/Saved.antt =====
-- The contents that a save in memory returns.
use libsgfc.Common.{
  ◌≡◌, refl, ◌∙◌, ap, ap₂, sym, Option, none, some, Bool, true, false, List, [], ◌∷◌, ◌++◌, map,
  append_assoc, append-nil,
}
use libsgfc.Common.Int.{ℤ}
use libsgfc.Text.Split.{Bytes}
use libsgfc.Sgfc.{Sgfc, Run, returned, hooks, reports, opens, closes}
use libsgfc.Message.Captured.{Message, Report, message_of}
use libsgfc.Streams.{
  Ended, returns, throws, logic_error, Statics, SgfContent, sgf_contents_loop, get_sgf_contents,
  call_hook, execute,
}
use libsgfc.Backend.{
  in_memory_buffer, DataWrapper, fully_loaded, Controller, World, is_command_line_valid,
  with_options,
}
use libsgfc.Backend.Save.{
  append_contents, save_block, save_if_loaded, load_if_partial, collect, finish_save, save_wrapped,
  save_sgf_content,
}
use libsgfc.CommandLine.Idle.{
  IsIdle, with_message_stream-opens, with_save_stream-opens, with_messages_open, with_contents_open,
}

-- A run that saves contents one after the other: each file is opened, and closed without an error
-- before the next; the reports between make messages.
pub data Saves {Info : Type 0} (strerror : ℤ → Option Bytes)
    : Option Bytes → Run Info → List SgfContent → Type 0 where
  done : (i : Info) → Saves strerror none (returned i true) []
  reported :
      {o : Option Bytes} {rest : Run Info} {cs : List SgfContent} (r : Report) (m : Message)
      (i : Info)
      → message_of strerror r ≡ some m
      → Saves strerror o rest cs
      → Saves strerror o (hooks (reports r) i rest) cs
  opened :
      {rest : Run Info} {cs : List SgfContent} (path : Bytes) (i : Info)
      → Saves strerror (some path) rest cs
      → Saves strerror none (hooks (opens path) i rest) cs
  closed :
      {rest : Run Info} {cs : List SgfContent} (path content : Bytes) (i : Info)
      → Saves strerror none rest cs
      → Saves strerror
          (some path)
          (hooks (closes true content) i rest)
          (record { sgf_content = content; file_path = path } ∷ cs)

abbrev content_texts : List SgfContent → List Bytes
content_texts cs = map (λ (c : SgfContent). c.sgf_content) cs

abbrev paths : List SgfContent → List Bytes
paths cs = map (λ (c : SgfContent). c.file_path) cs

abbrev open_path : Option Bytes → List Bytes
open_path none = []
open_path (some p) = p ∷ []

-- The static variables hold the contents so far, and the path of the open file.
record Gathered (o : Option Bytes) (cs : List SgfContent) (s : Statics) : Type 0 where
  gathered_contents : s.contents ≡ content_texts cs
  gathered_paths : s.file_paths ≡ paths cs ++ open_path o

-- All contents in one text.
abbrev pub joined : List SgfContent → Bytes
joined [] = []
joined (c ∷ cs) = c.sgf_content ++ joined cs

texts-append :
    (xs ys : List SgfContent) → content_texts (xs ++ ys) ≡ content_texts xs ++ content_texts ys
texts-append [] ys = refl
texts-append (x ∷ xs) ys = ap (λ t. x.sgf_content ∷ t) (texts-append xs ys)

paths-append : (xs ys : List SgfContent) → paths (xs ++ ys) ≡ paths xs ++ paths ys
paths-append [] ys = refl
paths-append (x ∷ xs) ys = ap (λ t. x.file_path ∷ t) (paths-append xs ys)

sgf_contents_loop-all :
    (cs : List SgfContent) → sgf_contents_loop (content_texts cs) (paths cs) ≡ cs
unfolding sgf_contents_loop
sgf_contents_loop-all [] = refl
sgf_contents_loop-all (c ∷ cs) = ap (λ t. c ∷ t) (sgf_contents_loop-all cs)

append_contents-joined :
    (out : Bytes) (cs : List SgfContent) → append_contents out cs ≡ out ++ joined cs
unfolding append_contents
append_contents-joined out [] = sym (append-nil out)
append_contents-joined out (c ∷ cs) =
    append_contents-joined (out ++ c.sgf_content) cs ∙ append_assoc out c.sgf_content (joined cs)

-- What a run that saves leaves.
record HasSaved (e : Ended Bool) (cs : List SgfContent) (s : Statics) : Type 0 where
  saved_ended : e ≡ returns true
  saved_contents : get_sgf_contents s ≡ cs

Gathered-HasSaved :
    (cs : List SgfContent) (s : Statics) → Gathered none cs s → HasSaved (returns true) (cs ++ []) s
unfolding get_sgf_contents
Gathered-HasSaved cs s g = record {
  saved_ended = refl;
  saved_contents =
      ap₂ sgf_contents_loop g.gathered_contents (g.gathered_paths ∙ append-nil (paths cs))
      ∙ sgf_contents_loop-all cs
      ∙ sym (append-nil cs);
}

execute-Saves :
    {Info : Type 0} {strerror : ℤ → Option Bytes} {o : Option Bytes} {run : Run Info}
    {cs : List SgfContent} (xs : List SgfContent) (s : Statics)
    → Saves strerror o run cs
    → Gathered o xs s
    → HasSaved (execute strerror run s).0.ran_ended (xs ++ cs) (execute strerror run s).1
unfolding execute call_hook
execute-Saves xs s (done i) g = Gathered-HasSaved xs s g
execute-Saves xs s (reported r m i e h) g =
    rw (execute, call_hook, e)
      (execute-Saves xs _ h
        (record { gathered_contents = g.gathered_contents; gathered_paths = g.gathered_paths }))
execute-Saves xs s (opened path i h) g = execute-Saves xs _ h (record {
  gathered_contents = g.gathered_contents;
  gathered_paths = ap (λ t. t ++ path ∷ []) (g.gathered_paths ∙ append-nil (paths xs));
})
execute-Saves {cs = c ∷ cs} xs s (closed path content i h) g =
    rw (sym (append_assoc xs (c ∷ []) cs)) (
      execute-Saves (xs ++ c ∷ []) _ h (record {
        gathered_contents =
            ap (λ t. t ++ content ∷ []) g.gathered_contents ∙ sym (texts-append xs (c ∷ []));
        gathered_paths =
            g.gathered_paths
            ∙ sym (paths-append xs (c ∷ []))
            ∙ sym (append-nil (paths (xs ++ c ∷ [])));
      }))

module _ {Info Disk : Type 0} (sgfc : Sgfc Info Disk) where
  save_block-Saves :
      (path : Bytes) (i : Info) (cs : List SgfContent) (s : Statics)
      → Saves sgfc.strerror none (sgfc.save_sgf path i) cs
      → (save_block sgfc path i (with_contents_open s)).0.0 ≡ returns cs
  unfolding save_block
  save_block-Saves path i cs s h =
      let r : HasSaved _ cs _ =
        execute-Saves [] (with_contents_open s) h
          (record { gathered_contents = refl; gathered_paths = refl }) in
      rw (r.saved_ended, r.saved_contents) refl

  save_if_loaded-Saves :
      (path : Bytes) (d : DataWrapper Info) (cs : List SgfContent) (s : Statics)
      → s.is_capturing_contents ≡ false
      → Saves sgfc.strerror none (sgfc.save_sgf path d.sgf_data) cs
      → (ms : List Message) × ((save_if_loaded sgfc path (returns true) d s).0.0
          ≡ returns (record { save_messages = ms; save_contents = cs }))
  save_if_loaded-Saves path d cs s n h =
      rw
        (
          with_save_stream-opens (throws logic_error, d.sgf_data) (save_block sgfc path d.sgf_data)
              s n,
          save_block-Saves path d.sgf_data cs s h,
        )
        (_, refl)

  collect-Saves :
      (path : Bytes) (d : DataWrapper Info) (cs : List SgfContent) (s : Statics)
      → s.is_capturing_contents ≡ false
      → d.data_state ≡ fully_loaded
      → Saves sgfc.strerror none (sgfc.save_sgf path d.sgf_data) cs
      → (ms : List Message) × ((collect sgfc path d s).0.0
          ≡ returns (record { save_messages = ms; save_contents = cs }))
  unfolding collect load_if_partial
  collect-Saves path d cs s n f h = rw f (save_if_loaded-Saves path d cs s n h)

  -- If the command line is valid, no stream is open, the data are fully loaded, and SaveSGF, on the
  -- data with the options of the command line, opens and closes one file after the other without an
  -- error, where its reports make messages, and returns true, then a save in memory returns, and
  -- the out variable is the contents of the files in their order, whatever it was before.
  pub save_sgf_content-Saves :
      (c : Controller) (path content : Bytes) (d : DataWrapper Info) (w : World Disk)
      (cs : List SgfContent)
      → is_command_line_valid c ≡ true
      → IsIdle w.statics
      → d.data_state ≡ fully_loaded
      → Saves sgfc.strerror none (sgfc.save_sgf path (with_options sgfc c d).sgf_data) cs
      → (let r = save_sgf_content sgfc c in_memory_buffer path content (some d) w in
          ((ms : List Message) × (r.0.0 ≡ returns ms)) × (r.0.1.1 ≡ joined cs))
  unfolding save_sgf_content save_wrapped finish_save with_options
  save_sgf_content-Saves c path content d w cs v i f h =
      let k =
        collect-Saves path (with_options sgfc c d) cs (with_messages_open w.statics)
          i.capturing_contents f h in
      rw
        (
          v,
          with_message_stream-opens (throws logic_error, with_options sgfc c d)
              (collect sgfc path (with_options sgfc c d)) w.statics i.capturing_messages,
          k.1,
        )
        ((k.0, refl), append_contents-joined [] cs)
