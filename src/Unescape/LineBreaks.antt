-- ===== src/Unescape/LineBreaks.antt =====
-- The decoder's treatment of line breaks keeps what the encoder writes for a text, but for a line
-- break right behind a backslash.
use libsgfc.Common.{
  ◌≡◌, refl, ap, Bool, true, false, ◌&&◌, ◌||◌, [], ◌∷◌, ◌==◌, if◌then◌else◌, arith, ◌∙◌,
}
use libsgfc.Text.Split.{Bytes}
use libsgfc.Encoder.{ValueContext, add_text_escape_characters}
use libsgfc.Encoder.Escape.{marked, in_text, is_first, text-marked}
use libsgfc.Unescape.{
  is_line_end, remove_escaped_line_ends, replace_line_ends, remove_text_line_breaks,
  remove_simple_text_line_breaks, DecodedText, get_simple_text_value, get_text_value,
}
use libsgfc.Unescape.Back.{remove_text-add_text}

-- A backslash right in front of a line break.
abbrev pub has_soft_break : Bytes → Bool
has_soft_break [] = false
has_soft_break (x ∷ []) = false
has_soft_break (x ∷ y ∷ rest) = ((x == b'\\') && is_line_end y) || has_soft_break (y ∷ rest)

abbrev pub has_line_end : Bytes → Bool
has_line_end [] = false
has_line_end (x ∷ rest) = is_line_end x || has_line_end rest

remove_escaped-same : (v : Bytes) → has_soft_break v ≡ false → remove_escaped_line_ends v ≡ v
unfolding remove_escaped_line_ends
remove_escaped-same [] h = refl
remove_escaped-same (x ∷ []) h = refl
remove_escaped-same (x ∷ y ∷ []) h = ground (arith, remove_escaped-same (y ∷ []))
remove_escaped-same (x ∷ y ∷ z ∷ rest) h = ground (arith, remove_escaped-same (y ∷ z ∷ rest))

replace-same : (v : Bytes) → has_line_end v ≡ false → replace_line_ends v ≡ v
unfolding replace_line_ends
replace-same [] h = refl
replace-same (x ∷ []) h = ground arith
replace-same (x ∷ y ∷ rest) h = ground (arith, replace-same (y ∷ rest))

soft_break-marked :
    (in_first : Bool) (v : Bytes)
    → has_soft_break v ≡ false
    → has_soft_break (marked (in_text in_first) v) ≡ false
soft_break-marked in_first [] h = refl
soft_break-marked true (c ∷ []) h = ground arith
soft_break-marked false (c ∷ []) h = ground arith
soft_break-marked true (c ∷ y ∷ ys) h = ground (arith, soft_break-marked true (y ∷ ys))
soft_break-marked false (c ∷ y ∷ ys) h = ground (arith, soft_break-marked false (y ∷ ys))

line_end-marked :
    (in_first : Bool) (v : Bytes)
    → has_line_end v ≡ false
    → has_line_end (marked (in_text in_first) v) ≡ false
line_end-marked in_first [] h = refl
line_end-marked in_first (c ∷ cs) h = ground (arith, line_end-marked in_first cs)

soft_break-line_end : (v : Bytes) → has_line_end v ≡ false → has_soft_break v ≡ false
soft_break-line_end [] h = refl
soft_break-line_end (x ∷ []) h = refl
soft_break-line_end (x ∷ y ∷ rest) h = ground (arith, soft_break-line_end (y ∷ rest))

text-same :
    (v : Bytes) (context : ValueContext)
    → has_soft_break v ≡ false
    → remove_text_line_breaks (add_text_escape_characters v context)
      ≡ add_text_escape_characters v context
unfolding remove_text_line_breaks
text-same v context h = rw (text-marked v context) (
    remove_escaped-same (marked (in_text (is_first context)) v)
      (soft_break-marked (is_first context) v h))

simple-same :
    (v : Bytes) (context : ValueContext)
    → has_line_end v ≡ false
    → remove_simple_text_line_breaks (add_text_escape_characters v context)
      ≡ add_text_escape_characters v context
unfolding remove_simple_text_line_breaks
simple-same v context h =
    let f = in_text (is_first context) in
    rw (text-marked v context) (
      ap replace_line_ends (
        remove_escaped-same (marked f v)
          (soft_break-marked (is_first context) v (soft_break-line_end v h)))
      ∙ replace-same (marked f v) (line_end-marked (is_first context) v h))

-- What the decoder makes of the encoder's text for a value: with escape processing the value.
abbrev pub decoded : Bool → Bytes → ValueContext → DecodedText
decoded enabled v context = record {
  raw_value = add_text_escape_characters v context;
  parsed_value = if enabled then v else add_text_escape_characters v context;
}

text-decoded :
    (enabled : Bool) (v : Bytes) (context : ValueContext)
    → has_soft_break v ≡ false
    → get_text_value enabled (add_text_escape_characters v context) context
      ≡ decoded enabled v context
unfolding get_text_value
text-decoded true v context h = rw (text-same v context h, remove_text-add_text v context) refl
text-decoded false v context h = rw (text-same v context h) refl

simple-decoded :
    (enabled : Bool) (v : Bytes) (context : ValueContext)
    → has_line_end v ≡ false
    → get_simple_text_value enabled (add_text_escape_characters v context) context
      ≡ decoded enabled v context
unfolding get_simple_text_value
simple-decoded true v context h = rw (simple-same v context h, remove_text-add_text v context) refl
simple-decoded false v context h = rw (simple-same v context h) refl

-- From what the encoder writes for a Text value that holds no line break right behind a backslash,
-- and for a SimpleText value that holds no line break, the decoder makes a value whose raw text is
-- what was written, and whose parsed text is the value if escape processing is enabled, and what was
-- written, with its escape characters, if it is disabled.
pub get_text_value-add_text :
    (enabled : Bool) (v : Bytes) (context : ValueContext)
    → (has_soft_break v ≡ false
        → get_text_value enabled (add_text_escape_characters v context) context
          ≡ decoded enabled v context)
      × (has_line_end v ≡ false
          → get_simple_text_value enabled (add_text_escape_characters v context) context
            ≡ decoded enabled v context)
get_text_value-add_text enabled v context =
    (text-decoded enabled v context, simple-decoded enabled v context)
