-- ===== src/Encoder/Values.antt =====
-- A property value is read back from what the encoder writes between the brackets.
use libsgfc.Common.{
  ℕ, ◌≡◌, refl, ap, Option, none, some, Bool, true, false, not, ◌&&◌, List, [], ◌∷◌, ◌++◌, ◌==◌,
  if◌then◌else◌, arith, ◌∙◌, append_assoc, drop,
}
use libsgfc.Text.Split.{Bytes}
use libsgfc.Encoder.{
  SingleValue, simple_text, text, unknown_value, point, move, stone, other_value, PropertyValue,
  single, composed, ValueContext, first_value_of_composed_value, second_value_of_composed_value,
  standalone, add_mandatory_escape_characters, value_or, board_value, encode_single_property_value,
  encode_value_body, encode_property_value,
}
use libsgfc.Encoder.Escape.{
  Read, ends, read_text, marked, in_text, read_text-marked_text, has_backslash, marked-no_backslash,
  is_first, mandatory-marked, text-marked,
}

-- The text of a single value.
abbrev pub value_text : SingleValue → Bytes
value_text (simple_text typed raw) = value_or raw typed
value_text (text typed raw) = value_or raw typed
value_text (unknown_value raw) = raw
value_text (point is_go raw) = raw
value_text (move is_go raw) = raw
value_text (stone is_go raw) = raw
value_text (other_value raw) = raw

-- No character of the text has a meaning in SGF.
abbrev pub is_clean : Bool → Bytes → Bool
is_clean in_first [] = true
is_clean in_first (c ∷ cs) = not (in_text in_first c) && is_clean in_first cs

abbrev pub is_board_safe : Bool → Bytes → ValueContext → Bool
is_board_safe is_go raw context =
    if is_go then is_clean (is_first context) raw else not (has_backslash raw)

-- What the encoder relies on: no backslash in a raw value that it only escapes for brackets and
-- colons, no special character in one that it writes as it is, nothing for a text.
abbrev pub is_safe : SingleValue → ValueContext → Bool
is_safe (simple_text typed raw) context = true
is_safe (text typed raw) context = true
is_safe (unknown_value raw) context = not (has_backslash raw)
is_safe (point is_go raw) context = is_board_safe is_go raw context
is_safe (move is_go raw) context = is_board_safe is_go raw context
is_safe (stone is_go raw) context = is_board_safe is_go raw context
is_safe (other_value raw) context = is_clean (is_first context) raw

clean-marked :
    (in_first : Bool) (v : Bytes) → is_clean in_first v ≡ true → v ≡ marked (in_text in_first) v
clean-marked in_first [] h = refl
clean-marked in_first (c ∷ cs) h = ground (arith, clean-marked in_first cs)

mandatory-safe :
    (v : Bytes) (context : ValueContext)
    → not (has_backslash v) ≡ true
    → add_mandatory_escape_characters v context ≡ marked (in_text (is_first context)) v
mandatory-safe v context h =
    mandatory-marked v context ∙ marked-no_backslash (is_first context) v (ground arith)

board-safe :
    (is_go : Bool) (raw : Bytes) (context : ValueContext)
    → is_board_safe is_go raw context ≡ true
    → board_value is_go raw context ≡ marked (in_text (is_first context)) raw
board-safe true raw context h = clean-marked (is_first context) raw h
board-safe false raw context h = mandatory-safe raw context h

pub encode_single-marked :
    (v : SingleValue) (context : ValueContext)
    → is_safe v context ≡ true
    → encode_single_property_value v context ≡ marked (in_text (is_first context)) (value_text v)
unfolding encode_single_property_value
encode_single-marked (simple_text typed raw) context h = text-marked (value_or raw typed) context
encode_single-marked (text typed raw) context h = text-marked (value_or raw typed) context
encode_single-marked (unknown_value raw) context h = mandatory-safe raw context h
encode_single-marked (point is_go raw) context h = board-safe is_go raw context h
encode_single-marked (move is_go raw) context h = board-safe is_go raw context h
encode_single-marked (stone is_go raw) context h = board-safe is_go raw context h
encode_single-marked (other_value raw) context h = clean-marked (is_first context) raw h

pub encode_single-read_text :
    (v : SingleValue) (context : ValueContext) (t : ℕ) (rest : Bytes)
    → is_safe v context ≡ true
    → ends (is_first context) t ≡ true
    → read_text (is_first context) false (encode_single_property_value v context ++ (t ∷ rest))
      ≡ some (record { value = value_text v; rest = t ∷ rest })
encode_single-read_text v context t rest h e =
    rw (encode_single-marked v context h)
      (read_text-marked_text (is_first context) (value_text v) t rest e)

-- A reader of one property value, single or composed: its texts and what follows it.
pub record ReadValue : Type 0 where
  pub texts : List Bytes
  pub after : Bytes

abbrev close : List Bytes → Option Read → Option ReadValue
close texts none = none
close texts (some r) = some (record { texts = texts ++ r.value ∷ []; after = drop 1 r.rest })

abbrev then_second : Option Read → Option ReadValue
then_second none = none
then_second (some r) = close (r.value ∷ []) (read_text false false (drop 1 r.rest))

unfoldable pub read_property_value : Bool → Bytes → Option ReadValue
read_property_value is_composed [] = none
read_property_value is_composed (c ∷ cs) =
    let one = close [] (read_text false false cs) in
    let two = then_second (read_text true false cs) in
    if c == b'[' then (if is_composed then two else one) else none

abbrev pub is_composed_value : PropertyValue → Bool
is_composed_value (single v) = false
is_composed_value (composed v w) = true

abbrev pub value_texts : PropertyValue → List Bytes
value_texts (single v) = value_text v ∷ []
value_texts (composed v w) = value_text v ∷ value_text w ∷ []

abbrev pub is_safe_value : PropertyValue → Bool
is_safe_value (single v) = is_safe v standalone
is_safe_value (composed v w) =
    is_safe v first_value_of_composed_value && is_safe w second_value_of_composed_value

brackets-append :
    (a b : Bytes) (c d : ℕ) (r : Bytes)
    → ((a ++ (c ∷ b)) ++ (d ∷ [])) ++ r ≡ a ++ (c ∷ (b ++ (d ∷ r)))
brackets-append [] b c d r = ap (λ x. c ∷ x) (append_assoc b (d ∷ []) r)
brackets-append (x ∷ xs) b c d r = ap (λ y. x ∷ y) (brackets-append xs b c d r)

-- A reader that ends a value where the SGF standard does, takes the character behind a backslash for
-- an ordinary one, drops a line feed there, and keeps all other white space as it is, reads a property
-- value back from what the encoder writes for it, whatever follows it. A SimpleText or Text value may
-- hold any characters; the raw value of an unknown type, or of a point, move or stone that is not for
-- Go, must not hold a backslash; any other raw value, which is written as it is, must hold none of
-- the special characters.
pub encode_property_value-read_property_value :
    (v : PropertyValue) (rest : Bytes)
    → is_safe_value v ≡ true
    → read_property_value (is_composed_value v) (encode_property_value v ++ rest)
      ≡ some (record { texts = value_texts v; after = rest })
unfolding read_property_value encode_property_value encode_value_body
encode_property_value-read_property_value (single v) rest h =
    rw
      (
        append_assoc (encode_single_property_value v standalone) (b']' ∷ []) rest,
        encode_single-read_text v standalone b']' rest h refl,
      )
      refl
encode_property_value-read_property_value (composed v w) rest h =
    let first = encode_single_property_value v first_value_of_composed_value in
    let second = encode_single_property_value w second_value_of_composed_value in
    rw
      (
        brackets-append first second b':' b']' rest,
        encode_single-read_text v first_value_of_composed_value b':' (second ++ (b']' ∷ rest))
            (ground arith) refl,
        encode_single-read_text w second_value_of_composed_value b']' rest (ground arith) refl,
      )
      refl
