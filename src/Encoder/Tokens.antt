-- ===== src/Encoder/Tokens.antt =====
-- A reader of SGF content, which takes it apart into tokens, and what it finds in the encoder's
-- pieces.
use libsgfc.Common.{
  ℕ, zero, suc, ◌≡◌, refl, sym, ap, inl, inr, Option, none, some, Bool, true, false, not, ◌&&◌,
  ◌||◌, List, [], ◌∷◌, ◌++◌, ◌==◌, if◌then◌else◌, arith, Bool-cases, ◌∙◌, append_assoc, append-nil,
}
use libsgfc.Text.Split.{Bytes}
use libsgfc.Encoder.{
  SingleValue, PropertyValue, single, composed, ValueContext, first_value_of_composed_value,
  second_value_of_composed_value, standalone, encode_single_property_value, encode_value_body,
  encode_property_value, encode_values, encode_indentation, encode_game_tree_begin_or_end,
}
use libsgfc.Encoder.Escape.{marked, in_text, is_first}
use libsgfc.Encoder.Values.{is_safe, is_safe_value, value_text, encode_single-marked}

-- A property value is the text between the brackets, with its escape characters.
pub data Token : Type 0 where
  opens : Token
  closes : Token
  begins_node : Token
  letter : ℕ → Token
  value : Bytes → Token

pub data Mode : Type 0 where
  outside : Mode
  inside : Bytes → Mode
  escaped : Bytes → Mode

abbrev prepend : List Token → Option (List Token) → Option (List Token)
prepend ts none = none
prepend ts (some us) = some (ts ++ us)

unfoldable pub read_tokens : Mode → Bytes → Option (List Token)
read_tokens outside [] = some []
read_tokens (inside text) [] = none
read_tokens (escaped text) [] = none
read_tokens outside (c ∷ cs) =
    let after = read_tokens outside cs in
    let body = read_tokens (inside []) cs in
    if c == b'('
    then prepend (opens ∷ []) after
    else if c == b')'
    then prepend (closes ∷ []) after
    else if c == b';'
    then prepend (begins_node ∷ []) after
    else if c == b'['
    then body
    else if (c == b' ') || (c == b'\n')
    then after
    else prepend (letter c ∷ []) after
read_tokens (inside text) (c ∷ cs) =
    let after = read_tokens outside cs in
    let more = read_tokens (inside (text ++ c ∷ [])) cs in
    let next = read_tokens (escaped (text ++ c ∷ [])) cs in
    if c == b'\\' then next else if c == b']' then prepend (value text ∷ []) after else more
read_tokens (escaped text) (c ∷ cs) = read_tokens (inside (text ++ c ∷ [])) cs

-- The text is read as these tokens, whatever follows it.
pub record Reads (text : Bytes) (ts : List Token) : Type 0 where
  pub reads :
      (rest : Bytes) → read_tokens outside (text ++ rest) ≡ prepend ts (read_tokens outside rest)

prepend-append :
    (ts us : List Token) (o : Option (List Token))
    → prepend ts (prepend us o) ≡ prepend (ts ++ us) o
prepend-append ts us none = refl
prepend-append ts us (some o) = ap some (sym (append_assoc ts us o))

pub Reads-append :
    {s t : Bytes} {ts us : List Token} → Reads s ts → Reads t us → Reads (s ++ t) (ts ++ us)
Reads-append {s} {t} {ts} {us} h k = record {
  reads = λ rest.
      ap (read_tokens outside) (append_assoc s t rest)
      ∙ h.reads (t ++ rest)
      ∙ ap (prepend ts) (k.reads rest)
      ∙ prepend-append ts us (read_tokens outside rest);
}

prepend-nil : (o : Option (List Token)) → prepend [] o ≡ o
prepend-nil none = refl
prepend-nil (some us) = refl

pub Reads-nil : Reads [] []
Reads-nil = record { reads = λ rest. sym (prepend-nil (read_tokens outside rest)) }

pub Reads-indentation : (level : ℕ) → Reads (encode_indentation level) []
unfolding encode_indentation read_tokens
Reads-indentation zero = Reads-nil
Reads-indentation (suc level) = record { reads = λ rest. (Reads-indentation level).reads rest }

pub Reads-newline : Reads (b'\n' ∷ []) []
unfolding read_tokens
Reads-newline = record { reads = λ rest. sym (prepend-nil (read_tokens outside rest)) }

Reads-opening : Reads (b'(' ∷ b'\n' ∷ []) (opens ∷ [])
unfolding read_tokens
Reads-opening = record { reads = λ rest. refl }

pub Reads-opens : (level : ℕ) → Reads (encode_game_tree_begin_or_end b'(' level) (opens ∷ [])
unfolding encode_game_tree_begin_or_end
Reads-opens level = Reads-append (Reads-indentation level) Reads-opening

Reads-closing : Reads (b')' ∷ b'\n' ∷ []) (closes ∷ [])
unfolding read_tokens
Reads-closing = record { reads = λ rest. refl }

pub Reads-closes : (level : ℕ) → Reads (encode_game_tree_begin_or_end b')' level) (closes ∷ [])
unfolding encode_game_tree_begin_or_end
Reads-closes level = Reads-append (Reads-indentation level) Reads-closing

pub Reads-begins_node : Reads (b';' ∷ []) (begins_node ∷ [])
unfolding read_tokens
Reads-begins_node = record { reads = λ rest. refl }

pub Reads-no_value : Reads (b'[' ∷ b']' ∷ []) (value [] ∷ [])
unfolding read_tokens
Reads-no_value = record { reads = λ rest. refl }

two_more :
    (text m : Bytes) (c : ℕ) → ((text ++ b'\\' ∷ []) ++ c ∷ []) ++ m ≡ text ++ (b'\\' ∷ c ∷ m)
two_more text m c = simp (append_assoc)

inside-plain :
    (in_first : Bool) (c : ℕ) (text rest : Bytes)
    → in_text in_first c ≡ false
    → read_tokens (inside text) (c ∷ rest) ≡ read_tokens (inside (text ++ c ∷ [])) rest
unfolding read_tokens
inside-plain true c text rest n = ground arith
inside-plain false c text rest n = ground arith

inside-marked :
    (in_first : Bool) (v text rest : Bytes)
    → read_tokens (inside text) (marked (in_text in_first) v ++ rest)
      ≡ read_tokens (inside (text ++ marked (in_text in_first) v)) rest
unfolding read_tokens
inside-marked in_first [] text rest = ap (λ t. read_tokens (inside t) rest) (sym (append-nil text))
inside-marked in_first (c ∷ cs) text rest = elim (Bool-cases (in_text in_first c)) [
  | inl y ↦ rw y (
      inside-marked in_first cs ((text ++ b'\\' ∷ []) ++ c ∷ []) rest
      ∙ ap (λ t. read_tokens (inside t) rest) (two_more text (marked (in_text in_first) cs) c))
  | inr n ↦ rw n (
      inside-plain in_first c text (marked (in_text in_first) cs ++ rest) n
      ∙ inside-marked in_first cs (text ++ c ∷ []) rest
      ∙ ap (λ t. read_tokens (inside t) rest)
          (append_assoc text (c ∷ []) (marked (in_text in_first) cs)))
]

inside-single :
    (v : SingleValue) (context : ValueContext) (text rest : Bytes)
    → is_safe v context ≡ true
    → read_tokens (inside text) (encode_single_property_value v context ++ rest)
      ≡ read_tokens (inside (text ++ encode_single_property_value v context)) rest
inside-single v context text rest h =
    rw (encode_single-marked v context h)
      (inside-marked (is_first context) (value_text v) text rest)

inside-body :
    (v : PropertyValue) (rest : Bytes)
    → is_safe_value v ≡ true
    → read_tokens (inside []) (encode_value_body v ++ rest)
      ≡ read_tokens (inside (encode_value_body v)) rest
unfolding encode_value_body
inside-body (single v) rest h = inside-single v standalone [] rest h
inside-body (composed v w) rest h =
    let first = encode_single_property_value v first_value_of_composed_value in
    let second = encode_single_property_value w second_value_of_composed_value in
    ap (read_tokens (inside [])) (append_assoc first (b':' ∷ second) rest)
    ∙ inside-single v first_value_of_composed_value [] (b':' ∷ (second ++ rest)) (ground arith)
    ∙ inside-plain false b':' first (second ++ rest) refl
    ∙ inside-single w second_value_of_composed_value (first ++ b':' ∷ []) rest (ground arith)
    ∙ ap (λ t. read_tokens (inside t) rest) (append_assoc first (b':' ∷ []) second)

Reads-property_value :
    (v : PropertyValue)
    → is_safe_value v ≡ true
    → Reads (encode_property_value v) (value (encode_value_body v) ∷ [])
unfolding encode_property_value
Reads-property_value v h = record {
  reads = λ rest.
      opened (encode_value_body v ++ b']' ∷ []) rest
      ∙ ap (read_tokens (inside [])) (append_assoc (encode_value_body v) (b']' ∷ []) rest)
      ∙ inside-body v (b']' ∷ rest) h
      ∙ closed (encode_value_body v) rest;
}
  where
    opened :
        (t r : Bytes) → read_tokens outside ((b'[' ∷ t) ++ r) ≡ read_tokens (inside []) (t ++ r)
    opened t r = unfold read_tokens in refl

    closed :
        (t r : Bytes)
        → read_tokens (inside t) (b']' ∷ r) ≡ prepend (value t ∷ []) (read_tokens outside r)
    closed t r = unfold read_tokens in refl

abbrev pub value_tokens : List PropertyValue → List Token
value_tokens [] = []
value_tokens (v ∷ vs) = value (encode_value_body v) ∷ value_tokens vs

abbrev pub are_safe : List PropertyValue → Bool
are_safe [] = true
are_safe (v ∷ vs) = is_safe_value v && are_safe vs

pub Reads-values :
    (vs : List PropertyValue) → are_safe vs ≡ true → Reads (encode_values vs) (value_tokens vs)
unfolding encode_values
Reads-values [] h = Reads-nil
Reads-values (v ∷ vs) h =
    Reads-append (Reads-property_value v (ground arith)) (Reads-values vs (ground arith))

-- No character of the name has a meaning in SGF outside a value.
abbrev pub is_plain_name : Bytes → Bool
is_plain_name [] = true
is_plain_name (c ∷ cs) =
    not (
      (c == b'(')
      || ((c == b')') || ((c == b';') || ((c == b'[') || ((c == b' ') || (c == b'\n'))))))
    && is_plain_name cs

abbrev pub letters : Bytes → List Token
letters [] = []
letters (c ∷ cs) = letter c ∷ letters cs

Reads-letter : (c : ℕ) → is_plain_name (c ∷ []) ≡ true → Reads (c ∷ []) (letter c ∷ [])
unfolding read_tokens
Reads-letter c h = record { reads = λ rest. ground arith }

pub Reads-letters : (name : Bytes) → is_plain_name name ≡ true → Reads name (letters name)
Reads-letters [] h = Reads-nil
Reads-letters (c ∷ cs) h =
    Reads-append (Reads-letter c (ground arith)) (Reads-letters cs (ground arith))
