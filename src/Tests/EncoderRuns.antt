-- ===== src/Tests/EncoderRuns.antt =====
-- A document of one game with the small tree of TreeRuns, encoded.
use libsgfc.Common.{
  zero, suc, ◌≡◌, ◌==◌, ◌||◌, refl, none, some, Bool, true, List, [], ◌∷◌, ◌++◌, arith,
  if◌then◌else◌,
}
use libsgfc.Text.Split.{Bytes}
use libsgfc.Tree.Store.{Ref}
use libsgfc.Tree.Node.{has_next_sibling, get_previous_sibling, previous_below, previous_loop}
use libsgfc.NodeIterator.Walk.{Kin, nobody, node}
use libsgfc.Encoder.{
  text, unknown_value, composed, PropertyValue, NamedValues, encode_property_value, has_sibling,
  encoded, encode,
}
use libsgfc.Encoder.{
  standalone, second_value_of_composed_value, add_text_escape_characters,
  add_mandatory_escape_characters, escape_all,
}
use libsgfc.Unescape.{
  remove_text_escape_characters, get_text_value, remove_text_line_breaks,
  remove_mandatory_escape_characters, unescape_all, remove_escaped_line_ends,
}
use libsgfc.Unescape.Back.{remove_text-add_text}
use libsgfc.Unescape.LineBreaks.{decoded, get_text_value-add_text}
use libsgfc.Encoder.Values.{
  read_property_value, value_texts, encode_property_value-read_property_value,
}
use libsgfc.Common.{Bool-cases, inl, inr}
use libsgfc.Encoder.Tokens.{outside, read_tokens}
use libsgfc.Encoder.ReadBack.{is_writable, document_tokens, encode-read_tokens}
use libsgfc.Encoder.Depth.{document_text, encode-document_text}
use libsgfc.Tests.TreeRuns.{links}

-- The text `a]:\` and another one.
abbrev label : PropertyValue
label = composed (text none (b'a' ∷ b']' ∷ b':' ∷ b'\\' ∷ [])) (unknown_value (b'x' ∷ b']' ∷ []))

encode_property_value-read_property_value_example :
    read_property_value true (encode_property_value label ++ (b';' ∷ []))
    ≡ some (record { texts = value_texts label; after = b';' ∷ [] })
encode_property_value-read_property_value_example =
    encode_property_value-read_property_value label (b';' ∷ []) refl

abbrev labelled : Ref → List NamedValues
labelled n =
    if n == 3
    then record { property_name = b'L' ∷ b'B' ∷ []; property_values = label ∷ [] } ∷ []
    else []

abbrev is_branch : Ref → Bool
is_branch n = (n == 2) || (n == 3)

answers : (n : Ref) → has_sibling 5 links n ≡ some (is_branch n)
unfolding has_sibling has_next_sibling get_previous_sibling previous_below previous_loop
answers zero = refl
answers (suc zero) = refl
answers (suc (suc zero)) = refl
answers (suc (suc (suc zero))) = refl
answers (suc (suc (suc (suc zero)))) = refl
answers (suc (suc (suc (suc (suc n))))) = ground arith

abbrev whole : Kin
whole = node 1 (node 2 (node 4 nobody nobody) (node 3 nobody nobody)) nobody

abbrev trees : Ref → Kin
trees n = whole

encode-document_text_example :
    encode 5 links labelled 9 (some 1 ∷ some 1 ∷ [])
    ≡ encoded (document_text is_branch labelled trees (some 1 ∷ some 1 ∷ []))
encode-document_text_example =
    (encode-document_text 5 links labelled is_branch trees 9 (some 1 ∷ some 1 ∷ []) answers (
      (refl, (refl, (refl, refl, refl), (refl, refl, refl)), refl),
      omega arith,
      ((refl, (refl, (refl, refl, refl), (refl, refl, refl)), refl), omega arith, tt),
    )).0
      refl

-- The text `a]:\` once more.
abbrev escaped_text : Bytes
escaped_text = b'a' ∷ b']' ∷ b':' ∷ b'\\' ∷ b':' ∷ []

remove_text-add_text_example :
    remove_text_escape_characters
      (add_text_escape_characters escaped_text second_value_of_composed_value)
      second_value_of_composed_value
    ≡ escaped_text
remove_text-add_text_example = remove_text-add_text escaped_text second_value_of_composed_value

get_text_value-add_text_example :
    get_text_value true (add_text_escape_characters (b'\n' ∷ escaped_text) standalone) standalone
    ≡ decoded true (b'\n' ∷ escaped_text) standalone
get_text_value-add_text_example =
    (get_text_value-add_text true (b'\n' ∷ escaped_text) standalone).0 refl

-- A line break behind a backslash is lost.
line_break_behind_backslash :
    remove_text_escape_characters
      (remove_text_line_breaks (add_text_escape_characters (b'\\' ∷ b'\n' ∷ b'b' ∷ []) standalone))
      standalone
    ≡ b'\\' ∷ b'b' ∷ []
unfolding add_text_escape_characters add_mandatory_escape_characters escape_all
    remove_text_escape_characters remove_text_line_breaks remove_mandatory_escape_characters
    unescape_all remove_escaped_line_ends
line_break_behind_backslash = refl

writable : (n : Ref) → is_writable (labelled n) ≡ true
writable n = elim (Bool-cases (n == 3)) [ inl e ↦ rw e refl | inr o ↦ rw o refl ]

encode-read_tokens_example :
    (written : Bytes) × (encode 5 links labelled 9 (some 1 ∷ some 1 ∷ []) ≡ encoded written)
    × (read_tokens outside written
        ≡ some (document_tokens is_branch labelled trees (some 1 ∷ some 1 ∷ [])))
encode-read_tokens_example =
    encode-read_tokens 5 links labelled is_branch trees 9 (some 1 ∷ some 1 ∷ []) answers
      (
        (refl, (refl, (refl, refl, refl), (refl, refl, refl)), refl),
        omega arith,
        ((refl, (refl, (refl, refl, refl), (refl, refl, refl)), refl), omega arith, tt),
      )
      refl writable
