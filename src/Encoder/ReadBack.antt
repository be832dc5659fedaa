-- ===== src/Encoder/ReadBack.antt =====
-- The text of a whole document, read as tokens.
use libsgfc.Common.{
  ℕ, ◌+◌, ◌≡◌, sym, ap, inl, inr, Option, none, some, Bool, true, ◌&&◌, List, [], ◌∷◌, ◌++◌,
  if◌then◌else◌, arith, Bool-cases, ◌∙◌, append-nil, subst,
}
use libsgfc.Text.Split.{Bytes}
use libsgfc.Tree.Store.{Ref, Store}
use libsgfc.NodeIterator.Walk.{Kin, nobody, node}
use libsgfc.Encoder.{
  PropertyValue, NamedValues, encode_property, encode_properties, encode_node, has_sibling, encoded,
  encode,
}
use libsgfc.Encoder.Tokens.{
  Token, opens, closes, begins_node, value, outside, read_tokens, Reads, Reads-append, Reads-nil,
  Reads-opens, Reads-closes, Reads-indentation, Reads-newline, Reads-begins_node, Reads-no_value,
  Reads-values, Reads-letters, value_tokens, are_safe, is_plain_name, letters,
}
use libsgfc.Encoder.Depth.{tree_text, document_text, IsGames, rootless, encode-document_text}

-- The letters of the name, and the values; a property without values is written with an empty one.
abbrev pub property_tokens : Bytes → List PropertyValue → List Token
property_tokens name [] = letters name ++ value [] ∷ []
property_tokens name (v ∷ vs) = letters name ++ value_tokens (v ∷ vs)

abbrev pub node_tokens : List NamedValues → List Token
node_tokens [] = []
node_tokens (p ∷ ps) = property_tokens p.property_name p.property_values ++ node_tokens ps

abbrev pub is_writable : List NamedValues → Bool
is_writable [] = true
is_writable (p ∷ ps) =
    (is_plain_name p.property_name && are_safe p.property_values) && is_writable ps

Reads-property :
    (name : Bytes) (vs : List PropertyValue)
    → is_plain_name name ≡ true
    → are_safe vs ≡ true
    → Reads
        (encode_property (record { property_name = name; property_values = vs }))
        (property_tokens name vs)
unfolding encode_property
Reads-property name [] h k = Reads-append (Reads-letters name h) Reads-no_value
Reads-property name (v ∷ vs) h k = Reads-append (Reads-letters name h) (Reads-values (v ∷ vs) k)

Reads-properties :
    (ps : List NamedValues) → is_writable ps ≡ true → Reads (encode_properties ps) (node_tokens ps)
unfolding encode_properties
Reads-properties [] h = Reads-nil
Reads-properties (p ∷ ps) h =
    Reads-append (Reads-property p.property_name p.property_values (ground arith) (ground arith))
      (Reads-properties ps (ground arith))

Reads-node :
    (ps : List NamedValues) (level : ℕ)
    → is_writable ps ≡ true
    → Reads (encode_node ps level) (begins_node ∷ node_tokens ps)
unfolding encode_node
Reads-node ps level h = Reads-append (Reads-indentation level) (
    Reads-append Reads-begins_node (
      subst (Reads (encode_properties ps ++ b'\n' ∷ [])) (append-nil (node_tokens ps))
        (Reads-append (Reads-properties ps h) Reads-newline)))

-- What a reader of SGF content has to find for a tree: each node in front of what is below it and
-- of its siblings, and a node with siblings in parentheses together with what is below it.
abbrev pub tree_tokens : (Ref → Bool) → (Ref → List NamedValues) → Kin → List Token
tree_tokens branches properties nobody = []
tree_tokens branches properties (node n below beside) =
    if branches n
    then ((opens ∷ []) ++ (begins_node ∷ node_tokens (properties n)))
      ++ (tree_tokens branches properties below
          ++ ((closes ∷ []) ++ tree_tokens branches properties beside))
    else (begins_node ∷ node_tokens (properties n))
      ++ (tree_tokens branches properties below ++ tree_tokens branches properties beside)

Reads-tree :
    (branches : Ref → Bool) (properties : Ref → List NamedValues) (level : ℕ) (t : Kin)
    → ((n : Ref) → is_writable (properties n) ≡ true)
    → Reads (tree_text branches properties level t) (tree_tokens branches properties t)
Reads-tree branches properties level nobody h = Reads-nil
Reads-tree branches properties level (node n below beside) h = elim (Bool-cases (branches n)) [
  | inl y ↦ rw y (
      Reads-append (Reads-append (Reads-opens level) (Reads-node (properties n) (level + 1) (h n)))
        (Reads-append (Reads-tree branches properties (level + 1) below h)
          (Reads-append (Reads-closes level) (Reads-tree branches properties level beside h))))
  | inr o ↦ rw o (
      Reads-append (Reads-node (properties n) level (h n)) (
        Reads-append (Reads-tree branches properties level below h)
          (Reads-tree branches properties level beside h)))
]

abbrev pub document_tokens :
    (Ref → Bool) → (Ref → List NamedValues) → (Ref → Kin) → List (Option Ref) → List Token
document_tokens branches properties trees [] = []
document_tokens branches properties trees (none ∷ games) = []
document_tokens branches properties trees (some root ∷ games) =
    (opens ∷ [])
    ++ (tree_tokens branches properties (trees root)
        ++ ((closes ∷ []) ++ document_tokens branches properties trees games))

Reads-document :
    (branches : Ref → Bool) (properties : Ref → List NamedValues) (trees : Ref → Kin)
    (games : List (Option Ref))
    → ((n : Ref) → is_writable (properties n) ≡ true)
    → Reads
        (document_text branches properties trees games)
        (document_tokens branches properties trees games)
Reads-document branches properties trees [] h = Reads-nil
Reads-document branches properties trees (none ∷ games) h = Reads-nil
Reads-document branches properties trees (some root ∷ games) h = Reads-append (Reads-opens 0) (
    Reads-append (Reads-tree branches properties 1 (trees root) h)
      (Reads-append (Reads-closes 0) (Reads-document branches properties trees games h)))

Reads-all : {t : Bytes} {ts : List Token} → Reads t ts → read_tokens outside t ≡ some ts
unfolding read_tokens
Reads-all {t} {ts} r =
    ap (read_tokens outside) (sym (append-nil t)) ∙ r.reads [] ∙ ap some (append-nil ts)

-- Let HasNextSibling or HasPreviousSibling answer for every node, let every game have a root node
-- from which the links describe a finite tree, with fuel for its steps, and let no property name hold
-- a parenthesis, semicolon, opening bracket, space or line feed. Let no raw value of an unknown type,
-- or of a point, move or stone that is not for Go, hold a backslash, and no other raw value but that
-- of a text a backslash, a closing bracket or, in front of the separator of a composed value, a
-- colon. Then Encode returns a text in which a reader of SGF content finds the tokens of the
-- document: for each game its nodes in the order of the tree, in parentheses where a node has
-- siblings, each with the names and the values of its properties.
pub encode-read_tokens :
    (sibling_fuel : ℕ) (s : Store) (properties : Ref → List NamedValues) (branches : Ref → Bool)
    (trees : Ref → Kin) (fuel : ℕ) (games : List (Option Ref))
    → ((n : Ref) → has_sibling sibling_fuel s n ≡ some (branches n))
    → IsGames s trees fuel games
    → rootless 0 games ≡ none
    → ((n : Ref) → is_writable (properties n) ≡ true)
    → (text : Bytes) × (encode sibling_fuel s properties fuel games ≡ encoded text)
      × (read_tokens outside text ≡ some (document_tokens branches properties trees games))
encode-read_tokens sibling_fuel s properties branches trees fuel games told g all h =
    let text = document_text branches properties trees games in
    let written = encode-document_text sibling_fuel s properties branches trees fuel games told g in
    let read = Reads-document branches properties trees games h in
    (text, written.0 all, Reads-all read)
