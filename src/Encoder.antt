-- ===== src/Encoder.antt =====
-- The encoder that turns a document into SGF content (src/parsing/SgfcDocumentEncoder.cpp, with the
-- tokens of src/SgfcPrivateConstants.cpp). The stream is the bytes written so far.
pub mod Escape
pub mod Values
pub mod Depth
pub mod Tokens
pub mod ReadBack
use libsgfc.Common.{
  ℕ, zero, suc, ◌+◌, ◌-◌, Option, none, some, Bool, true, false, List, [], ◌∷◌, ◌++◌, ◌==◌,
  if◌then◌else◌,
}
use libsgfc.Text.Split.{Bytes}
use libsgfc.Tree.Store.{Ref, Store}
use libsgfc.Tree.Node.{has_next_sibling, get_previous_sibling}

-- A single property value, by its value type, as far as the encoder asks for it: the value of a
-- SimpleText or Text object if it has a typed value, and whether a point, move or stone value is one
-- for the game Go. The last argument is the raw value.
pub data SingleValue : Type 0 where
  simple_text : Option Bytes → Bytes → SingleValue
  text : Option Bytes → Bytes → SingleValue
  unknown_value : Bytes → SingleValue
  point : Bool → Bytes → SingleValue
  move : Bool → Bytes → SingleValue
  stone : Bool → Bytes → SingleValue
  other_value : Bytes → SingleValue

pub data PropertyValue : Type 0 where
  single : SingleValue → PropertyValue
  composed : SingleValue → SingleValue → PropertyValue

pub record NamedValues : Type 0 where
  pub property_name : Bytes
  pub property_values : List PropertyValue

pub data ValueContext : Type 0 where
  first_value_of_composed_value : ValueContext
  second_value_of_composed_value : ValueContext
  standalone : ValueContext

-- `std::regex_replace` of the expression for one character by a backslash and that character.
unfoldable pub escape_all : ℕ → Bytes → Bytes
escape_all c [] = []
escape_all c (x ∷ xs) = let rest = escape_all c xs in if x == c then b'\\' ∷ x ∷ rest else x ∷ rest

unfoldable pub add_mandatory_escape_characters : Bytes → ValueContext → Bytes
add_mandatory_escape_characters value first_value_of_composed_value =
    escape_all b':' (escape_all b']' value)
add_mandatory_escape_characters value second_value_of_composed_value = escape_all b']' value
add_mandatory_escape_characters value standalone = escape_all b']' value

unfoldable pub add_text_escape_characters : Bytes → ValueContext → Bytes
add_text_escape_characters value context =
    add_mandatory_escape_characters (escape_all b'\\' value) context

abbrev pub value_or : Bytes → Option Bytes → Bytes
value_or raw none = raw
value_or raw (some typed) = typed

abbrev pub board_value : Bool → Bytes → ValueContext → Bytes
board_value is_go raw context = if is_go then raw else add_mandatory_escape_characters raw context

unfoldable pub encode_single_property_value : SingleValue → ValueContext → Bytes
encode_single_property_value (simple_text typed raw) context =
    add_text_escape_characters (value_or raw typed) context
encode_single_property_value (text typed raw) context =
    add_text_escape_characters (value_or raw typed) context
encode_single_property_value (unknown_value raw) context =
    add_mandatory_escape_characters raw context
encode_single_property_value (point is_go raw) context = board_value is_go raw context
encode_single_property_value (move is_go raw) context = board_value is_go raw context
encode_single_property_value (stone is_go raw) context = board_value is_go raw context
encode_single_property_value (other_value raw) context = raw

-- What `EncodeSinglePropertyValue` or `EncodeComposedPropertyValue` writes between the brackets.
unfoldable pub encode_value_body : PropertyValue → Bytes
encode_value_body (single v) = encode_single_property_value v standalone
encode_value_body (composed v w) =
    encode_single_property_value v first_value_of_composed_value
    ++ (b':' ∷ encode_single_property_value w second_value_of_composed_value)

unfoldable pub encode_property_value : PropertyValue → Bytes
encode_property_value v = b'[' ∷ (encode_value_body v ++ b']' ∷ [])

unfoldable pub encode_values : List PropertyValue → Bytes
encode_values [] = []
encode_values (v ∷ vs) = encode_property_value v ++ encode_values vs

unfoldable pub encode_property : NamedValues → Bytes
encode_property p = p.property_name ++ bracketed p.property_values
  where
    bracketed : List PropertyValue → Bytes
    bracketed [] = b'[' ∷ b']' ∷ []
    bracketed (v ∷ vs) = encode_values (v ∷ vs)

unfoldable pub encode_properties : List NamedValues → Bytes
encode_properties [] = []
encode_properties (p ∷ ps) = encode_property p ++ encode_properties ps

unfoldable pub encode_indentation : ℕ → Bytes
encode_indentation zero = []
encode_indentation (suc level) = b' ' ∷ b' ' ∷ encode_indentation level

unfoldable pub encode_game_tree_begin_or_end : ℕ → ℕ → Bytes
encode_game_tree_begin_or_end token level = encode_indentation level ++ (token ∷ b'\n' ∷ [])

unfoldable pub encode_node : List NamedValues → ℕ → Bytes
encode_node ps level = encode_indentation level ++ (b';' ∷ (encode_properties ps ++ b'\n' ∷ []))

abbrev is_found : Option (Option Ref) → Option Bool
is_found none = none
is_found (some none) = some false
is_found (some (some n)) = some true

-- `HasNextSibling() || HasPreviousSibling()`; `none` if the fuel runs out.
unfoldable pub has_sibling : ℕ → Store → Ref → Option Bool
has_sibling fuel s n =
    if has_next_sibling s n then some true else is_found (get_previous_sibling fuel s n)

-- The inner loop's body at node `n`; `go` is the loop, from the current node, the stack, the level
-- and the bytes written. The level is never decremented more often than incremented.
unfoldable pub enter :
    (Option Ref → List Ref → ℕ → Bytes → Option Bytes)
    → Store
    → (Ref → List NamedValues)
    → Ref
    → List Ref
    → ℕ
    → Bytes
    → Option Bool
    → Option Bytes
enter go s properties n stack level out none = none
enter go s properties n stack level out (some true) =
    go (s.first_child n) (n ∷ stack) (level + 1)
      ((out ++ encode_game_tree_begin_or_end b'(' level) ++ encode_node (properties n) (level + 1))
enter go s properties n stack level out (some false) =
    go (s.first_child n) (n ∷ stack) level (out ++ encode_node (properties n) level)

-- The outer loop's body for the node popped from the stack.
unfoldable pub leave :
    (Option Ref → List Ref → ℕ → Bytes → Option Bytes)
    → Store
    → Ref
    → List Ref
    → ℕ
    → Bytes
    → Option Bool
    → Option Bytes
leave go s n stack level out none = none
leave go s n stack level out (some true) =
    go (s.next_sibling n) stack (level - 1) (out ++ encode_game_tree_begin_or_end b')' (level - 1))
leave go s n stack level out (some false) = go (s.next_sibling n) stack level out

unfoldable pub pop :
    (Option Ref → List Ref → ℕ → Bytes → Option Bytes)
    → ℕ
    → Store
    → List Ref
    → ℕ
    → Bytes
    → Option Bytes
pop go sibling_fuel s [] level out = some out
pop go sibling_fuel s (n ∷ stack) level out =
    leave go s n stack level out (has_sibling sibling_fuel s n)

-- The loops of `ParseDepthFirst`, with fuel for them and for each search of a previous sibling.
unfoldable pub depth_first_loop :
    ℕ → Store → (Ref → List NamedValues) → ℕ → Option Ref → List Ref → ℕ → Bytes → Option Bytes
depth_first_loop sibling_fuel s properties zero current stack level out = none
depth_first_loop sibling_fuel s properties (suc fuel) none stack level out =
    pop (depth_first_loop sibling_fuel s properties fuel) sibling_fuel s stack level out
depth_first_loop sibling_fuel s properties (suc fuel) (some n) stack level out =
    enter (depth_first_loop sibling_fuel s properties fuel) s properties n stack level out
      (has_sibling sibling_fuel s n)

unfoldable pub parse_depth_first :
    ℕ → Store → (Ref → List NamedValues) → ℕ → Ref → ℕ → Bytes → Option Bytes
parse_depth_first sibling_fuel s properties fuel root level out =
    depth_first_loop sibling_fuel s properties fuel (some root) [] level out

-- What `Encode` returns or throws, or that the fuel ran out.
pub data Encoding : Type 0 where
  encoded : Bytes → Encoding
  no_root_node : ℕ → Encoding
  out_of_fuel : Encoding

abbrev pub after_tree : (Bytes → Encoding) → Option Bytes → Encoding
after_tree go none = out_of_fuel
after_tree go (some out) = go (out ++ encode_game_tree_begin_or_end b')' 0)

-- The loop of `Encode` over the root nodes of the games, from the index of a game on.
unfoldable pub encode_games :
    ℕ → Store → (Ref → List NamedValues) → ℕ → ℕ → List (Option Ref) → Bytes → Encoding
encode_games sibling_fuel s properties fuel index [] out = encoded out
encode_games sibling_fuel s properties fuel index (none ∷ games) out = no_root_node index
encode_games sibling_fuel s properties fuel index (some root ∷ games) out =
    after_tree (encode_games sibling_fuel s properties fuel (index + 1) games) (
      parse_depth_first sibling_fuel s properties fuel root 1
        (out ++ encode_game_tree_begin_or_end b'(' 0))

unfoldable pub encode : ℕ → Store → (Ref → List NamedValues) → ℕ → List (Option Ref) → Encoding
encode sibling_fuel s properties fuel games = encode_games sibling_fuel s properties fuel 0 games []
