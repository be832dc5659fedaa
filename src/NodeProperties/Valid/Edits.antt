-- ===== src/NodeProperties/Valid/Edits.antt =====
-- The methods that change the properties of a node keep them valid.
use libsgfc.Common.{
  ◌≡◌, ◌↔◌, refl, sym, inl, inr, Option, none, some, true, List, [], ◌∷◌, ◌++◌, arith, Bool-cases,
  ◌∙◌,
}
use libsgfc.NodeProperties.{
  Held, Properties, finds_if, erase_if, has_name, has_type, is_object, is_known, PropertyRefusal,
  PropertyEdit, changed, after, validate_properties, accept, set_properties, set_property,
  append_property, finds_null, erase_null, remove_property, remove_all_properties,
}
use libsgfc.NodeProperties.Valid.{is_valid, IsValid, accepted, validate_properties-is_valid}
use libsgfc.NodeProperties.Valid.Erase.{
  finds_if-erase_if, erase_if-IsValid, erase_if-has_name, erase_if-has_type, append-IsValid,
}

set_property-IsValid :
    (p : Held) (ps : Properties) → IsValid ps → IsValid (after ps (set_property (some p) ps))
unfolding set_property
set_property-IsValid p ps v =
    let named = erase_if (has_name p.name_of) ps in
    let w = erase_if-IsValid (has_name p.name_of) ps v in
    let n = erase_if-has_name p.name_of ps v in
    elim (Bool-cases (is_known p.type_of)) [
      | inr k ↦ rw k (append-IsValid named p w (ground (arith, n, k)))
      | inl k ↦ rw k (
          append-IsValid (erase_if (has_type p.type_of) named) p
            (erase_if-IsValid (has_type p.type_of) named w)
            (ground (
              arith,
              finds_if-erase_if (has_name p.name_of) (has_type p.type_of) named n,
              erase_if-has_type p.type_of named k w,
            )))
    ]

accept-changed :
    (new : Properties) (o : Option PropertyRefusal) → accepted o ≡ true → accept new o ≡ changed new
accept-changed new none h = refl
accept-changed new (some e) h = absurd (ground arith)

accept_after :
    (new ps : Properties) (o : Option PropertyRefusal)
    → accepted o ≡ is_valid new
    → IsValid ps
    → IsValid (after ps (accept new o))
accept_after new ps none h v = sym h
accept_after new ps (some e) h v = v

accept-IsValid :
    (new ps : Properties) → IsValid ps → IsValid (after ps (accept new (validate_properties new)))
accept-IsValid new ps v =
    accept_after new ps (validate_properties new) (validate_properties-is_valid new) v

append_property-IsValid :
    (p : Option Held) (ps : Properties) → IsValid ps → IsValid (after ps (append_property p ps))
unfolding append_property
append_property-IsValid none ps v = v
append_property-IsValid (some p) ps v = elim (Bool-cases (finds_if (is_object p.identity) ps)) [
  | inl e ↦ rw e v
  | inr n ↦ rw n (accept-IsValid (ps ++ some p ∷ []) ps v)
]

erase_null-IsValid : (ps : Properties) → IsValid ps → erase_null ps ≡ ps
erase_null-IsValid [] v = refl
erase_null-IsValid (none ∷ ps) v = absurd (ground arith)
erase_null-IsValid (some p ∷ ps) v = ground (arith, erase_null-IsValid ps)

remove_property-IsValid :
    (p : Option Held) (ps : Properties) → IsValid ps → IsValid (after ps (remove_property p ps))
unfolding remove_property
remove_property-IsValid none ps v = elim (Bool-cases (finds_null ps)) [
  | inl e ↦ rw e (rw (erase_null-IsValid ps v) v)
  | inr n ↦ rw n v
]
remove_property-IsValid (some p) ps v = elim (Bool-cases (finds_if (is_object p.identity) ps)) [
  | inl e ↦ rw e (erase_if-IsValid (is_object p.identity) ps v)
  | inr n ↦ rw n v
]

-- A call of one of the methods that change the properties.
pub data Call : Type 0 where
  set_all : Properties → Call
  set : Option Held → Call
  append : Option Held → Call
  remove : Option Held → Call
  remove_all : Call

unfoldable pub perform : Call → Properties → PropertyEdit
perform (set_all new) ps = set_properties new ps
perform (set p) ps = set_property p ps
perform (append p) ps = append_property p ps
perform (remove p) ps = remove_property p ps
perform remove_all ps = remove_all_properties ps

-- The properties after a sequence of calls, each of which may throw.
abbrev pub perform_all : List Call → Properties → Properties
perform_all [] ps = ps
perform_all (c ∷ cs) ps = perform_all cs (after ps (perform c ps))

perform-IsValid : (c : Call) (ps : Properties) → IsValid ps → IsValid (after ps (perform c ps))
unfolding perform set_properties remove_all_properties
perform-IsValid (set_all new) ps v = accept-IsValid new ps v
perform-IsValid (set none) ps v = unfold set_property in v
perform-IsValid (set (some p)) ps v = set_property-IsValid p ps v
perform-IsValid (append p) ps v = append_property-IsValid p ps v
perform-IsValid (remove p) ps v = remove_property-IsValid p ps v
perform-IsValid remove_all ps v = refl

perform_all-from : (cs : List Call) (ps : Properties) → IsValid ps → IsValid (perform_all cs ps)
perform_all-from [] ps v = v
perform_all-from (c ∷ cs) ps v =
    perform_all-from cs (after ps (perform c ps)) (perform-IsValid c ps v)

-- After any sequence of SetProperties, SetProperty, AppendProperty, RemoveProperty and
-- RemoveAllProperties on a new node, whether or not they throw, no property of the node is null, no
-- two have the same name, and no two the same type unless it is unknown.
pub perform_all_properties-IsValid : (cs : List Call) → IsValid (perform_all cs [])
perform_all_properties-IsValid cs = perform_all-from cs [] refl

-- SetProperties takes the new properties just when they are valid.
pub set_properties-IsValid :
    (new ps : Properties) → (set_properties new ps ≡ changed new) ↔ IsValid new
unfolding set_properties
set_properties-IsValid new ps = (
  λ h. taken (validate_properties new) h (validate_properties-is_valid new),
  λ v. accept-changed new (validate_properties new) (validate_properties-is_valid new ∙ v),
)
  where
    taken :
        (o : Option PropertyRefusal)
        → accept new o ≡ changed new
        → accepted o ≡ is_valid new
        → IsValid new
    taken none h e = sym e
    taken (some r) h e = absurd (ground arith)
