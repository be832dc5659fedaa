-- ===== src/NodeProperties/Inherited.antt =====
-- GetInheritedProperties takes, of each name, the inheritable property nearest to the node.
use libsgfc.Common.{
  ℕ, zero, suc, ◌<◌, ◌≡◌, refl, sym, ap, inl, inr, Option, none, some, Bool, true, false, ◌&&◌,
  ◌||◌, [], ◌∷◌, ◌++◌, if◌then◌else◌, arith, Bool-cases, ◌∙◌,
}
use libsgfc.Text.Split.{Bytes, bytes_eq}
use libsgfc.Tree.Store.{Ref, Store}
use libsgfc.Tree.Ancestor.{Rooted, top, under, depth}
use libsgfc.Tree.Shape.{Forest, Shape}
use libsgfc.Property.{PropertyType}
use libsgfc.NodeProperties.{
  Held, Properties, find_if, has_name, seen_name, Inheritance, inherit_one, inherit_from,
  inherit_loop, get_inherited_properties,
}
use libsgfc.NodeProperties.Valid.{bytes_eq_iff}

abbrev or_else : Option Held → Option Held → Option Held
or_else none o = o
or_else (some p) o = some p

abbrev is_some : Option Held → Bool
is_some none = false
is_some (some p) = true

find_if-or_else :
    (test : Held → Bool) (ps qs : Properties)
    → find_if test (ps ++ qs) ≡ or_else (find_if test ps) (find_if test qs)
find_if-or_else test [] qs = refl
find_if-or_else test (none ∷ ps) qs = find_if-or_else test ps qs
find_if-or_else test (some p ∷ ps) qs = ground (arith, find_if-or_else test ps qs)

-- The test for an inheritable property with a name.
abbrev pub is_inherited : (PropertyType → Bool) → Bytes → Held → Bool
is_inherited inheritable m p = inheritable p.type_of && has_name m p

-- What is left of a vector without the properties of other names; a null pointer stays.
abbrev pub named : Bytes → Properties → Properties
named m [] = []
named m (none ∷ ps) = none ∷ named m ps
named m (some p ∷ ps) = let rest = named m ps in if has_name m p then some p ∷ rest else rest

-- The vector of one property or of none.
abbrev pub listed : Option Held → Properties
listed none = []
listed (some p) = some p ∷ []

-- The names seen are those of the properties collected, each of which has its name for itself.
abbrev Agrees : Inheritance → Type 0
Agrees i =
    (m : Bytes)
    → (seen_name m i.names_seen ≡ is_some (find_if (has_name m) i.collected))
      × (named m i.collected ≡ listed (find_if (has_name m) i.collected))

abbrev FindsNext : (PropertyType → Bool) → Inheritance → Properties → Inheritance → Type 0
FindsNext inheritable i ps j =
    (m : Bytes)
    → find_if (has_name m) j.collected
      ≡ or_else (find_if (has_name m) i.collected) (find_if (is_inherited inheritable m) ps)

or_else_assoc : (a b c : Option Held) → or_else (or_else a b) c ≡ or_else a (or_else b c)
or_else_assoc none b c = refl
or_else_assoc (some p) b c = refl

or_else-none : (o : Option Held) → or_else o none ≡ o
or_else-none none = refl
or_else-none (some p) = refl

or_else-is_some : (o x : Option Held) → is_some o ≡ true → o ≡ or_else o x
or_else-is_some none x h = absurd (ground arith)
or_else-is_some (some p) x h = refl

is_some-or_else : (o x : Option Held) → is_some (or_else o x) ≡ (is_some o || is_some x)
is_some-or_else none x = refl
is_some-or_else (some p) x = refl

is_some-if : (b : Bool) (p : Held) → is_some (if b then some p else none) ≡ b
is_some-if true p = refl
is_some-if false p = refl

-- A property whose name has been seen adds nothing.
seen-or_else :
    (i : Inheritance) (b : Bool) (p : Held) (m : Bytes)
    → Agrees i
    → seen_name p.name_of i.names_seen ≡ true
    → find_if (has_name m) i.collected
      ≡ or_else (find_if (has_name m) i.collected) (if b && has_name m p then some p else none)
seen-or_else i b p m a e = elim (Bool-cases (b && bytes_eq p.name_of m)) [
  | inl h ↦ or_else-is_some (find_if (has_name m) i.collected) _ (
      sym (a m).0
      ∙ ap (λ k. seen_name k i.names_seen) (sym ((bytes_eq_iff p.name_of m).0 (ground arith)))
      ∙ e)
  | inr n ↦ rw n (sym (or_else-none _))
]

named-append : (m : Bytes) (ps qs : Properties) → named m (ps ++ qs) ≡ named m ps ++ named m qs
named-append m [] qs = refl
named-append m (none ∷ ps) qs = ap (λ r. none ∷ r) (named-append m ps qs)
named-append m (some p ∷ ps) qs = ground (arith, named-append m ps qs)

-- One more property keeps its name for itself if none of the name is there.
listed-append :
    (o : Option Held) (b : Bool) (p : Held)
    → (is_some o && b) ≡ false
    → listed o ++ (if b then some p ∷ [] else []) ≡ listed (or_else o (if b then some p else none))
listed-append none true p h = refl
listed-append none false p h = refl
listed-append (some q) true p h = absurd (ground arith)
listed-append (some q) false p h = refl

-- No name that is not seen is that of two properties.
unseen-named :
    (i : Inheritance) (p : Held) (m : Bytes)
    → Agrees i
    → seen_name p.name_of i.names_seen ≡ false
    → (is_some (find_if (has_name m) i.collected) && has_name m p) ≡ false
unseen-named i p m a n = elim (Bool-cases (bytes_eq p.name_of m)) [
  | inl h ↦
      let same = (bytes_eq_iff p.name_of m).0 h in
      ground (arith, sym (a m).0 ∙ ap (λ k. seen_name k i.names_seen) (sym same) ∙ n)
  | inr o ↦ ground arith
]

-- One property with a name not seen yet.
Agrees-more :
    (i : Inheritance) (p : Held)
    → Agrees i
    → seen_name p.name_of i.names_seen ≡ false
    → Agrees
        (record { collected = i.collected ++ some p ∷ []; names_seen = p.name_of ∷ i.names_seen })
Agrees-more i p a n m = (
  rw (find_if-or_else (has_name m) i.collected (some p ∷ [])) (
      rw
        (
          is_some-or_else (find_if (has_name m) i.collected)
              (if has_name m p then some p else none),
          is_some-if (has_name m p) p,
        )
        (ground (arith, (a m).0))),
  rw (find_if-or_else (has_name m) i.collected (some p ∷ [])) (
      named-append m i.collected (some p ∷ [])
      ∙ ap (λ r. r ++ named m (some p ∷ [])) (a m).1
      ∙ listed-append (find_if (has_name m) i.collected) (has_name m p) p (unseen-named i p m a n)),
)

inherit_one-finds :
    (inheritable : PropertyType → Bool) (i : Inheritance) (p : Held)
    → Agrees i
    → FindsNext inheritable i (some p ∷ []) (inherit_one inheritable i p)
      × Agrees (inherit_one inheritable i p)
unfolding inherit_one
inherit_one-finds inheritable i p a = elim (Bool-cases (seen_name p.name_of i.names_seen)) [
  | inl e ↦ rw e (λ m. seen-or_else i (inheritable p.type_of) p m a e, a)
  | inr n ↦ elim (Bool-cases (inheritable p.type_of)) [
    | inl k ↦
        rw (n, k) (λ m. find_if-or_else (has_name m) i.collected (some p ∷ []), Agrees-more i p a n)
    | inr o ↦ rw (n, o) (λ m. sym (or_else-none _), a)
  ]
]

FindsNext-append :
    (inheritable : PropertyType → Bool) (i : Inheritance) (ps qs : Properties) (j k : Inheritance)
    → FindsNext inheritable i ps j
    → FindsNext inheritable j qs k
    → FindsNext inheritable i (ps ++ qs) k
FindsNext-append inheritable i ps qs j k f g m =
    let test = is_inherited inheritable m in
    let old = find_if (has_name m) i.collected in
    g m
    ∙ ap (λ o. or_else o (find_if test qs)) (f m)
    ∙ or_else_assoc old (find_if test ps) (find_if test qs)
    ∙ ap (or_else old) (sym (find_if-or_else test ps qs))

inherit_from-finds :
    (inheritable : PropertyType → Bool) (i : Inheritance) (ps : Properties)
    → Agrees i
    → FindsNext inheritable i ps (inherit_from inheritable i ps)
      × Agrees (inherit_from inheritable i ps)
unfolding inherit_from
inherit_from-finds inheritable i [] a = (λ m. sym (or_else-none _), a)
inherit_from-finds inheritable i (none ∷ ps) a = inherit_from-finds inheritable i ps a
inherit_from-finds inheritable i (some p ∷ ps) a =
    let one = inherit_one-finds inheritable i p a in
    let more = inherit_from-finds inheritable (inherit_one inheritable i p) ps one.1 in
    (
      FindsNext-append inheritable i (some p ∷ []) ps (inherit_one inheritable i p)
          (inherit_from inheritable (inherit_one inheritable i p) ps) one.0 more.0,
      more.1,
    )

-- The properties of the node and of the nodes above it, from the node up.
abbrev pub upward :
    (parent : Ref → Option Ref) → (Ref → Properties) → {n : Ref} → Rooted parent n → Properties
upward parent properties (top {n} e) = properties n
upward parent properties (under {n} e r) = properties n ++ upward parent properties r

inherit_loop-finds :
    (s : Store) (properties : Ref → Properties) (inheritable : PropertyType → Bool) {n : Ref}
    (r : Rooted s.parent n) (i : Inheritance) (fuel : ℕ)
    → suc (depth r) < fuel
    → Agrees i
    → (j : Inheritance) × (inherit_loop fuel s properties inheritable (some n) i ≡ some j.collected)
      × FindsNext inheritable i (upward s.parent properties r) j
      × Agrees j
unfolding inherit_loop
inherit_loop-finds s properties inheritable r i zero le a = absurd (omega arith)
inherit_loop-finds s properties inheritable (top e) i (suc zero) le a = absurd (omega arith)
inherit_loop-finds s properties inheritable (top {n} e) i (suc (suc fuel)) le a = (
  inherit_from inheritable i (properties n),
  rw (inherit_loop, e, inherit_loop) refl,
  (inherit_from-finds inheritable i (properties n) a).0,
  (inherit_from-finds inheritable i (properties n) a).1,
)
inherit_loop-finds s properties inheritable (under {n} e r) i (suc fuel) le a =
    let here = inherit_from-finds inheritable i (properties n) a in
    let up =
      inherit_loop-finds s properties inheritable r (inherit_from inheritable i (properties n)) fuel
        (omega arith) here.1 in
    (
      up.0,
      rw (inherit_loop, e) up.1,
      FindsNext-append inheritable i (properties n) (upward s.parent properties r)
          (inherit_from inheritable i (properties n)) up.0 here.0 up.2,
      up.3,
    )

-- In a forest, with fuel above the depth of the node plus one, GetInheritedProperties ends, and its
-- vector holds, of each name, the first inheritable property with that name on the way from the node
-- to the root and no other, or none if there is none; it holds no null pointer.
pub get_inherited_properties-named :
    {s : Store} {kids : Forest} (h : Shape s kids) (properties : Ref → Properties)
    (inheritable : PropertyType → Bool) (n : Ref) (fuel : ℕ)
    → suc (depth (h.rooted n)) < fuel
    → (result : Properties) × (get_inherited_properties fuel s properties inheritable n
        ≡ some result)
      × ((m : Bytes)
          → named m result
            ≡ listed
                (find_if (is_inherited inheritable m) (upward s.parent properties (h.rooted n))))
unfolding get_inherited_properties
get_inherited_properties-named {s} h properties inheritable n fuel le =
    let found =
      inherit_loop-finds s properties inheritable (h.rooted n)
        (record { collected = []; names_seen = [] }) fuel le (λ m. (refl, refl)) in
    (found.0.collected, found.1, λ m. (found.3 m).1 ∙ ap listed (found.2 m))
