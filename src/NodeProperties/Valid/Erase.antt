-- ===== src/NodeProperties/Valid/Erase.antt =====
-- What an erasure from a valid vector, and an addition at its end, keep.
use libsgfc.Common.{
  ◌≡◌, refl, ap, inl, inr, none, some, Bool, true, false, ◌||◌, [], ◌∷◌, ◌++◌, arith, Bool-cases,
}
use libsgfc.Text.Split.{Bytes}
use libsgfc.Property.{PropertyType, type_eq}
use libsgfc.NodeProperties.{Held, Properties, finds_if, erase_if, has_name, has_type, is_known}
use libsgfc.NodeProperties.Valid.{bytes_eq_iff, bytes_eq_comm, type_eq_iff, is_free, IsValid}

pub finds_if-append :
    (test : Held → Bool) (ps qs : Properties)
    → finds_if test (ps ++ qs) ≡ (finds_if test ps || finds_if test qs)
finds_if-append test [] qs = refl
finds_if-append test (p ∷ ps) qs = ground (arith, finds_if-append test ps qs)

pub finds_if-erase_if :
    (test other : Held → Bool) (ps : Properties)
    → finds_if test ps ≡ false
    → finds_if test (erase_if other ps) ≡ false
finds_if-erase_if test other [] h = refl
finds_if-erase_if test other (p ∷ ps) h = ground (arith, finds_if-erase_if test other ps)

pub erase_if-IsValid :
    (test : Held → Bool) (ps : Properties) → IsValid ps → IsValid (erase_if test ps)
erase_if-IsValid test [] v = refl
erase_if-IsValid test (none ∷ ps) v = absurd (ground arith)
erase_if-IsValid test (some p ∷ ps) v = ground (
  arith,
  erase_if-IsValid test ps,
  finds_if-erase_if (has_name p.name_of) test ps,
  finds_if-erase_if (has_type p.type_of) test ps,
)

finds_if-has_name :
    (m n : Bytes) (ps : Properties) → m ≡ n → finds_if (has_name m) ps ≡ finds_if (has_name n) ps
finds_if-has_name m n ps e = ap (λ k. finds_if (has_name k) ps) e

-- Of a valid vector no property with the name is left.
pub erase_if-has_name :
    (n : Bytes) (ps : Properties)
    → IsValid ps
    → finds_if (has_name n) (erase_if (has_name n) ps) ≡ false
erase_if-has_name n [] v = refl
erase_if-has_name n (none ∷ ps) v = absurd (ground arith)
erase_if-has_name n (some p ∷ ps) v =
    ground
      (arith, erase_if-has_name n ps, bytes_eq_iff p.name_of n, finds_if-has_name p.name_of n ps)

finds_if-has_type :
    (t u : PropertyType) (ps : Properties)
    → t ≡ u
    → finds_if (has_type t) ps ≡ finds_if (has_type u) ps
finds_if-has_type t u ps e = ap (λ k. finds_if (has_type k) ps) e

pub erase_if-has_type :
    (t : PropertyType) (ps : Properties)
    → is_known t ≡ true
    → IsValid ps
    → finds_if (has_type t) (erase_if (has_type t) ps) ≡ false
erase_if-has_type t [] k v = refl
erase_if-has_type t (none ∷ ps) k v = absurd (ground arith)
erase_if-has_type t (some p ∷ ps) k v = elim (Bool-cases (type_eq p.type_of t)) [
  | inl e ↦ rw e (
      ground (
        arith,
        finds_if-has_type p.type_of t ps ((type_eq_iff p.type_of t).0 e),
        ap is_known ((type_eq_iff p.type_of t).0 e),
      ))
  | inr n ↦ ground (arith, erase_if-has_type t ps k)
]

-- A valid vector with one more property, of a free name and type, is valid.
pub append-IsValid :
    (ps : Properties) (p : Held)
    → IsValid ps
    → is_free p.type_of p.name_of ps ≡ true
    → IsValid (ps ++ some p ∷ [])
append-IsValid [] p v f = ground arith
append-IsValid (none ∷ ps) p v f = absurd (ground arith)
append-IsValid (some q ∷ ps) p v f = elim (Bool-cases (type_eq q.type_of p.type_of)) [
  | inl e ↦ ground (
    arith,
    append-IsValid ps p,
    finds_if-append (has_name q.name_of) ps (some p ∷ []),
    bytes_eq_comm q.name_of p.name_of,
    ap is_known ((type_eq_iff q.type_of p.type_of).0 e),
  )
  | inr n ↦ ground (
    arith,
    append-IsValid ps p,
    finds_if-append (has_name q.name_of) ps (some p ∷ []),
    finds_if-append (has_type q.type_of) ps (some p ∷ []),
    bytes_eq_comm q.name_of p.name_of,
    type_eq_iff q.type_of p.type_of,
    type_eq_iff p.type_of q.type_of,
  )
]
