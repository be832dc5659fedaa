-- ===== src/NodeProperties/Valid/Lookup.antt =====
-- What GetProperty finds after SetProperty.
use libsgfc.Common.{
  ◌≡◌, refl, ap, inl, inr, Option, none, some, Bool, true, false, ◌&&◌, [], ◌∷◌, ◌++◌, arith,
  Bool-cases, ◌∙◌,
}
use libsgfc.Text.Split.{Bytes, bytes_eq}
use libsgfc.Property.{type_eq}
use libsgfc.NodeProperties.{
  Held, Properties, finds_if, erase_if, has_name, has_type, is_known, after, set_property, find_if,
  get_property_of_type, get_property_of_name,
}
use libsgfc.NodeProperties.Valid.{bytes_eq_iff, type_eq_iff, IsValid}
use libsgfc.NodeProperties.Valid.Erase.{
  finds_if-erase_if, erase_if-IsValid, erase_if-has_name, erase_if-has_type,
}

find_if-append :
    (test : Held → Bool) (ps : Properties) (p : Held)
    → finds_if test ps ≡ false
    → test p ≡ true
    → find_if test (ps ++ some p ∷ []) ≡ some p
find_if-append test [] p h t = rw t
find_if-append test (q ∷ ps) p h t = ground (arith, find_if-append test ps p)

abbrev other_or : (Held → Bool) → Option Held → Bool
other_or test none = false
other_or test (some p) = test p

find_if-erase_if :
    (test other : Held → Bool) (ps : Properties) (q : Held)
    → find_if test ps ≡ some q
    → other q ≡ false
    → find_if test (erase_if other ps) ≡ some q
find_if-erase_if test other [] q h n = h
find_if-erase_if test other (none ∷ ps) q h n = find_if-erase_if test other ps q h n
find_if-erase_if test other (some p ∷ ps) q h n =
    ground (arith, find_if-erase_if test other ps q, same_test)
  where
    same_test : some p ≡ some q → other p ≡ false
    same_test e = ap (other_or other) e ∙ n

find_if-append_some :
    (test : Held → Bool) (ps qs : Properties) (q : Held)
    → find_if test ps ≡ some q
    → find_if test (ps ++ qs) ≡ some q
find_if-append_some test [] qs q h = absurd (ground arith)
find_if-append_some test (p ∷ ps) qs q h = ground (arith, find_if-append_some test ps qs q)

-- SetProperty of a property on valid properties: GetProperty finds it by its name, and by its type
-- if that is known; any other property that GetProperty found by another name, and that is not of
-- the same known type, is still found.
pub set_property-get :
    (p : Held) (ps : Properties)
    → IsValid ps
    → (get_property_of_name p.name_of (after ps (set_property (some p) ps)) ≡ some p)
      × (is_known p.type_of ≡ true
          → get_property_of_type p.type_of (after ps (set_property (some p) ps)) ≡ some p)
      × ((n : Bytes) (q : Held)
          → get_property_of_name n ps ≡ some q
          → bytes_eq q.name_of p.name_of ≡ false
          → (is_known p.type_of && type_eq q.type_of p.type_of) ≡ false
          → get_property_of_name n (after ps (set_property (some p) ps)) ≡ some q)
unfolding set_property get_property_of_name get_property_of_type
set_property-get p ps v =
    let named = erase_if (has_name p.name_of) ps in
    let w = erase_if-IsValid (has_name p.name_of) ps v in
    let n = erase_if-has_name p.name_of ps v in
    let m = (bytes_eq_iff p.name_of p.name_of).1 refl in
    elim (Bool-cases (is_known p.type_of)) [
      | inr k ↦ rw k (
        find_if-append (has_name p.name_of) named p n m,
        (λ h. absurd (ground (arith, h))),
        λ a q h d e.
            find_if-append_some (has_name a) named (some p ∷ []) q
              (find_if-erase_if (has_name a) (has_name p.name_of) ps q h d),
      )
      | inl k ↦
          let free = erase_if (has_type p.type_of) named in
          let t = erase_if-has_type p.type_of named k w in
          rw k (
            find_if-append (has_name p.name_of) free p
                (finds_if-erase_if (has_name p.name_of) (has_type p.type_of) named n) m,
            (λ h.
                find_if-append (has_type p.type_of) free p t
                  ((type_eq_iff p.type_of p.type_of).1 refl)),
            λ a q h d e. find_if-append_some (has_name a) free (some p ∷ []) q (
                find_if-erase_if (has_name a) (has_type p.type_of) named q
                  (find_if-erase_if (has_name a) (has_name p.name_of) ps q h d) e),
          )
    ]
