-- ===== src/Pointers/Clean.antt =====
-- Vectors without null pointers and repetitions.
use libsgfc.Common.{
  ◌≤◌, ◌≡◌, ◌↔◌, refl, inl, inr, Option, none, some, true, false, ◌||◌, [], ◌∷◌, ◌++◌, length, ◌==◌,
  arith, Bool-cases,
}
use libsgfc.Tree.Store.{Ref, same, is_some}
use libsgfc.Pointers.{Pointers, finds, erase_found, to_set}

-- No pointer is null and none occurs twice.
abbrev pub IsClean : Pointers → Type 0
IsClean [] = Unit
IsClean (p ∷ ps) = (is_some p ≡ true) × (finds p ps ≡ false) × IsClean ps

-- No pointer occurs twice.
abbrev pub HasNoRepeat : Pointers → Type 0
HasNoRepeat [] = Unit
HasNoRepeat (p ∷ ps) = (finds p ps ≡ false) × HasNoRepeat ps

pub same-eq : (p q : Option Ref) → (same p q ≡ true) ↔ (p ≡ q)
same-eq none none = (λ h. refl, λ h. refl)
same-eq none (some b) = ground arith
same-eq (some a) none = ground arith
same-eq (some a) (some b) = ground arith

finds-to_set : (p : Option Ref) (ps : Pointers) → finds p (to_set ps) ≡ finds p ps
unfolding to_set
finds-to_set p [] = refl
finds-to_set p (q ∷ qs) = ground (arith, finds-to_set p qs, finds-to_set q qs, same-eq q p)

length-to_set_le : (ps : Pointers) → length (to_set ps) ≤ length ps
unfolding to_set
length-to_set_le [] = omega arith
length-to_set_le (p ∷ ps) = ground (arith, length-to_set_le ps)

-- A set made of the vector has as many elements just when nothing occurs twice.
pub length-to_set : (ps : Pointers) → ((length (to_set ps) == length ps) ≡ true) ↔ HasNoRepeat ps
unfolding to_set
length-to_set [] = (λ h. tt, λ h. refl)
length-to_set (p ∷ ps) = ground (arith, length-to_set ps, finds-to_set p ps, length-to_set_le ps)

pub IsClean-intro : (ps : Pointers) → HasNoRepeat ps → finds none ps ≡ false → IsClean ps
IsClean-intro [] h n = tt
IsClean-intro (none ∷ ps) h n = absurd (ground arith)
IsClean-intro (some a ∷ ps) h n = (refl, h.0, IsClean-intro ps h.1 (ground arith))

pub IsClean-HasNoRepeat : (ps : Pointers) → IsClean ps → HasNoRepeat ps
IsClean-HasNoRepeat [] c = tt
IsClean-HasNoRepeat (p ∷ ps) c = (c.1, IsClean-HasNoRepeat ps c.2)

pub finds-IsClean : (ps : Pointers) → IsClean ps → finds none ps ≡ false
finds-IsClean [] c = refl
finds-IsClean (none ∷ ps) c = absurd (ground arith)
finds-IsClean (some a ∷ ps) c = finds-IsClean ps c.2

pub finds-append :
    (p : Option Ref) (ps qs : Pointers) → finds p (ps ++ qs) ≡ (finds p ps || finds p qs)
finds-append p [] qs = refl
finds-append p (q ∷ ps) qs = ground (arith, finds-append p ps qs)

pub append-IsClean :
    (ps : Pointers) (a : Ref) → IsClean ps → finds (some a) ps ≡ false → IsClean (ps ++ some a ∷ [])
append-IsClean [] a c h = (refl, refl, tt)
append-IsClean (p ∷ ps) a c h = (
  c.0,
  ground (arith, finds-append p ps (some a ∷ []), same-eq (some a) p, same-eq p (some a)),
  append-IsClean ps a c.2 (ground arith),
)

finds-erase_found :
    (p q : Option Ref) (ps : Pointers) → finds q ps ≡ false → finds q (erase_found p ps) ≡ false
unfolding erase_found
finds-erase_found p q [] h = refl
finds-erase_found p q (r ∷ ps) h = ground (arith, finds-erase_found p q ps)

pub erase_found-IsClean : (p : Option Ref) (ps : Pointers) → IsClean ps → IsClean (erase_found p ps)
unfolding erase_found
erase_found-IsClean p [] c = tt
erase_found-IsClean p (q ∷ ps) c = elim (Bool-cases (same q p)) [
  | inl e ↦ rw e c.2
  | inr n ↦ rw n (c.0, finds-erase_found p q ps c.1, erase_found-IsClean p ps c.2)
]

-- An element put last is taken out again.
pub erase_found-append :
    (p : Option Ref) (ps : Pointers) → finds p ps ≡ false → erase_found p (ps ++ p ∷ []) ≡ ps
unfolding erase_found
erase_found-append p [] h = ground (arith, same-eq p p)
erase_found-append p (q ∷ ps) h = ground (arith, erase_found-append p ps)
