-- ===== src/Tree/Places.antt =====
-- Lists of siblings: what stands before a node and behind it when a sibling is taken out, put in or
-- cut off.
use libsgfc.Common.{
  ◌≤◌, ◌≡◌, refl, sym, ap, subst, inl, inr, Option, none, some, true, false, List, [], ◌∷◌, arith,
  ◌||◌, ◌&&◌, not, ◌==◌, Bool-cases, ==_iff, ==_refl, length, has, Distinct, erase,
}
use libsgfc.Tree.Store.{Ref, same}
use libsgfc.Tree.Chain.{
  Chain, first, last, previous, behind, ahead, resume, place, first_listed, Chain-first,
  Chain-behind,
}

-- A previous element stands in the list, and so does what it precedes, behind the head.
pub has-previous :
    (c p x : Ref) (xs : List Ref)
    → previous c (x ∷ xs) ≡ some p
    → (has c xs ≡ true) × (has p (x ∷ xs) ≡ true)
has-previous c p x [] h = cc
has-previous c p x (y ∷ xs) h = ground (arith, has-previous c p y xs)

-- Every element but the first has a previous one.
pub previous-some :
    (c x : Ref) (xs : List Ref) → has c xs ≡ true → (p : Ref) × (previous c (x ∷ xs) ≡ some p)
previous-some c x [] h = cc
previous-some c x (y ∷ xs) h = elim (Bool-cases (y == c)) [
  | inl e ↦ (x, rw e)
  | inr n ↦ rw n (previous-some c y xs (ground arith))
]

pub has_both :
    (c p : Ref) (xs : List Ref) → previous c xs ≡ some p → (has c xs ≡ true) × (has p xs ≡ true)
has_both c p [] h = cc
has_both c p (x ∷ xs) h = ground (arith, has-previous c p x xs h)

-- An element that is not the first has a previous one.
pub previous-some_of_has :
    (c : Ref) (xs : List Ref)
    → has c xs ≡ true
    → same (first xs) (some c) ≡ false
    → (p : Ref) × (previous c xs ≡ some p)
previous-some_of_has c [] h n = cc
previous-some_of_has c (x ∷ xs) h n = previous-some c x xs (ground arith)

pub last-some : (x : Ref) (xs : List Ref) → (p : Ref) × (last (x ∷ xs) ≡ some p)
last-some x [] = (x, refl)
last-some x (y ∷ xs) = last-some y xs

pub has-last : (p x : Ref) (xs : List Ref) → last (x ∷ xs) ≡ some p → has p (x ∷ xs) ≡ true
has-last p x [] h = ground arith
has-last p x (y ∷ xs) h = ground (arith, has-last p y xs)

-- How the list operations meet.
pub previous-resume-erase :
    (c p : Ref) (xs : List Ref)
    → Distinct xs
    → previous c xs ≡ some p
    → resume p (behind c xs) xs ≡ erase c xs
previous-resume-erase c p [] d h = cc
previous-resume-erase c p (x ∷ []) d h = cc
previous-resume-erase c p (x ∷ y ∷ xs) d h = ground (
  arith,
  previous-resume-erase c p (y ∷ xs) d.1,
  has-previous c p x (y ∷ xs) h,
  has-previous c p y xs,
)

pub previous-resume-place :
    (c r p : Ref) (xs : List Ref)
    → Distinct xs
    → previous r xs ≡ some p
    → resume p (c ∷ r ∷ behind r xs) xs ≡ place (some r) c xs
previous-resume-place c r p [] d h = cc
previous-resume-place c r p (x ∷ []) d h = cc
previous-resume-place c r p (x ∷ y ∷ xs) d h = ground (
  arith,
  previous-resume-place c r p (y ∷ xs) d.1,
  has-previous r p x (y ∷ xs) h,
  has-previous r p y xs,
)

pub previous-resume-ahead :
    (c p : Ref) (xs : List Ref) → Distinct xs → previous c xs ≡ some p → resume p [] xs ≡ ahead c xs
previous-resume-ahead c p [] d h = cc
previous-resume-ahead c p (x ∷ []) d h = cc
previous-resume-ahead c p (x ∷ y ∷ xs) d h = ground (
  arith,
  previous-resume-ahead c p (y ∷ xs) d.1,
  has-previous c p x (y ∷ xs) h,
  has-previous c p y xs,
)

pub last-resume :
    (c p : Ref) (xs : List Ref)
    → Distinct xs
    → last xs ≡ some p
    → resume p (c ∷ []) xs ≡ place none c xs
last-resume c p [] d h = cc
last-resume c p (x ∷ []) d h = ground arith
last-resume c p (x ∷ y ∷ xs) d h = ground (arith, last-resume c p (y ∷ xs) d.1, has-last p y xs)

pub has-place :
    (a c : Ref) (next : Option Ref) (xs : List Ref)
    → has a (place next c xs) ≡ ((a == c) || has a xs)
has-place a c next [] = refl
has-place a c none (x ∷ xs) = ground (arith, has-place a c none xs)
has-place a c (some r) (x ∷ xs) = ground (arith, has-place a c (some r) xs)

pub place-Distinct :
    (c : Ref) (next : Option Ref) (xs : List Ref)
    → Distinct xs
    → has c xs ≡ false
    → Distinct (place next c xs)
place-Distinct c next [] d h = (refl, tt)
place-Distinct c none (x ∷ xs) d h =
    ground (arith, has-place x c none xs, place-Distinct c none xs d.1)
place-Distinct c (some r) (x ∷ xs) d h =
    ground (arith, has-place x c (some r) xs, place-Distinct c (some r) xs d.1)

pub previous-ne :
    (c p : Ref) (xs : List Ref) → Distinct xs → previous c xs ≡ some p → (p == c) ≡ false
previous-ne c p [] d h = cc
previous-ne c p (x ∷ []) d h = cc
previous-ne c p (x ∷ y ∷ xs) d h = ground (arith, previous-ne c p (y ∷ xs) d.1)

pub last-some_of_first :
    (xs : List Ref) → same (first xs) none ≡ false → (p : Ref) × (last xs ≡ some p)
last-some_of_first [] n = cc
last-some_of_first (x ∷ xs) n = last-some x xs

pub has-last_all : (p : Ref) (xs : List Ref) → last xs ≡ some p → has p xs ≡ true
has-last_all p [] h = cc
has-last_all p (x ∷ xs) h = has-last p x xs h

pub has-behind : (a c : Ref) (xs : List Ref) → has a (behind c xs) ≡ true → has a xs ≡ true
has-behind a c [] h = cc
has-behind a c (x ∷ xs) h = ground (arith, has-behind a c xs)

pub behind_self : (c : Ref) (xs : List Ref) → Distinct xs → has c (behind c xs) ≡ false
behind_self c [] d = refl
behind_self c (x ∷ xs) d = ground (arith, behind_self c xs d.1)

pub previous-behind :
    (c p : Ref) (xs : List Ref) → Distinct xs → previous c xs ≡ some p → has p (behind c xs) ≡ false
previous-behind c p [] d h = cc
previous-behind c p (x ∷ []) d h = cc
previous-behind c p (x ∷ y ∷ xs) d h = ground (
  arith,
  previous-behind c p (y ∷ xs) d.1,
  has-previous c p x (y ∷ xs) h,
  has-previous c p y xs,
  has-behind x c xs,
)

-- An element splits its list into what stands ahead of it, itself and what stands behind it.
pub has-ahead :
    (a c : Ref) (xs : List Ref)
    → Distinct xs
    → has c xs ≡ true
    → has a (ahead c xs) ≡ (has a xs && not (has a (c ∷ behind c xs)))
has-ahead a c [] d m = cc
has-ahead a c (x ∷ xs) d m =
    ground (arith, has-ahead a c xs d.1, has-behind x c xs, has-behind a c xs)

pub ahead-Distinct : (c : Ref) (xs : List Ref) → Distinct xs → Distinct (ahead c xs)
ahead-Distinct c [] d = tt
ahead-Distinct c (x ∷ xs) d = ground (arith, ahead-Distinct c xs d.1, has_of_ahead x c xs)
  where
    has_of_ahead : (a c : Ref) (xs : List Ref) → has a (ahead c xs) ≡ true → has a xs ≡ true
    has_of_ahead a c [] h = cc
    has_of_ahead a c (y ∷ ys) h = ground (arith, has_of_ahead a c ys)

pub behind-Distinct : (c : Ref) (xs : List Ref) → Distinct xs → Distinct (behind c xs)
behind-Distinct c [] d = tt
behind-Distinct c (x ∷ xs) d = elim (Bool-cases (x == c)) [
  | inl e ↦ rw e d.1
  | inr n ↦ rw n (behind-Distinct c xs d.1)
]

pub length-behind : (c : Ref) (xs : List Ref) → length (behind c xs) ≤ length xs
length-behind c [] = omega arith
length-behind c (x ∷ xs) = ground (arith, length-behind c xs)

-- Put back in front of the sibling that followed it, an element stands where it was.
pub place-erase :
    (next : Ref → Option Ref) (c : Ref) (o : Option Ref) (xs : List Ref)
    → Distinct xs
    → has c xs ≡ true
    → Chain next o xs
    → place (next c) c (erase c xs) ≡ xs
place-erase next c o [] d m k = cc
place-erase next c o (x ∷ xs) d m k = elim (Bool-cases (c == x)) [
  | inl e ↦
      let node : c ≡ x = (==_iff c x).0 e in
      rw e (subst (λ v. place (next v) v xs ≡ x ∷ xs) (sym node) (at_head xs k.1))
  | inr n ↦
      rw n (rw (not_head n) (ap (◌∷◌ x) (place-erase next c (next x) xs d.1 (ground arith) k.1)))
]
  where
    at_head : (ys : List Ref) → Chain next (next x) ys → place (next x) x ys ≡ x ∷ ys
    at_head [] k' = refl
    at_head (y ∷ ys) k' = rw k'.0 (rw (==_refl y))

    not_head : (c == x) ≡ false → same (some x) (next c) ≡ false
    not_head n = ground (
      arith,
      Chain-first next (next c) (behind c xs) (Chain-behind next c (next x) xs (ground arith) k.1),
      first_listed (behind c xs) x,
      has-behind x c xs,
    )
