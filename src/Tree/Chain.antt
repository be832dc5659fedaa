-- ===== src/Tree/Chain.antt =====
-- Lists of siblings: which list a chain of `nextSibling` links spells, how one write to a link
-- changes that list.
use libsgfc.Common.{
  ◌≡◌, inl, inr, Option, none, some, true, false, List, [], ◌∷◌, arith, ◌==◌, if◌then◌else◌,
  Bool-cases, ==_iff, has, Distinct,
}
use libsgfc.Tree.Store.{Ref, same}

-- From the pointer `o` the links `next` lead through `xs` to null.
abbrev pub Chain : (Ref → Option Ref) → Option Ref → List Ref → Type 0
Chain next o [] = o ≡ none
Chain next o (x ∷ xs) = (o ≡ some x) × Chain next (next x) xs

abbrev pub first : List Ref → Option Ref
first [] = none
first (x ∷ xs) = some x

abbrev pub last : List Ref → Option Ref
last [] = none
last (x ∷ []) = some x
last (x ∷ y ∷ xs) = last (y ∷ xs)

-- The element in front of `c`.
abbrev pub previous : Ref → List Ref → Option Ref
previous c [] = none
previous c (x ∷ xs) = if same (first xs) (some c) then some x else previous c xs

-- The elements behind `c`, and those in front of it.
abbrev pub behind : Ref → List Ref → List Ref
behind c [] = []
behind c (x ∷ xs) = if x == c then xs else behind c xs

abbrev pub ahead : Ref → List Ref → List Ref
ahead c [] = []
ahead c (x ∷ xs) = if x == c then [] else x ∷ ahead c xs

-- What stands behind `p` is replaced.
abbrev pub resume : Ref → List Ref → List Ref → List Ref
resume p ws [] = []
resume p ws (x ∷ xs) = if x == p then x ∷ ws else x ∷ resume p ws xs

-- `c` is put in front of `next`, or at the end.
abbrev pub place : Option Ref → Ref → List Ref → List Ref
place next c [] = c ∷ []
place next c (x ∷ xs) = if same (some x) next then c ∷ x ∷ xs else x ∷ place next c xs

pub first_listed : (xs : List Ref) (x : Ref) → first xs ≡ some x → has x xs ≡ true
first_listed [] x h = cc
first_listed (y ∷ xs) x h = ground arith

module _ (next : Ref → Option Ref) where
  pub Chain-first : (o : Option Ref) (xs : List Ref) → Chain next o xs → o ≡ first xs
  Chain-first o [] h = h
  Chain-first o (x ∷ xs) h = h.0

  pub Chain-behind :
      (c : Ref) (o : Option Ref) (xs : List Ref)
      → has c xs ≡ true
      → Chain next o xs
      → Chain next (next c) (behind c xs)
  Chain-behind c o [] h k = cc
  Chain-behind c o (x ∷ xs) h k = elim (Bool-cases (x == c)) [
    | inl e ↦ rw e (rw (← (==_iff x c).0 e) k.1)
    | inr n ↦ rw n (Chain-behind c (next x) xs (ground arith) k.1)
  ]

module _ (next next' : Ref → Option Ref) where
  pub Chain-frame :
      (o : Option Ref) (xs : List Ref)
      → ((a : Ref) → has a xs ≡ true → next' a ≡ next a)
      → Chain next o xs
      → Chain next' o xs
  Chain-frame o [] f k = k
  Chain-frame o (x ∷ xs) f k =
      (k.0, rw (f x (ground arith)) (Chain-frame (next x) xs (λ a h. f a (ground arith)) k.1))

  -- A write at `p` makes the chain go on with `ws` behind `p`.
  pub Chain-resume :
      (p : Ref) (ws : List Ref) (o : Option Ref) (xs : List Ref)
      → Distinct xs
      → has p xs ≡ true
      → ((a : Ref) → has a xs ≡ true → (a == p) ≡ false → next' a ≡ next a)
      → Chain next' (next' p) ws
      → Chain next o xs
      → Chain next' o (resume p ws xs)
  Chain-resume p ws o [] d h f t k = cc
  Chain-resume p ws o (x ∷ xs) d h f t k = elim (Bool-cases (x == p)) [
    | inl e ↦ rw e (k.0, rw ((==_iff x p).0 e) t)
    | inr n ↦ rw n (
      k.0,
      rw (f x (ground arith) n)
          (Chain-resume p ws (next x) xs d.1 (ground arith) (λ a h. f a (ground arith)) t k.1),
    )
  ]
