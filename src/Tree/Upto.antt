-- ===== src/Tree/Upto.antt =====
-- The list of siblings up to a node: what is left of a chain that is cut behind the node.
use libsgfc.Common.{
  ◌≡◌, ◌≢◌, ap, subst, inl, inr, Option, none, some, true, false, List, [], ◌∷◌, arith, ◌==◌,
  if◌then◌else◌, Bool-cases, ==_iff, has, Distinct, erase,
}
use libsgfc.Tree.Store.{Ref}
use libsgfc.Tree.Chain.{Chain, last, ahead, behind}
use libsgfc.Tree.Places.{has-behind}

-- The list up to `n`, which becomes its last element.
abbrev pub upto : Ref → List Ref → List Ref
upto n [] = []
upto n (x ∷ xs) = if x == n then x ∷ [] else x ∷ upto n xs

module _ (next : Ref → Option Ref) (n : Ref) where
  pub ahead-upto :
      (r : Ref) (o : Option Ref) (xs : List Ref)
      → Distinct xs
      → has n xs ≡ true
      → next n ≡ some r
      → Chain next o xs
      → (ahead r xs ≡ upto n xs) × (has r xs ≡ true) × (has n (r ∷ behind r xs) ≡ false)
  ahead-upto r o [] d m e k = cc
  ahead-upto r o (x ∷ []) d m e k = absurd (not_last ((==_iff n x).0 (ground arith)))
    where
      not_last : n ≡ x → ⊥
      not_last q = cc (k.1, ap next q)
  ahead-upto r o (x ∷ y ∷ xs) d m e k = elim (Bool-cases (x == n)) [
    | inl eq ↦
        let node : x ≡ n = (==_iff x n).0 eq in
        let follows : y ≡ r = ground (arith, ap next node, k.1.0) in
        ground (arith, has-behind n y xs)
    | inr ne ↦
        let rest = ahead-upto r (next x) (y ∷ xs) d.1 (ground arith) e k.1 in ground (arith, rest)
  ]

  pub upto_all :
      (o : Option Ref) (xs : List Ref)
      → has n xs ≡ true
      → next n ≡ none
      → Chain next o xs
      → upto n xs ≡ xs
  upto_all o [] m e k = cc
  upto_all o (x ∷ []) m e k = ground arith
  upto_all o (x ∷ y ∷ xs) m e k = elim (Bool-cases (x == n)) [
    | inl eq ↦ cc (k.1.0, ap next ((==_iff x n).0 eq))
    | inr ne ↦ rw ne (ap (◌∷◌ x) (upto_all (next x) (y ∷ xs) (ground arith) e k.1))
  ]

  pub Chain-last :
      (o : Option Ref) (xs : List Ref) → last xs ≡ some n → Chain next o xs → next n ≡ none
  Chain-last o [] e k = cc
  Chain-last o (x ∷ []) e k = let node : x ≡ n = ground arith in subst (λ v. next v ≡ none) node k.1
  Chain-last o (x ∷ y ∷ xs) e k = Chain-last (next x) (y ∷ xs) e k.1

last-cons : (n x : Ref) (xs : List Ref) → last xs ≡ some n → last (x ∷ xs) ≡ some n
last-cons n x [] e = cc
last-cons n x (y ∷ xs) e = e

pub last-upto : (n : Ref) (xs : List Ref) → has n xs ≡ true → last (upto n xs) ≡ some n
last-upto n [] m = cc
last-upto n (x ∷ xs) m = elim (Bool-cases (x == n)) [
  | inl eq ↦ rw eq (ap some ((==_iff x n).0 eq))
  | inr ne ↦ rw ne (last-cons n x (upto n xs) (last-upto n xs (ground arith)))
]

pub last-erase-upto :
    (n c : Ref) (xs : List Ref) → has n xs ≡ true → n ≢ c → last (erase c (upto n xs)) ≡ some n
last-erase-upto n c [] m ne = cc
last-erase-upto n c (x ∷ xs) m ne = elim (Bool-cases (x == n)) [
  | inl eq ↦ ground arith
  | inr other ↦ elim (Bool-cases (c == x)) [
    | inl gone ↦ rw (other, gone) (last-upto n xs (ground arith))
    | inr kept ↦
        rw (other, kept)
          (last-cons n x (erase c (upto n xs)) (last-erase-upto n c xs (ground arith) ne))
  ]
]
