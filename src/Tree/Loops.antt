-- ===== src/Tree/Loops.antt =====
-- The loops over the siblings (src/document/SgfcNode.cpp) on a chain of links.
use libsgfc.Common.{
  ℕ, zero, suc, ◌<◌, ◌≡◌, Option, some, List, [], ◌∷◌, ◌++◌, append_assoc, append-nil, arith,
  length,
}
use libsgfc.Tree.Store.{Ref, Store}
use libsgfc.Tree.Node.{has_next_sibling, last_child_loop, children_loop, previous_loop}
use libsgfc.Tree.Chain.{Chain, last, previous, Chain-first}

-- The loops of SgfcNode along a chain.
module _ (s : Store) where
  pub previous_loop-previous :
      (c : Ref) (xs : List Ref) (o : Option Ref) (fuel : ℕ)
      → Chain s.next_sibling o xs
      → length xs < fuel
      → previous_loop fuel s c o ≡ some (previous c xs)
  unfolding previous_loop
  previous_loop-previous c xs o zero k h = absurd (omega arith)
  previous_loop-previous c [] o (suc fuel) k h = rw (k, previous_loop)
  previous_loop-previous c (x ∷ xs) o (suc fuel) k h =
      rw (k.0, previous_loop)
        (rw (previous_loop-previous c xs (s.next_sibling x) fuel k.1 (omega arith))
          (ground (arith, Chain-first s.next_sibling (s.next_sibling x) xs k.1)))

  pub last_child_loop-last :
      (xs : List Ref) (o : Option Ref) (fuel : ℕ)
      → Chain s.next_sibling o xs
      → length xs < fuel
      → last_child_loop fuel s o ≡ some (last xs)
  unfolding last_child_loop has_next_sibling
  last_child_loop-last xs o zero k h = absurd (omega arith)
  last_child_loop-last [] o (suc fuel) k h = rw (k, last_child_loop)
  last_child_loop-last (x ∷ []) o (suc fuel) k h = rw (k.0, last_child_loop) (rw k.1)
  last_child_loop-last (x ∷ y ∷ xs) o (suc fuel) k h =
      rw (k.0, last_child_loop)
        (rw (last_child_loop-last (y ∷ xs) (s.next_sibling x) fuel k.1 (omega arith)) (rw k.1.0))

  pub children_loop-append :
      (xs : List Ref) (o : Option Ref) (fuel : ℕ) (children : List Ref)
      → Chain s.next_sibling o xs
      → length xs < fuel
      → children_loop fuel s o children ≡ some (children ++ xs)
  unfolding children_loop
  children_loop-append xs o zero cs k h = absurd (omega arith)
  children_loop-append [] o (suc fuel) cs k h = rw (k, children_loop) (rw append-nil)
  children_loop-append (x ∷ xs) o (suc fuel) cs k h =
      rw (k.0, children_loop)
        (rw (children_loop-append xs (s.next_sibling x) fuel (cs ++ x ∷ []) k.1 (omega arith))
          (rw append_assoc))
