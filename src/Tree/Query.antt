-- ===== src/Tree/Query.antt =====
-- The navigation methods of SgfcNode return what the forest says.
use libsgfc.Common.{
  ℕ, zero, suc, ◌<◌, ◌≡◌, ◌↔◌, refl, inl, inr, Option, none, some, Bool, true, false, List, [], ◌∷◌,
  ◌++◌, append_assoc, append-nil, arith, Bool-cases, length, has, Distinct, ◌⊎◌,
}
use libsgfc.Tree.Store.{Ref, Store, same, ok}
use libsgfc.Tree.Node.{
  get_last_child, get_children, get_previous_sibling, previous_below, is_descendant_of,
  is_ancestor_of, get_root, get_main_variation_nodes, first_children_back,
}
use libsgfc.Tree.Chain.{Chain, first, last, previous, Chain-first, first_listed}
use libsgfc.Tree.Loops.{last_child_loop-last, children_loop-append}
use libsgfc.Tree.Ancestor.{
  Rooted, top, under, Above, direct, further, depth, is_above, root_of, lineage, Above-of_is_above,
  is_above-of_Above, ancestor_loop-is_above, root_loop-root_of, ancestors_front-lineage,
}
use libsgfc.Tree.Shape.{Forest, Shape}
use libsgfc.Tree.Detach.{previous-eq}

previous-first : (c : Ref) (xs : List Ref) → Distinct xs → first xs ≡ some c → previous c xs ≡ none
previous-first c [] d e = refl
previous-first c (x ∷ xs) d e = absent c xs (ground arith) (ground (arith, first_listed xs c))
  where
    absent :
        (a : Ref) (ys : List Ref)
        → has a ys ≡ false
        → same (first ys) (some a) ≡ false
        → previous a (x ∷ ys) ≡ none
    absent a [] h n = refl
    absent a (y ∷ ys) h n = rw n (after y ys (ground arith))
      where
        after : (z : Ref) (zs : List Ref) → has a zs ≡ false → previous a (z ∷ zs) ≡ none
        after z [] h = refl
        after z (w ∷ zs) h = ground (arith, after w zs)

first_children_back-append :
    (s : Store) (xs : List Ref) (o : Option Ref) (fuel : ℕ) (nodes : List Ref)
    → Chain s.first_child o xs
    → length xs < fuel
    → first_children_back fuel s o nodes ≡ some (nodes ++ xs)
unfolding first_children_back
first_children_back-append s xs o zero nodes k h = absurd (omega arith)
first_children_back-append s [] o (suc fuel) nodes k h = rw (k, first_children_back) (rw append-nil)
first_children_back-append s (x ∷ xs) o (suc fuel) nodes k h =
    rw (k.0, first_children_back)
      (rw
        (first_children_back-append s xs (s.first_child x) fuel (nodes ++ x ∷ []) k.1 (omega arith))
        (rw append_assoc))

root_of-top : (s : Store) {n : Ref} (r : Rooted s.parent n) → s.parent (root_of r) ≡ none
root_of-top s (top e) = e
root_of-top s (under e r) = root_of-top s r

root_of-Above :
    (s : Store) {n : Ref} (r : Rooted s.parent n) → (root_of r ≡ n) ⊎ Above s.parent (root_of r) n
root_of-Above s (top e) = inl refl
root_of-Above s (under e (top q)) = inr (direct e)
root_of-Above s (under e (under q r)) = inr (further e (above_root q r))
  where
    above_root :
        {m p : Ref} → s.parent m ≡ some p → (r' : Rooted s.parent p) → Above s.parent (root_of r') m
    above_root q' (top z) = direct q'
    above_root q' (under z r') = further q' (above_root z r')

module _ {s : Store} {kids : Forest} (h : Shape s kids) where
  -- GetChildren returns the children of a node in order, and GetLastChild the last of them.
  get_children_lem :
      (n : Ref) (fuel : ℕ)
      → length (kids n) < fuel
      → (get_children fuel s n ≡ some (kids n)) × (get_last_child fuel s n ≡ some (last (kids n)))
  unfolding get_children get_last_child
  get_children_lem n fuel le = (
    children_loop-append s (kids n) (s.first_child n) fuel [] (h.chain n) le,
    last_child_loop-last s (kids n) (s.first_child n) fuel (h.chain n) le,
  )

  -- `GetPreviousSibling` returns the sibling in front of a node, and null for a first child.
  pub get_previous_sibling_lem :
      (c p : Ref) (fuel : ℕ)
      → s.parent c ≡ some p
      → length (kids p) < fuel
      → get_previous_sibling fuel s c ≡ some (previous c (kids p))
  unfolding get_previous_sibling previous_below
  get_previous_sibling_lem c p fuel e le = elim (Bool-cases (same (s.first_child p) (some c))) [
    | inl m ↦ rw (e, previous_below) (rw (m, previous-first c (kids p) (h.distinct p) (first_eq m)))
    | inr n ↦ previous-eq h c p fuel e le n
  ]
    where
      first_eq : same (s.first_child p) (some c) ≡ true → first (kids p) ≡ some c
      first_eq m = ground (arith, Chain-first s.next_sibling (s.first_child p) (kids p) (h.chain p))

  -- IsAncestorOf and IsDescendantOf end and decide whether one node stands above another.
  is_ancestor_of-Above :
      (a n : Ref) (fuel : ℕ)
      → depth (h.rooted n) < fuel
      → (b : Bool) × (is_ancestor_of fuel a (some n) s ≡ ok b s)
        × (is_descendant_of fuel n (some a) s ≡ ok b s)
        × ((b ≡ true) ↔ Above s.parent a n)
  unfolding is_ancestor_of is_descendant_of
  is_ancestor_of-Above a n fuel le = (
    is_above (h.rooted n) a,
    rw (ancestor_loop-is_above s a (h.rooted n) fuel le),
    rw (ancestor_loop-is_above s a (h.rooted n) fuel le),
    (Above-of_is_above a (h.rooted n), is_above-of_Above a (h.rooted n)),
  )

  -- With fuel above its depth in a forest, GetRoot of a node ends with a node without parent that
  -- is the node itself or stands above it.
  get_root-Above :
      (n : Ref) (fuel : ℕ)
      → depth (h.rooted n) < fuel
      → (r : Ref) × (get_root fuel s n ≡ some r)
        × (s.parent r ≡ none)
        × ((r ≡ n) ⊎ Above s.parent r n)
  unfolding get_root
  get_root-Above n fuel le = (
    root_of (h.rooted n),
    root_loop-root_of s (h.rooted n) fuel le,
    root_of-top s (h.rooted n),
    root_of-Above s (h.rooted n),
  )

  -- With fuel enough for both ways, GetMainVariationNodes of a node in a forest returns the way
  -- from the root to the node and then the first children below it.
  get_main_variation_nodes_lem :
      (n : Ref) (xs : List Ref) (fuel : ℕ)
      → Chain s.first_child (some n) xs
      → depth (h.rooted n) < fuel
      → length xs < fuel
      → get_main_variation_nodes fuel s n ≡ some (lineage (h.rooted n) ++ xs)
  unfolding get_main_variation_nodes
  get_main_variation_nodes_lem n xs fuel k le lt =
      rw (ancestors_front-lineage s (h.rooted n) fuel [] le, get_main_variation_nodes, append-nil)
        (first_children_back-append s xs (some n) fuel (lineage (h.rooted n)) k lt)
