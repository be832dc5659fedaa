-- ===== src/Tree/Heads.antt =====
-- `SetFirstChild` and `SetNextSibling` cut a list of children short and put one node at its end.
use libsgfc.Common.{
  suc, ◌≡◌, ◌≢◌, refl, sym, ap, ◌∙◌, inl, inr, none, some, true, false, List, [], ◌∷◌, arith, ◌==◌,
  Bool-cases, Option-cases, ==_iff, ==_ne, ==_refl,
}
use libsgfc.Tree.Store.{Ref, Store, same, ok}
use libsgfc.Tree.Relink.{remove_node_and_next, insert_node}
use libsgfc.Tree.Builder.{is_ancestor_or_null, place_first, set_first}
use libsgfc.Tree.Chain.{first, ahead, Chain-first, first_listed}
use libsgfc.Tree.Ancestor.{Above, depth, Cut, Above-cut}
use libsgfc.Tree.Shape.{
  Forest, Shape, Shape-cong, without, with_children, move, Ends, ends, Ends-mono, Ends-bind,
  Ends-step,
}
use libsgfc.Tree.Detach.{Detached}
use libsgfc.Tree.Truncate.{remove_node_and_next-Truncated}
use libsgfc.Tree.Moves.{relocate_via, ancestor_false}

no_first : (xs : List Ref) → first xs ≡ none → xs ≡ []
no_first [] e = refl
no_first (x ∷ xs) e = cc

ahead-first : (r : Ref) (xs : List Ref) → first xs ≡ some r → ahead r xs ≡ []
ahead-first r [] e = refl
ahead-first r (x ∷ xs) e = ground arith

pub record Shortened (s : Store) (kids : Forest) (p : Ref) (xs : List Ref) (s' : Store)
    : Type 0 where
  pub shape : Shape s' (with_children p xs kids)
  pub cut : Cut s.parent s'.parent

module _ {s : Store} {kids : Forest} (h : Shape s kids) (p : Ref) where
  pub same_children : (xs : List Ref) → kids p ≡ xs → Shape s (with_children p xs kids)
  same_children xs e = Shape-cong kids (with_children p xs kids) same_at h
    where
      same_at : (q : Ref) → kids q ≡ with_children p xs kids q
      same_at q = elim (Bool-cases (q == p)) [
        | inl eq ↦ rw eq (ap kids ((==_iff q p).0 eq) ∙ e)
        | inr ne ↦ rw ne
      ]

  -- The call of `RemoveNodeAndAllNextSiblingsFromParent` in `SetFirstChild` leaves no child.
  clear_children :
      Ends (λ fuel. remove_node_and_next fuel (s.first_child p) s) (λ u. Shortened s kids p [])
  unfolding remove_node_and_next
  clear_children = elim (Option-cases (s.first_child p)) [
    | inl e ↦
        ends (λ fuel. remove_node_and_next fuel (s.first_child p) s) tt s
          (λ fuel. rw (e, remove_node_and_next))
          (record { shape = same_children [] (childless e); cut = λ a. inl refl })
    | inr (r, e) ↦
        Ends-step (λ fuel. remove_node_and_next fuel (s.first_child p) s) 0
          (λ fuel le. ap (λ o. remove_node_and_next fuel o s) e)
          (Ends-mono (remove_node_and_next-Truncated h r p (parent_of r e))
            (λ u s' t. record { shape = rw (← nothing_ahead r e) t.shape; cut = t.cut }))
  ]
    where
      first_eq : s.first_child p ≡ first (kids p)
      first_eq = Chain-first s.next_sibling (s.first_child p) (kids p) (h.chain p)

      childless : s.first_child p ≡ none → kids p ≡ []
      childless e = no_first (kids p) (sym first_eq ∙ e)

      parent_of : (r : Ref) → s.first_child p ≡ some r → s.parent r ≡ some p
      parent_of r e = ground (arith, h.listed p r, first_listed (kids p) r (sym first_eq ∙ e))

      nothing_ahead : (r : Ref) → s.first_child p ≡ some r → ahead r (kids p) ≡ []
      nothing_ahead r e = ahead-first r (kids p) (sym first_eq ∙ e)

  -- `SetFirstChild` with null leaves the node without children.
  pub set_first-none :
      Ends (λ fuel. set_first fuel (some p) none s) (λ u s'. Shape s' (with_children p [] kids))
  unfolding set_first is_ancestor_or_null place_first
  set_first-none = elim (Option-cases (s.first_child p)) [
    | inl e ↦
        Ends-mono
          (Ends-step (λ fuel. set_first fuel (some p) none s) 0 (λ fuel le. rw (unchanged e))
            (ends (λ fuel. ok tt s) tt s (λ fuel. refl) (same_children [] (childless e))))
          (λ u s' k. k)
    | inr (r, e) ↦
        Ends-step (λ fuel. set_first fuel (some p) none s) 0 (λ fuel le. rw (changed r e))
          (Ends-bind (λ fuel u. ok tt) clear_children
            (λ u s' k. ends (λ fuel. ok tt s') tt s' (λ fuel. refl) k.shape))
  ]
    where
      unchanged : s.first_child p ≡ none → same (s.first_child p) none ≡ true
      unchanged e = rw e

      changed : (r : Ref) → s.first_child p ≡ some r → same (s.first_child p) none ≡ false
      changed r e = rw e

      childless : s.first_child p ≡ none → kids p ≡ []
      childless e =
          no_first (kids p)
            (sym (Chain-first s.next_sibling (s.first_child p) (kids p) (h.chain p)) ∙ e)

  module _ (c : Ref) (other : p ≢ c) (below : ¬ Above s.parent c p) where
    -- In a forest, for a child that is neither the node nor above it and is not its first child,
    -- SetFirstChild ends normally and makes the child the only one of the node.
    pub set_first-some :
        same (s.first_child p) (some c) ≡ false
        → Ends
            (λ fuel. set_first fuel (some p) (some c) s)
            (λ u s'. Shape s' (with_children p (c ∷ []) (without c kids)))
    unfolding set_first is_ancestor_or_null place_first
    set_first-some n =
        Ends-step (λ fuel. set_first fuel (some p) (some c) s) (suc (depth (h.rooted p)))
          (λ fuel le. rw (==_ne p c other) (rw n (rw (ancestor_false h c p other below fuel le))))
          (Ends-bind (λ fuel u. place_first fuel p (some c)) clear_children
            (λ u s' k.
              Ends-mono
                (relocate_via k.shape c p other (λ v. below (Above-cut k.cut v)) none
                  (λ fuel u t. insert_node fuel c (some p) (t.first_child p) t) tt refl
                  (λ fuel t d. ap (λ o. insert_node fuel c (some p) o t) (no_child s' k t d)))
                (λ u' s'' m. Shape-cong _ _ forest m.shape)))
      where
        no_child :
            (s' : Store)
            → Shortened s kids p [] s'
            → (t : Store) → Detached s' (with_children p [] kids) c t
            → t.first_child p ≡ none
        no_child s' k t d =
            Chain-first t.next_sibling (t.first_child p) [] (rw (==_refl p) at (d.shape.chain p))

        forest :
            (q : Ref)
            → move c p none (with_children p [] kids) q
              ≡ with_children p (c ∷ []) (without c kids) q
        forest q = elim (Bool-cases (q == p)) [ inl eq ↦ rw (eq, ==_refl p) | inr ne ↦ rw ne ]
