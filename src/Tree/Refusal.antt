-- ===== src/Tree/Refusal.antt =====
-- The calls of SgfcTreeBuilder that would make a cycle are refused with the links unchanged, and
-- the one call that is not guarded runs into a null pointer.
use libsgfc.Common.{
  ℕ, suc, ◌+◌, ◌≤◌, ◌≡◌, ◌≢◌, refl, sym, subst, Option, none, some, true, false, ◌&&◌, inl, inr,
  arith, ◌==◌, Bool-cases, ==_ne, ==_refl, erase, has-erase,
}
use libsgfc.Tree.Store.{
  Ref, Store, same, is_some, update, ok, crash, child_is_ancestor, new_child_is_ancestor,
  sibling_is_ancestor, parent_is_descendant,
}
use libsgfc.Tree.Node.{
  is_ancestor_of, is_descendant_of, get_previous_sibling, previous_below, is_root,
}
use libsgfc.Tree.Relink.{insert_node, link_before, sibling_before}
use libsgfc.Tree.Builder.{
  append_child, insert_child, is_foreign, replace_child, set_first, set_next, reparent,
  is_ancestor_or_null, is_descendant_or_null,
}
use libsgfc.Tree.Chain.{behind, Chain-first, Chain-behind, first_listed}
use libsgfc.Tree.Places.{behind_self}
use libsgfc.Tree.Ancestor.{
  Above, direct, further, Above-trans, Above-irrefl, depth, is_above-of_Above,
  ancestor_loop-is_above,
}
use libsgfc.Tree.Shape.{Forest, Shape, Refuses}
use libsgfc.Tree.Detach.{Detached, remove_node-Detached, member}
use libsgfc.Tree.Moves.{ancestor_false}

module _ {s : Store} {kids : Forest} (h : Shape s kids) (c p : Ref)
    (above : Above s.parent c p) where
  distinct_nodes : p ≢ c
  distinct_nodes e = Above-irrefl (h.rooted p) (subst (λ x. Above s.parent x p) (sym e) above)

  -- A node above `p` is not a child of `p`.
  no_child : same (s.parent c) (some p) ≡ false
  no_child = elim (Bool-cases (same (s.parent c) (some p))) [
    | inl e ↦ absurd (Above-irrefl (h.rooted c) (Above-trans (direct (ground arith)) above))
    | inr n ↦ n
  ]

  ancestor_true :
      (fuel : ℕ) → suc (depth (h.rooted p)) ≤ fuel → is_ancestor_of fuel c (some p) s ≡ ok true s
  unfolding is_ancestor_of
  ancestor_true fuel le =
      rw (ancestor_loop-is_above s c (h.rooted p) fuel le, is_above-of_Above c (h.rooted p) above)

  -- `AppendChild` refuses a child that stands above the node.
  pub append_child-Refuses :
      Refuses (λ fuel. append_child fuel (some p) (some c)) s child_is_ancestor
  unfolding append_child
  append_child-Refuses = record {
    enough = suc (depth (h.rooted p));
    runs = λ fuel le. rw (==_ne p c distinct_nodes) (rw no_child (rw (ancestor_true fuel le)));
  }

  pub insert_child-Refuses :
      (before : Option Ref)
      → is_foreign before p s ≡ ok false s
      → Refuses (λ fuel. insert_child fuel (some p) (some c) before) s child_is_ancestor
  unfolding insert_child
  insert_child-Refuses before native = record {
    enough = suc (depth (h.rooted p));
    runs =
        λ fuel le. rw (==_ne p c distinct_nodes, native) (rw no_child (rw (ancestor_true fuel le)));
  }

  pub replace_child-Refuses :
      (o : Ref)
      → s.parent o ≡ some p
      → Refuses (λ fuel. replace_child fuel (some p) (some c) (some o)) s new_child_is_ancestor
  unfolding replace_child
  replace_child-Refuses o e = record {
    enough = suc (depth (h.rooted p));
    runs = λ fuel le.
        rw (==_ne p c distinct_nodes)
          (rw e (rw (==_refl p, new_other) (rw (ancestor_true fuel le))));
  }
    where
      new_other : (c == o) ≡ false
      new_other = ground (arith, no_child)

  pub set_first-Refuses : Refuses (λ fuel. set_first fuel (some p) (some c)) s child_is_ancestor
  unfolding set_first is_ancestor_or_null
  set_first-Refuses = record {
    enough = suc (depth (h.rooted p));
    runs = λ fuel le. rw (==_ne p c distinct_nodes) (rw not_first (rw (ancestor_true fuel le)));
  }
    where
      not_first : same (s.first_child p) (some c) ≡ false
      not_first = ground (
        arith,
        no_child,
        h.listed p c,
        Chain-first s.next_sibling (s.first_child p) (kids p) (h.chain p),
        first_listed (kids p) c,
      )

  pub set_next-Refuses : Refuses (λ fuel. set_next fuel (some p) (some c)) s sibling_is_ancestor
  unfolding set_next is_root is_ancestor_or_null
  set_next-Refuses = record {
    enough = suc (depth (h.rooted p));
    runs = λ fuel le. rw inner (rw (==_ne p c distinct_nodes) (rw (ancestor_true fuel le)));
  }
    where
      inner : is_some (s.parent p) ≡ true
      inner = has_parent above
        where
          has_parent : {n : Ref} → Above s.parent c n → is_some (s.parent n) ≡ true
          has_parent (direct e) = rw e
          has_parent (further e v) = rw e

  pub reparent-Refuses : Refuses (λ fuel. reparent fuel (some c) (some p)) s parent_is_descendant
  unfolding reparent is_descendant_or_null is_descendant_of
  reparent-Refuses = record {
    enough = suc (depth (h.rooted p));
    runs = λ fuel le. rw (==_ne c p (λ e. distinct_nodes (sym e))) (
        rw no_child (
          rw (
            ancestor_loop-is_above s c (h.rooted p) fuel le,
            is_above-of_Above c (h.rooted p) above,
          )));
  }

  -- In a forest, for a node c above p, every method of SgfcTreeBuilder that would put c below p
  -- throws its exception for that and leaves the links unchanged: InsertChild with no reference
  -- child, ReplaceChild for every child of p, and the others.
  pub cycle-Refuses :
      Refuses (λ fuel. append_child fuel (some p) (some c)) s child_is_ancestor
      × Refuses (λ fuel. insert_child fuel (some p) (some c) none) s child_is_ancestor
      × Refuses (λ fuel. set_first fuel (some p) (some c)) s child_is_ancestor
      × Refuses (λ fuel. set_next fuel (some p) (some c)) s sibling_is_ancestor
      × Refuses (λ fuel. reparent fuel (some c) (some p)) s parent_is_descendant
      × ((o : Ref)
          → s.parent o ≡ some p
          → Refuses (λ fuel. replace_child fuel (some p) (some c) (some o)) s new_child_is_ancestor)
  cycle-Refuses = (
    append_child-Refuses,
    insert_child-Refuses none (unfold is_foreign in refl),
    set_first-Refuses,
    set_next-Refuses,
    reparent-Refuses,
    replace_child-Refuses,
  )

module _ {s : Store} {kids : Forest} (h : Shape s kids) (c p : Ref) (e : s.parent c ≡ some p) where
  not_below : ¬ Above s.parent c p
  not_below v = Above-irrefl (h.rooted c) (Above-trans (direct e) v)

  parent_other : p ≢ c
  parent_other q = Above-irrefl (h.rooted c) (direct (subst (λ x. s.parent c ≡ some x) q e))

  not_own_next : same (s.next_sibling c) (some c) ≡ false
  not_own_next = ground (
    arith,
    Chain-first s.next_sibling (s.next_sibling c) (behind c (kids p))
        (Chain-behind s.next_sibling c (s.first_child p) (kids p) (member h c p e) (h.chain p)),
    first_listed (behind c (kids p)) c,
    behind_self c (kids p) (h.distinct p),
  )

  insert_removed-crash :
      (fuel : ℕ) (t : Store) → Detached s kids c t → insert_node fuel c (some p) (some c) t ≡ crash
  unfolding insert_node link_before sibling_before get_previous_sibling
  insert_removed-crash fuel t d = rw not_first (rw (no_parent, previous_below))
    where
      no_parent : t.parent c ≡ none
      no_parent = rw d.parents (unfold update in rw (==_refl c))

      not_first : same (t.first_child p) (some c) ≡ false
      not_first = ground (
        arith,
        Chain-first t.next_sibling (t.first_child p) (erase c (kids p)) (d.shape.chain p),
        first_listed (erase c (kids p)) c,
        has-erase c c (kids p) (h.distinct p),
      )

  -- In a forest InsertChild of a child of the node in front of itself calls a member on a null
  -- pointer.
  pub insert_child_self-crash :
      (k : ℕ) × ((fuel : ℕ) → k ≤ fuel → insert_child fuel (some p) (some c) (some c) s ≡ crash)
  unfolding insert_child is_foreign
  insert_child_self-crash =
      let removed = remove_node-Detached h c in
      (
        suc (depth (h.rooted p)) + removed.enough,
        λ fuel le. rw (==_ne p c parent_other) (
            rw native (
              rw not_placed (
                rw (ancestor_false h c p parent_other not_below fuel (omega arith)) (
                  rw (removed.runs fuel (omega arith))
                    (insert_removed-crash fuel removed.final removed.post))))),
      )
    where
      native : same (s.parent c) (some p) ≡ true
      native = rw e (==_refl p)

      not_placed : (same (s.parent c) (some p) && same (s.next_sibling c) (some c)) ≡ false
      not_placed = ground (arith, not_own_next)
