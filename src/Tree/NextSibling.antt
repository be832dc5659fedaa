-- ===== src/Tree/NextSibling.antt =====
-- `SetNextSibling` cuts the list of siblings behind a node and puts one node at its end.
use libsgfc.Common.{
  suc, ◌≡◌, ◌≢◌, refl, sym, ap, ap₂, subst, ◌∙◌, inl, inr, none, some, true, false, arith, ◌==◌,
  Bool-cases, Option-cases, ==_ne, ==_refl, erase,
}
use libsgfc.Tree.Store.{Ref, Store, same, update, ok}
use libsgfc.Tree.Node.{is_root}
use libsgfc.Tree.Relink.{remove_node_and_next, insert_node}
use libsgfc.Tree.Builder.{is_ancestor_or_null, place_next, set_next}
use libsgfc.Tree.Chain.{Chain, place}
use libsgfc.Tree.Ancestor.{Above, further, direct, depth, Above-cut}
use libsgfc.Tree.Shape.{
  Forest, Shape, Shape-cong, without, with_children, move, Ends, ends, Ends-mono, Ends-bind,
  Ends-step,
}
use libsgfc.Tree.Detach.{Detached, member}
use libsgfc.Tree.Heads.{Shortened, same_children}
use libsgfc.Tree.Truncate.{remove_node_and_next-Truncated}
use libsgfc.Tree.Upto.{upto, ahead-upto, upto_all, Chain-last, last-erase-upto}
use libsgfc.Tree.Moves.{relocate_via, ancestor_false}

module _ {s : Store} {kids : Forest} (h : Shape s kids) (n p : Ref) (e : s.parent n ≡ some p) where
  chain : Chain s.next_sibling (s.first_child p) (kids p)
  chain = h.chain p

  -- The call of `RemoveNodeAndAllNextSiblingsFromParent` leaves `n` as the last child.
  clear_behind :
      Ends
        (λ fuel. remove_node_and_next fuel (s.next_sibling n) s)
        (λ u s'. Shortened s kids p (upto n (kids p)) s' × (s'.parent n ≡ some p))
  unfolding remove_node_and_next
  clear_behind = elim (Option-cases (s.next_sibling n)) [
    | inl z ↦
        ends (λ fuel. remove_node_and_next fuel (s.next_sibling n) s) tt s
          (λ fuel. rw (z, remove_node_and_next))
          (
            record {
              shape = same_children h p _ (
                  sym (
                    upto_all s.next_sibling n (s.first_child p) (kids p) (member h n p e) z chain));
              cut = λ a. inl refl;
            },
            e,
          )
    | inr (r, z) ↦
        let (cut_there, listed, kept) =
          ahead-upto s.next_sibling n r (s.first_child p) (kids p) (h.distinct p) (member h n p e) z
            chain in
        Ends-step (λ fuel. remove_node_and_next fuel (s.next_sibling n) s) 0
          (λ fuel le. ap (λ o. remove_node_and_next fuel o s) z)
          (Ends-mono (remove_node_and_next-Truncated h r p (ground (arith, h.listed p r)))
            (λ u s' t.
              (record { shape = rw (← cut_there) t.shape; cut = t.cut }, t.kept n kept ∙ e)))
  ]

  -- `SetNextSibling` with null makes the node the last child of its parent.
  pub set_next-none :
      Ends
        (λ fuel. set_next fuel (some n) none s)
        (λ u s'. Shape s' (with_children p (upto n (kids p)) kids))
  unfolding set_next is_root is_ancestor_or_null place_next
  set_next-none = elim (Option-cases (s.next_sibling n)) [
    | inl z ↦
        Ends-step (λ fuel. set_next fuel (some n) none s) 0 (λ fuel le. rw e (rw (unchanged z)))
          (ends (λ fuel. ok tt s) tt s (λ fuel. refl)
            (same_children h p _ (
              sym (upto_all s.next_sibling n (s.first_child p) (kids p) (member h n p e) z chain))))
    | inr (r, z) ↦
        Ends-step (λ fuel. set_next fuel (some n) none s) 0 (λ fuel le. rw e (rw (changed r z)))
          (Ends-bind (λ fuel u. ok tt) clear_behind
            (λ u s' k. ends (λ fuel. ok tt s') tt s' (λ fuel. refl) (k.0).shape))
  ]
    where
      unchanged : s.next_sibling n ≡ none → same (s.next_sibling n) none ≡ true
      unchanged z = rw z

      changed : (r : Ref) → s.next_sibling n ≡ some r → same (s.next_sibling n) none ≡ false
      changed r z = rw z

  module _ (c : Ref) (other : n ≢ c) (below : ¬ Above s.parent c n) where
    -- In a forest, for a node with a parent and a sibling that is neither the node nor above it
    -- nor its next sibling, SetNextSibling ends normally, cuts the siblings behind the node off
    -- and puts the sibling directly behind it.
    pub set_next-some :
        same (s.next_sibling n) (some c) ≡ false
        → Ends
            (λ fuel. set_next fuel (some n) (some c) s)
            (λ u s'.
              Shape s'
                (with_children p (place none c (erase c (upto n (kids p)))) (without c kids)))
    unfolding set_next is_root is_ancestor_or_null place_next
    set_next-some ne =
        Ends-step (λ fuel. set_next fuel (some n) (some c) s) (suc (depth (h.rooted n)))
          (λ fuel le.
            rw e (rw (==_ne n c other) (rw (ancestor_false h c n other below fuel le) (rw ne))))
          (Ends-bind (λ fuel u. place_next fuel n (some c)) clear_behind
            (λ u s' k.
              Ends-mono
                (relocate_via (k.0).shape c p parent_other (not_above_parent s' k) none
                  (λ fuel u t. insert_node fuel c (t.parent n) (t.next_sibling n) t) tt refl
                  (λ fuel t d.
                    ap₂ (λ q o. insert_node fuel c q o t) (parent_kept s' k t d)
                      (no_next s' k t d)))
                (λ u' s'' m. Shape-cong _ _ forest m.shape)))
      where
        Cleared : Store → Type 0
        Cleared s' = Shortened s kids p (upto n (kids p)) s' × (s'.parent n ≡ some p)

        parent_other : p ≢ c
        parent_other q = below (direct (subst (λ v. s.parent n ≡ some v) q e))

        not_above_parent : (s' : Store) → Cleared s' → ¬ Above s'.parent c p
        not_above_parent s' k v = below (further e (Above-cut (k.0).cut v))

        parent_kept :
            (s' : Store)
            → Cleared s'
            → (t : Store) → Detached s' (with_children p (upto n (kids p)) kids) c t
            → t.parent n ≡ some p
        parent_kept s' k t d = rw d.parents (unfold update in rw (==_ne n c other) k.1)

        no_next :
            (s' : Store)
            → Cleared s'
            → (t : Store) → Detached s' (with_children p (upto n (kids p)) kids) c t
            → t.next_sibling n ≡ none
        no_next s' k t d =
            Chain-last t.next_sibling n (t.first_child p) (erase c (upto n (kids p)))
              (last-erase-upto n c (kids p) (member h n p e) other)
              (rw (==_refl p) at (d.shape.chain p))

        forest :
            (q : Ref)
            → move c p none (with_children p (upto n (kids p)) kids) q
              ≡ with_children p (place none c (erase c (upto n (kids p)))) (without c kids) q
        forest q = elim (Bool-cases (q == p)) [ inl eq ↦ rw (eq, ==_refl p) | inr no' ↦ rw no' ]
