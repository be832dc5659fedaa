-- ===== src/Tree/Moves.antt =====
-- `AppendChild`, `InsertChild`, `RemoveChild`, `ReplaceChild` and `SetParent` do to the forest what
-- they promise.
use libsgfc.Common.{
  ℕ, suc, ◌<◌, ◌≡◌, ◌≢◌, refl, sym, subst, fun_ext, ◌∙◌, inl, inr, Option, none, some, true, false,
  not, ◌&&◌, List, [], ◌∷◌, arith, ◌==◌, if◌then◌else◌, Bool-cases, ==_iff, ==_ne, ==_refl, has,
  erase, has-erase, erase-absent,
}
use libsgfc.Tree.Store.{
  Ref, Store, same, is_some, update, Outcome, ok, throws, crash, stuck, and_then, Cmd, pure,
}
use libsgfc.Tree.Node.{is_ancestor_of, is_descendant_of}
use libsgfc.Tree.Relink.{remove_node, insert_node}
use libsgfc.Tree.Builder.{
  append_child, is_foreign, insert_child, remove_child, replace_child, reparent, place_under,
  is_descendant_or_null,
}
use libsgfc.Tree.Chain.{place}
use libsgfc.Tree.Places.{place-erase}
use libsgfc.Tree.Ancestor.{Above, depth, Above-cut, update-Cut, not-Above, ancestor_loop-is_above}
use libsgfc.Tree.Shape.{
  Forest, Shape, Shape-cong, without, with_children, move, Ends, ends, Ends-mono, Ends-bind,
  Ends-step,
}
use libsgfc.Tree.Detach.{Detached, remove_node-Detached, member}
use libsgfc.Tree.Attach.{IsPlace, insert_node-Attached}

pub record Moved (s : Store) (kids : Forest) (c p : Ref) (before : Option Ref) (s' : Store)
    : Type 0 where
  pub shape : Shape s' (move c p before kids)
  pub parents : s'.parent ≡ update s.parent c (some p)

-- `new` in place of `old`.
abbrev pub swap : Ref → Ref → List Ref → List Ref
swap old new [] = []
swap old new (x ∷ xs) = if x == old then new ∷ xs else x ∷ swap old new xs

erase-place :
    (o c : Ref) (xs : List Ref)
    → o ≢ c
    → has o xs ≡ true
    → has c xs ≡ false
    → erase o (place (some o) c xs) ≡ swap o c xs
erase-place o c [] ne m a = cc
erase-place o c (x ∷ xs) ne m a = ground (arith, erase-place o c xs ne)

and_then_assoc :
    {A B C : Type 0} (m : Outcome A) (f : A → Cmd B) (g : B → Cmd C)
    → and_then (and_then m f) g ≡ and_then m (λ a t. and_then (f a t) g)
and_then_assoc (ok a t) f g = refl
and_then_assoc (throws x t) f g = refl
and_then_assoc crash f g = refl
and_then_assoc stuck f g = refl

abbrev pub relocate : ℕ → Ref → Ref → Option Ref → Store → Outcome (Unit {0})
relocate fuel c p before s =
    and_then (remove_node fuel c s) (λ u. insert_node fuel c (some p) before)

module _ {s : Store} {kids : Forest} (h : Shape s kids) (c p : Ref) (other : p ≢ c)
    (below : ¬ Above s.parent c p) where
  IsPlace-kept :
      (before : Option Ref) (s' : Store)
      → Detached s kids c s'
      → IsPlace s p before
      → same before (some c) ≡ false
      → IsPlace s' p before
  IsPlace-kept none s' d is n = tt
  IsPlace-kept (some r) s' d is n = rw d.parents (unfold update in rw n is)

  -- A node is taken out and then inserted by a call that, on the state in between, is
  -- `insert_node` at the place: the calls end, and the node stands at its new place.
  pub relocate_via :
      (before : Option Ref) (m : ℕ → Unit {0} → Cmd (Unit {0}))
      → IsPlace s p before
      → same before (some c) ≡ false
      → ((fuel : ℕ) (t : Store)
          → Detached s kids c t
          → m fuel tt t ≡ insert_node fuel c (some p) before t)
      → Ends (λ fuel. and_then (remove_node fuel c s) (m fuel)) (λ u. Moved s kids c p before)
  relocate_via before m is n agree = Ends-bind m (remove_node-Detached h c) λ u s' d.
      Ends-step (λ fuel. m fuel tt s') 0 (λ fuel le. agree fuel s' d)
        (Ends-mono
          (insert_node-Attached d.shape c p (rootless s' d) other (still_below s' d) before
            (IsPlace-kept before s' d is n))
          (λ u' s'' a. record { shape = a.shape; parents = a.parents ∙ twice s' d }))
    where
      rootless : (s' : Store) → Detached s kids c s' → s'.parent c ≡ none
      rootless s' d = rw d.parents (unfold update in ground arith)

      still_below : (s' : Store) → Detached s kids c s' → ¬ Above s'.parent c p
      still_below s' d v =
          below (Above-cut (update-Cut s.parent c) (subst (λ f. Above f c p) d.parents v))

      twice :
          (s' : Store)
          → Detached s kids c s'
          → update s'.parent c (some p) ≡ update s.parent c (some p)
      twice s' d = rw d.parents (fun_ext (λ a. unfold update in ground arith))

  pub relocate-Moved :
      (before : Option Ref)
      → IsPlace s p before
      → same before (some c) ≡ false
      → Ends (λ fuel. relocate fuel c p before s) (λ u. Moved s kids c p before)
  relocate-Moved before is n =
      relocate_via before (λ fuel u. insert_node fuel c (some p) before) is n (λ fuel t d. refl)

  -- A child that is at the place already.
  pub in_place :
      (before : Option Ref)
      → same (s.parent c) (some p) ≡ true
      → same (s.next_sibling c) before ≡ true
      → Moved s kids c p before s
  in_place before e n = record {
    shape = Shape-cong kids (move c p before kids) unmoved h;
    parents = fun_ext (λ a. unfold update in ground arith);
  }
    where
      next_eq : s.next_sibling c ≡ before
      next_eq = ground arith

      unmoved : (q : Ref) → kids q ≡ move c p before kids q
      unmoved q = elim (Bool-cases (q == p)) [
        | inl eq ↦
            rw (eq, (==_iff q p).0 eq, ← next_eq)
              (sym (
                place-erase s.next_sibling c (s.first_child p) (kids p) (h.distinct p)
                  (member h c p (ground arith)) (h.chain p)))
        | inr ne ↦ rw ne (sym (erase-absent c (kids q) (ground (arith, h.listed q c))))
      ]

  pub ancestor_false :
      (fuel : ℕ) → depth (h.rooted p) < fuel → is_ancestor_of fuel c (some p) s ≡ ok false s
  unfolding is_ancestor_of
  ancestor_false fuel lt =
      rw (ancestor_loop-is_above s c (h.rooted p) fuel lt, not-Above c (h.rooted p) below)

  -- In a forest, for a child that is neither the node nor above it, AppendChild ends normally,
  -- puts the child last among the children of the node, from wherever it was, and changes no other
  -- list of children.
  pub append_child-Moved :
      Ends (λ fuel. append_child fuel (some p) (some c) s) (λ u. Moved s kids c p none)
  unfolding append_child
  append_child-Moved =
      elim (Bool-cases (same (s.parent c) (some p) && not (is_some (s.next_sibling c)))) [
        | inl placed ↦
            ends (λ fuel. append_child fuel (some p) (some c) s) tt s
              (λ fuel. rw (==_ne p c other, placed)) (in_place none (ground arith) (ground arith))
        | inr moves ↦
            Ends-step (λ fuel. append_child fuel (some p) (some c) s) (suc (depth (h.rooted p)))
              (λ fuel le. rw (==_ne p c other, moves) (rw (ancestor_false fuel le)))
              (relocate-Moved none tt refl)
      ]

  native_place : (before : Option Ref) → IsPlace s p before → is_foreign before p s ≡ ok false s
  unfolding is_foreign
  native_place none is = refl
  native_place (some r) is = rw is (rw (==_refl p))

  -- In a forest, for a child that is neither the node nor above it, and a reference that is null
  -- or another child of the node, InsertChild ends normally, puts the child in front of the
  -- reference, or last if it is null, from wherever it was, and changes no other list of children.
  pub insert_child-Moved :
      (before : Option Ref)
      → IsPlace s p before
      → same before (some c) ≡ false
      → Ends (λ fuel. insert_child fuel (some p) (some c) before s) (λ u. Moved s kids c p before)
  unfolding insert_child
  insert_child-Moved before is n =
      elim (Bool-cases (same (s.parent c) (some p) && same (s.next_sibling c) before)) [
        | inl placed ↦
            ends (λ fuel. insert_child fuel (some p) (some c) before s) tt s
              (λ fuel. rw (==_ne p c other, native_place before is) (rw placed))
              (in_place before (ground arith) (ground arith))
        | inr moves ↦
            Ends-step (λ fuel. insert_child fuel (some p) (some c) before s)
              (suc (depth (h.rooted p)))
              (λ fuel le.
                rw (==_ne p c other, native_place before is)
                  (rw moves (rw (ancestor_false fuel le))))
              (relocate-Moved before is n)
      ]

  -- In a forest, for a parent that is neither the node nor below it nor its parent already,
  -- SetParent ends normally, puts the node last among the children of the parent and changes no
  -- other list of children.
  pub reparent-Moved :
      s.parent c ≢ some p
      → Ends (λ fuel. reparent fuel (some c) (some p) s) (λ u. Moved s kids c p none)
  unfolding reparent is_descendant_or_null is_descendant_of place_under
  reparent-Moved ne =
      Ends-step (λ fuel. reparent fuel (some c) (some p) s) (suc (depth (h.rooted p)))
        (λ fuel le.
          rw (==_ne c p (λ e. other (sym e)), elsewhere)
            (rw (ancestor_loop-is_above s c (h.rooted p) fuel le, not-Above c (h.rooted p) below)))
        (relocate-Moved none tt refl)
    where
      elsewhere : same (s.parent c) (some p) ≡ false
      elsewhere = ground arith

  -- In a forest, for a new child that is neither the node nor above it, and another child of the
  -- node as the old one, ReplaceChild ends normally and puts the new child where the old one was,
  -- from wherever it was.
  pub replace_child-Replaced :
      (o : Ref)
      → s.parent o ≡ some p
      → o ≢ c
      → Ends
          (λ fuel. replace_child fuel (some p) (some c) (some o) s)
          (λ u s'. Shape s' (with_children p (swap o c (erase c (kids p))) (without c kids)))
  unfolding replace_child
  replace_child-Replaced o e ne =
      Ends-step (λ fuel. replace_child fuel (some p) (some c) (some o) s) (suc (depth (h.rooted p)))
        (λ fuel le. rw (==_ne p c other) (
          rw e (
            rw (==_refl p, ==_ne c o (λ q. ne (sym q)))
              (rw (ancestor_false fuel le) (sym (and_then_assoc (remove_node fuel c s) _ _))))))
        (Ends-bind (λ fuel u. remove_node fuel o) (relocate-Moved (some o) e (==_ne o c ne))
          (λ u s' m.
            Ends-mono (remove_node-Detached m.shape o)
              (λ u' s'' d. Shape-cong _ _ swapped d.shape)))
    where
      old_there : has o (erase c (kids p)) ≡ true
      old_there = ground (arith, has-erase o c (kids p) (h.distinct p), h.listed p o)

      new_gone : has c (erase c (kids p)) ≡ false
      new_gone = ground (arith, has-erase c c (kids p) (h.distinct p))

      old_absent : (q : Ref) → (q == p) ≡ false → has o (erase c (kids q)) ≡ false
      old_absent q n = ground (arith, has-erase o c (kids q) (h.distinct q), h.listed q o)

      swapped :
          (q : Ref)
          → erase o (move c p (some o) kids q)
            ≡ with_children p (swap o c (erase c (kids p))) (without c kids) q
      swapped q = elim (Bool-cases (q == p)) [
        | inl eq ↦ rw eq (erase-place o c (erase c (kids p)) ne old_there new_gone)
        | inr n ↦ rw n (erase-absent o (erase c (kids q)) (old_absent q n))
      ]

module _ {s : Store} {kids : Forest} (h : Shape s kids) (c p : Ref) where
  -- In a forest RemoveChild of a child of the node ends normally, takes it out of the node's
  -- children and leaves it a root.
  pub remove_child-Detached :
      s.parent c ≡ some p
      → Ends (λ fuel. remove_child fuel (some p) (some c) s) (λ u. Detached s kids c)
  unfolding remove_child
  remove_child-Detached e =
      Ends-step (λ fuel. remove_child fuel (some p) (some c) s) 0 (λ fuel le. rw mine)
        (remove_node-Detached h c)
    where
      mine : same (s.parent c) (some p) ≡ true
      mine = rw e (==_refl p)

  -- `SetParent` with null leaves the node a root.
  pub reparent-Detached :
      s.parent c ≡ some p → Ends (λ fuel. reparent fuel (some c) none s) (λ u. Detached s kids c)
  unfolding reparent is_descendant_or_null place_under
  reparent-Detached e =
      Ends-step (λ fuel. reparent fuel (some c) none s) 0 (λ fuel le. rw placed)
        (Ends-bind (λ fuel u. pure tt) (remove_node-Detached h c)
          (λ u s' d. ends (λ fuel. ok tt s') tt s' (λ fuel. refl) d))
    where
      placed : same (s.parent c) none ≡ false
      placed = rw e
