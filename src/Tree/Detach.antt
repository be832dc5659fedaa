-- ===== src/Tree/Detach.antt =====
-- `RemoveNodeFromCurrentLocation` takes a node out of the forest.
use libsgfc.Common.{
  ℕ, suc, ◌<◌, ◌≡◌, refl, sym, subst, fun_ext, inl, inr, Option, none, some, true, false, List, [],
  ◌∷◌, arith, ◌==◌, Bool-cases, Option-cases, ==_iff, length, has, Distinct, erase, has-erase,
  erase-absent, erase-Distinct,
}
use libsgfc.Tree.Store.{Ref, Store, same, update, set_parent, set_next_sibling, ok, and_then, deref}
use libsgfc.Tree.Node.{is_root, get_previous_sibling, previous_below}
use libsgfc.Tree.Relink.{unlink_sibling, remove_node}
use libsgfc.Tree.Chain.{
  Chain, first, previous, behind, resume, Chain-first, Chain-behind, Chain-frame, Chain-resume,
}
use libsgfc.Tree.Places.{previous-resume-erase, previous-behind, has_both, previous-some_of_has}
use libsgfc.Tree.Loops.{previous_loop-previous}
use libsgfc.Tree.Ancestor.{Rooted-cut, update-Cut}
use libsgfc.Tree.Shape.{Forest, Shape, Shape-cong, without, Ends, ends}

erase_head : (c x : Ref) (xs : List Ref) → x ≡ c → erase c (x ∷ xs) ≡ xs
erase_head c x xs e = ground arith

pub written : (f : Ref → Option Ref) (p : Ref) (v : Option Ref) → v ≡ update f p v p
unfolding update
written f p v = ground arith

-- Links at work on one chain.
module _ (next : Ref → Option Ref) (c : Ref) (o : Option Ref) (xs : List Ref) (d : Distinct xs)
    (mem : has c xs ≡ true) (k : Chain next o xs) where
  reset-Chain :
      (next' : Ref → Option Ref)
      → Chain next' o (erase c xs)
      → Chain (update next' c none) o (erase c xs)
  unfolding update
  reset-Chain next' k' =
      Chain-frame next' (update next' c none) o (erase c xs)
        (λ a h. ground (arith, has-erase a c xs d)) k'

  detach_later :
      (p : Ref)
      → previous c xs ≡ some p
      → Chain (update (update next p (next c)) c none) o (erase c xs)
  detach_later p e =
      reset-Chain (update next p (next c))
        (subst (Chain _ o) (previous-resume-erase c p xs d e) linked)
    where
      linked : Chain (update next p (next c)) o (resume p (behind c xs) xs)
      linked =
          Chain-resume next (update next p (next c)) p (behind c xs) o xs d (has_both c p xs e).1
            (λ a h n. unfold update in ground arith)
            (subst (λ v. Chain (update next p (next c)) v (behind c xs)) (written next p (next c))
              (Chain-frame next (update next p (next c)) (next c) (behind c xs)
                (λ a h. unfold update in ground (arith, previous-behind c p xs d e))
                (Chain-behind next c o xs mem k)))
            k

detach_first :
    (next : Ref → Option Ref) (c : Ref) (o : Option Ref) (xs : List Ref)
    → Distinct xs
    → first xs ≡ some c
    → Chain next o xs
    → Chain (update next c none) (next c) (erase c xs)
detach_first next c o [] d e k = cc
detach_first next c o (x ∷ xs) d e k =
    let same_node : x ≡ c = ground arith in
    rw (erase_head c x xs same_node, ← same_node)
      (Chain-frame next (update next x none) (next x) xs (λ a h. unfold update in ground arith) k.1)

-- The state that `RemoveNodeFromCurrentLocation` leaves.
abbrev pub detached : Store → Ref → (first next : Ref → Option Ref) → Store
detached s c first next = record {
  parent = update s.parent c none;
  first_child = first;
  next_sibling = update next c none;
}

pub record Detached (s : Store) (kids : Forest) (c : Ref) (s' : Store) : Type 0 where
  pub shape : Shape s' (without c kids)
  pub parents : s'.parent ≡ update s.parent c none

module _ {s : Store} {kids : Forest} (h : Shape s kids) (c : Ref) where
  detached-Shape :
      (p : Ref) (f n : Ref → Option Ref)
      → s.parent c ≡ some p
      → Chain (update n c none) (f p) (erase c (kids p))
      → ((q : Ref) → (q == p) ≡ false → f q ≡ s.first_child q)
      → ((a : Ref) → has a (kids p) ≡ false → n a ≡ s.next_sibling a)
      → Detached s kids c (detached s c f n)
  detached-Shape p f n e k same_first same_next = record {
    shape = record {
      chain = chains;
      distinct = λ q. erase-Distinct c (kids q) (h.distinct q);
      listed = λ q a.
          unfold update in ground (arith, has-erase a c (kids q) (h.distinct q), h.listed q a);
      alone = λ a top. unfold update in ground (arith, same_next a, h.listed p a, h.alone a);
      rooted = λ a. Rooted-cut (update-Cut s.parent c) (h.rooted a);
    };
    parents = refl;
  }
    where
      chains : (q : Ref) → Chain (update n c none) (f q) (erase c (kids q))
      chains q = elim (Bool-cases (q == p)) [
        | inl eq ↦
            subst (λ x. Chain (update n c none) (f x) (erase c (kids x))) (sym ((==_iff q p).0 eq))
              k
        | inr other ↦
            let absent : has c (kids q) ≡ false = ground (arith, h.listed q c) in
            rw (erase-absent c (kids q) absent, same_first q other)
              (Chain-frame s.next_sibling (update n c none) (s.first_child q) (kids q)
                (λ a m. unfold update in ground (arith, same_next a, h.listed p a, h.listed q a))
                (h.chain q))
      ]

  pub member : (p : Ref) → s.parent c ≡ some p → has c (kids p) ≡ true
  member p e = ground (arith, h.listed p c)

  pub previous-eq :
      (p : Ref) (fuel : ℕ)
      → s.parent c ≡ some p
      → length (kids p) < fuel
      → same (s.first_child p) (some c) ≡ false
      → get_previous_sibling fuel s c ≡ some (previous c (kids p))
  unfolding get_previous_sibling
  previous-eq p fuel e lt n =
      rw (e, previous_below)
        (rw n (previous_loop-previous s c (kids p) (s.first_child p) fuel (h.chain p) lt))

  Detached-root : s.parent c ≡ none → Detached s kids c s
  Detached-root e = record {
    shape =
        Shape-cong kids (without c kids)
          (λ p. sym (erase-absent c (kids p) (ground (arith, h.listed p c)))) h;
    parents = fun_ext (λ a. unfold update in ground arith);
  }

  detached-first :
      (p : Ref)
      → s.parent c ≡ some p
      → same (s.first_child p) (some c) ≡ true
      → Detached s kids c (detached s c (update s.first_child p (s.next_sibling c)) s.next_sibling)
  detached-first p e m =
      detached-Shape p (update s.first_child p (s.next_sibling c)) s.next_sibling e
        (subst (λ v. Chain (update s.next_sibling c none) v (erase c (kids p)))
          (written s.first_child p (s.next_sibling c))
          (detach_first s.next_sibling c (s.first_child p) (kids p) (h.distinct p)
            (ground (arith, Chain-first s.next_sibling (s.first_child p) (kids p) (h.chain p)))
            (h.chain p)))
        (λ q n. unfold update in ground arith) (λ a n. refl)

  detached-later :
      (p v : Ref)
      → s.parent c ≡ some p
      → previous c (kids p) ≡ some v
      → Detached s kids c (detached s c s.first_child (update s.next_sibling v (s.next_sibling c)))
  detached-later p v e pre =
      detached-Shape p s.first_child (update s.next_sibling v (s.next_sibling c)) e
        (detach_later s.next_sibling c (s.first_child p) (kids p) (h.distinct p) (member p e)
          (h.chain p) v pre)
        (λ q n. refl) (λ a n. unfold update in ground (arith, has_both c v (kids p) pre))

  pub not_first :
      (p : Ref) (o : Option Ref)
      → same (s.first_child p) o ≡ false
      → same (first (kids p)) o ≡ false
  not_first p o n = rw (← Chain-first s.next_sibling (s.first_child p) (kids p) (h.chain p)) n

  remove_node_below :
      (fuel : ℕ) (p : Ref)
      → s.parent c ≡ some p
      → remove_node fuel c s
        ≡ and_then
            (unlink_sibling fuel c p s)
            (λ u t. ok tt (set_next_sibling (set_parent t c none) c none))
  unfolding remove_node is_root
  remove_node_below fuel p e = rw e (rw (e, deref))

  -- With enough fuel `RemoveNodeFromCurrentLocation` ends, the node is no child of any node any
  -- more and has no parent, and everything else stays.
  pub remove_node-Detached : Ends (λ fuel. remove_node fuel c s) (λ u. Detached s kids c)
  unfolding unlink_sibling
  remove_node-Detached = elim (Option-cases (s.parent c)) [
    | inl e ↦
        ends (λ fuel. remove_node fuel c s) tt s (λ fuel. unfold remove_node is_root in rw e)
          (Detached-root e)
    | inr (p, e) ↦ elim (Bool-cases (same (s.first_child p) (some c))) [
      | inl m ↦
          ends (λ fuel. remove_node fuel c s) tt _ (λ fuel. rw (remove_node_below fuel p e) (rw m))
            (detached-first p e m)
      | inr n ↦
          let (v, pre) = previous-some_of_has c (kids p) (member p e) (not_first p (some c) n) in
          record {
            enough = suc (length (kids p));
            value = tt;
            final = detached s c s.first_child (update s.next_sibling v (s.next_sibling c));
            runs = λ fuel le.
                rw (remove_node_below fuel p e) (rw n (rw (previous-eq p fuel e le n, pre)));
            post = detached-later p v e pre;
          }
    ]
  ]
