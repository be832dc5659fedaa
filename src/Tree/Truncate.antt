-- ===== src/Tree/Truncate.antt =====
-- `RemoveNodeAndAllNextSiblingsFromParent` cuts a list of siblings short.
use libsgfc.Common.{
  ℕ, zero, suc, ◌<◌, ◌≤◌, ◌≡◌, refl, ap, subst, inl, inr, Option, none, some, true, false, List, [],
  ◌∷◌, arith, ◌==◌, if◌then◌else◌, Bool-cases, ==_iff, length, has, Distinct,
}
use libsgfc.Tree.Store.{Ref, Store, same, update, set_parent, set_next_sibling, ok}
use libsgfc.Tree.Node.{get_previous_sibling, previous_below}
use libsgfc.Tree.Relink.{clear_first_child, clear_next_sibling, unlink_loop, remove_node_and_next}
use libsgfc.Tree.Chain.{
  Chain, first, previous, behind, ahead, Chain-first, Chain-behind, Chain-frame, Chain-resume,
}
use libsgfc.Tree.Places.{
  previous-resume-ahead, previous-behind, previous-ne, has_both, has-ahead, ahead-Distinct,
  behind-Distinct, behind_self, length-behind, has-behind, previous-some_of_has,
}
use libsgfc.Tree.Ancestor.{Cut, Rooted-cut}
use libsgfc.Tree.Shape.{Forest, Shape, with_children, Ends}
use libsgfc.Tree.Detach.{member, previous-eq, not_first}

-- The links with parent and next sibling of each node in a list set to null.
cleared : List Ref → Store → Store
cleared [] s = s
cleared (x ∷ xs) s = cleared xs (set_next_sibling (set_parent s x none) x none)

parent-cleared :
    (a : Ref) (xs : List Ref) (s : Store)
    → (cleared xs s).parent a ≡ (if has a xs then none else s.parent a)
unfolding cleared update
parent-cleared a [] s = refl
parent-cleared a (x ∷ xs) s =
    ground (arith, parent-cleared a xs (set_next_sibling (set_parent s x none) x none))

next_sibling-cleared :
    (a : Ref) (xs : List Ref) (s : Store)
    → (cleared xs s).next_sibling a ≡ (if has a xs then none else s.next_sibling a)
unfolding cleared update
next_sibling-cleared a [] s = refl
next_sibling-cleared a (x ∷ xs) s =
    ground (arith, next_sibling-cleared a xs (set_next_sibling (set_parent s x none) x none))

first_child-cleared : (xs : List Ref) (s : Store) → (cleared xs s).first_child ≡ s.first_child
unfolding cleared
first_child-cleared [] s = refl
first_child-cleared (x ∷ xs) s =
    first_child-cleared xs (set_next_sibling (set_parent s x none) x none)

unlink_loop-cleared :
    (xs : List Ref) (o : Option Ref) (fuel : ℕ) (s : Store)
    → Distinct xs
    → Chain s.next_sibling o xs
    → length xs < fuel
    → unlink_loop fuel o s ≡ ok tt (cleared xs s)
unfolding unlink_loop cleared
unlink_loop-cleared xs o zero s d k lt = absurd (omega arith)
unlink_loop-cleared [] o (suc fuel) s d k lt = rw (k, unlink_loop)
unlink_loop-cleared (x ∷ xs) o (suc fuel) s d k lt =
    rw (k.0, unlink_loop)
      (unlink_loop-cleared xs (s.next_sibling x) fuel _ d.1
        (Chain-frame s.next_sibling (update s.next_sibling x none) (s.next_sibling x) xs
          (λ a m. unfold update in ground arith) k.1)
        (omega arith))

-- The state that the method leaves, after the write `t` to the parent or the previous sibling.
pub record Truncated (s : Store) (kids : Forest) (c p : Ref) (s' : Store) : Type 0 where
  pub shape : Shape s' (with_children p (ahead c (kids p)) kids)
  pub cut : Cut s.parent s'.parent
  pub kept : (a : Ref) → has a (c ∷ behind c (kids p)) ≡ false → s'.parent a ≡ s.parent a

module _ {s : Store} {kids : Forest} (h : Shape s kids) (c p : Ref) (e : s.parent c ≡ some p) where
  tail : List Ref
  tail = c ∷ behind c (kids p)

  tail_listed : (a : Ref) → has a tail ≡ true → has a (kids p) ≡ true
  unfolding tail
  tail_listed a m = ground (arith, has-behind a c (kids p), member h c p e)

  abbrev relinked : (f n : Ref → Option Ref) → Store
  relinked f n = record { parent = s.parent; first_child = f; next_sibling = n }

  truncated :
      (f n : Ref → Option Ref)
      → Chain n (f p) (ahead c (kids p))
      → ((q : Ref) → (q == p) ≡ false → f q ≡ s.first_child q)
      → ((a : Ref) → has a (kids p) ≡ false → n a ≡ s.next_sibling a)
      → Truncated s kids c p (cleared tail (relinked f n))
  truncated f n k same_first same_next = record {
    shape = record {
      chain = chains;
      distinct = distincts;
      listed = λ q a. ground (
        arith,
        parent_eq a,
        h.listed q a,
        h.listed p a,
        tail_listed a,
        has-ahead a c (kids p) (h.distinct p) (member h c p e),
        unfolded a,
      );
      alone = λ a top. ground (arith, parent_eq a, next_eq a, same_next a, h.listed p a, h.alone a);
      rooted = λ a. Rooted-cut cuts (h.rooted a);
    };
    cut = cuts;
    kept = λ a m. ground (arith, parent_eq a, unfolded a);
  }
    where
      t : Store
      t = cleared tail (relinked f n)

      kids' : Forest
      kids' = with_children p (ahead c (kids p)) kids

      unfolded : (a : Ref) → has a tail ≡ has a (c ∷ behind c (kids p))
      unfolded a = unfold tail in refl

      parent_eq : (a : Ref) → t.parent a ≡ (if has a tail then none else s.parent a)
      parent_eq a = parent-cleared a tail (relinked f n)

      next_eq : (a : Ref) → t.next_sibling a ≡ (if has a tail then none else n a)
      next_eq a = next_sibling-cleared a tail (relinked f n)

      cuts : Cut s.parent t.parent
      cuts a = ground (arith, parent_eq a)

      distincts : (q : Ref) → Distinct (kids' q)
      distincts q = elim (Bool-cases (q == p)) [
        | inl eq ↦ rw eq (ahead-Distinct c (kids p) (h.distinct p))
        | inr ne ↦ rw ne (h.distinct q)
      ]

      first_eq : (q : Ref) → t.first_child q ≡ f q
      first_eq q = ap (λ (g : Ref → Option Ref). g q) (first_child-cleared tail (relinked f n))

      chains : (q : Ref) → Chain t.next_sibling (t.first_child q) (kids' q)
      chains q = elim (Bool-cases (q == p)) [
        | inl eq ↦
            rw (eq, first_eq q, (==_iff q p).0 eq)
              (Chain-frame n t.next_sibling (f p) (ahead c (kids p))
                (λ a m. ground (
                  arith,
                  next_eq a,
                  unfolded a,
                  has-ahead a c (kids p) (h.distinct p) (member h c p e),
                ))
                k)
        | inr ne ↦
            rw (ne, first_eq q, same_first q ne)
              (Chain-frame s.next_sibling t.next_sibling (s.first_child q) (kids q)
                (λ a m.
                  ground (arith, next_eq a, same_next a, tail_listed a, h.listed p a, h.listed q a))
                (h.chain q))
      ]

  tail-Distinct : Distinct tail
  unfolding tail
  tail-Distinct = (behind_self c (kids p) (h.distinct p), behind-Distinct c (kids p) (h.distinct p))

  tail-Chain : Chain s.next_sibling (some c) tail
  unfolding tail
  tail-Chain =
      (refl, Chain-behind s.next_sibling c (s.first_child p) (kids p) (member h c p e) (h.chain p))

  length-tail : length tail ≤ suc (length (kids p))
  unfolding tail
  length-tail = omega (arith, length-behind c (kids p))

  later_next : Ref → Ref → Option Ref
  later_next v = update s.next_sibling v none

  later-Chain :
      (v : Ref)
      → previous c (kids p) ≡ some v
      → Chain (later_next v) (s.first_child p) (ahead c (kids p))
  unfolding later_next
  later-Chain v pre =
      subst (Chain (update s.next_sibling v none) (s.first_child p))
        (previous-resume-ahead c v (kids p) (h.distinct p) pre)
        (Chain-resume s.next_sibling _ v [] (s.first_child p) (kids p) (h.distinct p)
          (has_both c v (kids p) pre).1 (λ a m n. unfold update in ground arith)
          (unfold update in ground arith) (h.chain p))

  later_tail-Chain : (v : Ref) → previous c (kids p) ≡ some v → Chain (later_next v) (some c) tail
  unfolding later_next
  later_tail-Chain v pre =
      Chain-frame s.next_sibling (update s.next_sibling v none) (some c) tail
        (λ a m.
          unfold update tail in
          ground (
            arith,
            previous-behind c v (kids p) (h.distinct p) pre,
            previous-ne c v (kids p) (h.distinct p) pre,
          ))
        tail-Chain

  first-Truncated :
      same (s.first_child p) (some c) ≡ true
      → Truncated s kids c p (cleared tail (relinked (update s.first_child p none) s.next_sibling))
  first-Truncated m =
      truncated (update s.first_child p none) s.next_sibling
        (no_child (kids p) (Chain-first s.next_sibling (s.first_child p) (kids p) (h.chain p)))
        (λ q n. unfold update in ground arith) (λ a n. refl)
    where
      no_child :
          (xs : List Ref)
          → s.first_child p ≡ first xs
          → Chain s.next_sibling (update s.first_child p none p) (ahead c xs)
      no_child [] f = unfold update in ground arith
      no_child (x ∷ xs) f =
          let eq : (x == c) ≡ true = ground arith in rw eq (unfold update in ground arith)

  later-Truncated :
      (v : Ref)
      → previous c (kids p) ≡ some v
      → Truncated s kids c p (cleared tail (relinked s.first_child (later_next v)))
  unfolding later_next
  later-Truncated v pre =
      truncated s.first_child (update s.next_sibling v none)
        (unfold later_next in later-Chain v pre) (λ q n. refl)
        (λ a n. unfold update in ground (arith, has_both c v (kids p) pre))

  first_previous :
      same (s.first_child p) (some c) ≡ true
      → (fuel : ℕ) → get_previous_sibling fuel s c ≡ some none
  unfolding get_previous_sibling previous_below
  first_previous m fuel = rw (e, previous_below) (rw m)

  -- With enough fuel `RemoveNodeAndAllNextSiblingsFromParent` ends, the node and all its next
  -- siblings are no children of any node any more, and everything else stays.
  pub remove_node_and_next-Truncated :
      Ends (λ fuel. remove_node_and_next fuel (some c) s) (λ u. Truncated s kids c p)
  unfolding remove_node_and_next clear_first_child clear_next_sibling
  remove_node_and_next-Truncated = elim (Bool-cases (same (s.first_child p) (some c))) [
    | inl m ↦ record {
      enough = suc (suc (length (kids p)));
      value = tt;
      final = cleared tail (relinked (update s.first_child p none) s.next_sibling);
      runs = λ fuel le. rw (first_previous m fuel) (
          rw e (
            rw m (
              unlink_loop-cleared tail (some c) fuel _ tail-Distinct tail-Chain
                (omega (arith, length-tail)))));
      post = first-Truncated m;
    }
    | inr n ↦
        let (v, pre) =
          previous-some_of_has c (kids p) (member h c p e) (not_first h c p (some c) n) in
        record {
          enough = suc (suc (length (kids p)));
          value = tt;
          final = cleared tail (relinked s.first_child (later_next v));
          runs = λ fuel le.
              rw (previous-eq h c p fuel e (omega arith) n, pre)
                (rw e (
                  rw n (
                    unfold later_next in
                    unlink_loop-cleared tail (some c) fuel _ tail-Distinct (later_tail-Chain v pre)
                      (omega (arith, length-tail)))));
          post = later-Truncated v pre;
        }
  ]
