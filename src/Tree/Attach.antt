-- ===== src/Tree/Attach.antt =====
-- `InsertNodeAtNewLocation` puts a node without parent among the children of another.
use libsgfc.Common.{
  suc, ◌≡◌, ◌≢◌, refl, sym, subst, inl, inr, Option, none, some, true, false, List, [], ◌∷◌, arith,
  ◌==◌, Bool-cases, ==_iff, length, has, Distinct,
}
use libsgfc.Tree.Store.{Ref, Store, same, update}
use libsgfc.Tree.Node.{get_last_child}
use libsgfc.Tree.Relink.{sibling_before, link_before, insert_node}
use libsgfc.Tree.Chain.{
  Chain, last, previous, behind, place, Chain-behind, Chain-frame, Chain-resume,
}
use libsgfc.Tree.Places.{
  previous-resume-place, previous-behind, previous-ne, last-resume, last-some_of_first,
  has-last_all, has-behind, has-place, place-Distinct, has_both, previous-some_of_has,
}
use libsgfc.Tree.Loops.{last_child_loop-last}
use libsgfc.Tree.Ancestor.{Rooted, Above, under, Rooted-beside, Rooted-update}
use libsgfc.Tree.Shape.{Forest, Shape, with_children, Ends, ends}
use libsgfc.Tree.Detach.{written, member, previous-eq, not_first}

-- Links at work on one chain, for a node `c` that is not in it.
module _ (next : Ref → Option Ref) (c : Ref) (o : Option Ref) (xs : List Ref) (d : Distinct xs)
    (absent : has c xs ≡ false) (k : Chain next o xs) where
  attach_last :
      (p : Ref)
      → last xs ≡ some p
      → Chain (update (update next p (some c)) c none) o (place none c xs)
  unfolding update
  attach_last p e = subst (Chain _ o) (last-resume c p xs d e) (
      Chain-resume next _ p (c ∷ []) o xs d (has-last_all p xs e) (λ a h n. ground arith)
        (ground (arith, has-last_all p xs e), ground arith) k)

  attach_later :
      (r p : Ref)
      → previous r xs ≡ some p
      → Chain (update (update next p (some c)) c (some r)) o (place (some r) c xs)
  attach_later r p e = subst (Chain _ o) (previous-resume-place c r p xs d e) (
      Chain-resume next after p (c ∷ r ∷ behind r xs) o xs d mem.1
        (λ a h n. unfold update in ground arith)
        (unfold update in ground (arith, mem), (unfold update in ground arith, tail)) k)
    where
      after : Ref → Option Ref
      after = update (update next p (some c)) c (some r)

      mem : (has r xs ≡ true) × (has p xs ≡ true)
      mem = has_both r p xs e

      after_self : next r ≡ after r
      after_self = unfold update in ground (arith, previous-ne r p xs d e, mem)

      tail : Chain after (after r) (behind r xs)
      tail =
          subst (λ v. Chain after v (behind r xs)) after_self
            (Chain-frame next after (next r) (behind r xs)
              (λ a h.
                unfold update in ground (arith, previous-behind r p xs d e, has-behind a r xs h))
              (Chain-behind next r o xs mem.0 k))

attach_first :
    (next : Ref → Option Ref) (c : Ref) (o before : Option Ref) (xs : List Ref)
    → has c xs ≡ false
    → same o before ≡ true
    → Chain next o xs
    → Chain (update next c before) (some c) (place before c xs)
attach_first next c o before [] a m k = (refl, unfold update in ground arith)
attach_first next c o none (x ∷ xs) a m k = ground arith
attach_first next c o (some r) (x ∷ xs) a m k =
    let same_node : (x == r) ≡ true = ground arith in
    rw same_node (refl, (unfold update in ground arith, rest))
  where
    written_beside : next x ≡ update next c (some r) x
    written_beside = unfold update in ground arith

    rest : Chain (update next c (some r)) (update next c (some r) x) xs
    rest =
        subst (λ v. Chain (update next c (some r)) v xs) written_beside
          (Chain-frame next (update next c (some r)) (next x) xs
            (λ b h. unfold update in ground arith) k.1)

-- The state that `InsertNodeAtNewLocation` leaves.
abbrev pub attached : Store → Ref → Ref → Option Ref → (f n : Ref → Option Ref) → Store
attached s c p before f n = record {
  parent = update s.parent c (some p);
  first_child = f;
  next_sibling = update n c before;
}

-- `before` is null or a child of `p`.
abbrev pub IsPlace : Store → Ref → Option Ref → Type 0
IsPlace s p none = Unit
IsPlace s p (some r) = s.parent r ≡ some p

pub record Attached (s : Store) (kids : Forest) (c p : Ref) (before : Option Ref) (s' : Store)
    : Type 0 where
  pub shape : Shape s' (with_children p (place before c (kids p)) kids)
  pub parents : s'.parent ≡ update s.parent c (some p)

module _ {s : Store} {kids : Forest} (h : Shape s kids) (c p : Ref) (root : s.parent c ≡ none)
    (other : p ≢ c) (below : ¬ Above s.parent c p) where
  not_listed : (q : Ref) → has c (kids q) ≡ false
  not_listed q = ground (arith, h.listed q c)

  attached-Shape :
      (before : Option Ref) (f n : Ref → Option Ref)
      → Chain (update n c before) (f p) (place before c (kids p))
      → ((q : Ref) → (q == p) ≡ false → f q ≡ s.first_child q)
      → ((a : Ref) → has a (kids p) ≡ false → n a ≡ s.next_sibling a)
      → Attached s kids c p before (attached s c p before f n)
  attached-Shape before f n k same_first same_next = record {
    shape = record {
      chain = chains;
      distinct = distincts;
      listed = λ q a.
          unfold update in
          ground (arith, has-place a c before (kids p), h.listed q a, h.listed p a);
      alone = λ a e. unfold update in ground (arith, same_next a, h.listed p a, h.alone a);
      rooted = λ a. Rooted-update s.parent c (some p) rooted_c (h.rooted a);
    };
    parents = refl;
  }
    where
      kids' : Forest
      kids' = with_children p (place before c (kids p)) kids

      rooted_c : Rooted (update s.parent c (some p)) c
      rooted_c =
          under {p = p} (sym (written s.parent c (some p)))
            (Rooted-beside s.parent c (some p) (h.rooted p) other below)

      distincts : (q : Ref) → Distinct (kids' q)
      distincts q = elim (Bool-cases (q == p)) [
        | inl eq ↦ rw eq (place-Distinct c before (kids p) (h.distinct p) (not_listed p))
        | inr ne ↦ rw ne (h.distinct q)
      ]

      chains : (q : Ref) → Chain (update n c before) (f q) (kids' q)
      chains q = elim (Bool-cases (q == p)) [
        | inl eq ↦ rw eq (
            subst (λ x. Chain (update n c before) (f x) (place before c (kids p)))
              (sym ((==_iff q p).0 eq)) k)
        | inr ne ↦
            rw (ne, same_first q ne)
              (Chain-frame s.next_sibling (update n c before) (s.first_child q) (kids q)
                (λ a m.
                  unfold update in
                  ground (arith, same_next a, h.listed p a, h.listed q a, not_listed q))
                (h.chain q))
      ]

  attached-first :
      (before : Option Ref)
      → same (s.first_child p) before ≡ true
      → Attached s kids c p before
          (attached s c p before (update s.first_child p (some c)) s.next_sibling)
  attached-first before m =
      attached-Shape before (update s.first_child p (some c)) s.next_sibling
        (subst (λ v. Chain (update s.next_sibling c before) v (place before c (kids p)))
          (written s.first_child p (some c))
          (attach_first s.next_sibling c (s.first_child p) before (kids p) (not_listed p) m
            (h.chain p)))
        (λ q n. unfold update in ground arith) (λ a n. refl)

  attached-last :
      (v : Ref)
      → last (kids p) ≡ some v
      → Attached s kids c p none
          (attached s c p none s.first_child (update s.next_sibling v (some c)))
  attached-last v e =
      attached-Shape none s.first_child (update s.next_sibling v (some c))
        (attach_last s.next_sibling c (s.first_child p) (kids p) (h.distinct p) (not_listed p)
          (h.chain p) v e)
        (λ q n. refl) (λ a n. unfold update in ground (arith, has-last_all v (kids p) e))

  attached-later :
      (r v : Ref)
      → previous r (kids p) ≡ some v
      → Attached s kids c p
          (some r)
          (attached s c p (some r) s.first_child (update s.next_sibling v (some c)))
  attached-later r v e =
      attached-Shape (some r) s.first_child (update s.next_sibling v (some c))
        (attach_later s.next_sibling c (s.first_child p) (kids p) (h.distinct p) (not_listed p)
          (h.chain p) r v e)
        (λ q n. refl) (λ a n. unfold update in ground (arith, has_both r v (kids p) e))

  insert_later :
      (before : Option Ref)
      → IsPlace s p before
      → same (s.first_child p) before ≡ false
      → Ends (λ fuel. insert_node fuel c (some p) before s) (λ u. Attached s kids c p before)
  unfolding insert_node link_before sibling_before get_last_child
  insert_later none is n =
      let (v, e) = last-some_of_first (kids p) (not_first h c p none n) in
      record {
        enough = suc (length (kids p));
        value = tt;
        final = attached s c p none s.first_child (update s.next_sibling v (some c));
        runs = λ fuel le.
            rw (n, last_child_loop-last s (kids p) (s.first_child p) fuel (h.chain p) le, e);
        post = attached-last v e;
      }
  insert_later (some r) is n =
      let (v, e) = previous-some_of_has r (kids p) (member h r p is) (not_first h c p (some r) n) in
      record {
        enough = suc (length (kids p));
        value = tt;
        final = attached s c p (some r) s.first_child (update s.next_sibling v (some c));
        runs = λ fuel le. rw (n, previous-eq h r p fuel is le n, e);
        post = attached-later r v e;
      }

  -- With enough fuel `InsertNodeAtNewLocation` ends, the node stands among the children of `p` in
  -- front of `before` or at the end, and everything else stays.
  pub insert_node-Attached :
      (before : Option Ref)
      → IsPlace s p before
      → Ends (λ fuel. insert_node fuel c (some p) before s) (λ u. Attached s kids c p before)
  unfolding insert_node link_before
  insert_node-Attached before is = elim (Bool-cases (same (s.first_child p) before)) [
    | inl m ↦
        ends (λ fuel. insert_node fuel c (some p) before s) tt _ (λ fuel. rw m)
          (attached-first before m)
    | inr n ↦ insert_later before is n
  ]
