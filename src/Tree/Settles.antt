-- ===== src/Tree/Settles.antt =====
-- Each call of SgfcTreeBuilder, whatever its arguments: it ends, and leaves a forest.
use libsgfc.Common.{
  ℕ, suc, ◌≡◌, ◌≢◌, refl, ◌⊎◌, inl, inr, Option, none, some, true, false, arith, ◌==◌, Bool-cases,
  Option-cases, ==_ne, ==_refl,
}
use libsgfc.Tree.Store.{
  Ref, Store, same, Rejection, ok, throws, Cmd, node_is_null, child_is_null, child_is_node,
  child_is_no_child, reference_is_no_child, new_child_is_null, old_child_is_null, new_child_is_node,
  old_child_is_no_child, node_is_root, sibling_is_node, parent_is_node,
}
use libsgfc.Tree.Node.{is_root}
use libsgfc.Tree.Builder.{
  append_child, insert_child, is_foreign, remove_child, replace_child, set_first, set_next,
  reparent, is_descendant_or_null,
}
use libsgfc.Tree.Ancestor.{Above, depth, is_above, is_above-of_Above, Above-of_is_above}
use libsgfc.Tree.Shape.{Forest, Shape, Ends, ends, Ends-mono, Refuses}
use libsgfc.Tree.Attach.{IsPlace}
use libsgfc.Tree.Moves.{
  append_child-Moved, insert_child-Moved, reparent-Moved, replace_child-Replaced,
  remove_child-Detached, reparent-Detached, ancestor_false,
}
use libsgfc.Tree.Heads.{set_first-none, set_first-some}
use libsgfc.Tree.NextSibling.{set_next-none, set_next-some}
use libsgfc.Tree.Refusal.{
  append_child-Refuses, insert_child-Refuses, replace_child-Refuses, set_first-Refuses,
  set_next-Refuses, reparent-Refuses,
}

-- The calls of the public interface, with their arguments.
pub data Call : Type 0 where
  append remove first_child next_sibling parent : Option Ref → Option Ref → Call
  insert replace : Option Ref → Option Ref → Option Ref → Call

unfoldable pub run : Call → ℕ → Cmd (Unit {0})
unfolding append_child insert_child remove_child replace_child set_first set_next reparent
run (append n c) fuel = append_child fuel n c
run (insert n c r) fuel = insert_child fuel n c r
run (remove n c) fuel = remove_child fuel n c
run (replace n new old) fuel = replace_child fuel n new old
run (first_child n c) fuel = set_first fuel n c
run (next_sibling n c) fuel = set_next fuel n c
run (parent n p) fuel = reparent fuel n p

-- The call does not insert a child in front of itself.
abbrev pub NotSelf : Call → Type 0
NotSelf (insert n (some c) (some r)) = r ≢ c
NotSelf _ = Unit

-- The links are those of some forest.
abbrev pub IsForest : Store → Type 0
IsForest s = (kids : Forest) × Shape s kids

-- A call ends: with an exception and the links as before, or normally and with a forest again.
pub data Settles (m : ℕ → Cmd (Unit {0})) (s : Store) : Type 0 where
  refused : (e : Rejection) → Refuses m s e → Settles m s
  done : Ends (λ fuel. m fuel s) (λ u. IsForest) → Settles m s

module _ {m : ℕ → Cmd (Unit {0})} {s : Store} where
  at_once : (e : Rejection) → ((fuel : ℕ) → m fuel s ≡ throws e s) → Settles m s
  at_once e f = refused e (record { enough = 0; runs = λ fuel le. f fuel })

  unchanged : IsForest s → ((fuel : ℕ) → m fuel s ≡ ok tt s) → Settles m s
  unchanged w f = done (ends (λ fuel. m fuel s) tt s f w)

  changed :
      {P : Unit {0} → Store → Type 0}
      → Ends (λ fuel. m fuel s) P
      → ((u : Unit {0}) (t : Store) → P u t → IsForest t)
      → Settles m s
  changed e f = done (Ends-mono e f)

module _ {s : Store} {kids : Forest} (h : Shape s kids) where
  forest : IsForest s
  forest = (kids, h)

  -- Split on whether `c` stands above `n`.
  by_ancestry : {P : Type 0} (c n : Ref) → (Above s.parent c n → P) → (¬ Above s.parent c n → P) → P
  by_ancestry c n f g = elim (Bool-cases (is_above (h.rooted n) c)) [
    | inl e ↦ f (Above-of_is_above c (h.rooted n) e)
    | inr e ↦ g (λ v. cc (e, is_above-of_Above c (h.rooted n) v))
  ]

  append-Settles : (n c : Option Ref) → Settles (run (append n c)) s
  unfolding run append_child
  append-Settles none c = at_once node_is_null (λ fuel. refl)
  append-Settles (some n) none = at_once child_is_null (λ fuel. refl)
  append-Settles (some n) (some c) = elim (Bool-cases (n == c)) [
    | inl e ↦ at_once child_is_node (λ fuel. rw e)
    | inr ne ↦
        by_ancestry c n (λ v. refused _ (append_child-Refuses h c n v))
          (λ v. changed (append_child-Moved h c n (ground arith) v) (λ u t m. (_, m.shape)))
  ]

  IsPlace-cases : (n : Ref) (r : Option Ref) → IsPlace s n r ⊎ (is_foreign r n s ≡ ok true s)
  unfolding is_foreign
  IsPlace-cases n none = inl tt
  IsPlace-cases n (some r) = elim (Bool-cases (same (s.parent r) (some n))) [
    | inl e ↦ inl (ground arith)
    | inr e ↦ inr (rw e)
  ]

  native : (n : Ref) (r : Option Ref) → IsPlace s n r → is_foreign r n s ≡ ok false s
  unfolding is_foreign
  native n none is = refl
  native n (some r) is = rw is (rw (==_refl n))

  not_self :
      (n c : Ref) (r : Option Ref) → NotSelf (insert (some n) (some c) r) → same r (some c) ≡ false
  not_self n c none ns = refl
  not_self n c (some r) ns = ==_ne r c ns

  insert-Settles : (n c r : Option Ref) → NotSelf (insert n c r) → Settles (run (insert n c r)) s
  unfolding run insert_child
  insert-Settles none c r ns = at_once node_is_null (λ fuel. refl)
  insert-Settles (some n) none r ns = at_once child_is_null (λ fuel. refl)
  insert-Settles (some n) (some c) r ns = elim (Bool-cases (n == c)) [
    | inl e ↦ at_once child_is_node (λ fuel. rw e)
    | inr ne ↦ elim (IsPlace-cases n r) [
      | inr foreign ↦ at_once reference_is_no_child (λ fuel. rw ne (rw foreign))
      | inl is ↦
          by_ancestry c n (λ v. refused _ (insert_child-Refuses h c n v r (native n r is)))
            (λ v.
              changed (insert_child-Moved h c n (ground arith) v r is (not_self n c r ns))
                (λ u t m. (_, m.shape)))
    ]
  ]

  remove-Settles : (n c : Option Ref) → Settles (run (remove n c)) s
  unfolding run remove_child
  remove-Settles none c = at_once node_is_null (λ fuel. refl)
  remove-Settles (some n) none = at_once child_is_null (λ fuel. refl)
  remove-Settles (some n) (some c) = elim (Bool-cases (same (s.parent c) (some n))) [
    | inl e ↦ changed (remove_child-Detached h c n (ground arith)) (λ u t d. (_, d.shape))
    | inr ne ↦ at_once child_is_no_child (λ fuel. rw ne)
  ]

  replace-Settles : (n new old : Option Ref) → Settles (run (replace n new old)) s
  unfolding run replace_child
  replace-Settles none new old = at_once node_is_null (λ fuel. refl)
  replace-Settles (some n) none old = at_once new_child_is_null (λ fuel. refl)
  replace-Settles (some n) (some c) none = at_once old_child_is_null (λ fuel. refl)
  replace-Settles (some n) (some c) (some o) = elim (Bool-cases (n == c)) [
    | inl e ↦ at_once new_child_is_node (λ fuel. rw e)
    | inr ne ↦ elim (Bool-cases (same (s.parent o) (some n))) [
      | inr ne' ↦ at_once old_child_is_no_child (λ fuel. rw ne (rw ne'))
      | inl mine ↦ elim (Bool-cases (c == o)) [
        | inl e ↦ unchanged forest (λ fuel. rw ne (rw mine (rw e)))
        | inr ne'' ↦
            by_ancestry c n (λ v. refused _ (replace_child-Refuses h c n v o (ground arith)))
              (λ v.
                changed
                  (replace_child-Replaced h c n (ground arith) v o (ground arith) (ground arith))
                  (λ u t k. (_, k)))
      ]
    ]
  ]

  first_child-Settles : (n c : Option Ref) → Settles (run (first_child n c)) s
  unfolding run set_first
  first_child-Settles none c = at_once node_is_null (λ fuel. refl)
  first_child-Settles (some n) none = changed (set_first-none h n) (λ u t k. (_, k))
  first_child-Settles (some n) (some c) = elim (Bool-cases (n == c)) [
    | inl e ↦ at_once child_is_node (λ fuel. rw e)
    | inr ne ↦ elim (Bool-cases (same (s.first_child n) (some c))) [
      | inl e ↦ unchanged forest (λ fuel. rw ne (rw e))
      | inr ne' ↦
          by_ancestry c n (λ v. refused _ (set_first-Refuses h c n v))
            (λ v. changed (set_first-some h n c (ground arith) v ne') (λ u t k. (_, k)))
    ]
  ]

  next_sibling-Settles : (n c : Option Ref) → Settles (run (next_sibling n c)) s
  unfolding run set_next is_root
  next_sibling-Settles none c = at_once node_is_null (λ fuel. refl)
  next_sibling-Settles (some n) c = elim (Option-cases (s.parent n)) [
    | inl e ↦ at_once node_is_root (λ fuel. rw e)
    | inr (p, e) ↦ below p e c
  ]
    where
      below :
          (p : Ref)
          → s.parent n ≡ some p
          → (o : Option Ref) → Settles (run (next_sibling (some n) o)) s
      below p e none = changed (set_next-none h n p e) (λ u t k. (_, k))
      below p e (some d) = elim (Bool-cases (n == d)) [
        | inl e' ↦ at_once sibling_is_node (λ fuel. rw e (rw e'))
        | inr ne ↦
            by_ancestry d n (λ v. refused _ (set_next-Refuses h d n v))
              (λ v. elim (Bool-cases (same (s.next_sibling n) (some d))) [
                | inl e'' ↦ done (record {
                  enough = suc (depth (h.rooted n));
                  value = tt;
                  final = s;
                  runs = λ fuel le.
                      rw e (rw ne (rw (ancestor_false h d n (ground arith) v fuel le) (rw e'')));
                  post = forest;
                })
                | inr ne' ↦ changed (set_next-some h n p e d (ground arith) v ne') (λ u t k. (_, k))
              ])
      ]

  parent-Settles : (n p : Option Ref) → Settles (run (parent n p)) s
  unfolding run reparent is_descendant_or_null
  parent-Settles none p = at_once node_is_null (λ fuel. refl)
  parent-Settles (some n) none = elim (Option-cases (s.parent n)) [
    | inl e ↦ unchanged forest (λ fuel. rw e)
    | inr (p, e) ↦ changed (reparent-Detached h n p e) (λ u t d. (_, d.shape))
  ]
  parent-Settles (some n) (some p) = elim (Bool-cases (n == p)) [
    | inl e ↦ at_once parent_is_node (λ fuel. rw e)
    | inr ne ↦ elim (Bool-cases (same (s.parent n) (some p))) [
      | inl e ↦ unchanged forest (λ fuel. rw ne (rw e))
      | inr ne' ↦
          by_ancestry n p (λ v. refused _ (reparent-Refuses h n p v))
            (λ v.
              changed (reparent-Moved h n p (ground arith) v (ground arith))
                (λ u t m. (_, m.shape)))
    ]
  ]

  -- On the links of a forest every SgfcTreeBuilder call, whatever its arguments, other than an
  -- insertion of a child in front of itself, ends: with an exception and the links unchanged, or
  -- normally with the links of a forest.
  pub call-Settles : (c : Call) → NotSelf c → Settles (run c) s
  call-Settles (append n c) ns = append-Settles n c
  call-Settles (insert n c r) ns = insert-Settles n c r ns
  call-Settles (remove n c) ns = remove-Settles n c
  call-Settles (replace n new old) ns = replace-Settles n new old
  call-Settles (first_child n c) ns = first_child-Settles n c
  call-Settles (next_sibling n c) ns = next_sibling-Settles n c
  call-Settles (parent n p) ns = parent-Settles n p
