-- ===== src/Tests/TreeRuns.antt =====
-- A tree with root 1, its children 2 and 3, and 4 below 2. Node 5 has no links.
use libsgfc.Common.{
  ℕ, zero, suc, ◌≤◌, ◌≡◌, refl, inl, inr, none, some, false, [], ◌∷◌, arith, ◌==◌, if◌then◌else◌,
  Bool-cases, Distinct, erase,
}
use libsgfc.Tree.Store.{
  Ref, Store, fresh_store, crash, child_is_ancestor, sibling_is_ancestor, parent_is_descendant,
  new_child_is_ancestor,
}
use libsgfc.Tree.Node.{get_previous_sibling}
use libsgfc.Tree.Builder.{
  append_child, insert_child, remove_child, replace_child, reparent, set_first, set_next,
}
use libsgfc.Tree.Chain.{Chain, place}
use libsgfc.Tree.Upto.{upto}
use libsgfc.Tree.Ancestor.{Rooted, top, under, Above, direct, is_above, is_above-of_Above}
use libsgfc.Tree.Shape.{Forest, Shape, fresh_store-Shape, Ends, Refuses, with_children, without}
use libsgfc.Tree.Detach.{Detached}
use libsgfc.Tree.Moves.{
  Moved, swap, append_child-Moved, insert_child-Moved, remove_child-Detached,
  replace_child-Replaced, reparent-Moved,
}
use libsgfc.Tree.Heads.{set_first-some}
use libsgfc.Tree.NextSibling.{set_next-some}
use libsgfc.Tree.Refusal.{cycle-Refuses, insert_child_self-crash}
use libsgfc.Tree.Settles.{append, next_sibling, run, IsForest, Settles, call-Settles}
use libsgfc.Tree.Session.{Returns, start, call, Reach-IsForest}
use libsgfc.Tree.Query.{get_previous_sibling_lem}

abbrev pub kids : Forest
kids p = if p == 1 then 2 ∷ 3 ∷ [] else if p == 2 then 4 ∷ [] else []

abbrev pub links : Store
links = record {
  parent =
      λ n. if n == 2 then some 1 else if n == 3 then some 1 else if n == 4 then some 2 else none;
  first_child = λ n. if n == 1 then some 2 else if n == 2 then some 4 else none;
  next_sibling = λ n. if n == 2 then some 3 else none;
}

unfoldable pub links-Rooted : (c : Ref) → Rooted links.parent c
links-Rooted zero = top refl
links-Rooted (suc zero) = top refl
links-Rooted (suc (suc zero)) = under {p = 1} refl (top refl)
links-Rooted (suc (suc (suc zero))) = under {p = 1} refl (top refl)
links-Rooted (suc (suc (suc (suc zero)))) = under {p = 2} refl (under {p = 1} refl (top refl))
links-Rooted (suc (suc (suc (suc (suc n))))) = top (ground arith)

unfoldable pub links-Shape : Shape links kids
links-Shape = record {
  chain = chains;
  distinct = distincts;
  listed = λ p c. ground arith;
  alone = λ c e. ground arith;
  rooted = links-Rooted;
}
  where
    chains : (p : Ref) → Chain links.next_sibling (links.first_child p) (kids p)
    chains p = elim (Bool-cases (p == 1)) [
      | inl e ↦ rw e (refl, (refl, refl))
      | inr n ↦ elim (Bool-cases (p == 2)) [
        | inl e ↦ rw (n, e) (refl, refl)
        | inr m ↦ rw (n, m) refl
      ]
    ]

    distincts : (p : Ref) → Distinct (kids p)
    distincts p = elim (Bool-cases (p == 1)) [
      | inl e ↦ rw e (refl, (refl, tt))
      | inr n ↦ elim (Bool-cases (p == 2)) [ inl e ↦ rw (n, e) (refl, tt) | inr m ↦ rw (n, m) tt ]
    ]

apart : (a n : Ref) → is_above (links-Rooted n) a ≡ false → ¬ Above links.parent a n
apart a n e v = cc (e, is_above-of_Above a (links-Rooted n) v)

one_not_below_five : ¬ Above links.parent 5 1
unfolding links-Rooted
one_not_below_five = apart 5 1 refl

one_not_below_four : ¬ Above links.parent 4 1
unfolding links-Rooted
one_not_below_four = apart 4 1 refl

three_not_below_four : ¬ Above links.parent 4 3
unfolding links-Rooted
three_not_below_four = apart 4 3 refl

two-Above_four : Above links.parent 2 4
two-Above_four = direct refl

append_child-Moved_example :
    Ends (λ fuel. append_child fuel (some 1) (some 4) links) (λ u. Moved links kids 4 1 none)
append_child-Moved_example = append_child-Moved links-Shape 4 1 (omega arith) one_not_below_four

insert_child-Moved_example :
    Ends
      (λ fuel. insert_child fuel (some 1) (some 4) (some 3) links)
      (λ u. Moved links kids 4 1 (some 3))
insert_child-Moved_example =
    insert_child-Moved links-Shape 4 1 (omega arith) one_not_below_four (some 3) refl refl

remove_child-Detached_example :
    Ends (λ fuel. remove_child fuel (some 1) (some 2) links) (λ u. Detached links kids 2)
remove_child-Detached_example = remove_child-Detached links-Shape 2 1 refl

replace_child-Replaced_example :
    Ends
      (λ fuel. replace_child fuel (some 1) (some 4) (some 3) links)
      (λ u s'. Shape s' (with_children 1 (swap 3 4 (erase 4 (kids 1))) (without 4 kids)))
replace_child-Replaced_example =
    replace_child-Replaced links-Shape 4 1 (omega arith) one_not_below_four 3 refl (omega arith)

reparent-Moved_example :
    Ends (λ fuel. reparent fuel (some 4) (some 3) links) (λ u. Moved links kids 4 3 none)
reparent-Moved_example =
    reparent-Moved links-Shape 4 3 (omega arith) three_not_below_four (ground arith)

set_first-some_example :
    Ends
      (λ fuel. set_first fuel (some 1) (some 4) links)
      (λ u s'. Shape s' (with_children 1 (4 ∷ []) (without 4 kids)))
set_first-some_example = set_first-some links-Shape 1 4 (omega arith) one_not_below_four refl

set_next-some_example :
    Ends
      (λ fuel. set_next fuel (some 3) (some 4) links)
      (λ u s'.
        Shape s' (with_children 1 (place none 4 (erase 4 (upto 3 (kids 1)))) (without 4 kids)))
set_next-some_example = set_next-some links-Shape 3 1 refl 4 (omega arith) three_not_below_four refl

cycle-Refuses_example :
    Refuses (λ fuel. append_child fuel (some 4) (some 2)) links child_is_ancestor
    × Refuses (λ fuel. insert_child fuel (some 4) (some 2) none) links child_is_ancestor
    × Refuses (λ fuel. set_first fuel (some 4) (some 2)) links child_is_ancestor
    × Refuses (λ fuel. set_next fuel (some 4) (some 2)) links sibling_is_ancestor
    × Refuses (λ fuel. reparent fuel (some 2) (some 4)) links parent_is_descendant
    × ((o : Ref)
        → links.parent o ≡ some 4
        → Refuses
            (λ fuel. replace_child fuel (some 4) (some 2) (some o))
            links
            new_child_is_ancestor)
cycle-Refuses_example = cycle-Refuses links-Shape 2 4 two-Above_four

insert_child_self-crash_example :
    (k : ℕ) × ((fuel : ℕ) → k ≤ fuel → insert_child fuel (some 1) (some 2) (some 2) links ≡ crash)
insert_child_self-crash_example = insert_child_self-crash links-Shape 2 1 refl

call-Settles_example : Settles (run (next_sibling (some 2) none)) links
call-Settles_example = call-Settles links-Shape (next_sibling (some 2) none) tt

one_Rooted : Rooted fresh_store.parent 1
one_Rooted = top refl

first_append :
    Ends
      (λ fuel. append_child fuel (some 1) (some 2) fresh_store)
      (λ u. Moved fresh_store (λ p. []) 2 1 none)
first_append =
    append_child-Moved fresh_store-Shape 2 1 (omega arith)
      (λ v. unfold one_Rooted in cc (is_above-of_Above 2 one_Rooted v))

first_append-Returns : Returns (append (some 1) (some 2)) fresh_store first_append.final
unfolding run
first_append-Returns = record { enough = first_append.enough; runs = first_append.runs }

Reach-IsForest_example : IsForest first_append.final
Reach-IsForest_example = Reach-IsForest (call (append (some 1) (some 2)) start first_append-Returns)

get_previous_sibling_lem_example : get_previous_sibling 3 links 3 ≡ some (some 2)
get_previous_sibling_lem_example = get_previous_sibling_lem links-Shape 3 1 3 refl (omega arith)
