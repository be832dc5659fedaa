-- ===== src/Tree/Session.antt =====
-- Any sequence of SgfcTreeBuilder calls, with exceptions caught by the client, on nodes that start
-- without links.
use libsgfc.Common.{
  ℕ, ◌+◌, ◌≤◌, ◌≡◌, sym, subst, ◌∙◌, inl, inr, Option, none, some, arith, ◌==◌, Bool-cases, ==_iff,
  ==_refl, [],
}
use libsgfc.Tree.Store.{
  Ref, Store, fresh_store, same, Outcome, ok, throws, Rejection, child_is_node,
  reference_is_no_child,
}
use libsgfc.Tree.Builder.{insert_child, is_foreign}
use libsgfc.Tree.Shape.{Forest, Shape, fresh_store-Shape}
use libsgfc.Tree.Settles.{Call, insert, run, IsForest, Settles, refused, done, call-Settles}
use libsgfc.Tree.Refusal.{insert_child_self-crash}

-- A call that returns normally, with whatever fuel from some amount on.
pub record Returns (c : Call) (s t : Store) : Type 0 where
  pub enough : ℕ
  pub runs : (fuel : ℕ) → enough ≤ fuel → run c fuel s ≡ ok tt t

-- The states that a client reaches by calls that return. Calls that throw leave the state alone.
pub data Reach : Store → Type 0 where
  start : Reach fresh_store
  call : {s t : Store} (c : Call) → Reach s → Returns c s t → Reach t

final-eq : (u : Unit {0}) (a b : Store) → ◌≡◌ {A = Outcome (Unit {0})} (ok u a) (ok tt b) → a ≡ b
final-eq u a b e = cc

settled : {s t : Store} (c : Call) → Returns c s t → Settles (run c) s → IsForest t
settled {s} {t} c r (refused e x) =
    let k : ℕ = r.enough + x.enough in cc (r.runs k (omega arith), x.runs k (omega arith))
settled {s} {t} c r (done x) =
    let k : ℕ = r.enough + x.enough in
    let same_end : x.final ≡ t =
      final-eq x.value x.final t (sym (x.runs k (omega arith)) ∙ r.runs k (omega arith)) in
    subst IsForest same_end x.post

-- A call that inserts a child in front of itself does not return.
self-not-Returns :
    {s t : Store} {kids : Forest} (h : Shape s kids) (n : Option Ref) (c : Ref)
    → Returns (insert n (some c) (some c)) s t
    → ⊥
unfolding run insert_child is_foreign
self-not-Returns h none c r = cc (r.runs r.enough (omega arith))
self-not-Returns {s} {t} h (some n) c r = elim (Bool-cases (n == c)) [
  | inl e ↦ refuted child_is_node (λ fuel. rw e)
  | inr ne ↦ elim (Bool-cases (same (s.parent c) (some n))) [
    | inl e ↦
        let (k, crashes) = insert_child_self-crash h c n (ground arith) in
        cc (crashes (k + r.enough) (omega arith), r.runs (k + r.enough) (omega arith))
    | inr e ↦ refuted reference_is_no_child (λ fuel. rw ne (rw e))
  ]
]
  where
    refuted :
        (e : Rejection)
        → ((fuel : ℕ) → run (insert (some n) (some c) (some c)) fuel s ≡ throws e s)
        → ⊥
    refuted e f = cc (f r.enough, r.runs r.enough (omega arith))

Returns-IsForest : {s t : Store} (c : Call) → IsForest s → Returns c s t → IsForest t
Returns-IsForest {s} {t} (insert n (some c) (some b)) (kids, h) r = elim (Bool-cases (b == c)) [
  | inl e ↦ absurd (
      self-not-Returns h n c
        (subst (λ x. Returns (insert n (some c) (some x)) s t) ((==_iff b c).0 e) r))
  | inr ne ↦ settled _ r (call-Settles h (insert n (some c) (some b)) (λ q. cc (ne, q, ==_refl b)))
]
Returns-IsForest (insert n (some c) none) (kids, h) r = settled _ r (call-Settles h _ tt)
Returns-IsForest (insert n none o) (kids, h) r = settled _ r (call-Settles h _ tt)
Returns-IsForest c (kids, h) r = settled c r (call-Settles h c tt)

-- Every state of the links that a client reaches, from nodes that are all unlinked, by
-- SgfcTreeBuilder calls that end normally, is the links of a forest.
pub Reach-IsForest : {s : Store} → Reach s → IsForest s
Reach-IsForest start = ((λ p. []), fresh_store-Shape)
Reach-IsForest (call c r step) = Returns-IsForest c (Reach-IsForest r) step
