-- ===== src/Tree/Shape.antt =====
-- What the links of a store stand for: a forest, given by the list of children of each node. The
-- abstract operations on forests, and the judgement that a command ends, with enough fuel, in a
-- state that satisfies a postcondition.
use libsgfc.Common.{
  ℕ, ◌+◌, ◌≤◌, ◌≡◌, refl, subst, fun_ext, ◌∙◌, Option, none, some, List, [], arith, ◌==◌,
  if◌then◌else◌, has, Distinct, erase,
}
use libsgfc.Tree.Store.{
  Ref, Store, fresh_store, same, Rejection, Outcome, ok, throws, Cmd, and_then,
}
use libsgfc.Tree.Chain.{Chain, place}
use libsgfc.Tree.Ancestor.{Rooted, top}

abbrev pub Forest : Type 0
Forest = Ref → List Ref

-- The links of `s` spell the forest `kids`: the chain below each node is its list of children, no
-- child is listed twice, a node is listed below its parent and nowhere else, a node without parent
-- has no next sibling, and every node reaches a root.
pub record Shape (s : Store) (kids : Forest) : Type 0 where
  pub chain : (p : Ref) → Chain s.next_sibling (s.first_child p) (kids p)
  pub distinct : (p : Ref) → Distinct (kids p)
  pub listed : (p c : Ref) → has c (kids p) ≡ same (s.parent c) (some p)
  pub alone : (c : Ref) → s.parent c ≡ none → s.next_sibling c ≡ none
  pub rooted : (c : Ref) → Rooted s.parent c

pub fresh_store-Shape : Shape fresh_store (λ p. [])
fresh_store-Shape = record {
  chain = λ p. refl;
  distinct = λ p. tt;
  listed = λ p c. refl;
  alone = λ c e. refl;
  rooted = λ c. top refl;
}

pub Shape-cong :
    {s : Store} (kids kids' : Forest)
    → ((p : Ref) → kids p ≡ kids' p)
    → Shape s kids
    → Shape s kids'
Shape-cong {s} kids kids' e h = subst (Shape s) (fun_ext e) h

-- The forest without `c` among the children of any node.
abbrev pub without : Ref → Forest → Forest
without c kids p = erase c (kids p)

-- The forest in which `p` has the children `xs`.
abbrev pub with_children : Ref → List Ref → Forest → Forest
with_children p xs kids q = if q == p then xs else kids q

-- `c` is taken from where it is and put below `p`, in front of `next` or at the end.
abbrev pub move : Ref → Ref → Option Ref → Forest → Forest
move c p next kids = with_children p (place next c (erase c (kids p))) (without c kids)

-- With enough fuel the command ends without an exception, in a state with the property.
pub record Ends {A : Type 0} (m : ℕ → Outcome A) (P : A → Store → Type 0) : Type 0 where
  pub enough : ℕ
  pub value : A
  pub final : Store
  pub runs : (fuel : ℕ) → enough ≤ fuel → m fuel ≡ ok value final
  pub post : P value final

-- With enough fuel the command ends with an exception, and the links are as before.
pub record Refuses {A : Type 0} (m : ℕ → Cmd A) (s : Store) (e : Rejection) : Type 0 where
  pub enough : ℕ
  pub runs : (fuel : ℕ) → enough ≤ fuel → m fuel s ≡ throws e s

module _ {A : Type 0} where
  pub ends :
      {P : A → Store → Type 0} (m : ℕ → Outcome A) (a : A) (s : Store)
      → ((fuel : ℕ) → m fuel ≡ ok a s)
      → P a s
      → Ends m P
  ends m a s e p = record { enough = 0; value = a; final = s; runs = λ fuel h. e fuel; post = p }

  pub Ends-mono :
      {P Q : A → Store → Type 0} {m : ℕ → Outcome A}
      → Ends m P
      → ((a : A) (s : Store) → P a s → Q a s)
      → Ends m Q
  Ends-mono h f = record {
    enough = h.enough;
    value = h.value;
    final = h.final;
    runs = h.runs;
    post = f h.value h.final h.post;
  }

  -- A command that agrees with one that ends, from some fuel on.
  pub Ends-step :
      {P : A → Store → Type 0} {m : ℕ → Outcome A} (m' : ℕ → Outcome A) (k : ℕ)
      → ((fuel : ℕ) → k ≤ fuel → m' fuel ≡ m fuel)
      → Ends m P
      → Ends m' P
  Ends-step m' k e h = record {
    enough = k + h.enough;
    value = h.value;
    final = h.final;
    runs = λ fuel le. e fuel (omega arith) ∙ h.runs fuel (omega arith);
    post = h.post;
  }

  pub Ends-bind :
      {B : Type 0} {P : A → Store → Type 0} {Q : B → Store → Type 0} {m : ℕ → Outcome A}
      (f : ℕ → A → Cmd B)
      → Ends m P
      → ((a : A) (s : Store) → P a s → Ends (λ fuel. f fuel a s) Q)
      → Ends (λ fuel. and_then (m fuel) (f fuel)) Q
  Ends-bind f h next =
      let rest = next h.value h.final h.post in
      record {
        enough = h.enough + rest.enough;
        value = rest.value;
        final = rest.final;
        runs = λ fuel le. rw (h.runs fuel (omega arith)) (rest.runs fuel (omega arith));
        post = rest.post;
      }
