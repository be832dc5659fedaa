-- ===== src/Document/Parse/Copied.antt =====
-- The tree that the new nodes of a game tree make up.
use libsgfc.Common.{
  suc, ◌≤◌, ◌<◌, ◌≡◌, ◌≢◌, refl, ap, sym, subst, ◌∙◌, ◌⊎◌, inl, inr, Option, List, [], ◌∷◌, ◌++◌,
  append_assoc, append-nil, arith, ==_ne, ==_refl,
}
use libsgfc.Tree.Store.{Ref, Store}
use libsgfc.Tree.Chain.{Chain}
use libsgfc.Tree.Shape.{Forest, Shape, with_children}
use libsgfc.NodeIterator.Walk.{Kin, nobody, node, Portrays}
use libsgfc.Document.Parse.Grown.{numbered, numbered-le, grow}

-- The tree with its nodes numbered depth-first from `n`.
abbrev pub copy : Kin → Ref → Kin
copy nobody n = nobody
copy (node m below beside) n = node n (copy below (suc n)) (copy beside (numbered below (suc n)))

-- The numbers of the topmost nodes.
abbrev pub tops : Kin → Ref → List Ref
tops nobody n = []
tops (node m below beside) n = n ∷ tops beside (numbered below (suc n))

-- Each node of the tree has the children that the tree gives it.
abbrev pub Lists : Forest → Kin → Ref → Type 0
Lists kids nobody n = Unit
Lists kids (node m below beside) n =
    (kids n ≡ tops below (suc n))
    × Lists kids below (suc n)
    × Lists kids beside (numbered below (suc n))

with_children-other :
    (p q : Ref) (xs : List Ref) (kids : Forest) → q ≢ p → with_children p xs kids q ≡ kids q
with_children-other p q xs kids ne = rw (==_ne q p ne) refl

with_children_self : (p : Ref) (xs : List Ref) (kids : Forest) → with_children p xs kids p ≡ xs
with_children_self p xs kids = rw (==_refl p) refl

pub grow-outside :
    (t : Kin) (p n q : Ref) (kids : Forest)
    → q ≢ p
    → (q < n) ⊎ (numbered t n ≤ q)
    → grow t p n kids q ≡ kids q
grow-outside nobody p n q kids ne out = refl
grow-outside (node m below beside) p n q kids ne (inl lt) =
    grow-outside beside p (numbered below (suc n)) q _ ne
      (inl (omega (arith, numbered-le below (suc n))))
    ∙ grow-outside below n (suc n) q _ (λ e. omega arith) (inl (omega arith))
    ∙ with_children-other p q _ kids ne
grow-outside (node m below beside) p n q kids ne (inr le) =
    grow-outside beside p (numbered below (suc n)) q _ ne (inr le)
    ∙ grow-outside below n (suc n) q _
        (λ e. omega (arith, numbered-le below (suc n), numbered-le beside (numbered below (suc n))))
        (inr (omega (arith, numbered-le beside (numbered below (suc n)))))
    ∙ with_children-other p q _ kids ne

pub grow-parent :
    (t : Kin) (p n : Ref) (kids : Forest) → p < n → grow t p n kids p ≡ kids p ++ tops t n
grow-parent nobody p n kids lt = sym (append-nil (kids p))
grow-parent (node m below beside) p n kids lt =
    grow-parent beside p (numbered below (suc n)) _ (omega (arith, numbered-le below (suc n)))
    ∙ ap (λ xs. xs ++ tops beside (numbered below (suc n)))
        (grow-outside below n (suc n) p _ (λ e. omega arith) (inl (omega arith))
          ∙ with_children_self p _ kids)
    ∙ append_assoc (kids p) (n ∷ []) (tops beside (numbered below (suc n)))

pub Lists-cong :
    (t : Kin) (n : Ref) (kids kids' : Forest)
    → ((q : Ref) → n ≤ q → q < numbered t n → kids' q ≡ kids q)
    → Lists kids t n
    → Lists kids' t n
Lists-cong nobody n kids kids' e l = tt
Lists-cong (node m below beside) n kids kids' e (here, down, side) = (
  e n (omega arith)
        (omega (arith, numbered-le below (suc n), numbered-le beside (numbered below (suc n))))
      ∙ here,
  Lists-cong below (suc n) kids kids'
      (λ q le lt. e q (omega arith) (omega (arith, numbered-le beside (numbered below (suc n)))))
      down,
  Lists-cong beside (numbered below (suc n)) kids kids'
      (λ q le lt. e q (omega (arith, numbered-le below (suc n))) lt) side,
)

pub grow-Lists :
    (t : Kin) (p n : Ref) (kids : Forest)
    → p < n
    → ((c : Ref) → n ≤ c → kids c ≡ [])
    → Lists (grow t p n kids) t n
grow-Lists nobody p n kids lt none_made = tt
grow-Lists (node m below beside) p n kids lt none_made =
    let k₀ : Forest = with_children p (kids p ++ n ∷ []) kids in
    let k₁ : Forest = grow below n (suc n) k₀ in
    let le = numbered-le below (suc n) in
    let start : (c : Ref) → n ≤ c → k₀ c ≡ [] =
      λ c h. with_children-other p c _ kids (λ e. omega arith) ∙ none_made c h in
    let kept : (q : Ref)
        → n ≤ q
        → q < numbered below (suc n)
        → grow beside p (numbered below (suc n)) k₁ q ≡ k₁ q =
      λ q h l. grow-outside beside p (numbered below (suc n)) q k₁ (λ e. omega arith) (inl l) in
    (
      kept n (omega arith) (omega arith)
          ∙ grow-parent below n (suc n) k₀ (omega arith)
          ∙ ap (λ xs. xs ++ tops below (suc n)) (start n (omega arith)),
      Lists-cong below (suc n) k₁ _ (λ q h l. kept q (omega arith) l)
          (grow-Lists below n (suc n) k₀ (omega arith) (λ c h. start c (omega arith))),
      grow-Lists beside p (numbered below (suc n)) k₁ (omega arith) (λ c h.
          grow-outside below n (suc n) c k₀ (λ e. omega arith) (inr h) ∙ start c (omega arith)),
    )

-- Links whose lists of children are those of the tree portray its copy.
pub Lists-Portrays :
    {s : Store} {kids : Forest}
    → Shape s kids
    → (t : Kin) (n : Ref) (o : Option Ref) → Lists kids t n
    → Chain s.next_sibling o (tops t n)
    → Portrays s o (copy t n)
Lists-Portrays h nobody n o l c = c
Lists-Portrays {s} h (node m below beside) n o (here, down, side) (is, rest) = (
  is,
  Lists-Portrays h below (suc n) (s.first_child n) down
      (subst (Chain s.next_sibling (s.first_child n)) here (h.chain n)),
  Lists-Portrays h beside (numbered below (suc n)) (s.next_sibling n) side rest,
)
