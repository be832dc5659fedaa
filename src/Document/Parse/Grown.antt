-- ===== src/Document/Parse/Grown.antt =====
-- The nodes that the constructor of SgfcDocument makes for one game tree.
use libsgfc.Common.{
  ℕ, suc, ◌+◌, ◌≤◌, ◌<◌, ◌≡◌, ◌≢◌, refl, ap, subst, ◌∙◌, Option, none, some, false, List, [], ◌∷◌,
  ◌++◌, ◌==◌, arith, ==_ne, has, erase-absent,
}
use libsgfc.Tree.Store.{Ref, Store, update, ok, Cmd}
use libsgfc.Tree.Builder.{append_child}
use libsgfc.Tree.Chain.{place}
use libsgfc.Tree.Ancestor.{Above, direct, further}
use libsgfc.Tree.Shape.{Forest, Shape, Shape-cong, with_children, move, Ends, Ends-mono}
use libsgfc.Tree.Moves.{append_child-Moved}
use libsgfc.NodeIterator.Walk.{Kin, nobody, node}
use libsgfc.Document.Parse.{
  SgfNodes, Made, ParseProperties, Entry, back, fill_node, enter_node, parse_loop,
}

-- The child and sibling links of SGFC describe the tree.
abbrev pub Spells : SgfNodes → Option Ref → Kin → Type 0
Spells nodes o nobody = o ≡ none
Spells nodes o (node n below beside) =
    (o ≡ some n) × Spells nodes (nodes.child n) below × Spells nodes (nodes.sibling n) beside

-- A node does not occur in the tree.
abbrev pub Avoids : Ref → Kin → Type 0
Avoids r nobody = Unit
Avoids r (node n below beside) = (n ≢ r) × Avoids r below × Avoids r beside

-- The number behind those of the new nodes, which start with `n`.
abbrev pub numbered : Kin → Ref → Ref
numbered nobody n = n
numbered (node m below beside) n = numbered beside (numbered below (suc n))

-- Fuel for the rounds of the loops in the tree, and some more.
abbrev pub rounds : Kin → ℕ → ℕ
rounds nobody fuel = suc fuel
rounds (node m below beside) fuel = suc (rounds below (rounds beside fuel))

-- The forest with new nodes below `p`, numbered depth-first from `n`.
abbrev pub grow : Kin → Ref → Ref → Forest → Forest
grow nobody p n kids = kids
grow (node m below beside) p n kids =
    grow beside p (numbered below (suc n))
      (grow below n (suc n) (with_children p (kids p ++ n ∷ []) kids))

-- The properties of the nodes of the tree are read in the same order, and none throws.
pub data Reads {V : Type 0} (parse : ParseProperties V) : Kin → Ref → V → V → Type 0 where
  nothing : {n : Ref} {v : V} → Reads parse nobody n v v
  and_next :
      {n m : Ref} {below beside : Kin} {v v₁ v₂ v₃ : V}
      → parse n m v ≡ some v₁
      → Reads parse below (suc n) v₁ v₂
      → Reads parse beside (numbered below (suc n)) v₂ v₃
      → Reads parse (node m below beside) n v v₃

-- The objects from `n` on have not been made: they have no parent and are no parent.
pub record IsUnmade (n : Ref) (s : Store) : Type 0 where
  pub orphans : (c : Ref) → n ≤ c → s.parent c ≡ none
  pub parents_made : (q r : Ref) → s.parent q ≡ some r → r < n

record Appended (s : Store) (kids : Forest) (p n : Ref) (s' : Store) : Type 0 where
  shape : Shape s' (with_children p (kids p ++ n ∷ []) kids)
  parents : s'.parent ≡ update s.parent n (some p)

not-Above : {n : Ref} {s : Store} → IsUnmade n s → {x : Ref} → ¬ Above s.parent n x
not-Above u (direct {n = x} e) = let lt = u.parents_made x _ e in omega arith
not-Above u (further e v) = not-Above u v

place-last : (n : Ref) (xs : List Ref) → place none n xs ≡ xs ++ n ∷ []
place-last n [] = refl
place-last n (x ∷ xs) = ground (arith, place-last n xs)

update-made :
    (parent : Ref → Option Ref) (n p : Ref)
    → p < n
    → ((q r : Ref) → parent q ≡ some r → r < n)
    → (q r : Ref) → update parent n (some p) q ≡ some r
    → r < suc n
unfolding update
update-made parent n p lt made q r e = ground (arith, made q r)

update-kept :
    (parent : Ref → Option Ref) (n p q : Ref) → q < n → update parent n (some p) q ≡ parent q
unfolding update
update-kept parent n p q lt = ground arith

update-new : (parent : Ref → Option Ref) (n p : Ref) → update parent n (some p) n ≡ some p
unfolding update
update-new parent n p = ground arith

pub numbered-le : (t : Kin) (n : Ref) → n ≤ numbered t n
numbered-le nobody n = omega arith
numbered-le (node m below beside) n =
    omega (arith, numbered-le below (suc n), numbered-le beside (numbered below (suc n)))

module _ {s : Store} {kids : Forest} (h : Shape s kids) {n : Ref} (u : IsUnmade n s) where
  unlisted : (q : Ref) → has n (kids q) ≡ false
  unlisted q = h.listed q n ∙ ground (arith, u.orphans n)

  moved_new : (p q : Ref) → move n p none kids q ≡ with_children p (kids p ++ n ∷ []) kids q
  moved_new p q =
      rw
        (
          erase-absent n (kids p) (unlisted p),
          erase-absent n (kids q) (unlisted q),
          place-last n (kids p),
        )
        refl

  append_child-Appended :
      (p : Ref)
      → p < n
      → Ends (λ inner. append_child inner (some p) (some n) s) (λ t. Appended s kids p n)
  append_child-Appended p lt =
      Ends-mono (append_child-Moved h n p (λ e. omega arith) (not-Above u)) (λ t s' m. record {
        shape = Shape-cong (move n p none kids) _ (moved_new p) m.shape;
        parents = m.parents;
      })

  Appended-IsUnmade : {p : Ref} {s' : Store} → p < n → Appended s kids p n s' → IsUnmade (suc n) s'
  Appended-IsUnmade {p} lt a = record {
    orphans = λ c le. rw a.parents (unfold update in ground (arith, u.orphans c));
    parents_made = λ q r e.
        update-made s.parent n p lt u.parents_made q r (subst (λ f. f q ≡ some r) a.parents e);
  }

-- What the loops do with a part of the tree, and the state behind it.
pub record Grown {V : Type 0} (nodes : SgfNodes) (root : Ref) (parse : ParseProperties V) (t : Kin)
    (o : Option Ref) (p n : Ref) (v w : V) (s : Store) (kids : Forest) : Type 0 where
  pub enough : ℕ
  pub final : Store
  pub shape : Shape final (grow t p n kids)
  pub unmade : IsUnmade (numbered t n) final
  pub kept : (q : Ref) → q < n → final.parent q ≡ s.parent q
  pub runs :
      (inner fuel : ℕ) (stack : List Entry)
      → enough ≤ inner
      → parse_loop nodes root parse inner
          (rounds t fuel)
          none
          o
          (some p)
          stack
          (record { properties = v; next_object = n })
          s
        ≡ back nodes root
            (parse_loop nodes root parse inner fuel)
            stack
            (record { properties = w; next_object = numbered t n })
            final

module _ {V : Type 0} (nodes : SgfNodes) (root : Ref) (parse : ParseProperties V) where
  parse-nobody :
      (o : Option Ref) (p n : Ref) (v : V) (s : Store) (kids : Forest)
      → o ≡ none
      → Shape s kids
      → IsUnmade n s
      → Grown nodes root parse nobody o p n v v s kids
  unfolding parse_loop
  parse-nobody o p n v s kids e h u = record {
    enough = 0;
    final = s;
    shape = h;
    unmade = u;
    kept = λ q lt. refl;
    runs = λ inner fuel stack le. rw e refl;
  }

  -- The rounds of a node that is not the root.
  enter_node-new :
      (m p n : Ref) (v v₁ : V) (s s₁ : Store) (inner : ℕ) (stack : List Entry)
      (go : Option Ref → Option Ref → Option Ref → List Entry → Made V → Cmd (Option (Made V)))
      → (m == root) ≡ false
      → append_child inner (some p) (some n) s ≡ ok tt s₁
      → parse n m v ≡ some v₁
      → enter_node nodes root go parse inner none m
          (some p)
          stack
          (record { properties = v; next_object = n })
          s
        ≡ go none
            (nodes.child m)
            (some n)
            (record { node_of = some n; sgf_node_of = m } ∷ stack)
            (record { properties = v₁; next_object = suc n })
            s₁
  unfolding enter_node fill_node
  enter_node-new m p n v v₁ s s₁ inner stack go other a e = rw (other, a, e) refl

  back-new :
      (m n : Ref) (p : Option Ref) (made : Made V) (s : Store) (stack : List Entry)
      (go : Option Ref → Option Ref → Option Ref → List Entry → Made V → Cmd (Option (Made V)))
      → (m == root) ≡ false
      → s.parent n ≡ p
      → back nodes root go (record { node_of = some n; sgf_node_of = m } ∷ stack) made s
        ≡ go none (nodes.sibling m) p stack made s
  unfolding back
  back-new m n p made s stack go other e = rw (other, e) refl

  pub parse-Reads :
      {t : Kin} {n : Ref} {v w : V}
      → Reads parse t n v w
      → (o : Option Ref) (p : Ref) (s : Store) (kids : Forest) → Spells nodes o t
      → Avoids root t
      → Shape s kids
      → IsUnmade n s
      → p < n
      → Grown nodes root parse t o p n v w s kids
  unfolding parse_loop
  parse-Reads nothing o p s kids e free h u lt = parse-nobody o p _ _ s kids e h u
  parse-Reads {t = node m below beside} {n} {v} {w} (and_next {v₁ = v₁} e r₁ r₂) o p s kids
        (is, down, side) (other, free₁, free₂) h u lt =
      let a = append_child-Appended h u p lt in
      let b =
        parse-Reads r₁ (nodes.child m) n a.final _ down free₁ a.post.shape
          (Appended-IsUnmade h u lt a.post) (omega arith) in
      let c =
        parse-Reads r₂ (nodes.sibling m) p b.final _ side free₂ b.shape b.unmade
          (omega (arith, numbered-le below (suc n))) in
      record {
        enough = a.enough + (b.enough + c.enough);
        final = c.final;
        shape = c.shape;
        unmade = c.unmade;
        kept = λ q le.
            c.kept q (omega (arith, numbered-le below (suc n)))
            ∙ b.kept q (omega arith)
            ∙ ap (λ f. f q) a.post.parents
            ∙ update-kept s.parent n p q le;
        runs = λ inner fuel stack le. rw is (
            enter_node-new m p n v v₁ s a.final inner stack _ (==_ne m root other)
              (a.runs inner (omega arith)) e
            ∙ b.runs inner (rounds beside fuel) _ (omega arith)
            ∙ back-new m n (some p) _ b.final stack _ (==_ne m root other)
                (b.kept n (omega arith) ∙ ap (λ f. f n) a.post.parents ∙ update-new s.parent n p)
            ∙ c.runs inner fuel stack (omega arith));
      }
