-- ===== src/NodeIterator/Walk.antt =====
-- The iteration is the recursive walk over the finite tree that the links describe.
use libsgfc.Common.{
  ℕ, zero, suc, ◌+◌, ◌≤◌, ◌≡◌, refl, Option, none, some, Bool, true, false, List, [], ◌∷◌, arith,
  ap, ◌∙◌, if◌then◌else◌,
}
use libsgfc.Tree.Store.{Ref, Store}
use libsgfc.NodeIterator.{
  Continuation, vertical_and_lateral, lateral, ascend, stop, Callback, resume, proceed,
  iterate_loop, iterate_over_nodes_depth_first,
}

-- A node with what is below it and its next siblings, or no node.
pub data Kin : Type 0 where
  nobody : Kin
  node : Ref → Kin → Kin → Kin

-- The links describe the tree.
abbrev pub Portrays : Store → Option Ref → Kin → Type 0
Portrays s o nobody = o ≡ none
Portrays s o (node n below beside) =
    (o ≡ some n) × Portrays s (s.first_child n) below × Portrays s (s.next_sibling n) beside

abbrev pub steps : Kin → ℕ
steps nobody = 1
steps (node n below beside) = suc (steps below + steps beside)

pub record Walked (V : Type 0) : Type 0 where
  pub stopped : Bool
  pub state : V

abbrev pub finish : {V : Type 0} → (V → V) → Walked V → V
finish rest w = if w.stopped then w.state else rest w.state

abbrev pub choose : {V : Type 0} → Continuation → V → Walked V → Walked V → Walked V → Walked V
choose stop v below then_beside beside = record { stopped = true; state = v }
choose vertical_and_lateral v below then_beside beside =
    if below.stopped then below else then_beside
choose lateral v below then_beside beside = beside
choose ascend v below then_beside beside = record { stopped = false; state = v }

-- The walk: a node, then what is below it, then its next siblings.
abbrev pub walk : {V : Type 0} → Callback V → Kin → V → Walked V
walk visit nobody v = record { stopped = false; state = v }
walk visit (node n below beside) v =
    let first = visit n v in
    let down = walk visit below first.state in
    choose first.go_on first.state down (walk visit beside down.state)
      (walk visit beside first.state)

steps_positive : (t : Kin) → 1 ≤ steps t
steps_positive nobody = omega arith
steps_positive (node n below beside) = omega arith

-- To finish a walk that another one follows.
finish-if :
    {V : Type 0} (rest : V → V) (b : Bool) (u : V) (then_beside : V → Walked V)
    → finish (λ w. finish rest (then_beside w)) (record { stopped = b; state = u })
      ≡ finish rest (if b then record { stopped = b; state = u } else then_beside u)
finish-if rest true u then_beside = refl
finish-if rest false u then_beside = refl

-- What follows a visit, given what follows below the node and beside it.
proceed-choose :
    {V : Type 0} (go : Option Ref → List Ref → V → Option V) (s : Store) (n : Ref)
    (stack : List Ref) (rest : V → V) (below beside : V → Walked V)
    → ((w : V)
        → go (s.first_child n) (n ∷ stack) w
          ≡ some (finish (λ u. finish rest (beside u)) (below w)))
    → ((w : V) → go (s.next_sibling n) stack w ≡ some (finish rest (beside w)))
    → ((w : V) → resume go s stack w ≡ some (rest w))
    → (c : Continuation) (w : V)
    → proceed go s n stack c w
      ≡ some (finish rest (choose c w (below w) (beside (below w).state) (beside w)))
unfolding proceed
proceed-choose go s n stack rest below beside d b r stop w = refl
proceed-choose go s n stack rest below beside d b r lateral w = b w
proceed-choose go s n stack rest below beside d b r ascend w = r w
proceed-choose go s n stack rest below beside d b r vertical_and_lateral w =
    d w ∙ ap some (finish-if rest (below w).stopped (below w).state beside)

module _ {V : Type 0} (visit : Callback V) (s : Store) where
  iterate_loop-walk :
      (t : Kin) (o : Option Ref) (stack : List Ref) (v : V) (rest : V → V) (k fuel : ℕ)
      → Portrays s o t
      → ((spare : ℕ) (w : V)
          → k ≤ spare
          → resume (iterate_loop visit s spare) s stack w ≡ some (rest w))
      → steps t + k ≤ fuel
      → iterate_loop visit s fuel o stack v ≡ some (finish rest (walk visit t v))
  unfolding iterate_loop proceed resume
  iterate_loop-walk t o stack v rest k zero p r le =
      let positive = steps_positive t in absurd (omega arith)
  iterate_loop-walk nobody o stack v rest k (suc fuel) p r le = rw p (r fuel v (omega arith))
  iterate_loop-walk (node n below beside) o stack v rest k (suc fuel) p r le = rw p.0 (
      proceed-choose (iterate_loop visit s fuel) s n stack rest (walk visit below)
        (walk visit beside)
        (λ w.
          iterate_loop-walk below (s.first_child n) (n ∷ stack) w
            (λ u. finish rest (walk visit beside u)) (steps beside + k) fuel p.1
            (λ spare u h. iterate_loop-walk beside (s.next_sibling n) stack u rest k spare p.2 r h)
            (omega arith))
        (λ w. iterate_loop-walk beside (s.next_sibling n) stack w rest k fuel p.2 r (omega arith))
        (λ w. r fuel w (omega arith)) (visit n v).go_on (visit n v).state)

  iterate_loop_end :
      (t : Kin) (o : Option Ref) (v : V) (fuel : ℕ)
      → Portrays s o t
      → steps t ≤ fuel
      → iterate_loop visit s fuel o [] v ≡ some (walk visit t v).state
  unfolding resume
  iterate_loop_end t o v fuel p le =
      iterate_loop-walk t o [] v (λ w. w) 0 fuel p (λ spare w h. refl) (omega arith)
      ∙ ap some (either (walk visit t v).stopped)
    where
      either :
          (b : Bool)
          → (if b then (walk visit t v).state else (walk visit t v).state) ≡ (walk visit t v).state
      either true = refl
      either false = refl

  -- Where the links from a start node describe a finite tree and the fuel is at least its number of
  -- steps, IterateOverNodesDepthFirst ends, and the callback has run as in the recursive walk, with
  -- each continuation it returned obeyed.
  pub iterate_over_nodes_depth_first-walk :
      (t : Kin) (start : Option Ref) (v : V) (fuel : ℕ)
      → Portrays s start t
      → steps t ≤ fuel
      → iterate_over_nodes_depth_first visit s fuel start v ≡ some (walk visit t v).state
  unfolding iterate_over_nodes_depth_first
  iterate_over_nodes_depth_first-walk nobody none v fuel p le = refl
  iterate_over_nodes_depth_first-walk (node n below beside) none v fuel p le = absurd cc
  iterate_over_nodes_depth_first-walk t (some n) v fuel p le =
      iterate_loop_end t (some n) v fuel p le
