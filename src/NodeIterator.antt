-- ===== src/NodeIterator.antt =====
-- The depth-first iteration over the nodes of a tree (src/document/SgfcNodeIterator.cpp).
pub mod Walk
use libsgfc.Common.{ℕ, zero, suc, Option, none, some, List, [], ◌∷◌}
use libsgfc.Tree.Store.{Ref, Store}

pub data Continuation : Type 0 where
  vertical_and_lateral : Continuation
  lateral : Continuation
  ascend : Continuation
  stop : Continuation

-- What the callback returns, with the variables it captures after it has run.
pub record Visit (V : Type 0) : Type 0 where
  pub go_on : Continuation
  pub state : V

abbrev pub Callback : Type 0 → Type 0
Callback V = Ref → V → Visit V

-- The rest of the outer loop's body where the stack decides; `go` is the loop itself.
unfoldable pub resume :
    {V : Type 0} → (Option Ref → List Ref → V → Option V) → Store → List Ref → V → Option V
resume go s [] v = some v
resume go s (n ∷ stack) v = go (s.next_sibling n) stack v

-- What follows the visit of `n`.
unfoldable pub proceed :
    {V : Type 0}
    → (Option Ref → List Ref → V → Option V)
    → Store
    → Ref
    → List Ref
    → Continuation
    → V
    → Option V
proceed go s n stack stop v = some v
proceed go s n stack vertical_and_lateral v = go (s.first_child n) (n ∷ stack) v
proceed go s n stack lateral v = go (s.next_sibling n) stack v
proceed go s n stack ascend v = resume go s stack v

-- The two nested loops, from the current node and the stack; `none` if the fuel runs out.
unfoldable pub iterate_loop :
    {V : Type 0} → Callback V → Store → ℕ → Option Ref → List Ref → V → Option V
iterate_loop visit s zero current stack v = none
iterate_loop visit s (suc fuel) none stack v = resume (iterate_loop visit s fuel) s stack v
iterate_loop visit s (suc fuel) (some n) stack v =
    let w = visit n v in proceed (iterate_loop visit s fuel) s n stack w.go_on w.state

-- `IterateOverNodesDepthFirst`. The callback is never null.
unfoldable pub iterate_over_nodes_depth_first :
    {V : Type 0} → Callback V → Store → ℕ → Option Ref → V → Option V
iterate_over_nodes_depth_first visit s fuel none v = some v
iterate_over_nodes_depth_first visit s fuel (some n) v = iterate_loop visit s fuel (some n) [] v
