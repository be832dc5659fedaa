-- ===== src/Document/Parse.antt =====
-- The constructor of SgfcDocument that takes the nodes of SGFC (src/document/SgfcDocument.cpp). The
-- nodes of SGFC are numbers too, and the properties that `ParseProperties` makes of them, or its
-- exception, are a parameter.
pub mod Grown
pub mod Copied
pub mod Trees
pub mod Portrayed
use libsgfc.Common.{
  ℕ, zero, suc, Option, none, some, Bool, List, [], ◌∷◌, ◌++◌, ◌==◌, if◌then◌else◌,
}
use libsgfc.Tree.Store.{Ref, Store, Outcome, stuck, and_then, Cmd, pure, ◌>>=◌, ◌>>◌, gets, deref}
use libsgfc.Tree.Builder.{append_child}

-- The members `child` and `sibling` of the struct Node.
pub record SgfNodes : Type 0 where
  pub child : Ref → Option Ref
  pub sibling : Ref → Option Ref

-- The properties so far, and the number of the next new object.
pub record Made (V : Type 0) : Type 0 where
  pub properties : V
  pub next_object : Ref

-- `ParseProperties` for a node object and a node of SGFC; `none` is an exception.
abbrev pub ParseProperties : Type 0 → Type 0
ParseProperties V = Ref → Ref → V → Option V

-- An entry of the stack.
pub record Entry : Type 0 where
  pub node_of : Option Ref
  pub sgf_node_of : Ref

module _ {V : Type 0} (nodes : SgfNodes) (root : Ref) where
  -- The rest of the outer loop's body, from the test of the stack on; `go` is the loop itself, from
  -- the current node, the current node of SGFC and the current parent node.
  unfoldable pub back :
      (Option Ref → Option Ref → Option Ref → List Entry → Made V → Cmd (Option (Made V)))
      → List Entry
      → Made V
      → Cmd (Option (Made V))
  back go [] m = pure (some m)
  back go (e ∷ stack) m = if e.sgf_node_of == root then pure (some m) else do
    n ← deref e.node_of
    parent ← gets (λ s. s.parent n)
    go none (nodes.sibling e.sgf_node_of) parent stack m

  -- The properties of a new node, which is then the parent of those below.
  unfoldable pub fill_node :
      (Option Ref → Option Ref → Option Ref → List Entry → Made V → Cmd (Option (Made V)))
      → Ref
      → List Entry
      → Made V
      → Option V
      → Cmd (Option (Made V))
  fill_node go sgf stack m none = pure none
  fill_node go sgf stack m (some v) =
      go none (nodes.child sgf) (some m.next_object)
        (record { node_of = some m.next_object; sgf_node_of = sgf } ∷ stack)
        (record { properties = v; next_object = suc m.next_object })

  -- The body of the inner loop.
  unfoldable pub enter_node :
      (Option Ref → Option Ref → Option Ref → List Entry → Made V → Cmd (Option (Made V)))
      → ParseProperties V
      → ℕ
      → Option Ref
      → Ref
      → Option Ref
      → List Entry
      → Made V
      → Cmd (Option (Made V))
  enter_node go parse inner current sgf parent stack m =
      if sgf == root
      then go none (nodes.child sgf) current
          (record { node_of = current; sgf_node_of = sgf } ∷ stack) m
      else do
        append_child inner parent (some m.next_object)
        fill_node go sgf stack m (parse m.next_object sgf m.properties)

  -- Both loops; `inner` is the fuel of each AppendChild.
  unfoldable pub parse_loop :
      ParseProperties V
      → ℕ
      → ℕ
      → Option Ref
      → Option Ref
      → Option Ref
      → List Entry
      → Made V
      → Cmd (Option (Made V))
  parse_loop parse inner zero current sgf parent stack m = λ s. stuck
  parse_loop parse inner (suc fuel) current none parent stack m =
      back (parse_loop parse inner fuel) stack m
  parse_loop parse inner (suc fuel) current (some sgf) parent stack m =
      enter_node (parse_loop parse inner fuel) parse inner current sgf parent stack m

  -- `ParseGameTreeDepthFirst`.
  unfoldable pub parse_game_tree_depth_first :
      ParseProperties V → ℕ → ℕ → Ref → Made V → Cmd (Option (Made V))
  parse_game_tree_depth_first parse inner fuel node m =
      parse_loop parse inner fuel (some node) (some root) none [] m

-- What the constructor has: the root nodes of the games, and what was made.
pub record Parsed (V : Type 0) : Type 0 where
  pub games : List Ref
  pub made : Made V

module _ {V : Type 0} (nodes : SgfNodes) where
  -- The rest of the loop's body behind `ParseGameTreeDepthFirst`; `go` is the loop itself.
  unfoldable pub append_game_of :
      (Option Ref → List Ref → Made V → Cmd (Option (Parsed V)))
      → Ref
      → Ref
      → List Ref
      → Option (Made V)
      → Cmd (Option (Parsed V))
  append_game_of go root node games none = pure none
  append_game_of go root node games (some m) = go (nodes.sibling root) (games ++ node ∷ []) m

  -- The loop's body: a root node object, its properties, and the nodes below it.
  unfoldable pub parse_game :
      (Option Ref → List Ref → Made V → Cmd (Option (Parsed V)))
      → ParseProperties V
      → ℕ
      → Ref
      → List Ref
      → Ref
      → Option V
      → Cmd (Option (Parsed V))
  parse_game go parse fuel root games node none = pure none
  parse_game go parse fuel root games node (some v) = do
    m ←
        parse_game_tree_depth_first nodes root parse fuel fuel node
          (record { properties = v; next_object = suc node })
    append_game_of go root node games m

  -- The constructor's loop over the root nodes, from the list of games so far. The properties
  -- depend on the root node, which gives the game type and the board size. The pointer `sgfTreeInfo`,
  -- which the loop moves along and never reads, is left out: SGFC's list of `TreeInfo` has to be as
  -- long as that of the root nodes, or the source dereferences a null pointer there.
  unfoldable pub parse_games :
      (Ref → ParseProperties V) → ℕ → ℕ → Option Ref → List Ref → Made V → Cmd (Option (Parsed V))
  parse_games parse fuel zero root games m = λ s. stuck
  parse_games parse fuel (suc turns) none games m = pure (some (record { games = games; made = m }))
  parse_games parse fuel (suc turns) (some root) games m =
      parse_game (parse_games parse fuel turns) (parse root) fuel root games m.next_object
        (parse root m.next_object root m.properties)
