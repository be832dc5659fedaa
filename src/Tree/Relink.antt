-- ===== src/Tree/Relink.antt =====
-- The private methods of SgfcTreeBuilder (src/document/SgfcTreeBuilder.cpp), which relink the tree.
-- `fuel` is that of every loop inside a call.
use libsgfc.Common.{ℕ, zero, suc, Option, none, some, if◌then◌else◌}
use libsgfc.Tree.Store.{
  Ref, Store, same, set_parent, set_first_child, set_next_sibling, stuck, Cmd, pure, ◌>>=◌, ◌>>◌,
  deref, ask, gets, modify,
}
use libsgfc.Tree.Node.{is_root, get_last_child, get_previous_sibling}

-- `RemoveNodeFromCurrentLocation`: the branch that takes `node` out of the list of siblings.
unfoldable pub unlink_sibling : ℕ → Ref → Ref → Cmd (Unit {0})
unfolding get_previous_sibling
unlink_sibling fuel node parent = do
  first ← gets (λ s. s.first_child parent)
  if same first (some node)
      then modify (λ s. set_first_child s parent (s.next_sibling node))
      else do
        previous ← ask (λ s. get_previous_sibling fuel s node)
        previous ← deref previous
        modify (λ s. set_next_sibling s previous (s.next_sibling node))

-- `RemoveNodeFromCurrentLocation`.
unfoldable pub remove_node : ℕ → Ref → Cmd (Unit {0})
unfolding is_root unlink_sibling
remove_node fuel node = do
  root ← gets (λ s. is_root s node)
  if root then pure tt else do
    parent ← gets (λ s. s.parent node)
    parent ← deref parent
    unlink_sibling fuel node parent
    modify (λ s. set_parent s node none)
    modify (λ s. set_next_sibling s node none)

-- The `while` loop of `RemoveNodeAndAllNextSiblingsFromParent`.
unfoldable pub unlink_loop : ℕ → Option Ref → Cmd (Unit {0})
unlink_loop zero _ = λ s. stuck
unlink_loop (suc fuel) none = pure tt
unlink_loop (suc fuel) (some n) =
    λ s. unlink_loop fuel (s.next_sibling n) (set_next_sibling (set_parent s n none) n none)

-- The null test of the parent in `RemoveNodeAndAllNextSiblingsFromParent`.
unfoldable pub clear_first_child : Ref → Option Ref → Cmd (Unit {0})
clear_first_child node none = pure tt
clear_first_child node (some parent) = do
  first ← gets (λ s. s.first_child parent)
  if same first (some node) then modify (λ s. set_first_child s parent none) else pure tt

unfoldable pub clear_next_sibling : Option Ref → Cmd (Unit {0})
clear_next_sibling none = pure tt
clear_next_sibling (some previous) = modify (λ s. set_next_sibling s previous none)

-- `RemoveNodeAndAllNextSiblingsFromParent`.
unfoldable pub remove_node_and_next : ℕ → Option Ref → Cmd (Unit {0})
unfolding clear_first_child clear_next_sibling get_previous_sibling unlink_loop
remove_node_and_next fuel none = pure tt
remove_node_and_next fuel (some node) = do
  previous ← ask (λ s. get_previous_sibling fuel s node)
  clear_next_sibling previous
  parent ← gets (λ s. s.parent node)
  clear_first_child node parent
  unlink_loop fuel (some node)

-- The previous sibling that `InsertNodeAtNewLocation` looks up.
unfoldable pub sibling_before : ℕ → Ref → Option Ref → Store → Option (Option Ref)
unfolding get_last_child get_previous_sibling
sibling_before fuel parent none s = get_last_child fuel s parent
sibling_before fuel parent (some next) s = get_previous_sibling fuel s next

-- The relinking of the parent or the previous sibling in `InsertNodeAtNewLocation`.
unfoldable pub link_before : ℕ → Ref → Ref → Option Ref → Cmd (Unit {0})
unfolding sibling_before
link_before fuel node parent next = do
  first ← gets (λ s. s.first_child parent)
  if same first next then modify (λ s. set_first_child s parent (some node)) else do
    previous ← ask (sibling_before fuel parent next)
    previous ← deref previous
    modify (λ s. set_next_sibling s previous (some node))

-- `InsertNodeAtNewLocation`.
unfoldable pub insert_node : ℕ → Ref → Option Ref → Option Ref → Cmd (Unit {0})
unfolding link_before
insert_node fuel node parent next = do
  p ← deref parent
  link_before fuel node p next
  modify (λ s. set_parent s node parent)
  modify (λ s. set_next_sibling s node next)
