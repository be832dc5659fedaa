-- ===== src/Tree/Builder.antt =====
-- The public methods of SgfcTreeBuilder (src/document/SgfcTreeBuilder.cpp). Arguments are possibly
-- null pointers, and `fuel` is that of every loop inside a call.
use libsgfc.Common.{ℕ, Option, none, some, Bool, false, not, ◌&&◌, if◌then◌else◌}
use libsgfc.Tree.Store.{
  Ref, same, is_some, Cmd, pure, throw, ◌>>=◌, ◌>>◌, gets, node_is_null, child_is_null,
  child_is_node, child_is_ancestor, reference_is_no_child, child_is_no_child, new_child_is_null,
  old_child_is_null, new_child_is_node, old_child_is_no_child, new_child_is_ancestor, node_is_root,
  sibling_is_node, sibling_is_ancestor, parent_is_node, parent_is_descendant,
}
use libsgfc.Tree.Node.{is_root, is_ancestor_of, is_descendant_of}
use libsgfc.Tree.Relink.{remove_node, remove_node_and_next, insert_node}

-- `p != nullptr && p->IsAncestorOf(node)`.
unfoldable pub is_ancestor_or_null : ℕ → Option Ref → Ref → Cmd Bool
unfolding is_ancestor_of
is_ancestor_or_null fuel none node = pure false
is_ancestor_or_null fuel (some p) node = is_ancestor_of fuel p (some node)

-- `p != nullptr && p->IsDescendantOf(node)`.
unfoldable pub is_descendant_or_null : ℕ → Option Ref → Ref → Cmd Bool
unfolding is_descendant_of
is_descendant_or_null fuel none node = pure false
is_descendant_or_null fuel (some p) node = is_descendant_of fuel p (some node)

-- The end of `SetFirstChild`, from the test whether `child` is null.
unfoldable pub place_first : ℕ → Ref → Option Ref → Cmd (Unit {0})
unfolding remove_node insert_node
place_first fuel node none = pure tt
place_first fuel node (some c) = do
  remove_node fuel c
  next ← gets (λ s. s.first_child node)
  insert_node fuel c (some node) next

unfoldable pub set_first : ℕ → Option Ref → Option Ref → Cmd (Unit {0})
unfolding is_ancestor_or_null remove_node_and_next place_first
set_first fuel none child = throw node_is_null
set_first fuel (some node) child = if same (some node) child then throw child_is_node else do
  old ← gets (λ s. s.first_child node)
  if same old child then pure tt else do
    above ← is_ancestor_or_null fuel child node
    if above
        then throw child_is_ancestor
        else do remove_node_and_next fuel old; place_first fuel node child

unfoldable pub append_child : ℕ → Option Ref → Option Ref → Cmd (Unit {0})
unfolding is_ancestor_of remove_node insert_node
append_child fuel none child = throw node_is_null
append_child fuel (some node) none = throw child_is_null
append_child fuel (some node) (some child) =
    if same (some node) (some child) then throw child_is_node else do
      placed ← gets (λ s. same (s.parent child) (some node) && not (is_some (s.next_sibling child)))
      if placed then pure tt else do
        above ← is_ancestor_of fuel child (some node)
        if above
            then throw child_is_ancestor
            else do remove_node fuel child; insert_node fuel child (some node) none

-- `referenceChild != nullptr && referenceChild->GetParent() != node`.
unfoldable pub is_foreign : Option Ref → Ref → Cmd Bool
is_foreign none node = pure false
is_foreign (some r) node = gets (λ s. not (same (s.parent r) (some node)))

unfoldable pub insert_child : ℕ → Option Ref → Option Ref → Option Ref → Cmd (Unit {0})
unfolding is_foreign is_ancestor_of remove_node insert_node
insert_child fuel none child reference = throw node_is_null
insert_child fuel (some node) none reference = throw child_is_null
insert_child fuel (some node) (some child) reference =
    if same (some node) (some child) then throw child_is_node else do
      foreign ← is_foreign reference node
      if foreign then throw reference_is_no_child else do
        placed ←
            gets (λ s. same (s.parent child) (some node) && same (s.next_sibling child) reference)
        if placed then pure tt else do
          above ← is_ancestor_of fuel child (some node)
          if above
              then throw child_is_ancestor
              else do remove_node fuel child; insert_node fuel child (some node) reference

unfoldable pub remove_child : ℕ → Option Ref → Option Ref → Cmd (Unit {0})
unfolding remove_node
remove_child fuel none child = throw node_is_null
remove_child fuel (some node) none = throw child_is_null
remove_child fuel (some node) (some child) = do
  mine ← gets (λ s. same (s.parent child) (some node))
  if mine then remove_node fuel child else throw child_is_no_child

unfoldable pub replace_child : ℕ → Option Ref → Option Ref → Option Ref → Cmd (Unit {0})
unfolding is_ancestor_of remove_node insert_node
replace_child fuel none new old = throw node_is_null
replace_child fuel (some node) none old = throw new_child_is_null
replace_child fuel (some node) (some new) none = throw old_child_is_null
replace_child fuel (some node) (some new) (some old) =
    if same (some node) (some new) then throw new_child_is_node else do
      mine ← gets (λ s. same (s.parent old) (some node))
      if not mine
          then throw old_child_is_no_child
          else if same (some new) (some old)
          then pure tt
          else do
            above ← is_ancestor_of fuel new (some node)
            if above then throw new_child_is_ancestor else do
              remove_node fuel new
              insert_node fuel new (some node) (some old)
              remove_node fuel old

-- The call of `RemoveNodeAndAllNextSiblingsFromParent` and what follows it in `SetNextSibling`.
unfoldable pub place_next : ℕ → Ref → Option Ref → Cmd (Unit {0})
unfolding remove_node insert_node
place_next fuel node none = pure tt
place_next fuel node (some sibling) = do
  remove_node fuel sibling
  parent ← gets (λ s. s.parent node)
  next ← gets (λ s. s.next_sibling node)
  insert_node fuel sibling parent next

unfoldable pub set_next : ℕ → Option Ref → Option Ref → Cmd (Unit {0})
unfolding is_root is_ancestor_or_null remove_node_and_next place_next
set_next fuel none sibling = throw node_is_null
set_next fuel (some node) sibling = do
  root ← gets (λ s. is_root s node)
  if root
      then throw node_is_root
      else if same (some node) sibling
      then throw sibling_is_node
      else do
        above ← is_ancestor_or_null fuel sibling node
        if above then throw sibling_is_ancestor else do
          old ← gets (λ s. s.next_sibling node)
          if same old sibling
              then pure tt
              else do remove_node_and_next fuel old; place_next fuel node sibling

-- The end of `SetParent`.
unfoldable pub place_under : ℕ → Ref → Option Ref → Cmd (Unit {0})
unfolding insert_node
place_under fuel node none = pure tt
place_under fuel node (some parent) = insert_node fuel node (some parent) none

unfoldable pub reparent : ℕ → Option Ref → Option Ref → Cmd (Unit {0})
unfolding is_descendant_or_null remove_node place_under
reparent fuel none parent = throw node_is_null
reparent fuel (some node) parent = if same (some node) parent then throw parent_is_node else do
  placed ← gets (λ s. same (s.parent node) parent)
  if placed then pure tt else do
    below ← is_descendant_or_null fuel parent node
    if below
        then throw parent_is_descendant
        else do remove_node fuel node; place_under fuel node parent
