-- ===== src/Tree.antt =====
-- The game tree: nodes linked by parent, first child and next sibling (src/document/SgfcNode.cpp),
-- and the operations that relink them (src/document/SgfcTreeBuilder.cpp).
pub mod Store
pub mod Node
pub mod Relink
pub mod Builder
pub mod Chain
pub mod Places
pub mod Loops
pub mod Ancestor
pub mod Shape
pub mod Detach
pub mod Attach
pub mod Truncate
pub mod Moves
pub mod Heads
pub mod Upto
pub mod NextSibling
pub mod Refusal
pub mod Query
pub mod Settles
pub mod Session
