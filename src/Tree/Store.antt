-- ===== src/Tree/Store.antt =====
-- The links between node objects. A node object is a number, a possibly null `shared_ptr` to one is
-- an `Option`, and the three link members of all objects are three functions. Every object is
-- assumed to be held by the client, so none is destroyed and `parent.lock()` is the stored link.
use libsgfc.Common.{ℕ, Option, none, some, Bool, true, false, ◌==◌, if◌then◌else◌}

abbrev pub Ref : Type 0
Ref = ℕ

-- The members `parent`, `firstChild` and `nextSibling` of each node.
pub record Store : Type 0 where
  pub parent : Ref → Option Ref
  pub first_child : Ref → Option Ref
  pub next_sibling : Ref → Option Ref

-- Nodes as `CreateNode` makes them: no links at all.
abbrev pub fresh_store : Store
fresh_store = record { parent = λ n. none; first_child = λ n. none; next_sibling = λ n. none }

-- Equality of two possibly null pointers.
abbrev pub same : Option Ref → Option Ref → Bool
same none none = true
same none (some b) = false
same (some a) none = false
same (some a) (some b) = a == b

abbrev pub is_some : Option Ref → Bool
is_some none = false
is_some (some a) = true

unfoldable pub update : (Ref → Option Ref) → Ref → Option Ref → Ref → Option Ref
update f a v b = if b == a then v else f b

-- The setters of SgfcNode, which change one member of one object.
abbrev pub set_parent : Store → Ref → Option Ref → Store
set_parent s n v = record s { parent = update s.parent n v }

abbrev pub set_first_child : Store → Ref → Option Ref → Store
set_first_child s n v = record s { first_child = update s.first_child n v }

abbrev pub set_next_sibling : Store → Ref → Option Ref → Store
set_next_sibling s n v = record s { next_sibling = update s.next_sibling n v }

-- The exceptions of SgfcTreeBuilder and SgfcNode, one for each message.
pub data Rejection : Type 0 where
  node_is_null child_is_null child_is_node child_is_ancestor : Rejection
  reference_is_no_child child_is_no_child : Rejection
  new_child_is_null old_child_is_null new_child_is_node : Rejection
  old_child_is_no_child new_child_is_ancestor : Rejection
  node_is_root sibling_is_node sibling_is_ancestor : Rejection
  parent_is_node parent_is_descendant : Rejection

-- How a call ends: a result or an exception, with the links as they are then; a member call on a
-- null pointer; or a model loop that ran out of fuel.
pub data Outcome (A : Type 0) : Type 0 where
  ok : A → Store → Outcome A
  throws : Rejection → Store → Outcome A
  crash : Outcome A
  stuck : Outcome A

abbrev pub Cmd : Type 0 → Type 0
Cmd A = Store → Outcome A

abbrev pub pure : {A : Type 0} → A → Cmd A
pure = ok

abbrev pub throw : {A : Type 0} → Rejection → Cmd A
throw = throws

module _ {A B : Type 0} where
  abbrev pub and_then : Outcome A → (A → Cmd B) → Outcome B
  and_then (ok a s) k = k a s
  and_then (throws e s) k = throws e s
  and_then crash k = crash
  and_then stuck k = stuck

  infixl 5 ◌>>=◌ ◌>>◌
  abbrev pub ◌>>=◌ : Cmd A → (A → Cmd B) → Cmd B
  m >>= k = λ s. and_then (m s) k

  abbrev pub ◌>>◌ : Cmd A → Cmd B → Cmd B
  m >> n = λ s. and_then (m s) (λ a. n)

-- A member call on a possibly null pointer.
abbrev pub deref : Option Ref → Cmd Ref
deref none s = crash
deref (some n) s = ok n s

abbrev pub from_fuel : {A : Type 0} → Option A → Store → Outcome A
from_fuel none s = stuck
from_fuel (some a) s = ok a s

-- A read of the links, which may loop.
abbrev pub ask : {A : Type 0} → (Store → Option A) → Cmd A
ask q s = from_fuel (q s) s

abbrev pub gets : {A : Type 0} → (Store → A) → Cmd A
gets q s = ok (q s) s

abbrev pub modify : (Store → Store) → Cmd (Unit {0})
modify f s = ok tt (f s)
