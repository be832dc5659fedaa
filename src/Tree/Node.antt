-- ===== src/Tree/Node.antt =====
-- The navigation methods of src/document/SgfcNode.cpp. A loop takes fuel, and `none` says that it
-- ran out.
use libsgfc.Common.{
  ℕ, zero, suc, Option, none, some, Bool, true, false, not, List, [], ◌∷◌, ◌++◌, ◌==◌,
  if◌then◌else◌,
}
use libsgfc.Tree.Store.{Ref, Store, is_some, same, Cmd, ask, throw, node_is_null}

unfoldable pub has_children : Store → Ref → Bool
has_children s n = is_some (s.first_child n)

unfoldable pub has_next_sibling : Store → Ref → Bool
has_next_sibling s n = is_some (s.next_sibling n)

unfoldable pub has_parent : Store → Ref → Bool
has_parent s n = is_some (s.parent n)

unfoldable pub is_root : Store → Ref → Bool
is_root s n = not (is_some (s.parent n))

-- The loop of `GetLastChild` at the pointer `child`.
unfoldable pub last_child_loop : ℕ → Store → Option Ref → Option (Option Ref)
unfolding has_next_sibling
last_child_loop zero s child = none
last_child_loop (suc fuel) s none = some none
last_child_loop (suc fuel) s (some c) =
    let rest = last_child_loop fuel s (s.next_sibling c) in
    if has_next_sibling s c then rest else some (some c)

unfoldable pub get_last_child : ℕ → Store → Ref → Option (Option Ref)
unfolding last_child_loop
get_last_child fuel s n = last_child_loop fuel s (s.first_child n)

-- The loop of `GetChildren` with the vector built so far.
unfoldable pub children_loop : ℕ → Store → Option Ref → List Ref → Option (List Ref)
children_loop zero s child children = none
children_loop (suc fuel) s none children = some children
children_loop (suc fuel) s (some c) children =
    children_loop fuel s (s.next_sibling c) (children ++ c ∷ [])

unfoldable pub get_children : ℕ → Store → Ref → Option (List Ref)
unfolding children_loop
get_children fuel s n = children_loop fuel s (s.first_child n) []

-- The loop of `GetPreviousSibling`: the sibling whose next sibling is `this`.
unfoldable pub previous_loop : ℕ → Store → Ref → Option Ref → Option (Option Ref)
previous_loop zero s this child = none
previous_loop (suc fuel) s this none = some none
previous_loop (suc fuel) s this (some c) =
    let rest = previous_loop fuel s this (s.next_sibling c) in
    if same (s.next_sibling c) (some this) then some (some c) else rest

-- `GetPreviousSibling` once the parent is locked.
unfoldable pub previous_below : ℕ → Store → Ref → Option Ref → Option (Option Ref)
unfolding previous_loop
previous_below fuel s this none = some none
previous_below fuel s this (some p) =
    if same (s.first_child p) (some this)
    then some none
    else previous_loop fuel s this (s.first_child p)

unfoldable pub get_previous_sibling : ℕ → Store → Ref → Option (Option Ref)
unfolding previous_below
get_previous_sibling fuel s this = previous_below fuel s this (s.parent this)

-- The loop of `IsDescendantOf` and `IsAncestorOf`: whether `wanted` is the pointer `parent` or
-- above it.
unfoldable pub ancestor_loop : ℕ → Store → Ref → Option Ref → Option Bool
ancestor_loop zero s wanted parent = none
ancestor_loop (suc fuel) s wanted none = some false
ancestor_loop (suc fuel) s wanted (some p) =
    let rest = ancestor_loop fuel s wanted (s.parent p) in if p == wanted then some true else rest

unfoldable pub is_descendant_of : ℕ → Ref → Option Ref → Cmd Bool
unfolding ancestor_loop
is_descendant_of fuel this none = throw node_is_null
is_descendant_of fuel this (some n) = ask (λ s. ancestor_loop fuel s n (s.parent this))

unfoldable pub is_ancestor_of : ℕ → Ref → Option Ref → Cmd Bool
unfolding ancestor_loop
is_ancestor_of fuel this none = throw node_is_null
is_ancestor_of fuel this (some n) = ask (λ s. ancestor_loop fuel s this (s.parent n))

-- The loop of `GetRoot` at the pointer `parent`, and its `return` of the node itself.
unfoldable pub root_loop : ℕ → Store → Ref → Option Ref → Option Ref
unfolding has_parent
root_loop zero s this parent = none
root_loop (suc fuel) s this none = some this
root_loop (suc fuel) s this (some p) =
    let rest = root_loop fuel s this (s.parent p) in if has_parent s p then rest else some p

unfoldable pub get_root : ℕ → Store → Ref → Option Ref
unfolding root_loop
get_root fuel s n = root_loop fuel s n (s.parent n)

-- The two loops of `GetMainVariationNodes`: ancestors to the front, first children to the back.
unfoldable pub ancestors_front : ℕ → Store → Option Ref → List Ref → Option (List Ref)
ancestors_front zero s _ nodes = none
ancestors_front (suc fuel) s none nodes = some nodes
ancestors_front (suc fuel) s (some n) nodes = ancestors_front fuel s (s.parent n) (n ∷ nodes)

unfoldable pub first_children_back : ℕ → Store → Option Ref → List Ref → Option (List Ref)
first_children_back zero s _ nodes = none
first_children_back (suc fuel) s none nodes = some nodes
first_children_back (suc fuel) s (some n) nodes =
    first_children_back fuel s (s.first_child n) (nodes ++ n ∷ [])

unfoldable pub get_main_variation_nodes : ℕ → Store → Ref → Option (List Ref)
unfolding ancestors_front first_children_back
get_main_variation_nodes fuel s n = elim (ancestors_front fuel s (s.parent n) []) [
  | none ↦ none
  | some above ↦ first_children_back fuel s (some n) above
]
