-- ===== src/Pointers.antt =====
-- Vectors of shared pointers, and what the C++ standard library does with them: `std::find`,
-- `erase` at the position found, and a `std::set` made of a vector.
pub mod Clean
use libsgfc.Common.{ℕ, Option, none, some, Bool, true, false, ◌||◌, List, [], ◌∷◌, if◌then◌else◌}
use libsgfc.Tree.Store.{Ref, same}

abbrev pub Pointers : Type 0
Pointers = List (Option Ref)

-- Whether `std::find` finds a pointer.
abbrev pub finds : Option Ref → Pointers → Bool
finds p [] = false
finds p (q ∷ qs) = same q p || finds p qs

-- The vector without the element that `std::find` finds.
unfoldable pub erase_found : Option Ref → Pointers → Pointers
erase_found p [] = []
erase_found p (q ∷ qs) = if same q p then qs else q ∷ erase_found p qs

-- The elements of a set made of the vector, each once.
unfoldable pub to_set : Pointers → Pointers
to_set [] = []
to_set (p ∷ ps) = let rest = to_set ps in if finds p rest then rest else p ∷ rest

-- The outcome of a method that changes a vector: its new value, or an exception.
pub data Edit (E : Type 0) : Type 0 where
  changed : Pointers → Edit E
  refused : E → Edit E

-- The member after the call: an exception leaves it as it was.
abbrev pub after : {E : Type 0} → Pointers → Edit E → Pointers
after old (changed new) = new
after old (refused e) = old
