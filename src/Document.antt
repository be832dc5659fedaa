-- ===== src/Document.antt =====
-- The games of a document (src/document/SgfcDocument.cpp).
pub mod Games
pub mod Parse
use libsgfc.Common.{
  ℕ, Option, none, some, Bool, true, false, not, List, [], ◌∷◌, ◌++◌, length, ◌==◌, if◌then◌else◌,
}
use libsgfc.Tree.Store.{Ref}
use libsgfc.Pointers.{Pointers, finds, erase_found, to_set, Edit, changed, refused, after}

-- The reasons for a `std::invalid_argument`.
pub data GameRefusal : Type 0 where
  duplicate_games : GameRefusal
  null_in_games : GameRefusal
  game_is_null : GameRefusal
  game_is_present : GameRefusal
  game_is_missing : GameRefusal

unfoldable pub is_empty_document : Pointers → Bool
is_empty_document [] = true
is_empty_document (g ∷ games) = false

unfoldable pub get_game : Pointers → Option Ref
get_game [] = none
get_game (g ∷ games) = g

unfoldable pub set_games : Pointers → Pointers → Edit GameRefusal
set_games new games =
    if not (length (to_set new) == length new)
    then refused duplicate_games
    else if finds none new
    then refused null_in_games
    else changed new

unfoldable pub append_game : Option Ref → Pointers → Edit GameRefusal
append_game none games = refused game_is_null
append_game (some g) games =
    if finds (some g) games then refused game_is_present else changed (games ++ some g ∷ [])

unfoldable pub remove_game : Option Ref → Pointers → Edit GameRefusal
remove_game g games =
    if not (finds g games) then refused game_is_missing else changed (erase_found g games)

unfoldable pub remove_all_games : Pointers → Edit GameRefusal
remove_all_games games = changed []
