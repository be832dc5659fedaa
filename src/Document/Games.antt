-- ===== src/Document/Games.antt =====
-- What holds of the games of a document after any calls.
use libsgfc.Common.{inl, inr, Option, none, some, List, [], ◌∷◌, length, ◌==◌, Bool-cases}
use libsgfc.Tree.Store.{Ref}
use libsgfc.Pointers.{Pointers, finds, to_set, Edit, after}
use libsgfc.Pointers.Clean.{
  IsClean, length-to_set, IsClean-intro, append-IsClean, erase_found-IsClean,
}
use libsgfc.Document.{GameRefusal, set_games, append_game, remove_game, remove_all_games}

-- A call of one of the methods that change the games.
pub data Call : Type 0 where
  set : Pointers → Call
  append : Option Ref → Call
  remove : Option Ref → Call
  remove_all : Call

unfoldable pub perform : Call → Pointers → Edit GameRefusal
perform (set new) games = set_games new games
perform (append g) games = append_game g games
perform (remove g) games = remove_game g games
perform remove_all games = remove_all_games games

-- The games after a sequence of calls, each of which may throw.
abbrev pub perform_all : List Call → Pointers → Pointers
perform_all [] games = games
perform_all (c ∷ cs) games = perform_all cs (after games (perform c games))

set_games-IsClean :
    (new games : Pointers) → IsClean games → IsClean (after games (set_games new games))
unfolding set_games
set_games-IsClean new games c = elim (Bool-cases (length (to_set new) == length new)) [
  | inr n ↦ rw n c
  | inl e ↦ elim (Bool-cases (finds none new)) [
    | inl f ↦ rw (e, f) c
    | inr f ↦ rw (e, f) (IsClean-intro new ((length-to_set new).0 e) f)
  ]
]

append_game-IsClean :
    (g : Option Ref) (games : Pointers)
    → IsClean games
    → IsClean (after games (append_game g games))
unfolding append_game
append_game-IsClean none games c = c
append_game-IsClean (some g) games c = elim (Bool-cases (finds (some g) games)) [
  | inl e ↦ rw e c
  | inr n ↦ rw n (append-IsClean games g c n)
]

remove_game-IsClean :
    (g : Option Ref) (games : Pointers)
    → IsClean games
    → IsClean (after games (remove_game g games))
unfolding remove_game
remove_game-IsClean g games c = elim (Bool-cases (finds g games)) [
  | inl e ↦ rw e (erase_found-IsClean g games c)
  | inr n ↦ rw n c
]

perform-IsClean :
    (c : Call) (games : Pointers) → IsClean games → IsClean (after games (perform c games))
unfolding perform remove_all_games
perform-IsClean (set new) games c = set_games-IsClean new games c
perform-IsClean (append g) games c = append_game-IsClean g games c
perform-IsClean (remove g) games c = remove_game-IsClean g games c
perform-IsClean remove_all games c = tt

perform_all-from :
    (cs : List Call) (games : Pointers) → IsClean games → IsClean (perform_all cs games)
perform_all-from [] games c = c
perform_all-from (k ∷ ks) games c =
    perform_all-from ks (after games (perform k games)) (perform-IsClean k games c)

-- After any sequence of SetGames, AppendGame, RemoveGame and RemoveAllGames on a new document,
-- whether or not they throw, no game of the document is null and none is there twice.
perform_all-IsClean : (cs : List Call) → IsClean (perform_all cs [])
perform_all-IsClean cs = perform_all-from cs [] tt
