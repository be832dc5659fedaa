-- ===== src/Tests/DocumentRuns.antt =====
-- Two game trees of SGFC, read into a document.
use libsgfc.Common.{ℕ, ◌≤◌, ◌≡◌, refl, none, some, List, [], ◌∷◌, ◌++◌, ◌==◌, if◌then◌else◌, arith}
use libsgfc.Tree.Store.{Ref, Store, fresh_store, ok}
use libsgfc.Tree.Settles.{IsForest}
use libsgfc.NodeIterator.Walk.{Kin, nobody, node}
use libsgfc.Document.Parse.{SgfNodes, ParseProperties, parse_games}
use libsgfc.Document.Parse.Grown.{numbered, nothing, and_next}
use libsgfc.Document.Parse.Copied.{tops}
use libsgfc.Document.Parse.Trees.{PortraysGames, ReadsGames, no_game, and_game}
use libsgfc.Document.Parse.Portrayed.{parse_games-PortraysGames}

-- Two roots, 5 with the children 6 and 7, and 8.
abbrev nodes : SgfNodes
nodes = record {
  child = λ n. if n == 5 then some 6 else none;
  sibling = λ n. if n == 5 then some 8 else if n == 6 then some 7 else none;
}

abbrev trees : Kin
trees = node 5 (node 6 nobody (node 7 nobody nobody)) (node 8 nobody nobody)

-- The properties are the nodes read so far.
abbrev log : Ref → ParseProperties (List Ref)
log root n m v = some (v ++ m ∷ [])

abbrev all_read : List Ref
all_read = 5 ∷ 6 ∷ 7 ∷ 8 ∷ []

trees-ReadsGames : ReadsGames log trees 0 [] all_read
trees-ReadsGames =
    and_game refl (and_next refl nothing (and_next refl nothing nothing))
      (and_game refl nothing no_game)

parse_games-PortraysGames_example :
    (final : Store) × IsForest final
    × PortraysGames final trees 0
    × ((enough : ℕ) × ((fuel rounds : ℕ)
          → enough ≤ fuel
          → enough ≤ rounds
          → parse_games nodes log fuel rounds
              (some 5)
              []
              (record { properties = []; next_object = 0 })
              fresh_store
            ≡ ok
                (some (record {
                  games = tops trees 0;
                  made = record { properties = all_read; next_object = numbered trees 0 };
                }))
                final))
parse_games-PortraysGames_example =
    parse_games-PortraysGames nodes log (some 5) trees [] all_read
      (refl, (refl, refl, (refl, refl, refl)), (refl, refl, refl))
      (((λ e. omega arith), tt, ((λ e. omega arith), tt, tt)), (tt, tt)) trees-ReadsGames
