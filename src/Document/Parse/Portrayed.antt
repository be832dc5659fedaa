-- ===== src/Document/Parse/Portrayed.antt =====
-- The nodes that the constructor of SgfcDocument makes for all game trees.
use libsgfc.Common.{
  ℕ, suc, ◌+◌, ◌-◌, ◌≤◌, ◌<◌, ◌≡◌, refl, subst, ap, ◌∙◌, inl, inr, Option, none, some, true, List,
  [], ◌∷◌, ◌++◌, append_assoc, append-nil, arith, ◌==◌, ==_refl, has, Bool-cases, ==_iff,
}
use libsgfc.Tree.Store.{Ref, Store, fresh_store, ok, Cmd}
use libsgfc.Tree.Chain.{Chain}
use libsgfc.Tree.Settles.{IsForest}
use libsgfc.Tree.Shape.{Forest, Shape, fresh_store-Shape}
use libsgfc.NodeIterator.Walk.{Kin, nobody, node, steps}
use libsgfc.Document.Parse.{
  SgfNodes, Made, ParseProperties, parse_game_tree_depth_first, Parsed, append_game_of, parse_game,
  parse_games,
}
use libsgfc.Document.Parse.Grown.{Spells, numbered, numbered-le, IsUnmade, parse-Reads}
use libsgfc.Document.Parse.Copied.{tops, Lists, Lists-Portrays}
use libsgfc.Document.Parse.Trees.{
  AvoidsRoots, ReadsGames, no_game, and_game, PortraysGames, grow_games, grow_games-Lists,
  parse_tree-run,
}

-- Rounds of the constructor's loop.
abbrev pub turns : Kin → ℕ → ℕ
turns nobody extra = suc extra
turns (node r below beside) extra = suc (turns beside extra)

-- What the constructor's loop does with the games from some root node on.
record GrownGames {V : Type 0} (nodes : SgfNodes) (parse : Ref → ParseProperties V) (t : Kin)
    (o : Option Ref) (n : Ref) (v w : V) (s : Store) (kids : Forest) : Type 0 where
  enough : ℕ
  final : Store
  shape : Shape final (grow_games t n kids)
  kept : (q : Ref) → q < n → final.parent q ≡ s.parent q
  parentless : (r : Ref) → has r (tops t n) ≡ true → final.parent r ≡ none
  runs :
      (fuel extra : ℕ) (games : List Ref)
      → enough ≤ fuel
      → parse_games nodes parse fuel
          (turns t extra)
          o
          games
          (record { properties = v; next_object = n })
          s
        ≡ ok
            (some (record {
              games = games ++ tops t n;
              made = record { properties = w; next_object = numbered t n };
            }))
            final

module _ {V : Type 0} (nodes : SgfNodes) (parse : Ref → ParseProperties V) where
  parse_game-run :
      (r n next : Ref) (v v₁ w : V) (games : List Ref) (s s' : Store) (fuel : ℕ)
      (go : Option Ref → List Ref → Made V → Cmd (Option (Parsed V)))
      → parse r n r v ≡ some v₁
      → parse_game_tree_depth_first nodes r
          (parse r)
          fuel
          fuel
          n
          (record { properties = v₁; next_object = suc n })
          s
        ≡ ok (some (record { properties = w; next_object = next })) s'
      → parse_game nodes go (parse r) fuel r games n (parse r n r v) s
        ≡ go (nodes.sibling r) (games ++ n ∷ []) (record { properties = w; next_object = next }) s'
  unfolding parse_game append_game_of
  parse_game-run r n next v v₁ w games s s' fuel go e f = rw (e, f) refl

  suc-IsUnmade : (n : Ref) (s : Store) → IsUnmade n s → IsUnmade (suc n) s
  suc-IsUnmade n s u = record {
    orphans = λ c le. u.orphans c (omega arith);
    parents_made = λ q r e. let lt = u.parents_made q r e in omega arith;
  }

  parse_games-ReadsGames :
      {t : Kin} {n : Ref} {v w : V}
      → ReadsGames parse t n v w
      → (o : Option Ref) (s : Store) (kids : Forest) → Spells nodes o t
      → AvoidsRoots t
      → Shape s kids
      → IsUnmade n s
      → GrownGames nodes parse t o n v w s kids
  unfolding parse_games
  parse_games-ReadsGames no_game o s kids e free h u = record {
    enough = 0;
    final = s;
    shape = h;
    kept = λ q lt. refl;
    parentless = λ r m. ground arith;
    runs = λ fuel extra games le. rw (e, append-nil games) refl;
  }
  parse_games-ReadsGames {t = node r below beside} {n} {v} {w} (and_game {v₁ = v₁} {v₂} e here rest)
        o s kids (is, down, side) (free, others) h u =
      let g =
        parse-Reads nodes r (parse r) here (nodes.child r) n s kids down free h (suc-IsUnmade n s u)
          (omega arith) in
      let k =
        parse_games-ReadsGames rest (nodes.sibling r) g.final _ side others g.shape g.unmade in
      let le = numbered-le below (suc n) in
      record {
        enough = g.enough + (suc (steps below) + k.enough);
        final = k.final;
        shape = k.shape;
        kept = λ q lt. k.kept q (omega arith) ∙ g.kept q (omega arith);
        parentless = λ q m. elim (Bool-cases (q == n)) [
          | inl y ↦
              let i : q ≡ n = (==_iff q n).0 y in
              k.kept q (omega arith) ∙ g.kept q (omega arith) ∙ u.orphans q (omega arith)
          | inr z ↦ k.parentless q (ground arith)
        ];
        runs = λ fuel extra games lt. rw is (
            parse_game-run r n _ v v₁ v₂ games s g.final fuel _ e (
              parse_tree-run nodes r (parse r) below n v₁ v₂ s kids g fuel (omega arith)
                (omega arith))
            ∙ k.runs fuel extra (games ++ n ∷ []) (omega arith)
            ∙ rw (append_assoc games (n ∷ []) (tops beside (numbered below (suc n)))) refl);
      }

  Lists-PortraysGames :
      {s : Store} {kids : Forest}
      → Shape s kids
      → (t : Kin) (n : Ref) → Lists kids t n
      → ((r : Ref) → has r (tops t n) ≡ true → s.parent r ≡ none)
      → PortraysGames s t n
  Lists-PortraysGames h nobody n l p = tt
  Lists-PortraysGames {s} h (node r below beside) n (here, down, side) p = (
    p n (ground (arith, ==_refl n)),
    Lists-Portrays h below (suc n) (s.first_child n) down
        (subst (Chain s.next_sibling (s.first_child n)) here (h.chain n)),
    Lists-PortraysGames h beside (numbered below (suc n)) side (λ q m. p q (ground arith)),
  )

  turns-extra : (t : Kin) (extra : ℕ) → turns t extra ≡ extra + turns t 0
  turns-extra nobody extra = omega arith
  turns-extra (node r below beside) extra =
      omega (arith, turns-extra beside extra, turns-extra beside 0)

  fresh_store-IsUnmade : IsUnmade 0 fresh_store
  fresh_store-IsUnmade = record { orphans = λ c le. refl; parents_made = λ q r e. cc }

  -- If the child and sibling links of SGFC describe a list of finite game trees, in none of which
  -- the root occurs again, and the properties of all nodes are read without an exception, then with
  -- enough fuel the constructor of SgfcDocument, on objects without links, ends with one game for
  -- each game tree in their order, the links are those of a forest, no root node has a parent, and
  -- what is below each root node is a copy of what is below SGFC's root node, the nodes numbered in
  -- the order in which they are made.
  pub parse_games-PortraysGames :
      (root : Option Ref) (t : Kin) (v w : V)
      → Spells nodes root t
      → AvoidsRoots t
      → ReadsGames parse t 0 v w
      → (final : Store) × IsForest final
        × PortraysGames final t 0
        × ((enough : ℕ) × ((fuel rounds : ℕ)
              → enough ≤ fuel
              → enough ≤ rounds
              → parse_games nodes parse fuel rounds root []
                  (record { properties = v; next_object = 0 })
                  fresh_store
                ≡ ok
                    (some (record {
                      games = tops t 0;
                      made = record { properties = w; next_object = numbered t 0 };
                    }))
                    final))
  parse_games-PortraysGames root t v w e free reads =
      let g =
        parse_games-ReadsGames reads root fresh_store (λ p. []) e free fresh_store-Shape
          fresh_store-IsUnmade in
      (
        g.final,
        (_, g.shape),
        Lists-PortraysGames g.shape t 0 (grow_games-Lists t 0 (λ p. []) (λ c le. refl))
            g.parentless,
        (
          g.enough + turns t 0,
          λ fuel rounds lf lr.
              let e : rounds ≡ turns t (rounds - turns t 0) =
                omega (arith, turns-extra t (rounds - turns t 0)) in
              ap
                (λ k.
                  parse_games nodes parse fuel k root []
                    (record { properties = v; next_object = 0 }) fresh_store)
                e
              ∙ g.runs fuel (rounds - turns t 0) [] (omega arith),
        ),
      )
