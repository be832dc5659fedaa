-- ===== src/Document/Parse/Trees.antt =====
-- One game tree behind the other, as the constructor of SgfcDocument makes them.
use libsgfc.Common.{
  ℕ, suc, ◌+◌, ◌-◌, ◌≤◌, ◌<◌, ◌≡◌, refl, ap, ◌∙◌, ◌⊎◌, inl, inr, none, some, [], ◌++◌, arith,
  ==_refl,
}
use libsgfc.Tree.Store.{Ref, Store, ok}
use libsgfc.Tree.Shape.{Forest}
use libsgfc.NodeIterator.Walk.{Kin, nobody, node, steps, Portrays}
use libsgfc.Document.Parse.{
  SgfNodes, ParseProperties, back, enter_node, parse_loop, parse_game_tree_depth_first,
}
use libsgfc.Document.Parse.Grown.{Avoids, numbered, numbered-le, rounds, grow, Reads, Grown}
use libsgfc.Document.Parse.Copied.{
  copy, tops, Lists, Lists-cong, grow-outside, grow-parent, grow-Lists,
}

-- No root occurs below itself.
abbrev pub AvoidsRoots : Kin → Type 0
AvoidsRoots nobody = Unit
AvoidsRoots (node r below beside) = Avoids r below × AvoidsRoots beside

-- The properties of all nodes are read, game by game, and none throws.
pub data ReadsGames {V : Type 0} (parse : Ref → ParseProperties V)
    : Kin → Ref → V → V → Type 0 where
  no_game : {n : Ref} {v : V} → ReadsGames parse nobody n v v
  and_game :
      {n r : Ref} {below beside : Kin} {v v₁ v₂ v₃ : V}
      → parse r n r v ≡ some v₁
      → Reads (parse r) below (suc n) v₁ v₂
      → ReadsGames parse beside (numbered below (suc n)) v₂ v₃
      → ReadsGames parse (node r below beside) n v v₃

-- Each root node has no parent, and what is below it is a copy of what is below SGFC's root node.
abbrev pub PortraysGames : Store → Kin → Ref → Type 0
PortraysGames s nobody n = Unit
PortraysGames s (node r below beside) n =
    (s.parent n ≡ none)
    × Portrays s (s.first_child n) (copy below (suc n))
    × PortraysGames s beside (numbered below (suc n))

abbrev pub grow_games : Kin → Ref → Forest → Forest
grow_games nobody n kids = kids
grow_games (node r below beside) n kids =
    grow_games beside (numbered below (suc n)) (grow below n (suc n) kids)

grow_games-outside :
    (t : Kin) (n q : Ref) (kids : Forest)
    → (q < n) ⊎ (numbered t n ≤ q)
    → grow_games t n kids q ≡ kids q
grow_games-outside nobody n q kids out = refl
grow_games-outside (node r below beside) n q kids (inl lt) =
    grow_games-outside beside (numbered below (suc n)) q _
      (inl (omega (arith, numbered-le below (suc n))))
    ∙ grow-outside below n (suc n) q kids (λ e. omega arith) (inl (omega arith))
grow_games-outside (node r below beside) n q kids (inr le) =
    grow_games-outside beside (numbered below (suc n)) q _ (inr le)
    ∙ grow-outside below n (suc n) q kids
        (λ e. omega (arith, numbered-le below (suc n), numbered-le beside (numbered below (suc n))))
        (inr (omega (arith, numbered-le beside (numbered below (suc n)))))

pub grow_games-Lists :
    (t : Kin) (n : Ref) (kids : Forest)
    → ((c : Ref) → n ≤ c → kids c ≡ [])
    → Lists (grow_games t n kids) t n
grow_games-Lists nobody n kids none_made = tt
grow_games-Lists (node r below beside) n kids none_made =
    let k₁ : Forest = grow below n (suc n) kids in
    let le = numbered-le below (suc n) in
    let kept : (q : Ref)
        → q < numbered below (suc n)
        → grow_games beside (numbered below (suc n)) k₁ q ≡ k₁ q =
      λ q l. grow_games-outside beside (numbered below (suc n)) q k₁ (inl l) in
    (
      kept n (omega arith)
          ∙ grow-parent below n (suc n) kids (omega arith)
          ∙ ap (λ xs. xs ++ tops below (suc n)) (none_made n (omega arith)),
      Lists-cong below (suc n) k₁ _ (λ q h l. kept q l)
          (grow-Lists below n (suc n) kids (omega arith) (λ c h. none_made c (omega arith))),
      grow_games-Lists beside (numbered below (suc n)) k₁ (λ c h.
          grow-outside below n (suc n) c kids (λ e. omega arith) (inr h)
          ∙ none_made c (omega arith)),
    )

rounds-steps : (t : Kin) (extra : ℕ) → rounds t extra ≡ extra + steps t
rounds-steps nobody extra = omega arith
rounds-steps (node m below beside) extra =
    omega (arith, rounds-steps below (rounds beside extra), rounds-steps beside extra)

module _ {V : Type 0} (nodes : SgfNodes) (r : Ref) (parse : ParseProperties V) where
  pub parse_tree-run :
      (below : Kin) (n : Ref) (v w : V) (s : Store) (kids : Forest)
      (g : Grown nodes r parse below (nodes.child r) n (suc n) v w s kids) (fuel : ℕ)
      → g.enough ≤ fuel
      → steps below < fuel
      → parse_game_tree_depth_first nodes r parse fuel fuel n
          (record { properties = v; next_object = suc n })
          s
        ≡ ok (some (record { properties = w; next_object = numbered below (suc n) })) g.final
  unfolding parse_game_tree_depth_first parse_loop enter_node back
  parse_tree-run below n v w s kids g fuel le lt =
      let extra : ℕ = fuel - 1 - steps below in
      let e : fuel ≡ suc (rounds below extra) = omega (arith, rounds-steps below extra) in
      ap
        (λ k.
          parse_loop nodes r parse fuel k (some n) (some r) none []
            (record { properties = v; next_object = suc n }) s)
        e
      ∙ rw (==_refl r) (g.runs fuel extra _ le ∙ rw (==_refl r) refl)
