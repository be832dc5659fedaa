-- ===== src/Encoder/Depth.antt =====
-- The loops of `ParseDepthFirst` write what a recursion over the tree writes.
use libsgfc.Common.{
  ℕ, zero, suc, ◌+◌, ◌-◌, ◌≤◌, ◌≡◌, refl, sym, ap, Option, none, some, Bool, Bool-cases, inl, inr,
  List, [], ◌∷◌, ◌++◌, append_assoc, append-nil, arith, if◌then◌else◌, ◌∙◌,
}
use libsgfc.Text.Split.{Bytes}
use libsgfc.Tree.Store.{Ref, Store}
use libsgfc.NodeIterator.Walk.{Kin, nobody, node, Portrays, steps}
use libsgfc.Encoder.{
  NamedValues, encode_node, encode_game_tree_begin_or_end, has_sibling, enter, leave, pop,
  depth_first_loop, parse_depth_first, Encoding, encoded, no_root_node, encode_games, encode,
}

-- What is written for the nodes of a tree, where `branches` says of a node that it has siblings.
abbrev pub tree_text : (Ref → Bool) → (Ref → List NamedValues) → ℕ → Kin → Bytes
tree_text branches properties level nobody = []
tree_text branches properties level (node n below beside) =
    if branches n
    then (encode_game_tree_begin_or_end b'(' level ++ encode_node (properties n) (level + 1))
      ++ (tree_text branches properties (level + 1) below
          ++ (encode_game_tree_begin_or_end b')' level
              ++ tree_text branches properties level beside))
    else encode_node (properties n) level
      ++ (tree_text branches properties level below ++ tree_text branches properties level beside)

branch-append :
    (out opening here below closing beside tail : Bytes)
    → ((out ++ opening) ++ here) ++ (below ++ (closing ++ (beside ++ tail)))
      ≡ out ++ (((opening ++ here) ++ (below ++ (closing ++ beside))) ++ tail)
branch-append out opening here below closing beside tail = simp (append_assoc)

line-append :
    (out here below beside tail : Bytes)
    → (out ++ here) ++ (below ++ (beside ++ tail)) ≡ out ++ ((here ++ (below ++ beside)) ++ tail)
line-append out here below beside tail = simp (append_assoc)

level-back : (level : ℕ) → level + 1 - 1 ≡ level
level-back level = omega arith

module _ (sibling_fuel : ℕ) (s : Store) (properties : Ref → List NamedValues)
    (branches : Ref → Bool)
    (told : (n : Ref) → has_sibling sibling_fuel s n ≡ some (branches n)) where
  abbrev loop : ℕ → Option Ref → List Ref → ℕ → Bytes → Option Bytes
  loop = depth_first_loop sibling_fuel s properties

  abbrev Continues : List Ref → ℕ → Bytes → ℕ → Type 0
  Continues stack level tail k =
      (spare : ℕ) (w : Bytes)
      → k ≤ spare
      → pop (loop spare) sibling_fuel s stack level w ≡ some (w ++ tail)

  loop-tree_text :
      (t : Kin) (o : Option Ref) (stack : List Ref) (level : ℕ) (out tail : Bytes) (k fuel : ℕ)
      → Portrays s o t
      → Continues stack level tail k
      → steps t + k ≤ fuel
      → loop fuel o stack level out ≡ some (out ++ (tree_text branches properties level t ++ tail))
  unfolding depth_first_loop enter pop leave
  loop-tree_text nobody o stack level out tail k zero p r le = absurd (omega arith)
  loop-tree_text (node n below beside) o stack level out tail k zero p r le = absurd (omega arith)
  loop-tree_text nobody o stack level out tail k (suc fuel) p r le = rw p (r fuel out (omega arith))
  loop-tree_text (node n below beside) o stack level out tail k (suc fuel) p r le =
      let opening = encode_game_tree_begin_or_end b'(' level in
      let closing = encode_game_tree_begin_or_end b')' level in
      let after = tree_text branches properties level beside in
      elim (Bool-cases (branches n)) [
        | inl y ↦
            let here = encode_node (properties n) (level + 1) in
            rw (p.0, told n, y)
              (loop-tree_text below (s.first_child n) (n ∷ stack) (level + 1)
                  ((out ++ opening) ++ here) (closing ++ (after ++ tail)) (steps beside + k) fuel
                  p.1
                  (λ spare w h.
                    rw (told n, y, level-back level)
                      (loop-tree_text beside (s.next_sibling n) stack level (w ++ closing) tail k
                          spare p.2 r h
                        ∙ ap some (append_assoc w closing (after ++ tail))))
                  (omega arith)
                ∙ ap some (
                    branch-append out opening here (tree_text branches properties (level + 1) below)
                      closing after tail))
        | inr o' ↦
            let here = encode_node (properties n) level in
            rw (p.0, told n, o')
              (loop-tree_text below (s.first_child n) (n ∷ stack) level (out ++ here)
                  (after ++ tail) (steps beside + k) fuel p.1
                  (λ spare w h.
                    rw (told n, o')
                      (loop-tree_text beside (s.next_sibling n) stack level w tail k spare p.2 r h))
                  (omega arith)
                ∙ ap some
                    (line-append out here (tree_text branches properties level below) after tail))
      ]

-- Where HasNextSibling or HasPreviousSibling answers for every node, the links from the root
-- describe a finite tree and the fuel is at least its number of steps, ParseDepthFirst ends, and it
-- has appended the text of the tree: each node in front of what is below it and of its siblings,
-- and a node that has siblings between parentheses together with what is below it.
parse_depth_first-tree_text :
    (sibling_fuel : ℕ) (s : Store) (properties : Ref → List NamedValues) (branches : Ref → Bool)
    (t : Kin) (root : Ref) (level : ℕ) (out : Bytes) (fuel : ℕ)
    → ((n : Ref) → has_sibling sibling_fuel s n ≡ some (branches n))
    → Portrays s (some root) t
    → steps t ≤ fuel
    → parse_depth_first sibling_fuel s properties fuel root level out
      ≡ some (out ++ tree_text branches properties level t)
unfolding parse_depth_first pop
parse_depth_first-tree_text sibling_fuel s properties branches t root level out fuel told p le =
    loop-tree_text sibling_fuel s properties branches told t (some root) [] level out [] 0 fuel p
      (λ spare w h. ap some (sym (append-nil w))) (omega arith)
    ∙ ap (λ x. some (out ++ x)) (append-nil (tree_text branches properties level t))

-- The root nodes of the games, each with the tree below it.
abbrev pub IsGames : Store → (Ref → Kin) → ℕ → List (Option Ref) → Type 0
IsGames s trees fuel [] = Unit
IsGames s trees fuel (none ∷ games) = IsGames s trees fuel games
IsGames s trees fuel (some root ∷ games) =
    Portrays s (some root) (trees root) × (steps (trees root) ≤ fuel) × IsGames s trees fuel games

-- The text of the games with a root node, each between parentheses.
abbrev pub document_text :
    (Ref → Bool) → (Ref → List NamedValues) → (Ref → Kin) → List (Option Ref) → Bytes
document_text branches properties trees [] = []
document_text branches properties trees (none ∷ games) = []
document_text branches properties trees (some root ∷ games) =
    encode_game_tree_begin_or_end b'(' 0
    ++ (tree_text branches properties 1 (trees root)
        ++ (encode_game_tree_begin_or_end b')' 0 ++ document_text branches properties trees games))

game-append :
    (out opening tree closing after : Bytes)
    → (((out ++ opening) ++ tree) ++ closing) ++ after
      ≡ out ++ (opening ++ (tree ++ (closing ++ after)))
game-append out opening tree closing after = simp (append_assoc)

-- The index of the first game without a root node, counted from `index`.
abbrev pub rootless : ℕ → List (Option Ref) → Option ℕ
rootless index [] = none
rootless index (none ∷ games) = some index
rootless index (some root ∷ games) = rootless (index + 1) games

abbrev outcome : Bytes → Option ℕ → Encoding
outcome written none = encoded written
outcome written (some i) = no_root_node i

encode_games-outcome :
    (sibling_fuel : ℕ) (s : Store) (properties : Ref → List NamedValues) (branches : Ref → Bool)
    (trees : Ref → Kin) (fuel index : ℕ) (games : List (Option Ref)) (out : Bytes)
    → ((n : Ref) → has_sibling sibling_fuel s n ≡ some (branches n))
    → IsGames s trees fuel games
    → encode_games sibling_fuel s properties fuel index games out
      ≡ outcome (out ++ document_text branches properties trees games) (rootless index games)
unfolding encode_games
encode_games-outcome sibling_fuel s properties branches trees fuel index [] out told g =
    ap encoded (sym (append-nil out))
encode_games-outcome sibling_fuel s properties branches trees fuel index (none ∷ games) out told g =
    refl
encode_games-outcome sibling_fuel s properties branches trees fuel index (some root ∷ games) out
      told g =
    let opening = encode_game_tree_begin_or_end b'(' 0 in
    let closing = encode_game_tree_begin_or_end b')' 0 in
    let tree = tree_text branches properties 1 (trees root) in
    rw
      (parse_depth_first-tree_text sibling_fuel s properties branches (trees root) root 1
        (out ++ opening) fuel told g.0 g.1)
      (encode_games-outcome sibling_fuel s properties branches trees fuel (index + 1) games
          (((out ++ opening) ++ tree) ++ closing) told g.2
        ∙ ap (λ w. outcome w (rootless (index + 1) games))
            (game-append out opening tree closing (document_text branches properties trees games)))

-- Where HasNextSibling or HasPreviousSibling answers for every node, and for each game with a root
-- node the links from it describe a finite tree and the fuel is at least its number of steps, Encode
-- ends: it returns the texts of the games one after the other, each between parentheses, if all have
-- a root node, and otherwise throws with the index of the first that has none.
pub encode-document_text :
    (sibling_fuel : ℕ) (s : Store) (properties : Ref → List NamedValues) (branches : Ref → Bool)
    (trees : Ref → Kin) (fuel : ℕ) (games : List (Option Ref))
    → ((n : Ref) → has_sibling sibling_fuel s n ≡ some (branches n))
    → IsGames s trees fuel games
    → (rootless 0 games ≡ none
        → encode sibling_fuel s properties fuel games
          ≡ encoded (document_text branches properties trees games))
      × ((i : ℕ)
          → rootless 0 games ≡ some i
          → encode sibling_fuel s properties fuel games ≡ no_root_node i)
unfolding encode
encode-document_text sibling_fuel s properties branches trees fuel games told g =
    let all =
      encode_games-outcome sibling_fuel s properties branches trees fuel 0 games [] told g in
    (
      λ h. all ∙ ap (outcome (document_text branches properties trees games)) h,
      λ i h. all ∙ ap (outcome (document_text branches properties trees games)) h,
    )
