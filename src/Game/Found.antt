-- ===== src/Game/Found.antt =====
-- What the searches for game info nodes find.
use libsgfc.Common.{
  ℕ, zero, suc, ◌≤◌, ◌<◌, ◌≡◌, ◌⊎◌, refl, subst, Option, none, some, Bool, true, false, List, [],
  ◌∷◌, arith, if◌then◌else◌, Bool-cases, inl, inr, ◌++◌, append_assoc, append-nil, ◌∙◌, ap,
}
use libsgfc.Tree.Store.{Ref, Store}
use libsgfc.Tree.Ancestor.{
  Rooted, top, under, Above, direct, further, depth, Above-trans, Above-irrefl, is_above-of_Above,
}
use libsgfc.Tree.Chain.{first}
use libsgfc.Tree.Shape.{Forest, Shape}
use libsgfc.NodeIterator.Walk.{
  Kin, nobody, node, Portrays, steps, Walked, walk, iterate_over_nodes_depth_first-walk,
}
use libsgfc.Game.{
  collect_game_info, get_game_info_nodes, find_game_info, get_first_game_info_node,
  get_game_info_node,
}

-- The nodes with the trait that are not below one that has it, in the order of the walk.
abbrev pub topmost : (Ref → Bool) → Kin → List Ref
topmost trait nobody = []
topmost trait (node n below beside) =
    if trait n then n ∷ topmost trait beside else topmost trait below ++ topmost trait beside

walk-topmost :
    (trait : Ref → Bool) (t : Kin) (nodes : List Ref)
    → walk (collect_game_info trait) t nodes
      ≡ record { stopped = false; state = nodes ++ topmost trait t }
unfolding collect_game_info
walk-topmost trait nobody nodes = rw append-nil refl
walk-topmost trait (node n below beside) nodes = elim (Bool-cases (trait n)) [
  | inl y ↦ rw y (
      walk-topmost trait beside (nodes ++ n ∷ [])
      ∙ ap collected (append_assoc nodes (n ∷ []) (topmost trait beside)))
  | inr o ↦
      rw (o, walk-topmost trait below nodes)
        (walk-topmost trait beside (nodes ++ topmost trait below)
          ∙ ap collected (append_assoc nodes (topmost trait below) (topmost trait beside)))
]
  where
    collected : List Ref → Walked (List Ref)
    collected ns = record { stopped = false; state = ns }

-- The first search, where the nodes are those it may stop at.
abbrev reached : List Ref → Option Ref → Walked (Option Ref)
reached [] found = record { stopped = false; state = found }
reached (n ∷ ns) found = record { stopped = true; state = some n }

reached-append :
    (xs ys : List Ref) (found : Option Ref)
    → (if (reached xs found).stopped then reached xs found else reached ys (reached xs found).state)
      ≡ reached (xs ++ ys) found
reached-append [] ys found = refl
reached-append (x ∷ xs) ys found = refl

walk-reached :
    (trait : Ref → Bool) (t : Kin) (found : Option Ref)
    → walk (find_game_info trait) t found ≡ reached (topmost trait t) found
unfolding find_game_info
walk-reached trait nobody found = refl
walk-reached trait (node n below beside) found = elim (Bool-cases (trait n)) [
  | inl y ↦ rw y refl
  | inr o ↦
      rw
        (
          o,
          walk-reached trait below found,
          walk-reached trait beside ((reached (topmost trait below) found).state),
        )
        (reached-append (topmost trait below) (topmost trait beside) found)
]

first-reached : (ns : List Ref) → (reached ns none).state ≡ first ns
first-reached [] = refl
first-reached (n ∷ ns) = refl

-- Where the links from the root describe a finite tree and the fuel is at least its number of steps,
-- GetGameInfoNodes returns, in the order of the walk, the nodes with the game info trait that are
-- not below one that has it, and GetFirstGameInfoNode the first of them.
pub get_game_info_nodes-topmost :
    (trait : Ref → Bool) (s : Store) (root : Option Ref) (t : Kin) (fuel : ℕ)
    → Portrays s root t
    → steps t ≤ fuel
    → (get_game_info_nodes trait s fuel root ≡ some (topmost trait t))
      × (get_first_game_info_node trait s fuel root ≡ some (first (topmost trait t)))
unfolding get_game_info_nodes get_first_game_info_node
get_game_info_nodes-topmost trait s root t fuel p le = (
  iterate_over_nodes_depth_first-walk (collect_game_info trait) s t root [] fuel p le
      ∙ ap (λ w. some w.state) (walk-topmost trait t []),
  iterate_over_nodes_depth_first-walk (find_game_info trait) s t root none fuel p le
      ∙ ap (λ w. some w.state) (walk-reached trait t none)
      ∙ ap some (first-reached (topmost trait t)),
)

-- The node itself, or a node above it.
abbrev pub UpFrom : (Ref → Option Ref) → Ref → Ref → Type 0
UpFrom parent n a = (a ≡ n) ⊎ Above parent a n

-- No node from `n` up has the trait; or `g` has it, and no node from `n` up that is below `g`.
abbrev pub IsNearest : (Ref → Option Ref) → (Ref → Bool) → Ref → Option Ref → Type 0
IsNearest parent trait n none = (a : Ref) → UpFrom parent n a → trait a ≡ false
IsNearest parent trait n (some g) =
    UpFrom parent n g
    × (trait g ≡ true)
    × ((a : Ref) → UpFrom parent n a → Above parent g a → trait a ≡ false)

module _ {parent : Ref → Option Ref} where
  Above-UpFrom : {n p a : Ref} → parent n ≡ some p → Above parent a n → UpFrom parent p a
  Above-UpFrom e (direct q) = inl (ground (arith, e, q))
  Above-UpFrom e (further {p = m} q v) = inr (subst (Above parent _) (ground (arith, e, q)) v)

  UpFrom-Above : {n p a : Ref} → parent n ≡ some p → UpFrom parent p a → Above parent a n
  UpFrom-Above e (inl q) = direct (rw q e)
  UpFrom-Above e (inr v) = further e v

  IsNearest-here :
      (trait : Ref → Bool) {n : Ref}
      → Rooted parent n
      → trait n ≡ true
      → IsNearest parent trait n (some n)
  IsNearest-here trait {n} r y = (
    inl refl,
    y,
    λ a. elim [
      | inl q ↦ λ b. absurd (Above-irrefl r (subst (Above parent n) q b))
      | inr v ↦ λ b. absurd (Above-irrefl r (Above-trans v b))
    ],
  )

IsNearest-above :
    (parent : Ref → Option Ref) (trait : Ref → Bool) {n p : Ref} (found : Option Ref)
    → parent n ≡ some p
    → trait n ≡ false
    → IsNearest parent trait p found
    → IsNearest parent trait n found
IsNearest-above parent trait none e o h =
    λ a. elim [ inl q ↦ rw q o | inr v ↦ h a (Above-UpFrom e v) ]
IsNearest-above parent trait (some g) e o h = (
  inr (UpFrom-Above e h.0),
  h.1,
  λ a. elim [ inl q ↦ λ b. rw q o | inr v ↦ h.2 a (Above-UpFrom e v) ],
)

get_game_info_node-Rooted :
    (trait : Ref → Bool) (s : Store) {n : Ref} (r : Rooted s.parent n) (fuel : ℕ)
    → suc (depth r) < fuel
    → (found : Option Ref) × (get_game_info_node trait fuel s (some n) ≡ some found)
      × IsNearest s.parent trait n found
unfolding get_game_info_node
get_game_info_node-Rooted trait s r zero le = absurd (omega arith)
get_game_info_node-Rooted trait s (top e) (suc zero) le = absurd (omega arith)
get_game_info_node-Rooted trait s (top {n} e) (suc (suc fuel)) le = elim (Bool-cases (trait n)) [
  | inl y ↦ (some n, rw y refl, IsNearest-here trait (top e) y)
  | inr o ↦ (
    none,
    rw (o, e) refl,
    λ a. elim [
      | inl q ↦ rw q o
      | inr v ↦ absurd (ground (arith, is_above-of_Above a (top {n = n} e) v))
    ],
  )
]
get_game_info_node-Rooted trait s (under {n} {p} e r) (suc fuel) le =
    let up = get_game_info_node-Rooted trait s r fuel (omega arith) in
    elim (Bool-cases (trait n)) [
      | inl y ↦ (some n, rw y refl, IsNearest-here trait (under e r) y)
      | inr o ↦ (up.0, rw (o, e) up.1, IsNearest-above s.parent trait up.0 e o up.2)
    ]

-- GetGameInfoNode of a node in a forest, with fuel above its depth plus one, ends. It returns null
-- only if no node from the node up has the game info trait. A node it returns has the trait and is
-- the node or stands above it, and no node from the node up that is below it has the trait.
get_game_info_node-IsNearest :
    {s : Store} {kids : Forest} (h : Shape s kids) (trait : Ref → Bool) (n : Ref) (fuel : ℕ)
    → suc (depth (h.rooted n)) < fuel
    → (found : Option Ref) × (get_game_info_node trait fuel s (some n) ≡ some found)
      × IsNearest s.parent trait n found
get_game_info_node-IsNearest {s} h trait n fuel le =
    get_game_info_node-Rooted trait s (h.rooted n) fuel le
