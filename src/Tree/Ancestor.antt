-- ===== src/Tree/Ancestor.antt =====
-- Parent links without cycles: every node reaches a root. What the loops of SgfcNode that go up
-- return, and how a write to a parent link changes who stands above whom.
use libsgfc.Common.{
  ℕ, zero, suc, ◌<◌, ◌≡◌, ◌≢◌, sym, subst, ◌∙◌, ◌⊎◌, inl, inr, Option, none, some, Bool, true,
  false, List, [], ◌∷◌, ◌++◌, append_assoc, arith, ◌==◌, Bool-cases, ==_iff, ◌||◌,
}
use libsgfc.Tree.Store.{Ref, Store, update}
use libsgfc.Tree.Node.{ancestor_loop, root_loop, ancestors_front, has_parent}

-- From `n` the parent links end at a root.
pub data Rooted (parent : Ref → Option Ref) : Ref → Type 0 where
  top : {n : Ref} → parent n ≡ none → Rooted parent n
  under : {n p : Ref} → parent n ≡ some p → Rooted parent p → Rooted parent n

-- `a` is the parent of `n`, or stands above it.
pub data Above (parent : Ref → Option Ref) (a : Ref) : Ref → Type 0 where
  direct : {n : Ref} → parent n ≡ some a → Above parent a n
  further : {n p : Ref} → parent n ≡ some p → Above parent a p → Above parent a n

module _ {parent : Ref → Option Ref} where
  -- The nodes above `n`, from the root down.
  abbrev pub lineage : {n : Ref} → Rooted parent n → List Ref
  lineage (top e) = []
  lineage (under {p} e r) = lineage r ++ p ∷ []

  abbrev pub depth : {n : Ref} → Rooted parent n → ℕ
  depth (top e) = 0
  depth (under e r) = suc (depth r)

  abbrev pub is_above : {n : Ref} → Rooted parent n → Ref → Bool
  is_above (top e) a = false
  is_above (under {p} e r) a = (p == a) || is_above r a

  abbrev pub root_of : {n : Ref} → Rooted parent n → Ref
  root_of (top {n} e) = n
  root_of (under e r) = root_of r

  pub Above-of_is_above :
      (a : Ref) {n : Ref} (r : Rooted parent n) → is_above r a ≡ true → Above parent a n
  Above-of_is_above a (top e) h = cc
  Above-of_is_above a (under {p} e r) h = elim (Bool-cases (p == a)) [
    | inl same ↦ direct (rw (← (==_iff p a).0 same) e)
    | inr other ↦ further e (Above-of_is_above a r (ground arith))
  ]

  pub is_above-of_Above :
      (a : Ref) {n : Ref} (r : Rooted parent n) → Above parent a n → is_above r a ≡ true
  is_above-of_Above a (top e) (direct q) = cc
  is_above-of_Above a (top e) (further q v) = cc
  is_above-of_Above a (under e r) (direct q) = ground arith
  is_above-of_Above a (under {p} e r) (further {p = m} q v) =
      let same : m ≡ p = cc in ground (arith, is_above-of_Above a r (subst (Above parent a) same v))

module _ {parent : Ref → Option Ref} where
  pub Above-trans : {a b n : Ref} → Above parent b n → Above parent a b → Above parent a n
  Above-trans (direct e) v = further e v
  Above-trans (further e w) v = further e (Above-trans w v)

  -- No node that reaches a root stands above itself.
  pub Above-irrefl : {n : Ref} → Rooted parent n → ¬ Above parent n n
  Above-irrefl (top e) (direct q) = cc
  Above-irrefl (top e) (further q v) = cc
  Above-irrefl (under {n} {p} e r) (direct q) =
      let loop : n ≡ p = cc in Above-irrefl r (subst (λ x. Above parent x x) loop (direct q))
  Above-irrefl (under {n} {p} e r) (further {p = m} q v) =
      let step : m ≡ p = cc in
      Above-irrefl r (Above-trans (subst (Above parent n) step v) (direct e))

  pub not-Above :
      (a : Ref) {n : Ref} (r : Rooted parent n) → ¬ Above parent a n → is_above r a ≡ false
  not-Above a r h = elim (Bool-cases (is_above r a)) [
    | inl yes' ↦ absurd (h (Above-of_is_above a r yes'))
    | inr no' ↦ no'
  ]

module _ (s : Store) where
  pub ancestor_loop-is_above :
      (a : Ref) {n : Ref} (r : Rooted s.parent n) (fuel : ℕ)
      → depth r < fuel
      → ancestor_loop fuel s a (s.parent n) ≡ some (is_above r a)
  unfolding ancestor_loop
  ancestor_loop-is_above a r zero h = absurd (omega arith)
  ancestor_loop-is_above a (top e) (suc fuel) h = rw (e, ancestor_loop)
  ancestor_loop-is_above a (under {p} e r) (suc fuel) h =
      rw (e, ancestor_loop) (ground (arith, ancestor_loop-is_above a r fuel))

  root_loop-some :
      (this : Ref) {p : Ref} (r : Rooted s.parent p) (fuel : ℕ)
      → depth r < fuel
      → root_loop fuel s this (some p) ≡ some (root_of r)
  unfolding root_loop has_parent
  root_loop-some this r zero h = absurd (omega arith)
  root_loop-some this (top e) (suc fuel) h = rw e
  root_loop-some this (under {p} e r) (suc fuel) h = rw e (root_loop-some this r fuel (omega arith))

  pub root_loop-root_of :
      {n : Ref} (r : Rooted s.parent n) (fuel : ℕ)
      → depth r < fuel
      → root_loop fuel s n (s.parent n) ≡ some (root_of r)
  unfolding root_loop
  root_loop-root_of r zero h = absurd (omega arith)
  root_loop-root_of (top e) (suc fuel) h = rw (e, root_loop)
  root_loop-root_of {n} (under e r) (suc fuel) h =
      rw e (root_loop-some n r (suc fuel) (omega arith))

  pub ancestors_front-lineage :
      {n : Ref} (r : Rooted s.parent n) (fuel : ℕ) (nodes : List Ref)
      → depth r < fuel
      → ancestors_front fuel s (s.parent n) nodes ≡ some (lineage r ++ nodes)
  unfolding ancestors_front
  ancestors_front-lineage r zero nodes h = absurd (omega arith)
  ancestors_front-lineage (top e) (suc fuel) nodes h = rw (e, ancestors_front)
  ancestors_front-lineage (under {p} e r) (suc fuel) nodes h =
      rw (e, ancestors_front)
        (rw (ancestors_front-lineage r fuel (p ∷ nodes) (omega arith)) (rw append_assoc))

-- Some parent links are set to null, the others stay.
abbrev pub Cut : (parent parent' : Ref → Option Ref) → Type 0
Cut parent parent' = (n : Ref) → (parent' n ≡ parent n) ⊎ (parent' n ≡ none)

module _ {parent parent' : Ref → Option Ref} (cut : Cut parent parent') where
  pub Rooted-cut : {n : Ref} → Rooted parent n → Rooted parent' n
  Rooted-cut {n} (top e) = elim (cut n) [ inl q ↦ top (q ∙ e) | inr q ↦ top q ]
  Rooted-cut {n} (under e r) = elim (cut n) [ inl q ↦ under (q ∙ e) (Rooted-cut r) | inr q ↦ top q ]

  pub Above-cut : {a n : Ref} → Above parent' a n → Above parent a n
  Above-cut {n} (direct e) = elim (cut n) [ inl q ↦ direct (sym q ∙ e) | inr q ↦ cc ]
  Above-cut {n} (further e v) = elim (cut n) [
    | inl q ↦ further (sym q ∙ e) (Above-cut v)
    | inr q ↦ cc
  ]

pub update-Cut : (parent : Ref → Option Ref) (c : Ref) → Cut parent (update parent c none)
unfolding update
update-Cut parent c n = ground arith

module _ (parent : Ref → Option Ref) (c : Ref) (v : Option Ref) where
  -- A write below which `n` does not stand leaves the way to the root.
  pub Rooted-beside :
      {n : Ref} → Rooted parent n → n ≢ c → ¬ Above parent c n → Rooted (update parent c v) n
  unfolding update
  Rooted-beside (top e) d u = top (ground arith)
  Rooted-beside (under {n} {p} e r) d u = under {p = p} (ground arith) (
      Rooted-beside r (λ q. u (direct (subst (λ x. parent n ≡ some x) q e))) (λ w. u (further e w)))

  -- If `c` still reaches a root, so does every node.
  pub Rooted-update :
      {n : Ref} → Rooted (update parent c v) c → Rooted parent n → Rooted (update parent c v) n
  unfolding update
  Rooted-update {n} rc r = elim (Bool-cases (n == c)) [
    | inl e ↦ subst (Rooted (update parent c v)) (sym ((==_iff n c).0 e)) rc
    | inr d ↦ other r d
  ]
    where
      other : {m : Ref} → Rooted parent m → (m == c) ≡ false → Rooted (update parent c v) m
      other (top e) d = top (ground arith)
      other (under {p} e r) d = elim (Bool-cases (p == c)) [
        | inl q ↦ under {p = c} (ground arith) rc
        | inr q ↦ under {p = p} (ground arith) (other r q)
      ]
