-- ===== src/RoundInformation/Trips.antt =====
-- Rounds are read back from their texts, and texts are written again from their rounds.
use libsgfc.Common.{
  ◌≡◌, refl, ap, sym, ◌∙◌, ◌⊎◌, inl, inr, Option, none, some, Bool, true, false, ◌||◌, [], ◌∷◌,
  ◌++◌, append_assoc, ◌==◌, ==_iff, if◌then◌else◌, arith,
}
use libsgfc.Text.Split.{Bytes}
use libsgfc.RoundInformation.{
  valid, has_line_end, without_parenthesis, put_front, behind_parenthesis, split_last, cons_if,
  split_if, match_round, or_no_round, round_from_property_value, round_to_property_value,
}

without_parenthesis-closed : (s : Bytes) → without_parenthesis (s ++ b')' ∷ []) ≡ some s
unfolding without_parenthesis
without_parenthesis-closed [] = refl
without_parenthesis-closed (c ∷ []) = refl
without_parenthesis-closed (c ∷ d ∷ ds) =
    rw (without_parenthesis, without_parenthesis-closed (d ∷ ds)) refl

split_last-last :
    (number type : Bytes)
    → split_last type ≡ none
    → split_last (number ++ b' ' ∷ b'(' ∷ type) ≡ some (number, type)
unfolding split_last
split_last-last [] type n = rw n refl
split_last-last (c ∷ cs) type n = rw (split_last-last cs type n) refl

has_line_end-append : (s t : Bytes) → has_line_end (s ++ t) ≡ (has_line_end s || has_line_end t)
has_line_end-append [] t = refl
has_line_end-append (c ∷ cs) t = ground (arith, has_line_end-append cs t)

cons_if-some :
    (c : Bytes) (o : Option Bytes) (u : Bytes)
    → cons_if c o ≡ some u
    → (t : Bytes) × (o ≡ some t) × (u ≡ c ++ t)
cons_if-some c none u e = absurd (cc)
cons_if-some c (some t) u e = (t, refl, cc)

without_parenthesis-append : (s u : Bytes) → without_parenthesis s ≡ some u → u ++ b')' ∷ [] ≡ s
unfolding without_parenthesis
without_parenthesis-append [] u e = absurd (cc)
without_parenthesis-append (c ∷ []) u e = ground arith
without_parenthesis-append (c ∷ d ∷ ds) u e =
    let (t, f, g) = cons_if-some (c ∷ []) (without_parenthesis (d ∷ ds)) u e in
    rw g (ap (λ x. c ∷ x) (without_parenthesis-append (d ∷ ds) t f))

abbrev front : Option (Bytes × Bytes) → Bytes
front none = []
front (some p) = p.0

abbrev back : Option (Bytes × Bytes) → Bytes
back none = []
back (some p) = p.1

put_front-some :
    (c : Bytes) (found o : Option (Bytes × Bytes)) (a b : Bytes)
    → put_front c found o ≡ some (a, b)
    → (found ≡ some (a, b)) ⊎ ((a' : Bytes) × (o ≡ some (a', b)) × (a ≡ c ++ a'))
put_front-some c found none a b e = inl e
put_front-some c found (some (x, y)) a b e = inr (x, ap (λ q. some (x, back q)) e, sym (ap front e))

if-some :
    (t : Bool) (o : Option (Bytes × Bytes)) (p : Bytes × Bytes)
    → (if t then o else none) ≡ some p
    → (t ≡ true) × (o ≡ some p)
if-some true o p e = (refl, e)
if-some false o p e = absurd (cc)

behind_parenthesis-some :
    (a b cs : Bytes) → behind_parenthesis cs ≡ some (a, b) → (a ≡ []) × (b'(' ∷ b ≡ cs)
behind_parenthesis-some a b [] e = absurd (cc)
behind_parenthesis-some a b (c ∷ cs) e =
    let (y, f) = if-some (c == b'(') (some ([], cs)) (a, b) e in
    (sym (ap front f), rw (sym (ap back f), (==_iff c b'(').0 y) refl)

split_last-append : (s a b : Bytes) → split_last s ≡ some (a, b) → a ++ b' ' ∷ b'(' ∷ b ≡ s
unfolding split_last
split_last-append [] a b e = absurd (cc)
split_last-append (c ∷ cs) a b e =
    elim (put_front-some (c ∷ []) (if c == b' ' then behind_parenthesis cs else none)
      (split_last cs) a b e) [
        | inl f ↦
            let (y, g) = if-some (c == b' ') (behind_parenthesis cs) (a, b) f in
            let (h, k) = behind_parenthesis-some a b cs g in
            rw (h, (==_iff c b' ').0 y) (ap (λ x. b' ' ∷ x) k)
        | inr (a', f, g) ↦ rw g (ap (λ x. c ∷ x) (split_last-append cs a' b f))
      ]

or_no_round-valid :
    (o : Option (Bytes × Bytes))
    → (or_no_round o).is_valid ≡ true
    → (m : Bytes × Bytes) × (o ≡ some m)
or_no_round-valid none h = absurd (cc)
or_no_round-valid (some m) h = (m, refl)

split_if-some :
    (o : Option Bytes) (m : Bytes × Bytes)
    → split_if o ≡ some m
    → (u : Bytes) × (o ≡ some u) × (split_last u ≡ some m)
split_if-some none m e = absurd (cc)
split_if-some (some u) m e = (u, refl, e)

matched :
    (t : Bool) (o : Option (Bytes × Bytes)) (m : Bytes × Bytes)
    → (if t then none else o) ≡ some m
    → o ≡ some m
matched true o m e = absurd (cc)
matched false o m e = e

match_round-text :
    (s number type : Bytes)
    → match_round s ≡ some (number, type)
    → number ++ b' ' ∷ b'(' ∷ (type ++ b')' ∷ []) ≡ s
unfolding match_round
match_round-text s number type e =
    let (u, f, g) = split_if-some (without_parenthesis s) (number, type) (matched _ _ _ e) in
    sym (append_assoc number (b' ' ∷ b'(' ∷ type) (b')' ∷ []))
    ∙ rw (split_last-append u number type g) (without_parenthesis-append s u f)

-- A valid round whose number and type have no line end, and whose type does not contain a space in
-- front of an opening parenthesis, is read back from its text. Any text that is read as a valid
-- round is the text of that round.
pub round_from_property_value-round_to_property_value :
    ((number type : Bytes)
      → has_line_end number ≡ false
      → has_line_end type ≡ false
      → split_last type ≡ none
      → round_from_property_value (round_to_property_value (valid (number, type)))
        ≡ valid (number, type))
    × ((s : Bytes)
        → (round_from_property_value s).is_valid ≡ true
        → round_to_property_value (round_from_property_value s) ≡ s)
unfolding round_from_property_value round_to_property_value match_round
round_from_property_value-round_to_property_value = (
  λ number type n t h. rw (sym (append_assoc number (b' ' ∷ b'(' ∷ type) (b')' ∷ []))) (
      rw
        (
          has_line_end-append (number ++ b' ' ∷ b'(' ∷ type) (b')' ∷ []),
          has_line_end-append number (b' ' ∷ b'(' ∷ type),
          n,
          t,
          without_parenthesis-closed (number ++ b' ' ∷ b'(' ∷ type),
          split_last-last number type h,
        )
        refl),
  λ s v. let (m, e) = or_no_round-valid (match_round s) v in rw e (match_round-text s m.0 m.1 e),
)
