-- ===== src/Unescape/Back.antt =====
-- The decoder takes back what the encoder adds to a text.
use libsgfc.Common.{
  ℕ, ◌≡◌, refl, ap, inl, inr, Bool, true, false, not, ◌&&◌, [], ◌∷◌, ◌==◌, ==_iff, arith,
  Bool-cases, ◌∙◌,
}
use libsgfc.Text.Split.{Bytes}
use libsgfc.Encoder.{
  ValueContext, first_value_of_composed_value, second_value_of_composed_value, standalone,
  add_text_escape_characters,
}
use libsgfc.Encoder.Escape.{marked, in_text, text-marked, marked-cong}
use libsgfc.Unescape.{
  unescape_all, remove_mandatory_escape_characters, remove_text_escape_characters,
}

-- One character off the special ones.
abbrev less : (ℕ → Bool) → ℕ → ℕ → Bool
less f d c = f c && not (c == d)

unescape_all-skip :
    (d x : ℕ) (rest : Bytes)
    → (x == b'\\') ≡ false
    → unescape_all d (x ∷ rest) ≡ x ∷ unescape_all d rest
unfolding unescape_all
unescape_all-skip d x [] n = refl
unescape_all-skip d x (y ∷ rest) n = ground arith

unescape_all-found :
    (d : ℕ) (rest : Bytes) → unescape_all d (b'\\' ∷ d ∷ rest) ≡ d ∷ unescape_all d rest
unfolding unescape_all
unescape_all-found d rest = ground (arith, (==_iff d d).1 refl)

unescape_all-pass :
    (d y : ℕ) (rest : Bytes)
    → (y == d) ≡ false
    → unescape_all d (b'\\' ∷ y ∷ rest) ≡ b'\\' ∷ unescape_all d (y ∷ rest)
unfolding unescape_all
unescape_all-pass d y rest n = ground arith

apart : (f : ℕ → Bool) (c d : ℕ) → f d ≡ true → f c ≡ false → (c == d) ≡ false
apart f c d h o = elim (Bool-cases (c == d)) [
  | inl e ↦ absurd (ground (arith, ap f ((==_iff c d).0 e)))
  | inr n ↦ n
]

marked-plain :
    (f : ℕ → Bool) (c : ℕ) (cs : Bytes) → f c ≡ false → marked f (c ∷ cs) ≡ c ∷ marked f cs
marked-plain f c cs o = rw o refl

-- A backslash in front of a marked text is not in front of the character sought.
unescape_all-slash :
    (d : ℕ) (f : ℕ → Bool) (v : Bytes)
    → f d ≡ true
    → (b'\\' == d) ≡ false
    → unescape_all d (b'\\' ∷ marked f v) ≡ b'\\' ∷ unescape_all d (marked f v)
unescape_all-slash d f [] h n = unfold unescape_all in refl
unescape_all-slash d f (c ∷ cs) h n = elim (Bool-cases (f c)) [
  | inl y ↦ rw y (unescape_all-pass d b'\\' (c ∷ marked f cs) n)
  | inr o ↦ rw o (unescape_all-pass d c (marked f cs) (apart f c d h o))
]

unescape_all-before :
    (d : ℕ) (f : ℕ → Bool) (c : ℕ) (v : Bytes)
    → f d ≡ true
    → (b'\\' == d) ≡ false
    → unescape_all d (c ∷ marked f v) ≡ c ∷ unescape_all d (marked f v)
unescape_all-before d f c v h n = elim (Bool-cases (c == b'\\')) [
  | inl e ↦ rw ((==_iff c b'\\').0 e) (unescape_all-slash d f v h n)
  | inr o ↦ unescape_all-skip d c (marked f v) o
]

unescape_all-marked :
    (d : ℕ) (f : ℕ → Bool) (v : Bytes)
    → f d ≡ true
    → (b'\\' == d) ≡ false
    → unescape_all d (marked f v) ≡ marked (less f d) v
unescape_all-marked d f [] h n = unfold unescape_all in refl
unescape_all-marked d f (c ∷ cs) h n = elim (Bool-cases (c == d)) [
  | inl e ↦
      rw ((==_iff c d).0 e, h, (==_iff d d).1 refl)
        (unescape_all-found d (marked f cs) ∙ ap (λ r. d ∷ r) (unescape_all-marked d f cs h n))
  | inr m ↦ elim (Bool-cases (f c)) [
    | inl y ↦
        rw (y, m)
          (unescape_all-pass d c (marked f cs) m
            ∙ ap (λ r. b'\\' ∷ r) (unescape_all-before d f c cs h n)
            ∙ ap (λ r. b'\\' ∷ c ∷ r) (unescape_all-marked d f cs h n))
    | inr o ↦
        rw o (unescape_all-before d f c cs h n ∙ ap (λ r. c ∷ r) (unescape_all-marked d f cs h n))
  ]
]

abbrev is_slash : ℕ → Bool
is_slash c = c == b'\\'

slashes-back : (v : Bytes) → unescape_all b'\\' (marked is_slash v) ≡ v
slashes-back [] = unfold unescape_all in refl
slashes-back (c ∷ cs) = elim (Bool-cases (c == b'\\')) [
  | inl e ↦
      rw ((==_iff c b'\\').0 e)
        (unescape_all-found b'\\' (marked is_slash cs) ∙ ap (λ r. b'\\' ∷ r) (slashes-back cs))
  | inr n ↦
      ap (unescape_all b'\\') (marked-plain is_slash c cs n)
      ∙ unescape_all-skip b'\\' c (marked is_slash cs) n
      ∙ ap (λ r. c ∷ r) (slashes-back cs)
]

slash-before :
    (y : ℕ) (ys : Bytes)
    → (y == b':') ≡ false
    → unescape_all b':' (b'\\' ∷ marked is_slash (y ∷ ys))
      ≡ b'\\' ∷ unescape_all b':' (marked is_slash (y ∷ ys))
slash-before y ys n = elim (Bool-cases (is_slash y)) [
  | inl e ↦
      rw ((==_iff y b'\\').0 e) (unescape_all-pass b':' b'\\' (b'\\' ∷ marked is_slash ys) refl)
  | inr o ↦ rw (marked-plain is_slash y ys o) (unescape_all-pass b':' y (marked is_slash ys) n)
]

-- Two backslashes, and what follows them.
slashes-colon :
    (m : Bytes)
    → unescape_all b'\\' (unescape_all b':' (b'\\' ∷ b'\\' ∷ b':' ∷ m))
      ≡ b'\\' ∷ b':' ∷ unescape_all b'\\' (unescape_all b':' m)
slashes-colon m =
    ap (unescape_all b'\\') (
      unescape_all-pass b':' b'\\' (b':' ∷ m) refl
      ∙ ap (λ r. b'\\' ∷ r) (unescape_all-found b':' m))
    ∙ unescape_all-pass b'\\' b':' (unescape_all b':' m) refl
    ∙ ap (λ r. b'\\' ∷ r) (unescape_all-skip b'\\' b':' (unescape_all b':' m) refl)

slashes-other :
    (y : ℕ) (ys : Bytes)
    → (y == b':') ≡ false
    → unescape_all b'\\' (unescape_all b':' (b'\\' ∷ b'\\' ∷ marked is_slash (y ∷ ys)))
      ≡ b'\\' ∷ unescape_all b'\\' (unescape_all b':' (marked is_slash (y ∷ ys)))
slashes-other y ys n =
    ap (unescape_all b'\\') (
      unescape_all-pass b':' b'\\' (marked is_slash (y ∷ ys)) refl
      ∙ ap (λ r. b'\\' ∷ r) (slash-before y ys n))
    ∙ unescape_all-found b'\\' (unescape_all b':' (marked is_slash (y ∷ ys)))

-- A colon that is not escaped may stand behind backslashes that are.
separators-back : (v : Bytes) → unescape_all b'\\' (unescape_all b':' (marked is_slash v)) ≡ v
separators-back [] = unfold unescape_all in refl
separators-back (c ∷ []) = elim (Bool-cases (is_slash c)) [
  | inl e ↦ rw ((==_iff c b'\\').0 e) (unfold unescape_all in refl)
  | inr n ↦ rw (marked-plain is_slash c [] n) (unfold unescape_all in refl)
]
separators-back (c ∷ y ∷ ys) = elim (Bool-cases (is_slash c)) [
  | inl e ↦ rw ((==_iff c b'\\').0 e) (elim (Bool-cases (y == b':')) [
    | inl s ↦
        rw ((==_iff y b':').0 s)
          (slashes-colon (marked is_slash ys) ∙ ap (λ r. b'\\' ∷ b':' ∷ r) (separators-back ys))
    | inr o ↦ slashes-other y ys o ∙ ap (λ r. b'\\' ∷ r) (separators-back (y ∷ ys))
  ])
  | inr n ↦
      ap (λ r. unescape_all b'\\' (unescape_all b':' r)) (marked-plain is_slash c (y ∷ ys) n)
      ∙ ap (unescape_all b'\\') (unescape_all-skip b':' c (marked is_slash (y ∷ ys)) n)
      ∙ unescape_all-skip b'\\' c (unescape_all b':' (marked is_slash (y ∷ ys))) n
      ∙ ap (λ r. c ∷ r) (separators-back (y ∷ ys))
]

-- What the encoder adds to a text, the decoder takes out again, in each of the three contexts and
-- whatever the text holds.
pub remove_text-add_text :
    (v : Bytes) (context : ValueContext)
    → remove_text_escape_characters (add_text_escape_characters v context) context ≡ v
unfolding remove_text_escape_characters remove_mandatory_escape_characters
remove_text-add_text v standalone =
    ap (λ r. unescape_all b'\\' (unescape_all b']' r)) (text-marked v standalone)
    ∙ ap (unescape_all b'\\') (unescape_all-marked b']' (in_text false) v refl refl)
    ∙ ap (unescape_all b'\\')
        (marked-cong (less (in_text false) b']') is_slash (λ c. ground arith) v)
    ∙ slashes-back v
remove_text-add_text v first_value_of_composed_value =
    ap (λ r. unescape_all b'\\' (unescape_all b':' (unescape_all b']' r)))
      (text-marked v first_value_of_composed_value)
    ∙ ap (λ r. unescape_all b'\\' (unescape_all b':' r))
        (unescape_all-marked b']' (in_text true) v refl refl)
    ∙ ap (unescape_all b'\\') (unescape_all-marked b':' (less (in_text true) b']') v refl refl)
    ∙ ap (unescape_all b'\\')
        (marked-cong (less (less (in_text true) b']') b':') is_slash (λ c. ground arith) v)
    ∙ slashes-back v
remove_text-add_text v second_value_of_composed_value =
    ap (λ r. unescape_all b'\\' (unescape_all b':' (unescape_all b']' r)))
      (text-marked v second_value_of_composed_value)
    ∙ ap (λ r. unescape_all b'\\' (unescape_all b':' r))
        (unescape_all-marked b']' (in_text false) v refl refl)
    ∙ ap (λ r. unescape_all b'\\' (unescape_all b':' r))
        (marked-cong (less (in_text false) b']') is_slash (λ c. ground arith) v)
    ∙ separators-back v
