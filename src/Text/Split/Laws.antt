-- ===== src/Text/Split/Laws.antt =====
-- What `SplitString` returns for a delimiter of one character.
use libsgfc.Common.{
  ℕ, zero, suc, ◌<◌, ◌≤◌, ◌≡◌, ◌≢◌, refl, sym, ap, ◌∙◌, inl, inr, false, Option, none, some, List,
  [], ◌∷◌, ◌++◌, append_assoc, arith, ◌==◌, if◌then◌else◌, Bool-cases, Option-cases, ==_refl,
  ==_iff, length, take, drop, has,
}
use native.Mathlib.Numerals.{add-one}
use libsgfc.Text.Split.{Bytes, string_starts_with, find, split_loop, split_at, split_string}

-- The texts between the delimiters.
abbrev cons_head : ℕ → List Bytes → List Bytes
cons_head x [] = (x ∷ []) ∷ []
cons_head x (f ∷ fs) = (x ∷ f) ∷ fs

pub fields : ℕ → Bytes → List Bytes
fields c [] = [] ∷ []
fields c (x ∷ xs) = if x == c then [] ∷ fields c xs else cons_head x (fields c xs)

-- The texts with a delimiter between each two.
unfoldable pub join : ℕ → List Bytes → Bytes
join c [] = []
join c (f ∷ []) = f
join c (f ∷ g ∷ fs) = f ++ c ∷ join c (g ∷ fs)

starts : (c x : ℕ) (xs : Bytes) → string_starts_with (x ∷ xs) (c ∷ []) ≡ (x == c)
unfolding string_starts_with
starts c x xs = ground arith

abbrev offset : ℕ → Bytes → Option ℕ
offset c [] = none
offset c (x ∷ xs) =
    if x == c then some 0 else elim (offset c xs) [ none ↦ none | some i ↦ some (suc i) ]

find-offset : (c : ℕ) (xs : Bytes) → find (c ∷ []) xs ≡ offset c xs
unfolding find string_starts_with
find-offset c [] = ground arith
find-offset c (x ∷ xs) = ground (arith, find-offset c xs)

abbrev raise : Option ℕ → Option ℕ
raise none = none
raise (some i) = some (suc i)

cons_head_cons : (x : ℕ) (f : Bytes) (fs : List Bytes) → cons_head x (f ∷ fs) ≡ (x ∷ f) ∷ fs
cons_head_cons x f fs = refl

fields-none : (c : ℕ) (s : Bytes) → offset c s ≡ none → fields c s ≡ s ∷ []
unfolding fields
fields-none c [] e = refl
fields-none c (x ∷ xs) e = ground (arith, fields-none c xs)

fields-some :
    (c : ℕ) (s : Bytes) (i : ℕ)
    → offset c s ≡ some i
    → fields c s ≡ take i s ∷ fields c (drop (suc i) s)
unfolding fields
fields-some c [] i e = cc
fields-some c (x ∷ xs) i e = elim (Bool-cases (x == c)) [
  | inl eq ↦ let zero_offset : i ≡ 0 = ground arith in rw (zero_offset, eq)
  | inr ne ↦ elim (Option-cases (offset c xs)) [
    | inl q ↦ ground arith
    | inr (j, q) ↦
        let suc_offset : i ≡ suc j = ground arith in rw (suc_offset, ne, fields-some c xs j q)
  ]
]

offset-lt : (c : ℕ) (s : Bytes) (i : ℕ) → offset c s ≡ some i → i < length s
offset-lt c [] i e = cc
offset-lt c (x ∷ xs) i e = elim (Option-cases (offset c xs)) [
  | inl q ↦ ground arith
  | inr (j, q) ↦ ground (arith, offset-lt c xs j q)
]

length-drop_le : (n : ℕ) (s : Bytes) → length (drop n s) ≤ length s
length-drop_le zero s = omega arith
length-drop_le (suc n) [] = omega arith
length-drop_le (suc n) (x ∷ xs) = omega (arith, length-drop_le n xs)

split_loop-fields :
    (c fuel : ℕ) (s : Bytes) (acc : List Bytes)
    → length s < fuel
    → split_loop fuel (c ∷ []) s acc ≡ some (acc ++ fields c s)
unfolding split_loop
split_loop-fields c zero s acc h = absurd (omega arith)
split_loop-fields c (suc fuel) [] acc h = unfold fields in refl
split_loop-fields c (suc fuel) (x ∷ xs) acc h = elim (Option-cases (offset c (x ∷ xs))) [
  | inl e ↦
      rw (find-offset c (x ∷ xs), split_loop) (rw (e, split_loop) (rw (fields-none c (x ∷ xs) e)))
  | inr (i, e) ↦
      rw (find-offset c (x ∷ xs), split_loop)
        (rw (e, split_loop)
          (rw add-one (
            split_loop-fields c fuel (drop i xs) (acc ++ take i (x ∷ xs) ∷ [])
              (omega (arith, length-drop_le i xs))
            ∙ ap some (
                append_assoc acc (take i (x ∷ xs) ∷ []) (fields c (drop i xs))
                ∙ ap (λ fs. acc ++ fs) (sym (fields-some c (x ∷ xs) i e))))))
]

-- SplitString with a character as the delimiter never runs out of the model's fuel, and returns
-- the texts between the delimiters.
pub split_string-fields :
    (c : ℕ) (s : Bytes)
    → (split_at s (c ∷ []) ≡ some (fields c s)) × (split_string s c ≡ fields c s)
unfolding split_at split_string
split_string-fields c s =
    let e = split_loop-fields c (suc (length s)) s [] (omega arith) in (e, rw e)

fields-ne-nil : (c : ℕ) (s : Bytes) → fields c s ≢ []
unfolding fields
fields-ne-nil c [] e = cc
fields-ne-nil c (x ∷ xs) e = elim (Bool-cases (x == c)) [
  | inl q ↦ cc (rw q at e)
  | inr q ↦ cons_head-ne-nil (fields c xs) (rw q at e)
]
  where
    cons_head-ne-nil : (fs : List Bytes) → cons_head x fs ≢ []
    cons_head-ne-nil [] k = cc
    cons_head-ne-nil (f ∷ fs) k = cc

-- The pieces, joined by the delimiter, are the text, and no piece holds the delimiter.
pub join-fields : (c : ℕ) (s : Bytes) → join c (fields c s) ≡ s
unfolding join fields
join-fields c [] = refl
join-fields c (x ∷ xs) = elim (Bool-cases (x == c)) [
  | inl e ↦ rw e (
      join_after_delimiter (fields c xs) (fields-ne-nil c xs)
      ∙ (rw ((==_iff x c).0 e, join-fields c xs)))
  | inr n ↦ rw n (join-cons_head (fields c xs) ∙ ap (◌∷◌ x) (join-fields c xs))
]
  where
    join_after_delimiter : (fs : List Bytes) → fs ≢ [] → join c ([] ∷ fs) ≡ c ∷ join c fs
    join_after_delimiter [] h = absurd (h refl)
    join_after_delimiter (f ∷ fs) h = refl

    join-cons_head : (fs : List Bytes) → join c (cons_head x fs) ≡ x ∷ join c fs
    join-cons_head [] = refl
    join-cons_head (f ∷ []) = refl
    join-cons_head (f ∷ g ∷ fs) = refl

-- A text without the delimiter is one piece, and one behind it starts the next piece.
pub fields-append :
    (c : ℕ) (s rest : Bytes) → has c s ≡ false → fields c (s ++ c ∷ rest) ≡ s ∷ fields c rest
unfolding fields
fields-append c [] rest h = rw ==_refl
fields-append c (x ∷ xs) rest h = ground (arith, fields-append c xs rest)

pub fields_whole : (c : ℕ) (s : Bytes) → has c s ≡ false → fields c s ≡ s ∷ []
unfolding fields
fields_whole c [] h = refl
fields_whole c (x ∷ xs) h = ground (arith, fields_whole c xs)
