-- ===== src/Date/Encode/Back.antt =====
-- What ToPropertyValue prints for one date, FromPropertyValue reads as the completed date.
use libsgfc.Common.{
  ℕ, ◌≡◌, ◌⊎◌, refl, subst, inl, inr, Bool, true, false, not, [], ◌∷◌, ◌++◌, ◌==◌, ◌&&◌, length,
  has, has-append, arith, Bool-cases,
}
use libsgfc.Common.Int.{ℤ, pos, eq_of_parts}
use libsgfc.Text.Split.{Bytes, split_string}
use libsgfc.Date.Valid.{GameDate, date, is_zero}
use libsgfc.Date.Valid.Calendar.{is_valid_sgf_date-total}
use libsgfc.Date.Decode.{
  goes_on, Preceding, had, Parts, has_year, read_parts, reference_date, complete_date, check_date,
  decode_date,
}
use libsgfc.Date.Decode.Total.{Safe, IsSgfDate}
use libsgfc.Date.Encode.{two, four, Printed, print_reference}
use libsgfc.Date.Encode.Pieces.{
  IsPiece, InRange, two-IsPiece, four-IsPiece, is_sgf_date-InRange, parts, read_parts-one,
  read_parts-two, read_parts-three,
}

-- The printed text has no comma and is read, after `p`, as the date printed.
abbrev pub Back : Preceding → Printed → Type 0
Back p r = (decode_date p r.text ≡ goes_on r.next) × (has b',' r.text ≡ false)

-- The date may stand there: it is the first with a year, or not the first.
abbrev pub Placed : Preceding → GameDate → Type 0
Placed p c = (not p.is_present && is_zero c.year) ≡ false

pub is_zero-cases : (n : ℤ) → (n ≡ pos 0) ⊎ (is_zero n ≡ false)
is_zero-cases n = elim (Bool-cases (is_zero n)) [
  | inl e ↦ inl (eq_of_parts n (pos 0) (ground arith))
  | inr e ↦ inr e
]

decode_date-parts :
    (p q : Preceding) (ps : Parts) (s : Bytes)
    → read_parts (split_string s b'-') ≡ goes_on ps
    → complete_date p ps ≡ goes_on q
    → IsSgfDate q.preceding_date
    → Placed p q.preceding_date
    → decode_date p s ≡ goes_on q
unfolding decode_date check_date
decode_date-parts p q ps s e f v h =
    rw e (rw f (rw (is_valid_sgf_date-total q.preceding_date) (rw (h, v))))

has_year-four : (count : ℕ) (s : Bytes) → length s ≡ 4 → has_year count s ≡ goes_on true
unfolding has_year
has_year-four count s h = rw h

pub has_year-two :
    (count : ℕ) (s : Bytes) → (count == 3) ≡ false → length s ≡ 2 → has_year count s ≡ goes_on false
unfolding has_year
has_year-two count s h l = rw (l, h)

module _ (p q : Preceding) (v : IsSgfDate q.preceding_date) (h : Placed p q.preceding_date) where
  pub one-Back :
      (w : ℕ) (a : Bytes) (n : ℤ) (f : Bool)
      → IsPiece w a n
      → has_year 1 a ≡ goes_on f
      → complete_date p (parts f (n ∷ [])) ≡ goes_on q
      → (decode_date p a ≡ goes_on q) × (has b',' a ≡ false)
  one-Back w a n f i y c =
      (decode_date-parts p q (parts f (n ∷ [])) a (read_parts-one w a n f i y) c v h, i.2)

  pub two-Back :
      (w : ℕ) (a b : Bytes) (n m : ℤ) (f : Bool)
      → IsPiece w a n
      → IsPiece 2 b m
      → has_year 2 a ≡ goes_on f
      → complete_date p (parts f (n ∷ m ∷ [])) ≡ goes_on q
      → (decode_date p (a ++ b'-' ∷ b) ≡ goes_on q) × (has b',' (a ++ b'-' ∷ b) ≡ false)
  two-Back w a b n m f i j y c = (
    decode_date-parts p q (parts f (n ∷ m ∷ [])) (a ++ b'-' ∷ b) (read_parts-two w a b n m f i j y)
        c v h,
    ground (arith, has-append b',' a (b'-' ∷ b), i.2, j.2),
  )

  three-Back :
      (a b c : Bytes) (n m d : ℤ)
      → IsPiece 4 a n
      → IsPiece 2 b m
      → IsPiece 2 c d
      → complete_date p (parts true (n ∷ m ∷ d ∷ [])) ≡ goes_on q
      → (decode_date p (a ++ b'-' ∷ (b ++ b'-' ∷ c)) ≡ goes_on q)
        × (has b',' (a ++ b'-' ∷ (b ++ b'-' ∷ c)) ≡ false)
  three-Back a b c n m d i j k e = (
    decode_date-parts p q (parts true (n ∷ m ∷ d ∷ [])) (a ++ b'-' ∷ (b ++ b'-' ∷ c))
        (read_parts-three 4 a b c n m d true i j k (has_year-four 3 a i.0)) e v h,
    ground (
      arith,
      has-append b',' a (b'-' ∷ (b ++ b'-' ∷ c)),
      has-append b',' b (b'-' ∷ c),
      i.2,
      j.2,
      k.2,
    ),
  )

not-IsSgfDate : (y d : ℤ) → IsSgfDate (date y (pos 0) d) → is_zero y ≡ false → is_zero d ≡ false → ⊥
not-IsSgfDate y d v m n = ground arith

pub print_reference-Back :
    (p : Preceding) (y m d : ℤ)
    → IsSgfDate (date y m d)
    → Placed p (date y m d)
    → is_zero y ≡ false
    → Safe (Back p) (print_reference (date y m d) (date y m d))
unfolding print_reference complete_date reference_date
print_reference-Back p y m d v h n = elim (is_zero-cases m) [
  | inl m0 ↦ elim (is_zero-cases d) [
    | inl d0 ↦
        let q = had (date y (pos 0) (pos 0)) true false false in
        let i = four-IsPiece y r.0 in
        rw (m0, d0)
          (one-Back p q (subst₂ m0 d0) h 4 (four y) y true i (has_year-four 1 (four y) i.0) refl)
    | inr d1 ↦ absurd (not-IsSgfDate y d (subst (λ k. IsSgfDate (date y k d)) m0 v) n d1)
  ]
  | inr m1 ↦ elim (is_zero-cases d) [
    | inl d0 ↦
        let q = had (date y m (pos 0)) true true false in
        let i = four-IsPiece y r.0 in
        rw (m1, d0)
          (two-Back p q (subst (λ k. IsSgfDate (date y m k)) d0 v) h 4 (four y) (two m) y m true i
            (two-IsPiece m r.1) (has_year-four 2 (four y) i.0) refl)
    | inr d1 ↦
        rw (m1, d1)
          (three-Back p (had (date y m d) true true true) v h (four y) (two m) (two d) y m d
            (four-IsPiece y r.0) (two-IsPiece m r.1) (two-IsPiece d r.2) refl)
  ]
]
  where
    r : InRange 10000 y × InRange 100 m × InRange 100 d
    r = is_sgf_date-InRange y m d v

    subst₂ : m ≡ pos 0 → d ≡ pos 0 → IsSgfDate (date y (pos 0) (pos 0))
    subst₂ m0 d0 =
        subst (λ k. IsSgfDate (date y (pos 0) k)) d0 (subst (λ k. IsSgfDate (date y k d)) m0 v)
