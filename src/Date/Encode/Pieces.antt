-- ===== src/Date/Encode/Pieces.antt =====
-- The texts that ToPropertyValue prints for the parts of a date, read by FromPropertyValue.
use libsgfc.Common.{
  ℕ, ◌<◌, ◌≤◌, ◌≡◌, sym, ap, ◌∙◌, Bool, true, false, List, [], ◌∷◌, ◌++◌, length, has, arith,
}
use libsgfc.Common.Int.{ℤ, pos, negsuc, pos_part, neg_part}
use libsgfc.Text.Split.{Bytes, split_string}
use libsgfc.Text.Split.Laws.{split_string-fields, fields-append, fields_whole}
use libsgfc.Text.Number.Digits.{
  convert-padded_two, convert-padded_four, padded_two_text, padded_four_text,
}
use libsgfc.Date.Valid.{date}
use libsgfc.Date.Valid.Calendar.{is_sgf_date, month_length}
use libsgfc.Date.Decode.{goes_on, Parts, part_of, read_part, read_later_parts, has_year, read_parts}
use libsgfc.Date.Encode.{two, four}

-- A text of this length without separators that is read as the number.
abbrev pub IsPiece : ℕ → Bytes → ℤ → Type 0
IsPiece w s n =
    (length s ≡ w) × (has b'-' s ≡ false) × (has b',' s ≡ false) × (read_part s ≡ goes_on n)

abbrev pub InRange : ℕ → ℤ → Type 0
InRange k n = (neg_part n ≡ 0) × (pos_part n < k)

pub two-IsPiece : (n : ℤ) → InRange 100 n → IsPiece 2 (two n) n
unfolding read_part
two-IsPiece (pos n) h =
    let t = padded_two_text n h.1 in (t.0, t.1, t.2, ap part_of (convert-padded_two n h.1))
two-IsPiece (negsuc n) h = absurd (omega (arith, h.0))

pub four-IsPiece : (n : ℤ) → InRange 10000 n → IsPiece 4 (four n) n
unfolding read_part
four-IsPiece (pos n) h =
    let t = padded_four_text n h.1 in (t.0, t.1, t.2, ap part_of (convert-padded_four n h.1))
four-IsPiece (negsuc n) h = absurd (omega (arith, h.0))

month_length-le : (y m : ℕ) → month_length y m ≤ 31
unfolding month_length
month_length-le y m = ground arith

pub is_sgf_date-InRange :
    (y m d : ℤ) → is_sgf_date (date y m d) ≡ true → InRange 10000 y × InRange 100 m × InRange 100 d
is_sgf_date-InRange y m d h = ground (arith, month_length-le (pos_part y) (pos_part m))

abbrev pub parts : Bool → List ℤ → Parts
parts y ns = record { with_year = y; numbers = ns }

split-whole : (s : Bytes) → has b'-' s ≡ false → split_string s b'-' ≡ s ∷ []
split-whole s h = (split_string-fields b'-' s).1 ∙ fields_whole b'-' s h

split-head :
    (s rest : Bytes)
    → has b'-' s ≡ false
    → split_string (s ++ b'-' ∷ rest) b'-' ≡ s ∷ split_string rest b'-'
split-head s rest h =
    (split_string-fields b'-' (s ++ b'-' ∷ rest)).1
    ∙ (fields-append b'-' s rest h ∙ ap (λ fs. s ∷ fs) (sym (split_string-fields b'-' rest).1))

pub read_parts-one :
    (w : ℕ) (a : Bytes) (y : ℤ) (f : Bool)
    → IsPiece w a y
    → has_year 1 a ≡ goes_on f
    → read_parts (split_string a b'-') ≡ goes_on (parts f (y ∷ []))
unfolding read_parts read_later_parts
read_parts-one w a y f p h = rw (split-whole a p.1) (rw h (rw p.3))

pub read_parts-two :
    (w : ℕ) (a b : Bytes) (y m : ℤ) (f : Bool)
    → IsPiece w a y
    → IsPiece 2 b m
    → has_year 2 a ≡ goes_on f
    → read_parts (split_string (a ++ b'-' ∷ b) b'-') ≡ goes_on (parts f (y ∷ m ∷ []))
unfolding read_parts read_later_parts
read_parts-two w a b y m f p q h =
    rw (split-head a b p.1, split-whole b q.1) (rw h (rw p.3 (rw q.0 (rw q.3))))

pub read_parts-three :
    (w : ℕ) (a b c : Bytes) (y m d : ℤ) (f : Bool)
    → IsPiece w a y
    → IsPiece 2 b m
    → IsPiece 2 c d
    → has_year 3 a ≡ goes_on f
    → read_parts (split_string (a ++ b'-' ∷ (b ++ b'-' ∷ c)) b'-')
      ≡ goes_on (parts f (y ∷ m ∷ d ∷ []))
unfolding read_parts read_later_parts
read_parts-three w a b c y m d f p q r h =
    rw (split-head a (b ++ b'-' ∷ c) p.1, split-head b c q.1, split-whole c r.1)
      (rw h (rw p.3 (rw (q.0, r.0) (rw (q.3, r.3)))))
