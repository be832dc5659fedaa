-- ===== src/Text/Number/Digits.antt =====
-- Printed numbers are read back.
use libsgfc.Common.{
  ℕ, ◌+◌, ◌/◌, ◌%◌, ◌^◌, ◌<◌, ◌≡◌, refl, ap, ◌∙◌, lt→ltb, All, true, false, [], ◌∷◌, arith, ◌==◌,
  length, has,
}
use libsgfc.Common.Int.{pos}
use libsgfc.Text.Split.{Bytes}
use libsgfc.Text.Number.{
  is_digit, is_space, number, padded, try_convert_string_to_number_value, scan_digits, c_str,
}

pub padded_two : (n : ℕ) → n < 100 → padded 2 n ≡ (b'0' + n / 10) ∷ (b'0' + n % 10) ∷ []
unfolding padded
padded_two n h = ground arith

pub padded_four :
    (n : ℕ)
    → n < 10000
    → padded 4 n
      ≡ (b'0' + n / 1000) ∷ (b'0' + n / 100 % 10) ∷ (b'0' + n / 10 % 10) ∷ (b'0' + n % 10) ∷ []
unfolding padded
padded_four n h = ground arith

abbrev pub Digits : Bytes → Type 0
Digits = All (λ c. is_digit c ≡ true)

c_str-Digits : (s : Bytes) → Digits s → c_str s ≡ s
unfolding c_str
c_str-Digits [] d = refl
c_str-Digits (c ∷ cs) d = ground (arith, c_str-Digits cs d.1)

-- A text of digits is converted to its value.
pub convert-Digits :
    (c : ℕ) (cs : Bytes)
    → Digits (c ∷ cs)
    → scan_digits 0 (c ∷ cs) < 2 ^ 31
    → try_convert_string_to_number_value (c ∷ cs) ≡ number (pos (scan_digits 0 (c ∷ cs)))
unfolding try_convert_string_to_number_value
convert-Digits c cs d h =
    rw (c_str-Digits (c ∷ cs) d)
      (rw (not_plus d.0, not_space d.0, not_minus d.0) (rw (not_plus d.0, d.0) (rw (lt→ltb _ _ h))))
  where
    not_plus : is_digit c ≡ true → (c == b'+') ≡ false
    not_plus h' = ground arith

    not_minus : is_digit c ≡ true → (c == b'-') ≡ false
    not_minus h' = ground arith

    not_space : is_digit c ≡ true → is_space c ≡ false
    not_space h' = ground arith

pub convert-padded_two :
    (n : ℕ) → n < 100 → try_convert_string_to_number_value (padded 2 n) ≡ number (pos n)
convert-padded_two n h = rw (padded_two n h) (
    convert-Digits (b'0' + n / 10) ((b'0' + n % 10) ∷ []) (ground arith, (ground arith, tt)) small
    ∙ ap (λ m. number (pos m)) scanned)
  where
    scanned : scan_digits 0 ((b'0' + n / 10) ∷ (b'0' + n % 10) ∷ []) ≡ n
    scanned = unfold scan_digits in ground arith

    small : scan_digits 0 ((b'0' + n / 10) ∷ (b'0' + n % 10) ∷ []) < 2 ^ 31
    small = omega (arith, scanned)

pub convert-padded_four :
    (n : ℕ) → n < 10000 → try_convert_string_to_number_value (padded 4 n) ≡ number (pos n)
convert-padded_four n h = rw (padded_four n h) (
    convert-Digits (b'0' + n / 1000) _
      (ground arith, (ground arith, (ground arith, (ground arith, tt)))) small
    ∙ ap (λ m. number (pos m)) scanned)
  where
    digits : Bytes
    digits = (b'0' + n / 1000) ∷ (b'0' + n / 100 % 10) ∷ (b'0' + n / 10 % 10) ∷ (b'0' + n % 10) ∷ []

    scanned : scan_digits 0 digits ≡ n
    scanned = unfold scan_digits in ground arith

    small : scan_digits 0 digits < 2 ^ 31
    small = omega (arith, scanned)

-- No printed digit is a separator, and the width is exact.
pub padded_two_text :
    (n : ℕ)
    → n < 100
    → (length (padded 2 n) ≡ 2) × (has b'-' (padded 2 n) ≡ false) × (has b',' (padded 2 n) ≡ false)
padded_two_text n h = rw (padded_two n h) (refl, ground arith, ground arith)

pub padded_four_text :
    (n : ℕ)
    → n < 10000
    → (length (padded 4 n) ≡ 4) × (has b'-' (padded 4 n) ≡ false) × (has b',' (padded 4 n) ≡ false)
padded_four_text n h = rw (padded_four n h) (refl, ground arith, ground arith)
