-- ===== src/Date/Decode/Total.antt =====
-- What `SgfcDate::FromPropertyValue` promises for every text.
use libsgfc.Common.{
  ℕ, suc, ◌≡◌, refl, sym, Bool, true, false, not, ◌&&◌, List, [], ◌∷◌, ltb, ◌==◌, if◌then◌else◌,
  length, ◌≤◌, ap, inl, inr, arith, Bool-cases, All,
}
use libsgfc.Common.Int.{ℤ}
use libsgfc.Text.Split.{Bytes, split_string}
use libsgfc.Text.Number.{
  Conversion, number, not_a_number, out_of_range, try_convert_string_to_number_value,
}
use libsgfc.Date.Valid.{Attempt, value, logic_error, GameDate, is_zero}
use libsgfc.Date.Valid.Calendar.{is_sgf_date, is_valid_sgf_date-total}
use libsgfc.Date.Decode.{
  Outcome, ◌>>=◌, goes_on, gives_up, throws, Preceding, no_preceding, part_of, read_part,
  read_later_parts, has_year, read_parts, reference_date, shortcut_date, complete_date, check_date,
  decode_date, decode_loop, or_no_dates, from_property_value,
}

-- The outcome is not `throws`, and a result satisfies the predicate.
abbrev pub Safe : {A : Type 0} → (A → Type 0) → Outcome A → Type 0
Safe P (goes_on a) = P a
Safe P gives_up = Unit
Safe P throws = ⊥

abbrev pub IsSgfDate : GameDate → Type 0
IsSgfDate t = is_sgf_date t ≡ true

abbrev HasShape : Bool → List ℤ → Type 0
HasShape y [] = ⊥
HasShape y (a ∷ []) = Unit
HasShape y (a ∷ b ∷ []) = Unit
HasShape y (a ∷ b ∷ c ∷ []) = y ≡ true
HasShape y (a ∷ b ∷ c ∷ d ∷ ns) = ⊥

pub Safe-if :
    {A : Type 0} (P : A → Type 0) (b : Bool) (x y : Outcome A)
    → Safe P x
    → Safe P y
    → Safe P (if b then x else y)
Safe-if P true x y h k = h
Safe-if P false x y h k = k

pub Safe->>= :
    {A B : Type 0} (P : A → Type 0) (Q : B → Type 0) (x : Outcome A) (f : A → Outcome B)
    → Safe P x
    → ((a : A) → P a → Safe Q (f a))
    → Safe Q (x >>= f)
Safe->>= P Q (goes_on a) f h k = k a h
Safe->>= P Q gives_up f h k = tt
Safe->>= P Q throws f h k = h

abbrev AnyResult : {A : Type 0} → A → Type 0
AnyResult a = Unit

check_date-Safe : (p q : Preceding) → Safe (λ r. IsSgfDate r.preceding_date) (check_date p q)
unfolding check_date
check_date-Safe p q = rw (is_valid_sgf_date-total q.preceding_date) (
    Safe-if (λ r. IsSgfDate r.preceding_date) (not p.is_present && is_zero q.preceding_date.year) _
      _ tt (elim (Bool-cases (is_sgf_date q.preceding_date)) [ inl e ↦ rw e e | inr n ↦ rw n tt ]))

complete_date-Safe :
    (p : Preceding) (y : Bool) (ns : List ℤ)
    → HasShape y ns
    → Safe AnyResult (complete_date p (record { with_year = y; numbers = ns }))
unfolding complete_date reference_date shortcut_date
complete_date-Safe p true (a ∷ []) h = tt
complete_date-Safe p true (a ∷ b ∷ []) h = tt
complete_date-Safe p true (a ∷ b ∷ c ∷ []) h = tt
complete_date-Safe p false (a ∷ []) h = ground arith
complete_date-Safe p false (a ∷ b ∷ []) h = ground arith
complete_date-Safe p false (a ∷ b ∷ c ∷ []) h = absurd (ground arith)
complete_date-Safe p y [] h = absurd h
complete_date-Safe p y (a ∷ b ∷ c ∷ d ∷ ns) h = absurd h

part_of-Safe : (c : Conversion) → Safe AnyResult (part_of c)
part_of-Safe (number n) = tt
part_of-Safe not_a_number = tt
part_of-Safe out_of_range = tt

read_part-Safe : (s : Bytes) → Safe AnyResult (read_part s)
unfolding read_part
read_part-Safe s = part_of-Safe (try_convert_string_to_number_value s)

read_later_parts-Safe : (ss : List Bytes) → Safe (λ ns. length ns ≡ length ss) (read_later_parts ss)
unfolding read_later_parts
read_later_parts-Safe [] = refl
read_later_parts-Safe (s ∷ ss) =
    Safe-if (λ ns. length ns ≡ length (s ∷ ss)) (length s == 2) _ _
      (Safe->>= AnyResult _ (read_part s) _ (read_part-Safe s) (λ n t.
        Safe->>= (λ ns. length ns ≡ length ss) _ (read_later_parts ss) _ (read_later_parts-Safe ss)
          (λ ns e. ap suc e)))
      tt

has_year-Safe : (count : ℕ) (s : Bytes) → Safe (λ y. count ≡ 3 → y ≡ true) (has_year count s)
unfolding has_year
has_year-Safe count s =
    Safe-if (λ y. count ≡ 3 → y ≡ true) (length s == 4) _ _ (λ e. refl)
      (Safe-if (λ y. count ≡ 3 → y ≡ true) (length s == 2) _ _
        (elim (Bool-cases (count == 3)) [
          | inl e ↦ rw e tt
          | inr n ↦ rw n (λ e. absurd (ground arith))
        ])
        tt)

HasShape-intro :
    (y : Bool) (n : ℤ) (ns : List ℤ) (count : ℕ)
    → count ≡ suc (length ns)
    → count ≤ 3
    → (count ≡ 3 → y ≡ true)
    → HasShape y (n ∷ ns)
HasShape-intro y n [] count e b k = tt
HasShape-intro y n (a ∷ []) count e b k = tt
HasShape-intro y n (a ∷ c ∷ []) count e b k = k e
HasShape-intro y n (a ∷ c ∷ d ∷ ns) count e b k = absurd (omega arith)

read_parts-Safe :
    (ss : List Bytes) → Safe (λ parts. HasShape parts.with_year parts.numbers) (read_parts ss)
unfolding read_parts
read_parts-Safe [] = tt
read_parts-Safe (s ∷ ss) = elim (Bool-cases (ltb 3 (length (s ∷ ss)))) [
  | inl e ↦ rw e tt
  | inr b ↦ rw b (
      Safe->>= (λ y. suc (length ss) ≡ 3 → y ≡ true) _ (has_year (suc (length ss)) s) _
        (has_year-Safe (suc (length ss)) s)
        (λ y k. Safe->>= AnyResult _ (read_part s) _ (read_part-Safe s) (λ n t.
          Safe->>= (λ ns. length ns ≡ length ss) _ (read_later_parts ss) _
            (read_later_parts-Safe ss)
            (λ ns e. HasShape-intro y n ns (suc (length ss)) (ap suc (sym e)) (ground arith) k))))
]

decode_date-Safe :
    (p : Preceding) (s : Bytes) → Safe (λ r. IsSgfDate r.preceding_date) (decode_date p s)
unfolding decode_date
decode_date-Safe p s =
    Safe->>= (λ parts. HasShape parts.with_year parts.numbers) _ (read_parts (split_string s b'-'))
      _ (read_parts-Safe (split_string s b'-'))
      (λ parts h.
        Safe->>= AnyResult _ (complete_date p parts) _
          (complete_date-Safe p parts.with_year parts.numbers h) (λ q t. check_date-Safe p q))

decode_loop-Safe : (p : Preceding) (ss : List Bytes) → Safe (All IsSgfDate) (decode_loop p ss)
unfolding decode_loop
decode_loop-Safe p [] = tt
decode_loop-Safe p (s ∷ ss) =
    Safe->>= (λ r. IsSgfDate r.preceding_date) _ (decode_date p s) _ (decode_date-Safe p s)
      (λ q h.
        Safe->>= (All IsSgfDate) _ (decode_loop q ss) _ (decode_loop-Safe q ss) (λ ts k. (h, k)))

-- The dates are those of the SGF format.
abbrev pub IsDecoded : Attempt (List GameDate) → Type 0
IsDecoded (value ts) = All IsSgfDate ts
IsDecoded logic_error = ⊥

or_no_dates-IsDecoded :
    (x : Outcome (List GameDate)) → Safe (All IsSgfDate) x → IsDecoded (or_no_dates x)
or_no_dates-IsDecoded (goes_on ts) h = h
or_no_dates-IsDecoded gives_up h = tt
or_no_dates-IsDecoded throws h = h

-- For every text FromPropertyValue returns, without an exception, and each date it returns is a
-- date of the SGF format: a year up to 9999, a month up to 12, and a day of that month.
pub from_property_value-IsDecoded : (s : Bytes) → IsDecoded (from_property_value s)
unfolding from_property_value
from_property_value-IsDecoded s =
    or_no_dates-IsDecoded (decode_loop no_preceding (split_string s b','))
      (decode_loop-Safe no_preceding (split_string s b','))
