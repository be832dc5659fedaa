-- ===== src/Date/Encode/Round.antt =====
-- One round of ToPropertyValue: what is printed is read back as the completed date.
use libsgfc.Common.{
  ◌≡◌, refl, sym, ap₂, subst, inl, inr, Bool, true, false, not, ◌&&◌, arith, Bool-cases,
}
use libsgfc.Common.Int.{ℤ, pos, eqb_ℤ, eq_of_parts}
use libsgfc.Date.Valid.{GameDate, date, is_zero}
use libsgfc.Date.Valid.Calendar.{is_sgf_date, is_valid_sgf_date-total}
use libsgfc.Date.Decode.{Outcome, goes_on, gives_up, throws, Preceding}
use libsgfc.Date.Decode.Total.{Safe, Safe-if, Safe->>=, IsSgfDate}
use libsgfc.Date.Encode.{
  completed_date, reduce_same_year, output_date, Printed, print_reference, print_shortcut,
  print_date, encode_date,
}
use libsgfc.Date.Encode.Shortcut.{after-Back}
use libsgfc.Date.Encode.Back.{Back, Placed, is_zero-cases, print_reference-Back}

-- A reduced date stands for the same completed date.
abbrev SameDate : Preceding → GameDate → GameDate → Type 0
SameDate p t o = completed_date p o ≡ completed_date p t

module _ (p : Preceding) (t : GameDate) (e : t.year ≡ p.preceding_date.year)
    (n : is_zero t.year ≡ false) where
  day-SameDate : t.month ≡ p.preceding_date.month → SameDate p t (date (pos 0) (pos 0) t.day)
  unfolding completed_date
  day-SameDate f = rw n (ap₂ (λ y m. date y m t.day) (sym e) (sym f))

  month-SameDate :
      (d : ℤ) → is_zero t.month ≡ false → t.day ≡ d → SameDate p t (date (pos 0) t.month d)
  unfolding completed_date
  month-SameDate d f g = rw (n, f) (ap₂ (λ y k. date y t.month k) (sym e) (sym g))

  reduce_same_year-SameDate : Safe (SameDate p t) (reduce_same_year p.preceding_date t)
  unfolding reduce_same_year
  reduce_same_year-SameDate =
      elim (Bool-cases (not (is_zero t.month) && not (is_zero p.preceding_date.month))) [
        | inl f ↦ elim (Bool-cases (eqb_ℤ t.month p.preceding_date.month)) [
          | inl g ↦ rw f (
              rw g (
                Safe-if (SameDate p t) (not (is_zero t.day) && not (is_zero p.preceding_date.day)) _
                  _
                  (Safe-if (SameDate p t) (eqb_ℤ t.day p.preceding_date.day) _ _ tt
                    (day-SameDate (eq_of_parts t.month p.preceding_date.month (ground arith))))
                  (Safe-if (SameDate p t) (is_zero t.day && is_zero p.preceding_date.day) _ _ tt
                    refl)))
          | inr g ↦ elim (Bool-cases (is_zero t.day)) [
            | inl d0 ↦ rw f (
                rw g (
                  rw d0 (
                    month-SameDate (pos 0) (ground arith)
                      (eq_of_parts t.day (pos 0) (ground arith)))))
            | inr d1 ↦ rw f (rw g (rw d1 (month-SameDate t.day (ground arith) refl)))
          ]
        ]
        | inr f ↦ rw f (
            Safe-if (SameDate p t) (not (is_zero t.month) && is_zero p.preceding_date.month) _ _
              refl
              (Safe-if (SameDate p t) (is_zero t.month && not (is_zero p.preceding_date.month)) _ _
                refl
                (Safe-if (SameDate p t) (is_zero t.day && is_zero p.preceding_date.day) _ _ tt
                  refl)))
      ]

output_date-SameDate : (p : Preceding) (t : GameDate) → Safe (SameDate p t) (output_date p t)
unfolding output_date
output_date-SameDate p t = elim (Bool-cases (is_zero t.year)) [
  | inl y0 ↦ rw y0 refl
  | inr y1 ↦ rw y1 (
      Safe-if (SameDate p t) p.is_present _ _
        (elim (Bool-cases
          (not (is_zero p.preceding_date.year) && eqb_ℤ t.year p.preceding_date.year)) [
            | inl e ↦ rw e (
                reduce_same_year-SameDate p t
                  (eq_of_parts t.year p.preceding_date.year (ground arith)) y1)
            | inr e ↦ rw e refl
          ])
        refl)
]

abbrev pub Next : GameDate → Printed → Type 0
Next c r = (r.next.preceding_date ≡ c) × (r.next.is_present ≡ true)

-- A result, if there is one, satisfies the predicate.
abbrev Gives : {A : Type 0} → (A → Type 0) → Outcome A → Type 0
Gives P (goes_on a) = P a
Gives P gives_up = Unit
Gives P throws = Unit

print_date-Next : (p : Preceding) (c o : GameDate) → Gives (Next c) (print_date p c o)
unfolding print_date print_reference print_shortcut
print_date-Next p c o = ground arith

Safe-Gives :
    {A : Type 0} (P Q : A → Type 0) (x : Outcome A) → Safe P x → Gives Q x → Safe (λ a. P a × Q a) x
Safe-Gives P Q (goes_on a) h k = (h, k)
Safe-Gives P Q gives_up h k = tt
Safe-Gives P Q throws h k = h

abbrev state : Bool → GameDate → Bool → Bool → Bool → Preceding
state e g a b c = record {
  is_present = e;
  preceding_date = g;
  had_year = a;
  had_month = b;
  had_day = c;
}

print_shortcut-Back :
    (e : Bool) (g : GameDate) (a b c : Bool) (m d : ℤ)
    → IsSgfDate (completed_date (state e g a b c) (date (pos 0) m d))
    → Safe (Back (state e g a b c)) (
        print_shortcut
          (state e g a b c)
          (completed_date (state e g a b c) (date (pos 0) m d))
          (date (pos 0) m d))
unfolding print_shortcut
print_shortcut-Back false g a b c m d v = tt
print_shortcut-Back true g a b c m d v = after-Back g a b c m d v

print_date-Back :
    (p : Preceding) (y m d : ℤ)
    → IsSgfDate (completed_date p (date y m d))
    → Placed p (completed_date p (date y m d))
    → Safe (Back p) (print_date p (completed_date p (date y m d)) (date y m d))
unfolding print_date completed_date
print_date-Back p y m d v h = elim (is_zero-cases y) [
  | inl y0 ↦ rw y0 (
      print_shortcut-Back p.is_present p.preceding_date p.had_year p.had_month p.had_day m d
        (subst (λ k. IsSgfDate (completed_date p (date k m d))) y0 v))
  | inr y1 ↦
      rw y1 (
        print_reference-Back p y m d (subst IsSgfDate (full y1) v) (subst (Placed p) (full y1) h)
          y1)
]
  where
    full : is_zero y ≡ false → completed_date p (date y m d) ≡ date y m d
    full y1 = rw y1

completed_date-Placed :
    (p : Preceding) (t : GameDate)
    → (is_zero t.year && not p.is_present) ≡ false
    → Placed p (completed_date p t)
unfolding completed_date
completed_date-Placed p t h = elim (Bool-cases p.is_present) [
  | inl e ↦ rw e refl
  | inr n ↦ let y1 = year_present n in rw (n, y1) y1
]
  where
    year_present : p.is_present ≡ false → is_zero t.year ≡ false
    year_present n = ground arith

-- The outcome of one round: what is printed is read back, and the completed date is kept.
abbrev pub IsRound : Preceding → GameDate → Printed → Type 0
IsRound p t r = Back p r × Next (completed_date p t) r

pub encode_date-IsRound : (p : Preceding) (t : GameDate) → Safe (IsRound p t) (encode_date p t)
unfolding encode_date
encode_date-IsRound p t = elim (Bool-cases (is_zero t.year && not p.is_present)) [
  | inl e ↦ rw e tt
  | inr e ↦ rw e (
      rw (is_valid_sgf_date-total (completed_date p t))
        (elim (Bool-cases (is_sgf_date (completed_date p t))) [
          | inr v ↦ rw v tt
          | inl v ↦ rw v (
              Safe->>= (SameDate p t) (IsRound p t) (output_date p t) _ (output_date-SameDate p t)
                (λ o same. print_same o same v (completed_date-Placed p t e)))
        ]))
]
  where
    print_same :
        (o : GameDate)
        → SameDate p t o
        → IsSgfDate (completed_date p t)
        → Placed p (completed_date p t)
        → Safe (IsRound p t) (print_date p (completed_date p t) o)
    print_same o same v h =
        subst (λ c. Safe (λ r. Back p r × Next c r) (print_date p c o)) same
          (Safe-Gives (Back p) (Next (completed_date p o)) (print_date p (completed_date p o) o)
            (print_date-Back p o.year o.month o.day (subst IsSgfDate (sym same) v)
              (subst (Placed p) (sym same) h))
            (print_date-Next p (completed_date p o) o))
