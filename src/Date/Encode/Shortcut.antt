-- ===== src/Date/Encode/Shortcut.antt =====
-- The shortcuts that ToPropertyValue prints, read back by FromPropertyValue.
use libsgfc.Common.{
  ◌≡◌, refl, subst, inl, inr, Bool, true, false, not, ◌&&◌, ◌||◌, if◌then◌else◌, Bool-cases,
}
use libsgfc.Common.Int.{ℤ, pos}
use libsgfc.Date.Valid.{GameDate, date, is_zero}
use libsgfc.Date.Decode.{had, shortcut_date, complete_date}
use libsgfc.Date.Decode.Total.{Safe, IsSgfDate}
use libsgfc.Date.Encode.{two, completed_date, print_shortcut}
use libsgfc.Date.Encode.Pieces.{two-IsPiece, is_sgf_date-InRange}
use libsgfc.Date.Encode.Back.{Back, is_zero-cases, has_year-two, one-Back, two-Back}

-- A shortcut after a date `t` that was output with these parts.
module _ (t : GameDate) (a b c : Bool) where
  after_month : Bool
  after_month = (a && (b && not c)) || (not a && (b && not c))

  after_day : Bool
  after_day = (a && (b && c)) || ((not a && (b && c)) || (not a && (not b && c)))

  month_day-Back :
      (m d : ℤ)
      → IsSgfDate (date t.year m d)
      → is_zero m ≡ false
      → is_zero d ≡ false
      → Safe
          (Back (had t a b c))
          (print_shortcut (had t a b c) (date t.year m d) (date (pos 0) m d))
  unfolding print_shortcut complete_date shortcut_date
  month_day-Back m d v m1 d1 =
      let r = is_sgf_date-InRange t.year m d v in
      let i = two-IsPiece m r.1 in
      elim (Bool-cases (a && (not b && c))) [
        | inl e ↦ rw (m1, d1) (rw e tt)
        | inr e ↦ elim (Bool-cases (a && (not b && not c))) [
          | inl f ↦ rw (m1, d1) (rw (e, f) tt)
          | inr f ↦
              rw (m1, d1)
                (rw (e, f)
                  (two-Back (had t a b c) (had (date t.year m d) false true true) v refl 2 (two m)
                    (two d) m d false i (two-IsPiece d r.2) (has_year-two 2 (two m) refl i.0)
                    (rw (e, f))))
        ]
      ]

  month-Back :
      (m : ℤ)
      → IsSgfDate (date t.year m (pos 0))
      → is_zero m ≡ false
      → Safe
          (Back (had t a b c))
          (print_shortcut (had t a b c) (date t.year m (pos 0)) (date (pos 0) m (pos 0)))
  unfolding print_shortcut complete_date shortcut_date after_month after_day
  month-Back m v m1 =
      let i = two-IsPiece m (is_sgf_date-InRange t.year m (pos 0) v).1 in
      elim (Bool-cases after_month) [
        | inl e ↦ rw m1 (
            rw e (
              one-Back (had t a b c) (had (date t.year m (pos 0)) false true false) v refl 2 (two m)
                m false i (has_year-two 1 (two m) refl i.0) (rw e)))
        | inr e ↦ elim (Bool-cases after_day) [
          | inl f ↦ rw m1 (rw (e, f) tt)
          | inr f ↦ rw m1 (rw (e, f) tt)
        ]
      ]

  day-Back :
      (d : ℤ)
      → IsSgfDate (date t.year t.month d)
      → is_zero d ≡ false
      → Safe
          (Back (had t a b c))
          (print_shortcut (had t a b c) (date t.year t.month d) (date (pos 0) (pos 0) d))
  unfolding print_shortcut complete_date shortcut_date after_month after_day
  day-Back d v d1 =
      let i = two-IsPiece d (is_sgf_date-InRange t.year t.month d v).2 in
      elim (Bool-cases after_month) [
        | inl e ↦ rw d1 (rw e tt)
        | inr e ↦ elim (Bool-cases after_day) [
          | inl f ↦ rw d1 (
              rw (e, f)
                (one-Back (had t a b c) (had (date t.year t.month d) false false true) v refl 2
                  (two d) d false i (has_year-two 1 (two d) refl i.0) (rw (e, f))))
          | inr f ↦ rw d1 (rw (e, f) tt)
        ]
      ]

  none-Back :
      (k : GameDate)
      → Safe (Back (had t a b c)) (print_shortcut (had t a b c) k (date (pos 0) (pos 0) (pos 0)))
  unfolding print_shortcut after_month after_day
  none-Back k = elim (Bool-cases after_month) [
    | inl e ↦ rw e tt
    | inr e ↦ elim (Bool-cases after_day) [ inl f ↦ rw (e, f) tt | inr f ↦ rw (e, f) tt ]
  ]

  pub after-Back :
      (m d : ℤ)
      → IsSgfDate (completed_date (had t a b c) (date (pos 0) m d))
      → Safe (Back (had t a b c)) (
          print_shortcut
            (had t a b c)
            (completed_date (had t a b c) (date (pos 0) m d))
            (date (pos 0) m d))
  unfolding completed_date
  after-Back m d v = elim (is_zero-cases m) [
    | inl m0 ↦ elim (is_zero-cases d) [
      | inl d0 ↦ rw (m0, d0) (none-Back (date t.year t.month (pos 0)))
      | inr d1 ↦ rw m0 (
          day-Back d
            (subst (λ k. IsSgfDate (date t.year (if is_zero k then t.month else k) d)) m0 v) d1)
    ]
    | inr m1 ↦
        let w = subst (λ f. IsSgfDate (date t.year (if f then t.month else m) d)) m1 v in
        elim (is_zero-cases d) [
          | inl d0 ↦ rw m1 (rw d0 (month-Back m (subst (λ k. IsSgfDate (date t.year m k)) d0 w) m1))
          | inr d1 ↦ rw m1 (month_day-Back m d w m1 d1)
        ]
  ]
