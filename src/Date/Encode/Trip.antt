-- ===== src/Date/Encode/Trip.antt =====
-- What ToPropertyValue writes, FromPropertyValue reads as the completed dates.
use libsgfc.Common.{
  ◌≡◌, refl, sym, ap, subst, ◌∙◌, true, false, List, [], ◌∷◌, ◌++◌, if◌then◌else◌, has,
  append_assoc, append-nil,
}
use libsgfc.Text.Split.{Bytes}
use libsgfc.Text.Split.Laws.{fields, split_string-fields, fields-append, fields_whole}
use libsgfc.Date.Valid.{Attempt, value, logic_error, GameDate}
use libsgfc.Date.Decode.{
  Outcome, ◌>>=◌, goes_on, gives_up, throws, Preceding, had, no_preceding, decode_loop, or_no_dates,
  from_property_value,
}
use libsgfc.Date.Decode.Total.{Safe, Safe->>=}
use libsgfc.Date.Encode.{
  completed_date, Printed, encode_date, encode_loop, or_no_text, to_property_value,
}
use libsgfc.Date.Encode.Round.{IsRound, encode_date-IsRound}

-- The date with the year, and the month, of the preceding date where a shortcut has none.
abbrev pub complete : GameDate → GameDate → GameDate
complete g t = completed_date (had g false false false) t

abbrev pub completed_dates : GameDate → List GameDate → List GameDate
completed_dates g [] = []
completed_dates g (t ∷ ts) = complete g t ∷ completed_dates (complete g t) ts

-- The texts behind the first one.
abbrev later_fields : Bytes → List Bytes
later_fields [] = []
later_fields (c ∷ cs) = fields b',' cs

-- Nothing, or a comma first.
abbrev IsTail : Bytes → Type 0
IsTail [] = Unit
IsTail (c ∷ cs) = c ≡ b','

fields-IsTail :
    (s rest : Bytes)
    → has b',' s ≡ false
    → IsTail rest
    → fields b',' (s ++ rest) ≡ s ∷ later_fields rest
fields-IsTail s [] h t = ap (fields b',') (append-nil s) ∙ fields_whole b',' s h
fields-IsTail s (c ∷ cs) h t = ap (λ k. fields b',' (s ++ k ∷ cs)) t ∙ fields-append b',' s cs h

-- The loop adds a text that is read, after `p`, as these dates.
abbrev Adds : Preceding → Bytes → List GameDate → Bytes → Type 0
Adds p s ts u =
    (rest : Bytes) × (u ≡ s ++ rest)
    × IsTail rest
    × (decode_loop p (later_fields rest) ≡ goes_on (completed_dates p.preceding_date ts))

Safe-map :
    {A : Type 0} (P Q : A → Type 0) (x : Outcome A) → ((a : A) → P a → Q a) → Safe P x → Safe Q x
Safe-map P Q (goes_on a) f h = f a h
Safe-map P Q gives_up f h = tt
Safe-map P Q throws f h = h

-- The texts of a round and of the later ones are read as its date and the later dates.
decode_loop-IsRound :
    (p : Preceding) (t : GameDate) (r : Printed) (rest : Bytes) (ts : List GameDate)
    → IsRound p t r
    → IsTail rest
    → decode_loop r.next (later_fields rest) ≡ goes_on (completed_dates r.next.preceding_date ts)
    → decode_loop p (fields b',' (r.text ++ rest))
      ≡ goes_on (completed_dates p.preceding_date (t ∷ ts))
unfolding decode_loop completed_date
decode_loop-IsRound p t r rest ts ((back, free), (date_kept, present)) k d =
    rw (fields-IsTail r.text rest free k)
      (rw back (rw d (ap (λ g. goes_on (g ∷ completed_dates g ts)) date_kept)))

Adds-IsRound :
    (p : Preceding) (s : Bytes) (t : GameDate) (ts : List GameDate) (r : Printed) (u : Bytes)
    → IsRound p t r
    → Adds r.next (s ++ b',' ∷ r.text) ts u
    → Adds p s (t ∷ ts) u
Adds-IsRound p s t ts r u i (rest, e, k, d) = (
  b',' ∷ r.text ++ rest,
  e ∙ append_assoc s (b',' ∷ r.text) rest,
  refl,
  decode_loop-IsRound p t r rest ts i k d,
)

encode_loop-Adds :
    (p : Preceding) (s : Bytes) (ts : List GameDate)
    → p.is_present ≡ true
    → Safe (Adds p s ts) (encode_loop p s ts)
unfolding encode_loop decode_loop
encode_loop-Adds p s [] h = ([], sym (append-nil s), tt, refl)
encode_loop-Adds p s (t ∷ ts) h =
    subst
      (λ e. Safe (Adds p s (t ∷ ts)) (
        encode_date p t >>= λ r.
        encode_loop r.next (s ++ (if e then b',' ∷ r.text else r.text)) ts))
      (sym h)
      (Safe->>= (IsRound p t) (Adds p s (t ∷ ts)) (encode_date p t) _ (encode_date-IsRound p t)
        (λ r i.
          Safe-map (Adds r.next (s ++ b',' ∷ r.text) ts) (Adds p s (t ∷ ts))
            (encode_loop r.next (s ++ b',' ∷ r.text) ts) (λ u. Adds-IsRound p s t ts r u i)
            (encode_loop-Adds r.next (s ++ b',' ∷ r.text) ts (present r i))))
  where
    present : (r : Printed) → IsRound p t r → r.next.is_present ≡ true
    present r (back, (date_kept, n)) = n

-- The text, if there is one, is read as the completed dates.
abbrev pub IsReadBack : List GameDate → Attempt Bytes → Type 0
IsReadBack ts (value []) = Unit
IsReadBack ts (value (c ∷ cs)) =
    from_property_value (c ∷ cs) ≡ value (completed_dates no_preceding.preceding_date ts)
IsReadBack ts logic_error = ⊥

abbrev Reads : List GameDate → Bytes → Type 0
Reads ts u = from_property_value u ≡ value (completed_dates no_preceding.preceding_date ts)

encode_loop-Reads :
    (t : GameDate) (ts : List GameDate)
    → Safe (Reads (t ∷ ts)) (encode_loop no_preceding [] (t ∷ ts))
unfolding encode_loop from_property_value
encode_loop-Reads t ts =
    Safe->>= (IsRound no_preceding t) (Reads (t ∷ ts)) (encode_date no_preceding t) _
      (encode_date-IsRound no_preceding t)
      (λ r i.
        Safe-map (Adds r.next r.text ts) (Reads (t ∷ ts)) (encode_loop r.next r.text ts)
          (λ u. read r u i) (encode_loop-Adds r.next r.text ts (present r i)))
  where
    present : (r : Printed) → IsRound no_preceding t r → r.next.is_present ≡ true
    present r (back, (date_kept, n)) = n

    read :
        (r : Printed) (u : Bytes)
        → IsRound no_preceding t r
        → Adds r.next r.text ts u
        → Reads (t ∷ ts) u
    read r u i (rest, e, k, d) =
        ap from_property_value e
        ∙ ap or_no_dates (
            ap (decode_loop no_preceding) (split_string-fields b',' (r.text ++ rest)).1
            ∙ decode_loop-IsRound no_preceding t r rest ts i k d)

or_no_text-IsReadBack :
    (ts : List GameDate) (x : Outcome Bytes) → Safe (Reads ts) x → IsReadBack ts (or_no_text x)
or_no_text-IsReadBack ts (goes_on []) h = tt
or_no_text-IsReadBack ts (goes_on (c ∷ cs)) h = h
or_no_text-IsReadBack ts gives_up h = tt
or_no_text-IsReadBack ts throws h = h

-- For every list of dates ToPropertyValue returns without an exception, and unless its result is
-- the empty text, FromPropertyValue reads the result as the same dates, in which a date without a
-- year has that of the date before it, and without a year and a month both.
pub to_property_value-IsReadBack : (ts : List GameDate) → IsReadBack ts (to_property_value ts)
unfolding to_property_value encode_loop
to_property_value-IsReadBack [] = tt
to_property_value-IsReadBack (t ∷ ts) =
    or_no_text-IsReadBack (t ∷ ts) (encode_loop no_preceding [] (t ∷ ts)) (encode_loop-Reads t ts)
