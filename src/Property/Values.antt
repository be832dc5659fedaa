-- ===== src/Property/Values.antt =====
-- What holds of the values of a property after any calls.
use libsgfc.Common.{inl, inr, Option, none, some, List, [], ◌∷◌, length, ◌==◌, Bool-cases}
use libsgfc.Tree.Store.{Ref}
use libsgfc.Pointers.{Pointers, finds, to_set, Edit, after}
use libsgfc.Pointers.Clean.{
  IsClean, length-to_set, IsClean-intro, append-IsClean, erase_found-IsClean,
}
use libsgfc.Property.{
  ValueRefusal, set_property_values, append_property_value, remove_property_value,
  remove_all_property_values,
}

-- A call of one of the methods that change the values.
pub data Call : Type 0 where
  set : Pointers → Call
  append : Option Ref → Call
  remove : Option Ref → Call
  remove_all : Call

unfoldable pub perform : Call → Pointers → Edit ValueRefusal
perform (set new) values = set_property_values new values
perform (append v) values = append_property_value v values
perform (remove v) values = remove_property_value v values
perform remove_all values = remove_all_property_values values

-- The values after a sequence of calls, each of which may throw.
abbrev pub perform_all : List Call → Pointers → Pointers
perform_all [] values = values
perform_all (c ∷ cs) values = perform_all cs (after values (perform c values))

perform-IsClean :
    (c : Call) (values : Pointers) → IsClean values → IsClean (after values (perform c values))
unfolding perform set_property_values append_property_value remove_property_value
    remove_all_property_values
perform-IsClean (set new) values c = elim (Bool-cases (length (to_set new) == length new)) [
  | inr n ↦ rw n c
  | inl e ↦ elim (Bool-cases (finds none new)) [
    | inl f ↦ rw (e, f) c
    | inr f ↦ rw (e, f) (IsClean-intro new ((length-to_set new).0 e) f)
  ]
]
perform-IsClean (append none) values c = c
perform-IsClean (append (some v)) values c = elim (Bool-cases (finds (some v) values)) [
  | inl e ↦ rw e c
  | inr n ↦ rw n (append-IsClean values v c n)
]
perform-IsClean (remove v) values c = elim (Bool-cases (finds v values)) [
  | inl e ↦ rw e (erase_found-IsClean v values c)
  | inr n ↦ rw n c
]
perform-IsClean remove_all values c = tt

-- From values of which none is null and none is there twice, any sequence of SetPropertyValues,
-- AppendPropertyValue, RemovePropertyValue and RemoveAllPropertyValues, whether or not they throw,
-- leads to such values again.
perform_all_values-IsClean :
    (cs : List Call) (values : Pointers) → IsClean values → IsClean (perform_all cs values)
perform_all_values-IsClean [] values c = c
perform_all_values-IsClean (k ∷ ks) values c =
    perform_all_values-IsClean ks (after values (perform k values)) (perform-IsClean k values c)
