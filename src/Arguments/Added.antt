-- ===== src/Arguments/Added.antt =====
-- What AddArgument and ClearArguments keep, and when AddArgument throws.
use libsgfc.Common.{◌≡◌, refl, inl, inr, Bool, true, false, List, [], ◌∷◌, ◌++◌, Bool-cases, subst}
use libsgfc.Arguments.{
  ArgumentType, Parameter, Argument, takes, make_argument, Arguments, is_multiplicity_violated,
  ArgumentRefusal, is_present, wrong_parameter, ArgumentEdit, changed, refused, after, add_argument,
  clear_arguments,
}
use libsgfc.Arguments.Accepted.{
  clashes, is_accepted, accepted-append, new_argument, violated-clashes,
}

abbrev pub IsAccepted : Arguments → Type 0
IsAccepted args = is_accepted [] args ≡ true

abbrev Choice : Bool → Arguments → Argument → ArgumentEdit → Type 0
Choice true args a e = e ≡ changed (args ++ a ∷ [])
Choice false args a e = (r : ArgumentRefusal) × (e ≡ refused r)

add_argument-Choice :
    (t : ArgumentType) (p : Parameter) (args : Arguments)
    → IsAccepted args
    → Choice
        (is_accepted [] (args ++ new_argument t p ∷ []))
        args
        (new_argument t p)
        (add_argument t p args)
unfolding add_argument make_argument
add_argument-Choice t p args h = elim (Bool-cases (takes t p)) [
  | inl f ↦ elim (Bool-cases (clashes args (new_argument t p))) [
    | inl c ↦
        rw (accepted-append [] args (new_argument t p), violated-clashes t p args f h, h, f, c)
          (is_present, refl)
    | inr d ↦
        rw (accepted-append [] args (new_argument t p), violated-clashes t p args f h, h, f, d) refl
  ]
  | inr n ↦ elim (Bool-cases (is_multiplicity_violated t p args)) [
    | inl v ↦ rw (accepted-append [] args (new_argument t p), h, n, v) (is_present, refl)
    | inr w ↦ rw (accepted-append [] args (new_argument t p), h, n, w) (wrong_parameter, refl)
  ]
]

-- On an accepted collection AddArgument appends the argument just when the longer collection is
-- accepted, and otherwise throws: each argument has the parameter that its type takes, no two have
-- the same type unless it may be added multiple times, and then not the same parameter. An integer
-- or message ID is not tested: a message ID that SGFC does not know is appended like any other,
-- unlike what the documentation of AddArgument announces.
pub add_argument-IsAccepted :
    (t : ArgumentType) (p : Parameter) (args : Arguments)
    → IsAccepted args
    → (is_accepted [] (args ++ new_argument t p ∷ []) ≡ true
        → add_argument t p args ≡ changed (args ++ new_argument t p ∷ []))
      × (is_accepted [] (args ++ new_argument t p ∷ []) ≡ false
          → (r : ArgumentRefusal) × (add_argument t p args ≡ refused r))
add_argument-IsAccepted t p args h =
    let made = add_argument-Choice t p args h in
    (
      λ y. subst (λ b. Choice b args (new_argument t p) (add_argument t p args)) y made,
      λ n. subst (λ b. Choice b args (new_argument t p) (add_argument t p args)) n made,
    )

Choice-IsAccepted :
    (b : Bool) (args : Arguments) (a : Argument) (e : ArgumentEdit)
    → IsAccepted args
    → is_accepted [] (args ++ a ∷ []) ≡ b
    → Choice b args a e
    → IsAccepted (after args e)
Choice-IsAccepted true args a e h q c = rw c q
Choice-IsAccepted false args a e h q c = rw c.1 h

-- A call of one of the methods that change the collection.
pub data Call : Type 0 where
  add : ArgumentType → Parameter → Call
  clear : Call

-- The collection after a sequence of calls, each of which may throw.
abbrev pub perform_all : List Call → Arguments → Arguments
perform_all [] args = args
perform_all (add t p ∷ cs) args = perform_all cs (after args (add_argument t p args))
perform_all (clear ∷ cs) args = perform_all cs (clear_arguments args)

perform_all-from :
    (cs : List Call) (args : Arguments) → IsAccepted args → IsAccepted (perform_all cs args)
unfolding clear_arguments
perform_all-from [] args h = h
perform_all-from (add t p ∷ cs) args h = perform_all-from cs (after args (add_argument t p args)) (
    Choice-IsAccepted (is_accepted [] (args ++ new_argument t p ∷ [])) args (new_argument t p)
      (add_argument t p args) h refl (add_argument-Choice t p args h))
perform_all-from (clear ∷ cs) args h = perform_all-from cs [] refl

-- After any sequence of AddArgument and ClearArguments on a new collection, whether or not they
-- throw, each argument has the parameter that its type takes, no two have the same type unless it
-- may be added multiple times, and then not the same parameter.
pub perform_all_arguments-IsAccepted : (cs : List Call) → IsAccepted (perform_all cs [])
perform_all_arguments-IsAccepted cs = perform_all-from cs [] refl
