-- ===== src/Arguments/Accepted.antt =====
-- Which arguments a collection accepts: each with the parameter that its type takes, none twice.
use libsgfc.Common.{
  ◌≡◌, refl, inl, inr, Bool, true, false, not, ◌&&◌, ◌||◌, [], ◌∷◌, ◌++◌, arith, Bool-cases,
  append-nil, append_assoc, subst,
}
use libsgfc.Common.Int.{eqb_ℤ}
use libsgfc.Text.Split.{bytes_eq}
use libsgfc.Property.{type_eq}
use libsgfc.Arguments.Kinds.{is_type-eq, can_be_added_multiple_times_cases}
use libsgfc.Arguments.{
  ArgumentType, is_type, disable_message_id, delete_property_type, Parameter, nothing, integer,
  string, property, message, Argument, takes, takes_nothing, takes_integer, takes_string,
  takes_property, takes_message, get_property_type_parameter, get_message_id_parameter,
  can_be_added_multiple_times, getter_returns, Arguments, has_type, violation_loop,
  is_multiplicity_violated,
}

-- Two arguments that do not go together: of the same type, which may stand only once or has the same
-- parameter in both.
abbrev pub same_parameter : Parameter → Parameter → Bool
same_parameter (integer i) (integer j) = eqb_ℤ i j
same_parameter (string s) (string t) = bytes_eq s t
same_parameter (property t) (property u) = type_eq t u
same_parameter (message m) (message n) = eqb_ℤ m n
same_parameter p q = false

abbrev pub clash : Argument → Argument → Bool
clash a b =
    is_type a.argument_type b.argument_type
    && (not (can_be_added_multiple_times b.argument_type) || same_parameter a.parameter b.parameter)

abbrev pub clashes : Arguments → Argument → Bool
clashes [] b = false
clashes (a ∷ as_) b = clash a b || clashes as_ b

abbrev pub fits : Argument → Bool
fits a = takes a.argument_type a.parameter

-- Each argument fits, and clashes with none in front of it, `before` being those already seen.
abbrev pub is_accepted : Arguments → Arguments → Bool
is_accepted before [] = true
is_accepted before (a ∷ as_) =
    (fits a && not (clashes before a)) && is_accepted (before ++ a ∷ []) as_

abbrev all_fit : Arguments → Bool
all_fit [] = true
all_fit (a ∷ as_) = fits a && all_fit as_

pub accepted-append :
    (before args : Arguments) (b : Argument)
    → is_accepted before (args ++ b ∷ [])
      ≡ (is_accepted before args && (fits b && not (clashes (before ++ args) b)))
accepted-append before [] b = rw (append-nil before) (ground arith)
accepted-append before (a ∷ as_) b =
    ground (arith, accepted-append (before ++ a ∷ []) as_ b, append_assoc before (a ∷ []) as_)

accepted-fit : (before args : Arguments) → is_accepted before args ≡ true → all_fit args ≡ true
accepted-fit before [] h = refl
accepted-fit before (a ∷ as_) h = ground (arith, accepted-fit (before ++ a ∷ []) as_)

message-same :
    (p q : Parameter)
    → takes disable_message_id p ≡ true
    → takes disable_message_id q ≡ true
    → getter_returns p q ≡ same_parameter q p
unfolding getter_returns takes takes_nothing takes_integer takes_string takes_property takes_message
    get_message_id_parameter
message-same nothing q f g = absurd cc
message-same (integer i) q f g = absurd cc
message-same (string s) q f g = absurd cc
message-same (property t) q f g = absurd cc
message-same (message m) nothing f g = absurd cc
message-same (message m) (integer i) f g = absurd cc
message-same (message m) (string s) f g = absurd cc
message-same (message m) (property t) f g = absurd cc
message-same (message m) (message n) f g = refl

property-same :
    (p q : Parameter)
    → takes delete_property_type p ≡ true
    → takes delete_property_type q ≡ true
    → getter_returns p q ≡ same_parameter q p
unfolding getter_returns takes takes_nothing takes_integer takes_string takes_property takes_message
    get_property_type_parameter
property-same nothing q f g = absurd cc
property-same (integer i) q f g = absurd cc
property-same (string s) q f g = absurd cc
property-same (message m) q f g = absurd cc
property-same (property t) nothing f g = absurd cc
property-same (property t) (integer i) f g = absurd cc
property-same (property t) (string s) f g = absurd cc
property-same (property t) (message n) f g = absurd cc
property-same (property t) (property u) f g = refl

-- Of two arguments of one type that may stand several times, the check compares their parameters.
getter-same :
    (t : ArgumentType) (p q : Parameter)
    → can_be_added_multiple_times t ≡ true
    → takes t p ≡ true
    → takes t q ≡ true
    → getter_returns p q ≡ same_parameter q p
getter-same t p q m f g = elim (can_be_added_multiple_times_cases t m) [
  | inl e ↦ message-same p q (subst (λ u. takes u p ≡ true) e f) (subst (λ u. takes u q ≡ true) e g)
  | inr e ↦
      property-same p q (subst (λ u. takes u p ≡ true) e f) (subst (λ u. takes u q ≡ true) e g)
]

abbrev pub new_argument : ArgumentType → Parameter → Argument
new_argument t p = record { argument_type = t; parameter = p }

violation_loop-clashes :
    (t : ArgumentType) (p : Parameter) (args : Arguments)
    → takes t p ≡ true
    → all_fit args ≡ true
    → violation_loop t p args ≡ clashes args (new_argument t p)
violation_loop-clashes t p [] f g = refl
violation_loop-clashes t p (a ∷ as_) f g =
    let rest = violation_loop-clashes t p as_ f (ground (arith, g)) in
    elim (Bool-cases (is_type a.argument_type t)) [
      | inl e ↦ elim (Bool-cases (can_be_added_multiple_times t)) [
        | inl m ↦ ground (
          arith,
          rest,
          getter-same t p a.parameter m f (
              subst (λ u. takes u a.parameter ≡ true) (is_type-eq a.argument_type t e)
                (ground (arith, g))),
        )
        | inr n ↦ ground arith
      ]
      | inr n ↦ ground (arith, rest)
    ]

nothing-once : (t : ArgumentType) → takes t nothing ≡ true → can_be_added_multiple_times t ≡ false
unfolding takes takes_nothing
nothing-once t f = elim (Bool-cases (can_be_added_multiple_times t)) [
  | inl m ↦ elim (can_be_added_multiple_times_cases t m) [
    | inl e ↦ absurd (ground (arith, subst (λ u. takes u nothing ≡ true) e f))
    | inr e ↦ absurd (ground (arith, subst (λ u. takes u nothing ≡ true) e f))
  ]
  | inr n ↦ n
]

has_type-clashes :
    (t : ArgumentType) (p : Parameter) (args : Arguments)
    → can_be_added_multiple_times t ≡ false
    → has_type t args ≡ clashes args (new_argument t p)
has_type-clashes t p [] n = refl
has_type-clashes t p (a ∷ as_) n = ground (arith, has_type-clashes t p as_ n)

pub violated-clashes :
    (t : ArgumentType) (p : Parameter) (args : Arguments)
    → takes t p ≡ true
    → is_accepted [] args ≡ true
    → is_multiplicity_violated t p args ≡ clashes args (new_argument t p)
unfolding is_multiplicity_violated
violated-clashes t nothing args f h =
    rw (nothing-once t f) (has_type-clashes t nothing args (nothing-once t f))
violated-clashes t (integer i) args f h = violation_loop-clashes t _ args f (accepted-fit [] args h)
violated-clashes t (string s) args f h = violation_loop-clashes t _ args f (accepted-fit [] args h)
violated-clashes t (property u) args f h =
    violation_loop-clashes t _ args f (accepted-fit [] args h)
violated-clashes t (message m) args f h = violation_loop-clashes t _ args f (accepted-fit [] args h)
