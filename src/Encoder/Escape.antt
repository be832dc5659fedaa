-- ===== src/Encoder/Escape.antt =====
-- The text of a value is read back from what the encoder writes between the brackets.
use libsgfc.Common.{
  ℕ, ◌≡◌, refl, ap, fun_ext, inl, inr, Option, none, some, Bool, true, false, ◌&&◌, ◌||◌, [], ◌∷◌,
  ◌++◌, ◌==◌, ==_iff, if◌then◌else◌, arith, Bool-cases, ◌∙◌,
}
use libsgfc.Text.Split.{Bytes}
use libsgfc.Encoder.{
  ValueContext, first_value_of_composed_value, second_value_of_composed_value, standalone,
  escape_all, add_mandatory_escape_characters, add_text_escape_characters,
}

-- What a reader of SGF content finds: the text of a value and what follows it, from the character
-- on that ends the value.
pub record Read : Type 0 where
  pub value : Bytes
  pub rest : Bytes

abbrev prepend : ℕ → Option Read → Option Read
prepend c none = none
prepend c (some r) = some (record { value = c ∷ r.value; rest = r.rest })

abbrev pub ends : Bool → ℕ → Bool
ends in_first c = (c == b']') || (in_first && (c == b':'))

-- The SGF standard's rules for the end of a text and for its escape characters: a backslash makes the
-- next character an ordinary one, and hides a line feed; a bracket ends the value, and a colon ends
-- the first value of a composed one. The standard's next step, white space turned into spaces (in a
-- SimpleText also line breaks), is left out: the encoder leaves it to who reads the text.
-- The flags say that the value is the first of a composed one, and that a backslash stands before.
unfoldable pub read_text : Bool → Bool → Bytes → Option Read
read_text in_first escaped [] = none
read_text in_first true (c ∷ cs) =
    let rest = read_text in_first false cs in if c == b'\n' then rest else prepend c rest
read_text in_first false (c ∷ cs) =
    let plain = read_text in_first false cs in
    let escaped = read_text in_first true cs in
    if c == b'\\'
    then escaped
    else if ends in_first c
    then some (record { value = []; rest = c ∷ cs })
    else prepend c plain

-- Each character that is special, behind a backslash.
abbrev pub marked : (ℕ → Bool) → Bytes → Bytes
marked special [] = []
marked special (c ∷ cs) = if special c then b'\\' ∷ c ∷ marked special cs else c ∷ marked special cs

abbrev pub in_text : Bool → ℕ → Bool
in_text in_first c = (c == b'\\') || ends in_first c

pub read_text-marked_text :
    (in_first : Bool) (v : Bytes) (t : ℕ) (rest : Bytes)
    → ends in_first t ≡ true
    → read_text in_first false (marked (in_text in_first) v ++ (t ∷ rest))
      ≡ some (record { value = v; rest = t ∷ rest })
unfolding read_text
read_text-marked_text true [] t rest e = ground arith
read_text-marked_text false [] t rest e = ground arith
read_text-marked_text true (c ∷ cs) t rest e =
    ground (arith, read_text-marked_text true cs t rest e)
read_text-marked_text false (c ∷ cs) t rest e =
    ground (arith, read_text-marked_text false cs t rest e)

abbrev pub has_backslash : Bytes → Bool
has_backslash [] = false
has_backslash (c ∷ cs) = (c == b'\\') || has_backslash cs

pub marked-cong : (f g : ℕ → Bool) → ((c : ℕ) → f c ≡ g c) → (v : Bytes) → marked f v ≡ marked g v
marked-cong f g e v = ap (λ h. marked h v) (fun_ext e)

pub marked-no_backslash :
    (in_first : Bool) (v : Bytes)
    → has_backslash v ≡ false
    → marked (ends in_first) v ≡ marked (in_text in_first) v
marked-no_backslash in_first [] h = refl
marked-no_backslash in_first (c ∷ cs) h = ground (arith, marked-no_backslash in_first cs)

escape_all-nothing : (d : ℕ) (v : Bytes) → escape_all d v ≡ marked (λ c. c == d) v
unfolding escape_all
escape_all-nothing d [] = refl
escape_all-nothing d (c ∷ cs) = ground (arith, escape_all-nothing d cs)

escape_all-marked :
    (d : ℕ) (f : ℕ → Bool) (v : Bytes)
    → (b'\\' == d) ≡ false
    → f d ≡ false
    → escape_all d (marked f v) ≡ marked (λ c. f c || (c == d)) v
unfolding escape_all
escape_all-marked d f [] n h = refl
escape_all-marked d f (c ∷ cs) n h = elim (Bool-cases (f c)) [
  | inl y ↦ elim (Bool-cases (c == d)) [
    | inl e ↦ absurd (ground (arith, ap f ((==_iff c d).0 e)))
    | inr m ↦ ground (arith, escape_all-marked d f cs n h)
  ]
  | inr o ↦ ground (arith, escape_all-marked d f cs n h)
]

abbrev pub is_first : ValueContext → Bool
is_first first_value_of_composed_value = true
is_first second_value_of_composed_value = false
is_first standalone = false

pub mandatory-marked :
    (v : Bytes) (context : ValueContext)
    → add_mandatory_escape_characters v context ≡ marked (ends (is_first context)) v
unfolding add_mandatory_escape_characters
mandatory-marked v first_value_of_composed_value =
    ap (escape_all b':') (escape_all-nothing b']' v)
    ∙ escape_all-marked b':' (λ c. c == b']') v refl refl
mandatory-marked v second_value_of_composed_value =
    escape_all-nothing b']' v ∙ marked-cong (λ c. c == b']') (ends false) (λ c. ground arith) v
mandatory-marked v standalone =
    escape_all-nothing b']' v ∙ marked-cong (λ c. c == b']') (ends false) (λ c. ground arith) v

text-marked_twice : (v : Bytes) → escape_all b']' (escape_all b'\\' v) ≡ marked (in_text false) v
text-marked_twice v =
    ap (escape_all b']') (escape_all-nothing b'\\' v)
    ∙ escape_all-marked b']' (λ c. c == b'\\') v refl refl
    ∙ marked-cong _ (in_text false) (λ c. ground arith) v

pub text-marked :
    (v : Bytes) (context : ValueContext)
    → add_text_escape_characters v context ≡ marked (in_text (is_first context)) v
unfolding add_text_escape_characters add_mandatory_escape_characters
text-marked v first_value_of_composed_value =
    ap (λ w. escape_all b':' (escape_all b']' w)) (escape_all-nothing b'\\' v)
    ∙ ap (escape_all b':') (escape_all-marked b']' (λ c. c == b'\\') v refl refl)
    ∙ escape_all-marked b':' (λ c. (c == b'\\') || (c == b']')) v refl refl
    ∙ marked-cong _ (in_text true) (λ c. ground arith) v
text-marked v second_value_of_composed_value = text-marked_twice v
text-marked v standalone = text-marked_twice v
