-- ===== src/Ruleset.antt =====
-- The ruleset of a Go game as a property value (src/game/go/SgfcGoRuleset.cpp, with the texts of
-- src/SgfcConstants.cpp).
use libsgfc.Common.{◌≡◌, refl, Bool, true, false, [], ◌∷◌, if◌then◌else◌}
use libsgfc.Text.Split.{Bytes, bytes_eq}

-- SgfcGoRulesetType.
pub data RulesetType : Type 0 where
  aga : RulesetType
  ing : RulesetType
  japanese : RulesetType
  nz : RulesetType

pub record Ruleset : Type 0 where
  pub ruleset_type : RulesetType
  pub is_valid : Bool

-- "AGA", "GOE", "Japanese" and "NZ".
unfoldable pub ruleset_text : RulesetType → Bytes
ruleset_text aga = b'A' ∷ b'G' ∷ b'A' ∷ []
ruleset_text ing = b'G' ∷ b'O' ∷ b'E' ∷ []
ruleset_text japanese = b'J' ∷ b'a' ∷ b'p' ∷ b'a' ∷ b'n' ∷ b'e' ∷ b's' ∷ b'e' ∷ []
ruleset_text nz = b'N' ∷ b'Z' ∷ []

abbrev valid : RulesetType → Ruleset
valid t = record { ruleset_type = t; is_valid = true }

unfoldable pub ruleset_from_property_value : Bytes → Ruleset
ruleset_from_property_value s =
    if bytes_eq s (ruleset_text aga)
    then valid aga
    else if bytes_eq s (ruleset_text ing)
    then valid ing
    else if bytes_eq s (ruleset_text japanese)
    then valid japanese
    else if bytes_eq s (ruleset_text nz)
    then valid nz
    else record { ruleset_type = aga; is_valid = false }

unfoldable pub ruleset_to_property_value : Ruleset → Bytes
ruleset_to_property_value r = if r.is_valid then ruleset_text r.ruleset_type else []

-- A valid ruleset is read back from its text.
ruleset_from-ruleset_to :
    (t : RulesetType) → ruleset_from_property_value (ruleset_to_property_value (valid t)) ≡ valid t
unfolding ruleset_from_property_value ruleset_to_property_value ruleset_text
ruleset_from-ruleset_to aga = refl
ruleset_from-ruleset_to ing = refl
ruleset_from-ruleset_to japanese = refl
ruleset_from-ruleset_to nz = refl
