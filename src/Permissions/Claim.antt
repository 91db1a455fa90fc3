-- ===== src/Permissions/Claim.antt =====
-- src/core/permissions/domain/claim.value-object.ts. A claim's text is the list of its UTF-16 code
-- units, so that the pattern, the prefix test and the slice are those of the source.
pub mod Order
use armstrong_bot.Prelude.{
  ℕ, ◌+◌, ◌-◌, ◌*◌, Bool, true, false, ◌&&◌, ◌||◌, List, [], ◌∷◌, map, leb, eqb, if◌then◌else◌,
  Result, ok, err,
}
use mathlib.Core.List.{reverse}

abbrev pub Text : Type 0
Text = List ℕ

pub data ClaimError : Type 0 where
  invalid_claim : Text → ClaimError
  max_depth_exceeded : ClaimError

-- `===` on strings
abbrev pub text_eq : Text → Text → Bool
text_eq [] [] = true
text_eq [] (_ ∷ _) = false
text_eq (_ ∷ _) [] = false
text_eq (c ∷ s) (d ∷ t) = eqb c d && text_eq s t

-- The white space and line terminators that `String.prototype.trim` removes.
abbrev is_space : ℕ → Bool
is_space c =
    leb 9 c && leb c 13
    || eqb c 32
    || eqb c 160
    || eqb c 0x1680
    || leb 0x2000 c && leb c 0x200a
    || eqb c 0x2028
    || eqb c 0x2029
    || eqb c 0x202f
    || eqb c 0x205f
    || eqb c 0x3000
    || eqb c 0xfeff

abbrev trim_start : Text → Text
trim_start [] = []
trim_start (c ∷ s) = if is_space c then trim_start s else c ∷ s

abbrev trim : Text → Text
trim s = reverse (trim_start (reverse (trim_start s)))

-- `toLowerCase` on the characters whose lower case is an ASCII character: A to Z, and the Kelvin
-- sign. Any other character outside ASCII stays outside of it, and fails the pattern either way.
abbrev lower : ℕ → ℕ
lower c = if leb b'A' c && leb c b'Z' then c + 32 else if eqb c 0x212a then b'k' else c

abbrev is_word : ℕ → Bool
is_word c = leb b'a' c && leb c b'z' || leb b'0' c && leb c b'9'

-- `Claim.PATTERN` as the automaton that reads it: the asterisk alone, or words joined by dots with
-- an asterisk allowed as the last part.
pub data PatternState : Type 0 where
  at_start in_word after_dot after_star rejected : PatternState

abbrev pattern_step : PatternState → ℕ → PatternState
pattern_step at_start c = if is_word c then in_word else if eqb c b'*' then after_star else rejected
pattern_step in_word c = if is_word c then in_word else if eqb c b'.' then after_dot else rejected
pattern_step after_dot c =
    if is_word c then in_word else if eqb c b'*' then after_star else rejected
pattern_step after_star c = rejected
pattern_step rejected c = rejected

abbrev pattern_accepts : PatternState → Bool
pattern_accepts in_word = true
pattern_accepts after_star = true
pattern_accepts _ = false

pub pattern_from : PatternState → Text → Bool
pattern_from q [] = pattern_accepts q
pattern_from q (c ∷ s) = pattern_from (pattern_step q c) s

pub pattern_test : Text → Bool
unfolding pattern_from
pattern_test v = pattern_from at_start v

pub record Claim : Type 0 where
  pub value : Text

unfoldable pub parse : Text → Result ClaimError Claim
unfolding pattern_test
parse raw =
    let v = map lower (trim raw) in
    if pattern_test v then ok (record { value = v }) else err (invalid_claim raw)

abbrev starts_with : Text → Text → Bool
starts_with [] s = true
starts_with (_ ∷ _) [] = false
starts_with (c ∷ p) (d ∷ s) = eqb c d && starts_with p s

-- `endsWith('.*')`
abbrev ends_with_wildcard : Text → Bool
ends_with_wildcard [] = false
ends_with_wildcard (c ∷ []) = false
ends_with_wildcard (c ∷ d ∷ []) = eqb c b'.' && eqb d b'*'
ends_with_wildcard (c ∷ d ∷ e ∷ s) = ends_with_wildcard (d ∷ e ∷ s)

-- `slice(0, -1)`
abbrev drop_last : Text → Text
drop_last [] = []
drop_last (c ∷ []) = []
drop_last (c ∷ d ∷ s) = c ∷ drop_last (d ∷ s)

abbrev pub star : Text
star = b'*' ∷ []

unfoldable pub covers : Claim → Claim → Bool
covers held required =
    if text_eq held.value star
    then true
    else if text_eq held.value required.value
    then true
    else if ends_with_wildcard held.value
    then starts_with (drop_last held.value) required.value
    else false

abbrev count_dots : Text → ℕ
count_dots [] = 0
count_dots (c ∷ s) = (if eqb c b'.' then 1 else 0) + count_dots s

-- The specificity in halves, since a wildcard counts for half a part: `split('.').length` is one
-- more than the number of dots.
unfoldable pub specificity : Claim → ℕ
specificity c =
    if text_eq c.value star
    then 0
    else let depth = count_dots c.value + 1 in
      if ends_with_wildcard c.value then 2 * (depth - 1) + 1 else 2 * depth
