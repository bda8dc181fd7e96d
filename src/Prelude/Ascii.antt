-- ===== src/Prelude/Ascii.antt =====
-- Texts as the code looks into them: literals, prefixes, parts between separators, decimal numbers.
use Prim.Native.String.{String}
use Prim.Native.Char.{code}
use browser_profile_studio.Prelude.Tests.{
  ltb, leb, nat_beq, if◌then◌else◌, string_eq, nat_eq, pair_eq,
}
use browser_profile_studio.Prelude.Strings.{Text, text_eq}
use Prim.Native.Nat.{ℕ, zero, suc, ◌+◌, ◌-◌, ◌*◌, ◌/◌, ◌%◌}
use mathlib.Core.Bool.{Bool, true, false, ◌&&◌}
use mathlib.Core.Option.{Option, none, some}
use mathlib.Core.List.{List, [], ◌∷◌, reverse, map}

-- The code units of an ASCII literal.
abbrev pub units : String → Text
units String.[] = []
units (String.◌∷◌ c s) = code c ∷ units s

unfoldable pub starts_with : Text → Text → Bool
starts_with [] s = true
starts_with (c ∷ p) [] = false
starts_with (c ∷ p) (d ∷ s) = nat_beq c d && starts_with p s

unfoldable pub ends_with : Text → Text → Bool
unfolding starts_with
ends_with p s = starts_with (reverse p) (reverse s)

unfoldable pub includes : Text → Text → Bool
includes p [] = starts_with p []
includes p (d ∷ s) = let later = includes p s in if starts_with p (d ∷ s) then true else later

-- `c` in front of the first of the parts.
abbrev pub prepend : ℕ → List Text → List Text
prepend c [] = (c ∷ []) ∷ []
prepend c (part ∷ parts) = (c ∷ part) ∷ parts

-- `split` at one code unit: always at least one part.
unfoldable pub split : ℕ → Text → List Text
split separator [] = [] ∷ []
split separator (c ∷ s) =
    let parts = split separator s in if nat_beq c separator then [] ∷ parts else prepend c parts

abbrev pub lower_unit : ℕ → ℕ
lower_unit c = if leb 65 c && leb c 90 then c + 32 else c

-- `toLowerCase` on ASCII texts.
abbrev pub lower : Text → Text
lower s = map lower_unit s

abbrev pub is_digit : ℕ → Bool
is_digit c = leb 48 c && leb c 57

-- The decimal form of a number, in front of a text. `n + 1` digits are enough for `n`.
unfoldable pub decimal_from : ℕ → ℕ → Text → Text
decimal_from zero n s = s
decimal_from (suc fuel) n s = elim (ltb n 10) [
  | true ↦ (48 + n) ∷ s
  | false ↦ decimal_from fuel (n / 10) ((48 + n % 10) ∷ s)
]

unfoldable pub decimal : ℕ → Text
unfolding decimal_from
decimal n = decimal_from (suc n) n []

-- The digits at the start, after those that have been read.
unfoldable pub read_digits : ℕ → Text → ℕ
read_digits n [] = n
read_digits n (c ∷ s) =
    let rest = read_digits (n * 10 + (c - 48)) s in if is_digit c then rest else n

-- `parseInt(s, 10)` of a text without sign and space; `none` is `NaN`.
unfoldable pub parse_int : Text → Option ℕ
unfolding read_digits
parse_int [] = none
parse_int (c ∷ s) = if is_digit c then some (read_digits 0 (c ∷ s)) else none
