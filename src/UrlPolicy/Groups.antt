-- ===== src/UrlPolicy/Groups.antt =====
-- src/policy/url-policy.ts: the groups of an IPv6 address.
use browser_profile_studio.Prelude.{
  ltb, leb, nat_beq, if◌then◌else◌, string_eq, nat_eq, bool_eq, pair_eq, length, all, Text, text_eq,
  ℕ, zero, suc, ◌+◌, ◌-◌, ◌*◌, ◌/◌, ◌%◌, Bool, true, false, ◌&&◌, ◌||◌, Option, none, some, List,
  [], ◌∷◌, ◌++◌,
}
use browser_profile_studio.Prelude.Ascii.{units, includes, prepend, split, lower, is_digit}
use browser_profile_studio.UrlPolicy.Address.{Platform, between, octets_of, unbracket}

abbrev pub is_hex : ℕ → Bool
is_hex c = is_digit c || between 97 102 c || between 65 70 c

abbrev pub hex_value : ℕ → ℕ
hex_value c = if is_digit c then c - 48 else if leb 97 c then c - 87 else c - 55

unfoldable pub read_hex : ℕ → Text → ℕ
read_hex n [] = n
read_hex n (c ∷ s) = read_hex (n * 16 + hex_value c) s

unfoldable pub parse_hextet : Text → Option ℕ
unfolding read_hex
parse_hextet value =
    if between 1 4 (length value) && all is_hex value then some (read_hex 0 value) else none

unfoldable pub parse_hextets : List Text → Option (List ℕ)
unfolding parse_hextet
parse_hextets [] = some []
parse_hextets (part ∷ parts) = elim (parse_hextet part) [
  | none ↦ none
  | some group ↦ elim (parse_hextets parts) [ none ↦ none | some groups ↦ some (group ∷ groups) ]
]

unfoldable pub parse_half : Text → Option (List ℕ)
unfolding parse_hextets split
parse_half [] = some []
parse_half (c ∷ s) = parse_hextets (split 58 (c ∷ s))

-- `split('::')`
unfoldable pub halves : Text → List Text
halves [] = [] ∷ []
halves (c ∷ []) = (c ∷ []) ∷ []
halves (c ∷ d ∷ s) = elim (nat_beq c 58 && nat_beq d 58) [
  | true ↦ [] ∷ halves s
  | false ↦ prepend c (halves (d ∷ s))
]

abbrev pub zeros : ℕ → List ℕ
zeros zero = []
zeros (suc n) = 0 ∷ zeros n

-- The two halves of a compressed address, with at least one group of zeros between them.
unfoldable pub expand : Option (List ℕ) → Option (List ℕ) → Option (List ℕ)
expand (some left) (some right) =
    if leb (length left + length right + 1) 8
    then some (left ++ zeros (8 - length left - length right) ++ right)
    else none
expand _ _ = none

abbrev pub exact_eight : Option (List ℕ) → Option (List ℕ)
exact_eight none = none
exact_eight (some groups) =
    if leb (length groups) 8 then some (groups ++ zeros (8 - length groups)) else none

unfoldable pub parse_groups : List Text → Option (List ℕ)
unfolding parse_half expand
parse_groups (whole ∷ []) = exact_eight (parse_half whole)
parse_groups (left ∷ right ∷ []) = expand (parse_half left) (parse_half right)
parse_groups _ = none

abbrev pub hex_digit : ℕ → ℕ
hex_digit n = if ltb n 10 then 48 + n else 87 + n

-- `toString(16)`; `n + 1` digits are enough for `n`.
unfoldable pub hex_from : ℕ → ℕ → Text → Text
hex_from zero n s = s
hex_from (suc fuel) n s = elim (ltb n 16) [
  | true ↦ hex_digit n ∷ s
  | false ↦ hex_from fuel (n / 16) (hex_digit (n % 16) ∷ s)
]

abbrev pub hex : ℕ → Text
hex n = hex_from (suc n) n []

-- What stands before and after the last colon.
unfoldable pub at_last_colon : Text → Option (Text × Text)
at_last_colon [] = none
at_last_colon (c ∷ s) = elim (at_last_colon s) [
  | some parts ↦ some (c ∷ parts.0, parts.1)
  | none ↦ if nat_beq c 58 then some ([], s) else none
]

-- The groups of an IPv4 address at the end, as hexadecimal.
abbrev pub with_groups : Text → Option (ℕ × ℕ × ℕ × ℕ) → Option Text
with_groups before none = none
with_groups before (some o) =
    some (before ++ units ":" ++ hex (o.0 * 256 + o.1) ++ units ":" ++ hex (o.2 * 256 + o.3))

module _ (p : Platform) where
  abbrev pub embed : Option (Text × Text) → Option Text
  embed none = none
  embed (some parts) =
      if nat_beq (p.is_ip parts.1) 4 then with_groups parts.0 (octets_of parts.1) else none

  abbrev pub without_dots : Text → Option Text
  without_dots value =
      if includes (units ".") value then embed (at_last_colon value) else some value

  unfoldable pub parse_ipv6 : Text → Option (List ℕ)
  unfolding unbracket includes at_last_colon hex_from octets_of halves parse_groups
  parse_ipv6 address = elim (without_dots (lower (unbracket address))) [
    | none ↦ none
    | some value ↦ parse_groups (halves value)
  ]
