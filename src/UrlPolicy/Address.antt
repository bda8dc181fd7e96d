-- ===== src/UrlPolicy/Address.antt =====
-- src/policy/url-policy.ts: the classes of addresses. `isIP`, the URL parser and `domainToASCII` are
-- parameters; addresses are ASCII texts.
use browser_profile_studio.Prelude.{
  leb, nat_beq, if◌then◌else◌, string_eq, nat_eq, bool_eq, ◌==◌, pair_eq, option_beq, any, Text,
  text_eq, ℕ, ◌+◌, ◌*◌, ◌%◌, ◌^◌, Bool, ◌&&◌, ◌||◌, Option, none, some, List, [], ◌∷◌,
}
use browser_profile_studio.Prelude.Ascii.{units, split, parse_int}

pub data Reason : Type 0 where
  loopback private link_local multicast reserved metadata : Reason

-- An unexpected error is one that the code does not throw by itself as a policy error.
pub data PolicyError : Type 0 where
  invalid_url scheme_not_allowed userinfo_not_allowed missing_host : PolicyError
  domain_not_allowed dns_resolution_failed dns_resolution_empty : PolicyError
  dns_invalid_address unexpected : PolicyError
  private_network_denied : Reason → PolicyError

pub record AddressClassification : Type 0 where
  pub reason : Option Reason
  pub version : ℕ
  pub address : Text

-- What the code reads of a `URL`.
pub record Url : Type 0 where
  pub protocol : Text
  pub username : Text
  pub password : Text
  pub hostname : Text

-- Node's functions: `isIP` gives 4, 6 or 0.
pub record Platform : Type 0 where
  pub is_ip : Text → ℕ
  pub parse_url : Text → Option Url
  pub domain_to_ascii : Text → Text

abbrev pub is_among : Text → List Text → Bool
is_among s texts = any (λ t. t == s) texts

abbrev pub metadata_ipv4 : List Text
metadata_ipv4 =
    units "169.254.169.254"
    ∷ units "169.254.170.2"
    ∷ units "169.254.170.23"
    ∷ units "100.100.100.200"
    ∷ units "168.63.129.16"
    ∷ []

abbrev pub metadata_ipv6 : List Text
metadata_ipv6 = units "fd00:ec2::254" ∷ units "fe80::a9fe:a9fe" ∷ []

abbrev pub between : ℕ → ℕ → ℕ → Bool
between low high n = leb low n && leb n high

-- The later tests of `classifyIpv4` on the octets and on the whole number.
unfoldable pub octets_reserved : ℕ → ℕ → ℕ → ℕ → Option Reason
octets_reserved first second third value =
    if nat_beq first 0
    then some reserved
    else if nat_beq first 100 && between 64 127 second
    then some reserved
    else if nat_beq first 192 && nat_beq second 0 && nat_beq third 0
    then some reserved
    else if nat_beq first 192 && nat_beq second 0 && nat_beq third 2
    then some reserved
    else if nat_beq first 192 && nat_beq second 88 && nat_beq third 99
    then some reserved
    else if nat_beq first 198 && between 18 19 second
    then some reserved
    else if nat_beq first 198 && nat_beq second 51 && nat_beq third 100
    then some reserved
    else if nat_beq first 203 && nat_beq second 0 && nat_beq third 113
    then some reserved
    else if nat_beq value 4_294_967_295
    then some reserved
    else none

-- The tests on the octets, after the one for metadata.
unfoldable pub octets_reason : ℕ → ℕ → ℕ → ℕ → Option Reason
unfolding octets_reserved
octets_reason first second third fourth =
    let value = (((first * 256 + second) * 256 + third) * 256 + fourth) % 2 ^ 32 in
    if nat_beq first 127
    then some loopback
    else if nat_beq first 10
        || (nat_beq first 172 && between 16 31 second)
        || (nat_beq first 192 && nat_beq second 168)
    then some private
    else if nat_beq first 169 && nat_beq second 254
    then some link_local
    else if leb 224 first
    then (if leb 240 first then some reserved else some multicast)
    else octets_reserved first second third value

abbrev pub all_octets : Option ℕ → Option ℕ → Option ℕ → Option ℕ → Option (ℕ × ℕ × ℕ × ℕ)
all_octets (some a) (some b) (some c) (some d) = some (a, b, c, d)
all_octets _ _ _ _ = none

-- `address.split('.').map(Number)`, for the four decimal parts that `isIP` has found.
abbrev pub octets_from : List Text → Option (ℕ × ℕ × ℕ × ℕ)
octets_from (a ∷ b ∷ c ∷ d ∷ rest) =
    all_octets (parse_int a) (parse_int b) (parse_int c) (parse_int d)
octets_from _ = none

unfoldable pub octets_of : Text → Option (ℕ × ℕ × ℕ × ℕ)
unfolding split parse_int
octets_of address = octets_from (split 46 address)

abbrev pub reason_of_octets : Option (ℕ × ℕ × ℕ × ℕ) → Option Reason
reason_of_octets none = none
reason_of_octets (some o) = octets_reason o.0 o.1 o.2 o.3

unfoldable pub ipv4_reason : Text → Option Reason
unfolding octets_of octets_reason
ipv4_reason address =
    if is_among address metadata_ipv4 then some metadata else reason_of_octets (octets_of address)

abbrev pub last_unit : Text → Option ℕ
last_unit [] = none
last_unit (c ∷ []) = some c
last_unit (c ∷ d ∷ s) = last_unit (d ∷ s)

-- The text without its last unit.
abbrev pub but_last : Text → Text
but_last [] = []
but_last (c ∷ []) = []
but_last (c ∷ d ∷ s) = c ∷ but_last (d ∷ s)

abbrev pub is_last : ℕ → Text → Bool
is_last c s = option_beq (last_unit s) (some c)

unfoldable pub unbracket : Text → Text
unbracket [] = []
unbracket (c ∷ s) = if nat_beq c 91 && is_last 93 (c ∷ s) then but_last s else c ∷ s
