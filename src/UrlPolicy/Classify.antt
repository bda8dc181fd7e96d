-- ===== src/UrlPolicy/Classify.antt =====
-- src/policy/url-policy.ts: `classifyAddress`.
use Prim.Native.Nat.{bit_and}
use mathlib.Core.Option.{get_or}
use browser_profile_studio.Prelude.{
  nat_beq, if◌then◌else◌, string_eq, nat_eq, bool_eq, pair_eq, option_beq, length, get_elem?, drop,
  take, all, Text, text_eq, ℕ, zero, suc, ◌+◌, ◌-◌, ◌/◌, ◌%◌, ◌^◌, min, Bool, true, false, ◌&&◌,
  ◌||◌, Option, none, some, List, [], ◌∷◌, ◌++◌,
}
use browser_profile_studio.Prelude.Ascii.{units, lower, decimal}
use browser_profile_studio.UrlPolicy.Address.{
  Reason, loopback, private, link_local, multicast, reserved, metadata, AddressClassification,
  Platform, is_among, metadata_ipv6, ipv4_reason, but_last, unbracket,
}
use browser_profile_studio.UrlPolicy.Groups.{parse_ipv6}

abbrev pub all_zero : List ℕ → Bool
all_zero groups = all (nat_beq 0) groups

-- The text of an IPv4 address.
abbrev pub dotted : ℕ → ℕ → ℕ → ℕ → Text
dotted a b c d = decimal a ++ (46 ∷ (decimal b ++ (46 ∷ (decimal c ++ (46 ∷ decimal d)))))

unfoldable pub mapped_ipv4 : List ℕ → Option Text
unfolding decimal
mapped_ipv4 groups =
    if nat_beq (length groups) 8
      && all_zero (take 5 groups)
      && option_beq (get_elem? groups 5) (some 0xffff)
    then (let high = get_or (get_elem? groups 6) 0 in
        let low = get_or (get_elem? groups 7) 0 in
        some (dotted (high / 256) (high % 256) (low / 256) (low % 256)))
    else none

-- The lowest bits that a mask of `taken` bits leaves out; a group that is missing is -1 in the code, whose
-- 16 low bits are ones.
abbrev pub mask : ℕ → ℕ
mask taken = 65_536 - 2 ^ (16 - taken)

-- One turn for each group; a prefix has at most 128 bits.
unfoldable pub prefix_from : ℕ → ℕ → List ℕ → List ℕ → ℕ → Bool
prefix_from zero index groups prefix remaining = true
prefix_from (suc turns) index groups prefix remaining =
    let taken = min remaining 16 in
    let expected = get_or (get_elem? prefix index) 0 in
    let group = get_or (get_elem? groups index) 65_535 in
    let rest = prefix_from turns (index + 1) groups prefix (remaining - taken) in
    if nat_beq remaining 0
    then true
    else if nat_beq (bit_and group (mask taken)) (bit_and expected (mask taken))
    then rest
    else false

unfoldable pub has_ipv6_prefix : List ℕ → List ℕ → ℕ → Bool
unfolding prefix_from
has_ipv6_prefix groups prefix bits = prefix_from 8 0 groups prefix bits

-- The tests of `classifyAddress` on the groups, after the one for metadata.
unfoldable pub groups_reason : List ℕ → Option Reason
unfolding has_ipv6_prefix
groups_reason groups =
    if all_zero groups
    then some reserved
    else if all_zero (take 7 groups) && option_beq (get_elem? groups 7) (some 1)
    then some loopback
    else if has_ipv6_prefix groups (0xfc00 ∷ []) 7
    then some private
    else if has_ipv6_prefix groups (0xfe80 ∷ []) 10
    then some link_local
    else if has_ipv6_prefix groups (0xff00 ∷ []) 8
    then some multicast
    else if has_ipv6_prefix groups (0x2001 ∷ 0x0db8 ∷ []) 32
        || has_ipv6_prefix groups (0x2001 ∷ 0 ∷ []) 32
        || has_ipv6_prefix groups (0x2001 ∷ 2 ∷ 0 ∷ []) 48
        || has_ipv6_prefix groups (0x0100 ∷ 0 ∷ []) 32
        || has_ipv6_prefix groups (0 ∷ 0 ∷ 0 ∷ 0 ∷ 0 ∷ 0 ∷ []) 96
    then some reserved
    else none

abbrev pub classified : ℕ → Text → Option Reason → AddressClassification
classified version address reason = record { reason = reason; version = version; address = address }

abbrev pub is_blocked : AddressClassification → Bool
is_blocked c = elim c.reason [ none ↦ false | some r ↦ true ]

module _ (p : Platform) where
  -- `none` where the parser throws.
  unfoldable pub canonical_ipv6 : Text → Option Text
  canonical_ipv6 address = elim (p.parse_url (units "http://[" ++ address ++ units "]")) [
    | none ↦ none
    | some url ↦ some (lower (but_last (drop 1 url.hostname)))
  ]

  abbrev pub ipv6_reason : List ℕ → Option Text → Option (Option Reason)
  ipv6_reason groups none = none
  ipv6_reason groups (some canonical) =
      some (if is_among canonical metadata_ipv6 then some metadata else groups_reason groups)

  abbrev pub classify_groups : Text → List ℕ → Option AddressClassification
  classify_groups value groups = elim (mapped_ipv4 groups) [
    | some mapped ↦ some (classified 6 value (ipv4_reason mapped))
    | none ↦ elim (ipv6_reason groups (canonical_ipv6 value)) [
      | none ↦ none
      | some reason ↦ some (classified 6 value reason)
    ]
  ]

  abbrev pub classify_parsed : Text → Option (List ℕ) → Option AddressClassification
  classify_parsed value none = none
  classify_parsed value (some groups) = classify_groups value groups

  abbrev pub classify_ipv6 : Text → Option AddressClassification
  classify_ipv6 value = classify_parsed value (parse_ipv6 p value)

  -- `none` where `parseIpv6` or the URL parser throws.
  unfoldable pub classify_address : Text → Option AddressClassification
  unfolding parse_ipv6 ipv4_reason mapped_ipv4 groups_reason canonical_ipv6 unbracket
  classify_address address =
      let value = lower (unbracket address) in
      if nat_beq (p.is_ip value) 4
      then some (classified 4 value (ipv4_reason value))
      else if nat_beq (p.is_ip value) 6
      then classify_ipv6 value
      else some (classified 4 value (some reserved))
