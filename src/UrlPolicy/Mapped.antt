-- ===== src/UrlPolicy/Mapped.antt =====
-- src/policy/url-policy.ts: the class of an IPv4 address, also as an IPv6 one.
use browser_profile_studio.Prelude.{
  nat_beq, if◌then◌else◌, string_eq, nat_eq, bool_eq, pair_eq, Text, text_eq, ℕ, ◌/◌, ◌%◌, ◌<◌, ◌≡◌,
  refl, ap, ◌∙◌, Option, some, List, [], ◌∷◌, arith,
}
use browser_profile_studio.UrlPolicy.Address.{
  Reason, reserved, metadata, Platform, is_among, metadata_ipv4, reason_of_octets, ipv4_reason,
  unbracket,
}
use browser_profile_studio.UrlPolicy.Groups.{parse_ipv6}
use browser_profile_studio.UrlPolicy.Classify.{
  dotted, mapped_ipv4, classified, classify_ipv6, classify_address,
}
use browser_profile_studio.UrlPolicy.Decimal.{octets_of-dotted}
use browser_profile_studio.UrlPolicy.Blocks.{
  ip_value, special_blocks, block_reason, octets_reason-blocks,
}
use browser_profile_studio.Prelude.Ascii.{lower}

-- The class that the addresses of metadata services and the table of blocks give.
abbrev pub table_reason : ℕ → ℕ → ℕ → ℕ → Option Reason
table_reason a b c d =
    if is_among (dotted a b c d) metadata_ipv4
    then some metadata
    else block_reason special_blocks (ip_value a b c d)

-- A dotted address has the class of the first block of the table that it is in, unless it is one of
-- a metadata service.
pub ipv4_reason-dotted :
    (a b c d : ℕ)
    → a < 256
    → b < 256
    → c < 256
    → d < 256
    → ipv4_reason (dotted a b c d) ≡ table_reason a b c d
unfolding ipv4_reason
ipv4_reason-dotted a b c d ha hb hc hd =
    ap (λ r. if is_among (dotted a b c d) metadata_ipv4 then some metadata else r)
      (ap reason_of_octets (octets_of-dotted a b c d) ∙ octets_reason-blocks a b c d ha hb hc hd)

-- The groups of an IPv4-mapped address.
abbrev pub mapped_groups : ℕ → ℕ → List ℕ
mapped_groups high low = 0 ∷ 0 ∷ 0 ∷ 0 ∷ 0 ∷ 0xffff ∷ high ∷ low ∷ []

mapped-classify_ipv6 :
    (p : Platform) (value : Text) (high low : ℕ)
    → parse_ipv6 p value ≡ some (mapped_groups high low)
    → high < 65_536
    → low < 65_536
    → classify_ipv6 p value
      ≡ some (classified 6 value (table_reason (high / 256) (high % 256) (low / 256) (low % 256)))
unfolding mapped_ipv4
mapped-classify_ipv6 p value high low parsed hh hl = rw parsed (
    ap (λ r. some (classified 6 value r))
      (ipv4_reason-dotted (high / 256) (high % 256) (low / 256) (low % 256) (omega arith)
        (omega arith) (omega arith) (omega arith)))

-- The decision between the versions.
by_version :
    {A : Type 0} (n : ℕ) (four six other : A)
    → n ≡ 6
    → (if nat_beq n 4 then four else (if nat_beq n 6 then six else other)) ≡ six
by_version n four six other h = rw h refl

-- An IPv4-mapped IPv6 address, however it is written, has the class of the IPv4 address that its last two
-- groups are: that of the first block of the table that this address is in, unless it is one of a
-- metadata service.
pub mapped-classify_address :
    (p : Platform) (address : Text) (high low : ℕ)
    → p.is_ip (lower (unbracket address)) ≡ 6
    → parse_ipv6 p (lower (unbracket address)) ≡ some (mapped_groups high low)
    → high < 65_536
    → low < 65_536
    → classify_address p address
      ≡ some (
          classified 6
            (lower (unbracket address))
            (table_reason (high / 256) (high % 256) (low / 256) (low % 256)))
unfolding classify_address
mapped-classify_address p address high low six parsed hh hl =
    let value = lower (unbracket address) in
    by_version (p.is_ip value) (some (classified 4 value (ipv4_reason value)))
      (classify_ipv6 p value) (some (classified 4 value (some reserved))) six
    ∙ mapped-classify_ipv6 p value high low parsed hh hl
