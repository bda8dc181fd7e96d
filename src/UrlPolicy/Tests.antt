-- ===== src/UrlPolicy/Tests.antt =====
-- Runs and instances of the theorems about URLs and addresses.
use browser_profile_studio.Prelude.{
  nat_beq, if◌then◌else◌, string_eq, nat_eq, bool_eq, ◌==◌, pair_eq, all, any, text_eq, is_space,
  trim_start, trim, ◌/◌, ◌%◌, ◌≡◌, refl, false, ◌||◌, none, some, List, [], ◌∷◌, arith,
}
use browser_profile_studio.Prelude.Ascii.{
  units, starts_with, ends_with, includes, split, is_digit, decimal_from, decimal, read_digits,
  parse_int,
}
use browser_profile_studio.Prelude.Map.{get}
use browser_profile_studio.Prelude.Method.{throws}
use browser_profile_studio.Prelude.Hoare.{Leaves}
use browser_profile_studio.UrlPolicy.Address.{
  loopback, private, private_network_denied, Url, Platform, octets_reserved, octets_reason,
  octets_of, ipv4_reason, unbracket,
}
use browser_profile_studio.UrlPolicy.Groups.{
  read_hex, parse_hextet, parse_hextets, parse_half, halves, expand, parse_groups, hex_from,
  at_last_colon, parse_ipv6,
}
use browser_profile_studio.UrlPolicy.Classify.{dotted, mapped_ipv4, classified, classify_address}
use browser_profile_studio.UrlPolicy.Policy.{
  navigation, UrlPolicy, is_plain, host_reason, matches_wildcard, matches_host,
  is_synthetic_tunnel_address, is_private_exception, canonical_url_host, permit, check_address,
  approve, approve_all,
}
use browser_profile_studio.UrlPolicy.Resolve.{
  cached_answer, denied_host, resolve_answers, resolve_name, resolve_host, check_patterns,
  resolve_allowed,
}
use browser_profile_studio.UrlPolicy.Approved.{IsSafe}
use browser_profile_studio.UrlPolicy.Runs.{
  Event, resolves, run, IsApprovedDestination, run-resolve_allowed-IsApproved,
}
use browser_profile_studio.UrlPolicy.Mapped.{
  table_reason, ipv4_reason-dotted, mapped-classify_address,
}

-- Addresses are told by their colons and dots, and one URL is known.
abbrev site : Url
site = record {
  protocol = units "https:";
  username = [];
  password = [];
  hostname = units "shop.example";
}

abbrev platform : Platform
platform = record {
  is_ip = λ s.
      if any (nat_beq 58) s then 6 else if all (λ c. is_digit c || nat_beq c 46) s then 4 else 0;
  parse_url = λ s. if s == units "https://shop.example/" then some site else none;
  domain_to_ascii = λ s. s;
}

abbrev strict : UrlPolicy
strict = record {
  allowed_hosts = record { exact = []; wildcards = units "example" ∷ [] };
  resource_hosts = record { exact = []; wildcards = [] };
  allow_http = false;
  exceptions = record { allow_private_network = false; allow_synthetic_tunnel = false };
  has_resolver = false;
  safe_dns_cache = [];
}

loopback_mapped :
    classify_address platform (units "[::FFFF:127.0.0.1]")
    ≡ some (classified 6 (units "::ffff:127.0.0.1") (some loopback))
unfolding classify_address unbracket parse_ipv6 includes starts_with at_last_colon octets_of split
    parse_int read_digits hex_from halves parse_groups expand parse_half parse_hextets parse_hextet
    read_hex mapped_ipv4 decimal decimal_from ipv4_reason octets_reason octets_reserved
loopback_mapped = refl

mapped-classify_address_example :
    classify_address platform (units "::ffff:127.0.0.1")
    ≡ some (
        classified 6
          (units "::ffff:127.0.0.1")
          (table_reason (32_512 / 256) (32_512 % 256) (1 / 256) (1 % 256)))
unfolding unbracket parse_ipv6 includes starts_with at_last_colon octets_of split parse_int
    read_digits hex_from halves parse_groups expand parse_half parse_hextets parse_hextet read_hex
mapped-classify_address_example =
    mapped-classify_address platform (units "::ffff:127.0.0.1") 32_512 1 refl refl (omega arith)
      (omega arith)

ipv4_reason-dotted_example : ipv4_reason (dotted 172 31 0 9) ≡ table_reason 172 31 0 9
ipv4_reason-dotted_example =
    ipv4_reason-dotted 172 31 0 9 (omega arith) (omega arith) (omega arith) (omega arith)

abbrev visits : List Event
visits =
    resolves (units "https://shop.example/") navigation 5 (some (units "93.184.216.34" ∷ []))
    ∷ resolves (units "https://shop.example/") navigation 9 (some (units "10.0.0.1" ∷ []))
    ∷ []

-- The second call is answered from the cache.
run-resolve_allowed-IsApproved_example :
    Leaves (IsSafe platform strict.exceptions) (IsApprovedDestination platform strict.exceptions) (
      resolve_allowed platform
        (units "https://shop.example/")
        navigation
        40_000
        (some (units "10.0.0.1" ∷ []))
        (run platform visits strict))
run-resolve_allowed-IsApproved_example =
    run-resolve_allowed-IsApproved platform strict visits (units "https://shop.example/") navigation
      40_000 (some (units "10.0.0.1" ∷ [])) refl

-- A private answer is refused, once the public one has expired.
private_answer :
    resolve_allowed platform
      (units "https://shop.example/")
      navigation
      40_000
      (some (units "10.0.0.1" ∷ []))
      strict
    ≡ throws (private_network_denied private) strict
unfolding resolve_allowed is_plain trim trim_start is_space canonical_url_host unbracket
    check_patterns matches_host matches_wildcard ends_with starts_with split resolve_host
    resolve_name host_reason denied_host cached_answer resolve_answers approve_all approve
    check_address permit is_private_exception is_synthetic_tunnel_address classify_address
    ipv4_reason octets_of parse_int read_digits octets_reason get
private_answer = refl
