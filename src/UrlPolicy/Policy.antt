-- ===== src/UrlPolicy/Policy.antt =====
-- src/policy/url-policy.ts: `resolveAllowed`. The compiled host patterns, the clock's reading and what
-- the resolver answers are arguments; the purpose is one of the two names.
use browser_profile_studio.Prelude.{
  leb, nat_beq, if◌then◌else◌, string_eq, nat_eq, bool_eq, ◌==◌, pair_eq, length, any, Text,
  text_eq, trim, ℕ, ◌+◌, Bool, true, false, not, ◌&&◌, ◌||◌, Option, none, some, List, [], ◌∷◌,
  ◌++◌,
}
use browser_profile_studio.Prelude.Ascii.{units, ends_with, split, lower}
use browser_profile_studio.Prelude.Map.{Map}
use browser_profile_studio.Prelude.Method.{returns, throws, Method, ◌>>=◌, ◌>>◌, return, throw_if}
use browser_profile_studio.UrlPolicy.Address.{
  Reason, loopback, reserved, metadata, PolicyError, invalid_url, missing_host, dns_invalid_address,
  unexpected, private_network_denied, AddressClassification, Url, Platform, is_among, between,
  octets_of, but_last, is_last, unbracket,
}
use browser_profile_studio.UrlPolicy.Classify.{is_blocked, canonical_ipv6, classify_address}

pub data UrlPurpose : Type 0 where
  navigation resource : UrlPurpose

-- `CompiledHostPattern`: the hosts, and what follows `*.` in a pattern.
pub record HostPatterns : Type 0 where
  pub exact : List Text
  pub wildcards : List Text

pub record CachedAnswer : Type 0 where
  pub addresses : List Text
  pub expires_at : ℕ

-- What is let through besides public addresses.
pub record Exceptions : Type 0 where
  pub allow_private_network : Bool
  pub allow_synthetic_tunnel : Bool

-- The fields of `UrlPolicy`; `has_resolver` is whether a resolver was given.
pub record UrlPolicy : Type 0 where
  pub allowed_hosts : HostPatterns
  pub resource_hosts : HostPatterns
  pub allow_http : Bool
  pub exceptions : Exceptions
  pub has_resolver : Bool
  pub safe_dns_cache : Map Text CachedAnswer

pub record ResolvedDestination : Type 0 where
  pub url : Url
  pub addresses : List Text

abbrev pub Call : Type 0 → Type 0
Call A = Method PolicyError UrlPolicy A

abbrev pub max_url_length : ℕ
max_url_length = 2_048

abbrev pub is_control : ℕ → Bool
is_control c = leb c 31 || nat_beq c 127

unfoldable pub is_plain : Text → Bool
unfolding trim
is_plain raw = between 1 max_url_length (length raw) && trim raw == raw && not (any is_control raw)

abbrev pub drop_dot : Text → Text
drop_dot s = if is_last 46 s then but_last s else s

unfoldable pub host_reason : Text → Option Reason
unfolding unbracket ends_with
host_reason host =
    let normalized = drop_dot (lower (unbracket host)) in
    if is_among normalized (
        units "metadata"
        ∷ units "metadata.google.internal"
        ∷ units "metadata.google"
        ∷ units "instance-data.ec2.internal"
        ∷ units "metadata.azure.internal"
        ∷ [])
      || ends_with (units ".metadata.google.internal") normalized
      || ends_with (units ".instance-data.ec2.internal") normalized
      || ends_with (units ".metadata.azure.internal") normalized
    then some metadata
    else if is_among normalized
          (units "localhost" ∷ units "localhost.localdomain" ∷ units "ip6-localhost" ∷ [])
        || ends_with (units ".localhost") normalized
    then some loopback
    else none

abbrev pub labels : Text → ℕ
labels host = length (split 46 host)

unfoldable pub matches_wildcard : Text → Text → Bool
unfolding ends_with split
matches_wildcard host suffix =
    not (host == suffix)
    && ends_with (units "." ++ suffix) host
    && nat_beq (labels host) (labels suffix + 1)

-- `matchesHost` on a canonical host.
unfoldable pub matches_host : Text → HostPatterns → Bool
unfolding matches_wildcard
matches_host host patterns =
    is_among host patterns.exact || any (matches_wildcard host) patterns.wildcards

unfoldable pub is_synthetic_octets : Option (ℕ × ℕ × ℕ × ℕ) → Bool
is_synthetic_octets none = false
is_synthetic_octets (some o) = nat_beq o.0 198 && between 18 19 o.1

abbrev pub is_metadata : Option Reason → Bool
is_metadata (some metadata) = true
is_metadata _ = false

abbrev pub is_reserved : Option Reason → Bool
is_reserved (some reserved) = true
is_reserved _ = false

abbrev pub purpose_patterns : UrlPurpose → UrlPolicy → HostPatterns
purpose_patterns navigation u = u.allowed_hosts
purpose_patterns resource u = u.resource_hosts

module _ (p : Platform) where
  unfoldable pub is_synthetic_tunnel_address : Text → Bool
  unfolding unbracket octets_of is_synthetic_octets
  is_synthetic_tunnel_address address =
      let value = unbracket address in
      nat_beq (p.is_ip value) 4 && is_synthetic_octets (octets_of value)

  unfoldable pub is_private_exception : AddressClassification → Exceptions → Bool
  unfolding is_synthetic_tunnel_address
  is_private_exception c x =
      if x.allow_synthetic_tunnel && is_synthetic_tunnel_address c.address
      then is_reserved c.reason
      else x.allow_private_network && not (is_metadata c.reason)

  -- Whether an address with this class may be used.
  abbrev pub is_approved : AddressClassification → Exceptions → Bool
  is_approved c x = not (is_blocked c) || is_private_exception c x

  abbrev pub reason_or_reserved : Option Reason → Reason
  reason_or_reserved none = reserved
  reason_or_reserved (some r) = r

  -- `none` where the URL parser throws.
  unfoldable pub canonical_url_host : Text → Option Text
  unfolding unbracket canonical_ipv6
  canonical_url_host raw =
      let host = drop_dot (lower (unbracket raw)) in
      elim host [
        | [] ↦ some []
        | c ∷ s ↦
            if nat_beq (p.is_ip (c ∷ s)) 6
            then elim (canonical_ipv6 p (c ∷ s)) [
              | none ↦ none
              | some canonical ↦ some (units "[" ++ canonical ++ units "]")
            ]
            else if nat_beq (p.is_ip (c ∷ s)) 4
            then some (c ∷ s)
            else some (drop_dot (lower (p.domain_to_ascii (c ∷ s))))
      ]

  unfoldable pub canonical_address : Text → Option Text
  unfolding canonical_ipv6
  canonical_address address =
      if nat_beq (p.is_ip address) 6 then canonical_ipv6 p address else some address

  abbrev pub parsed_url : Text → Call Url
  parsed_url raw u = elim (p.parse_url raw) [
    | some url ↦ returns url u
    | none ↦ throws invalid_url u
  ]

  abbrev pub or_unexpected : {A : Type 0} → Option A → Call A
  or_unexpected (some a) u = returns a u
  or_unexpected none u = throws unexpected u

  abbrev pub is_scheme_allowed : Text → UrlPolicy → Bool
  is_scheme_allowed protocol u =
      lower protocol == units "https:" || (lower protocol == units "http:" && u.allow_http)

  abbrev pub require_host : Text → Call Text
  require_host [] u = throws missing_host u
  require_host (c ∷ s) u = returns (c ∷ s) u

  abbrev pub has_userinfo : Url → Bool
  has_userinfo url = not (is_among [] (url.username ∷ []) && is_among [] (url.password ∷ []))

  unfoldable pub permit : AddressClassification → Call AddressClassification
  unfolding is_private_exception
  permit c u =
      if is_approved c u.exceptions
      then returns c u
      else throws (private_network_denied (reason_or_reserved c.reason)) u

  -- The class of an address that may be used; the others throw.
  unfoldable pub check_address : Text → Call AddressClassification
  unfolding classify_address permit
  check_address address = do c ← or_unexpected (classify_address p address); permit c

  -- One answer of the resolver, in its canonical form.
  unfoldable pub approve : Text → Call Text
  unfolding unbracket check_address canonical_address
  approve answer = do
    throw_if (nat_beq (p.is_ip (unbracket answer)) 0) dns_invalid_address
    c ← check_address (unbracket answer)
    or_unexpected (canonical_address (unbracket answer))

  unfoldable pub approve_all : List Text → Call (List Text)
  unfolding approve
  approve_all [] = return []
  approve_all (answer ∷ answers) = do
    address ← approve answer
    addresses ← approve_all answers
    return (address ∷ addresses)
