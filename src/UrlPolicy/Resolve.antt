-- ===== src/UrlPolicy/Resolve.antt =====
-- src/policy/url-policy.ts: `resolveAllowed` and `assertAllowed`.
use browser_profile_studio.Prelude.{
  ltb, leb, nat_beq, if◌then◌else◌, string_eq, nat_eq, bool_eq, pair_eq, length, Text, text_eq, ℕ,
  suc, ◌+◌, true, false, not, ◌||◌, Option, none, some, List, [], ◌∷◌,
}
use browser_profile_studio.Prelude.Map.{Map, get, set, delete}
use browser_profile_studio.Prelude.Method.{returns, throws, ◌>>=◌, ◌>>◌, return, throw, throw_if}
use browser_profile_studio.UrlPolicy.Address.{
  Reason, invalid_url, scheme_not_allowed, userinfo_not_allowed, domain_not_allowed,
  dns_resolution_failed, dns_resolution_empty, private_network_denied, Url, Platform, is_among,
  unbracket,
}
use browser_profile_studio.UrlPolicy.Policy.{
  UrlPurpose, CachedAnswer, Exceptions, UrlPolicy, ResolvedDestination, Call, is_plain, host_reason,
  matches_host, is_metadata, purpose_patterns, canonical_url_host, parsed_url, or_unexpected,
  is_scheme_allowed, require_host, has_userinfo, check_address, approve_all,
}

abbrev pub max_cached : ℕ
max_cached = 500

-- The oldest entry goes where the cache is full.
unfoldable pub evict_oldest : Map Text CachedAnswer → Map Text CachedAnswer
evict_oldest [] = []
evict_oldest ((host, answer) ∷ cache) =
    if leb max_cached (suc (length cache))
    then delete host ((host, answer) ∷ cache)
    else (host, answer) ∷ cache

unfoldable pub store_answer : Text → List Text → ℕ → Call (Unit {0})
unfolding evict_oldest
store_answer host addresses now u =
    if u.has_resolver
    then returns tt u
    else returns tt (record u {
      safe_dns_cache =
          set host (record { addresses = addresses; expires_at = now + 30_000 })
            (evict_oldest u.safe_dns_cache);
    })

-- The cached addresses of a host, where no resolver was given and they have not expired.
unfoldable pub cached_answer : Text → ℕ → UrlPolicy → Option (List Text)
cached_answer host now u = if u.has_resolver then none else elim (get host u.safe_dns_cache) [
  | none ↦ none
  | some cached ↦ if ltb now cached.expires_at then some cached.addresses else none
]

-- A host name that is refused by itself.
unfoldable pub denied_host : Option Reason → Exceptions → Option Reason
denied_host none x = none
denied_host (some r) x =
    if is_metadata (some r) || not x.allow_private_network then some r else none

abbrev pub refuse : Option Reason → Call (Unit {0})
refuse none u = returns tt u
refuse (some r) u = throws (private_network_denied r) u

module _ (p : Platform) where
  unfoldable pub resolve_answers : Text → ℕ → List Text → Call (List Text)
  unfolding approve_all store_answer
  resolve_answers host now [] = throw dns_resolution_empty
  resolve_answers host now (answer ∷ answers) = do
    addresses ← approve_all p (answer ∷ answers)
    store_answer host addresses now
    return addresses

  -- What the resolver gives; `none` where it fails.
  abbrev pub resolve_fresh : Text → ℕ → Option (List Text) → Call (List Text)
  resolve_fresh host now none = throw dns_resolution_failed
  resolve_fresh host now (some answers) = resolve_answers host now answers

  abbrev pub cached_or : Option (List Text) → Call (List Text) → Call (List Text)
  cached_or (some addresses) fresh u = returns addresses u
  cached_or none fresh u = fresh u

  unfoldable pub resolve_name : Text → ℕ → Option (List Text) → Call (List Text)
  unfolding host_reason denied_host cached_answer resolve_answers
  resolve_name host now answers = do
    λ u. refuse (denied_host (host_reason host) u.exceptions) u
    λ u. cached_or (cached_answer host now u) (resolve_fresh host now answers) u

  unfoldable pub resolve_literal : Text → Call (List Text)
  unfolding check_address
  resolve_literal address = do c ← check_address p address; return (address ∷ [])

  unfoldable pub resolve_host : Text → ℕ → Option (List Text) → Call (List Text)
  unfolding unbracket resolve_literal resolve_name
  resolve_host host now answers = elim (nat_beq (p.is_ip (unbracket host)) 0) [
    | true ↦ resolve_name host now answers
    | false ↦ resolve_literal (unbracket host)
  ]

  -- `matchesHost`, which makes the host canonical once more.
  unfoldable pub check_patterns : Text → UrlPurpose → Call (Unit {0})
  unfolding canonical_url_host matches_host
  check_patterns host purpose = do
    candidate ← or_unexpected p (canonical_url_host p host)
    λ u.
        throw_if
          (is_among [] (candidate ∷ [])
            || not (matches_host candidate (purpose_patterns purpose u)))
          domain_not_allowed u

  unfoldable pub resolve_allowed :
      Text → UrlPurpose → ℕ → Option (List Text) → Call ResolvedDestination
  unfolding is_plain canonical_url_host check_patterns resolve_host
  resolve_allowed raw purpose now answers = do
    throw_if (not (is_plain raw)) invalid_url
    url ← parsed_url p raw
    λ u. throw_if (not (is_scheme_allowed p url.protocol u)) scheme_not_allowed u
    throw_if (has_userinfo p url) userinfo_not_allowed
    canonical ← or_unexpected p (canonical_url_host p url.hostname)
    host ← require_host p canonical
    check_patterns host purpose
    addresses ← resolve_host host now answers
    return (record { url = url; addresses = addresses })

  unfoldable pub assert_allowed : Text → UrlPurpose → ℕ → Option (List Text) → Call Url
  unfolding resolve_allowed
  assert_allowed raw purpose now answers = do
    destination ← resolve_allowed raw purpose now answers
    return destination.url

abbrev pub clear_dns_cache : Call (Unit {0})
clear_dns_cache u = returns tt (record u { safe_dns_cache = [] })
