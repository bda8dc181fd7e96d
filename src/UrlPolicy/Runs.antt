-- ===== src/UrlPolicy/Runs.antt =====
-- src/policy/url-policy.ts: `resolveAllowed` over any sequence of calls.
use browser_profile_studio.Prelude.{
  Option-cases, string_eq, nat_eq, bool_eq, pair_eq, length, All, Text, text_eq, ℕ, ◌≤◌, ◌≡◌, refl,
  sym, subst, inl, inr, not, ◌||◌, Option, some, List, [], ◌∷◌, arith,
}
use browser_profile_studio.Prelude.Map.{Map}
use browser_profile_studio.Prelude.Method.{final, ◌>>=◌, ◌>>◌, return, throw_if}
use browser_profile_studio.Prelude.Hoare.{
  Anything, Leaves, bind-Ensures, then-Ensures, throw_if-Ensures, Leaves-final,
}
use browser_profile_studio.UrlPolicy.Address.{
  invalid_url, scheme_not_allowed, userinfo_not_allowed, domain_not_allowed, Url, Platform,
  is_among,
}
use browser_profile_studio.UrlPolicy.Policy.{
  UrlPurpose, CachedAnswer, Exceptions, UrlPolicy, ResolvedDestination, is_plain, matches_host,
  purpose_patterns, canonical_url_host, parsed_url, or_unexpected, is_scheme_allowed, require_host,
  has_userinfo,
}
use browser_profile_studio.UrlPolicy.Resolve.{
  max_cached, resolve_host, check_patterns, resolve_allowed, clear_dns_cache,
}
use browser_profile_studio.UrlPolicy.Approved.{IsApproved, IsSafe, Safe, or_unexpected-Safe}
use browser_profile_studio.UrlPolicy.Destinations.{resolve_host-Safe}

pub data Event : Type 0 where
  resolves : Text → UrlPurpose → ℕ → Option (List Text) → Event
  clears : Event

unfoldable pub step : Platform → Event → UrlPolicy → UrlPolicy
unfolding resolve_allowed
step p (resolves raw purpose now answers) u = final (resolve_allowed p raw purpose now answers u)
step p clears u = final (clear_dns_cache u)

unfoldable pub run : Platform → List Event → UrlPolicy → UrlPolicy
unfolding step
run p [] u = u
run p (e ∷ es) u = run p es (step p e u)

module _ (p : Platform) (x : Exceptions) where
  -- Every address of the destination has been approved.
  abbrev pub IsApprovedDestination : ResolvedDestination → Type 0
  IsApprovedDestination d = All (IsApproved p x) d.addresses

  require_host-Safe : (host : Text) → Safe p x (require_host p host) Anything
  require_host-Safe [] u s = s
  require_host-Safe (c ∷ host) u s = (s, tt)

  check_patterns-Safe :
      (host : Text) (purpose : UrlPurpose) → Safe p x (check_patterns p host purpose) Anything
  unfolding check_patterns
  check_patterns-Safe host purpose =
      let fails = λ (candidate : Text) (u : UrlPolicy).
        is_among [] (candidate ∷ []) || not (matches_host candidate (purpose_patterns purpose u)) in
      bind-Ensures (IsSafe p x) (or_unexpected p (canonical_url_host p host))
        (λ candidate u. throw_if (fails candidate u) domain_not_allowed u)
        (λ candidate. canonical_url_host p host ≡ some candidate) Anything
        (or_unexpected-Safe p x (canonical_url_host p host))
        (λ candidate _ u s.
          throw_if-Ensures (IsSafe p x) (fails candidate u) domain_not_allowed u s)

  parsed_url-Safe : (raw : Text) → Safe p x (parsed_url p raw) Anything
  parsed_url-Safe raw u s = elim (Option-cases (p.parse_url raw)) [
    | inl bad ↦ rw (bad, Leaves, parsed_url) s
    | inr (url, found) ↦ rw (found, Leaves, parsed_url) (s, tt)
  ]

  resolve_allowed-Safe :
      (raw : Text) (purpose : UrlPurpose) (now : ℕ) (answers : Option (List Text))
      → Safe p x (resolve_allowed p raw purpose now answers) IsApprovedDestination
  unfolding resolve_allowed
  resolve_allowed-Safe raw purpose now answers =
      let I = IsSafe p x in
      let Q = IsApprovedDestination in
      let finish = λ (url : Url) (host : Text).
        resolve_host p host now answers
        >>= (λ addresses. return (record { url = url; addresses = addresses })) in
      let by_host = λ (url : Url) (host : Text). check_patterns p host purpose >> finish url host in
      let by_canonical =
        λ (url : Url) (canonical : Text). require_host p canonical >>= by_host url in
      let canonical =
        λ (url : Url). or_unexpected p (canonical_url_host p url.hostname) >>= by_canonical url in
      let scheme = λ (url : Url) (u : UrlPolicy).
        throw_if (not (is_scheme_allowed p url.protocol u)) scheme_not_allowed u in
      let userinfo =
        λ (url : Url). throw_if (has_userinfo p url) userinfo_not_allowed >> canonical url in
      let from_host = λ (url : Url) (host : Text).
        then-Ensures I (check_patterns p host purpose) (finish url host) Q
          (check_patterns-Safe host purpose)
          (bind-Ensures I (resolve_host p host now answers)
            (λ addresses. return (record { url = url; addresses = addresses }))
            (All (IsApproved p x)) Q (resolve_host-Safe p x host now answers)
            (λ addresses good u s. (s, good))) in
      let from_url = λ (url : Url).
        bind-Ensures I (or_unexpected p (canonical_url_host p url.hostname)) (by_canonical url)
          (λ c. canonical_url_host p url.hostname ≡ some c) Q
          (or_unexpected-Safe p x (canonical_url_host p url.hostname))
          (λ c _.
            bind-Ensures I (require_host p c) (by_host url) Anything Q (require_host-Safe c)
              (λ host _. from_host url host)) in
      then-Ensures I (throw_if (not (is_plain raw)) invalid_url)
        (parsed_url p raw >>= (λ url. scheme url >> userinfo url)) Q
        (throw_if-Ensures I (not (is_plain raw)) invalid_url)
        (bind-Ensures I (parsed_url p raw) (λ url. scheme url >> userinfo url) Anything Q
          (parsed_url-Safe raw)
          (λ url _.
            then-Ensures I (scheme url) (userinfo url) Q
              (λ u s.
                throw_if-Ensures I (not (is_scheme_allowed p url.protocol u)) scheme_not_allowed u
                  s)
              (then-Ensures I (throw_if (has_userinfo p url) userinfo_not_allowed) (canonical url) Q
                (throw_if-Ensures I (has_userinfo p url) userinfo_not_allowed) (from_url url))))

step-IsSafe :
    (p : Platform) (x : Exceptions) (e : Event) (u : UrlPolicy)
    → IsSafe p x u
    → IsSafe p x (step p e u)
unfolding step
step-IsSafe p x (resolves raw purpose now answers) u s =
    Leaves-final (IsSafe p x) (IsApprovedDestination p x)
      (resolve_allowed p raw purpose now answers u)
      (resolve_allowed-Safe p x raw purpose now answers u s)
step-IsSafe p x clears u s = record { same = s.same; size = omega arith; cached = tt }

run-IsSafe :
    (p : Platform) (x : Exceptions) (es : List Event) (u : UrlPolicy)
    → IsSafe p x u
    → IsSafe p x (run p es u)
unfolding run
run-IsSafe p x [] u s = s
run-IsSafe p x (e ∷ es) u s = run-IsSafe p x es (step p e u) (step-IsSafe p x e u s)

-- In every run of a policy that begins with an empty cache, a call that returns gives only addresses that
-- are, or are the canonical forms of, texts that the platform's `isIP` takes for IP literals, whose class
-- is public or let through by the policy's exceptions and no metadata service's; and whatever the call
-- does, the cache holds at most 500 answers, of such addresses only.
pub run-resolve_allowed-IsApproved :
    (p : Platform) (u : UrlPolicy) (es : List Event) (raw : Text) (purpose : UrlPurpose) (now : ℕ)
    (answers : Option (List Text))
    → u.safe_dns_cache ≡ []
    → Leaves
        (IsSafe p u.exceptions)
        (IsApprovedDestination p u.exceptions)
        (resolve_allowed p raw purpose now answers (run p es u))
run-resolve_allowed-IsApproved p u es raw purpose now answers new =
    let start : IsSafe p u.exceptions u = record {
      same = refl;
      size = subst (λ (m : Map Text CachedAnswer). length m ≤ max_cached) (sym new) (omega arith);
      cached =
          subst
            (All
              (λ (entry : Text × CachedAnswer). All (IsApproved p u.exceptions) entry.1.addresses))
            (sym new) tt;
    } in
    resolve_allowed-Safe p u.exceptions raw purpose now answers (run p es u)
      (run-IsSafe p u.exceptions es u start)
