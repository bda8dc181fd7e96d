-- ===== src/UrlPolicy/Destinations.antt =====
-- src/policy/url-policy.ts: `resolveAllowed` over any sequence of calls.
use mathlib.Core.Option.{some-injective}
use browser_profile_studio.Prelude.{
  leb, nat_beq, Bool-cases, Option-cases, string_eq, nat_eq, bool_eq, pair_eq, length, All, Text,
  text_eq, ℕ, suc, ◌+◌, ◌≤◌, ◌≡◌, refl, sym, subst, ◌≢◌, inl, inr, Option, none, some, List, [],
  ◌∷◌, arith,
}
use browser_profile_studio.Prelude.Map.{Map, get, set, delete, All-set, All-delete, All-get}
use browser_profile_studio.Prelude.Method.{returns, ◌>>◌, return}
use browser_profile_studio.Prelude.Hoare.{Anything, Leaves, bind-Ensures, then-Ensures, if-Leaves}
use browser_profile_studio.UrlPolicy.Address.{Reason, Platform, unbracket}
use browser_profile_studio.UrlPolicy.Policy.{
  CachedAnswer, Exceptions, UrlPolicy, Call, host_reason, check_address, approve_all,
}
use browser_profile_studio.UrlPolicy.Resolve.{
  max_cached, evict_oldest, store_answer, cached_answer, denied_host, refuse, resolve_answers,
  resolve_fresh, cached_or, resolve_name, resolve_literal, resolve_host,
}
use browser_profile_studio.UrlPolicy.Approved.{
  IsApproved, IsSafe, Safe, IsPermitted, check_address-Safe, approve_all-Safe,
}

length-set :
    (host : Text) (answer : CachedAnswer) (m : Map Text CachedAnswer)
    → length (set host answer m) ≤ length m + 1
unfolding set
length-set host answer [] = omega arith
length-set host answer ((k, v) ∷ m) = ground (arith, length-set host answer m)

length-delete : (host : Text) (m : Map Text CachedAnswer) → length (delete host m) ≤ length m
unfolding delete
length-delete host [] = omega arith
length-delete host ((k, v) ∷ m) = ground (arith, length-delete host m)

evict_oldest-length :
    (m : Map Text CachedAnswer) → length m ≤ max_cached → length (evict_oldest m) + 1 ≤ max_cached
unfolding evict_oldest delete
evict_oldest-length [] h = omega arith
evict_oldest-length ((k, v) ∷ m) h = ground (arith, length-delete k m, text_eq.equal_iff k k)

module _ (p : Platform) (x : Exceptions) where
  evict_oldest-AllApproved :
      (m : Map Text CachedAnswer)
      → All (λ entry. All (IsApproved p x) entry.1.addresses) m
      → All (λ entry. All (IsApproved p x) entry.1.addresses) (evict_oldest m)
  unfolding evict_oldest
  evict_oldest-AllApproved [] h = tt
  evict_oldest-AllApproved ((k, v) ∷ m) h = elim (Bool-cases (leb max_cached (suc (length m)))) [
    | inl full ↦
        rw full (All-delete (λ entry. All (IsApproved p x) entry.1.addresses) k ((k, v) ∷ m) h)
    | inr free ↦ rw free h
  ]

  store_answer-Safe :
      (host : Text) (addresses : List Text) (now : ℕ)
      → All (IsApproved p x) addresses
      → Safe p x (store_answer host addresses now) Anything
  unfolding store_answer
  store_answer-Safe host addresses now good u s =
      let answer : CachedAnswer = record { addresses = addresses; expires_at = now + 30_000 } in
      let left = evict_oldest u.safe_dns_cache in
      let stored : UrlPolicy = record u { safe_dns_cache = set host answer left } in
      if-Leaves (IsSafe p x) Anything u.has_resolver (returns tt u) (returns tt stored) (s, tt)
        (
          record {
            same = s.same;
            size =
                omega
                  (arith, length-set host answer left, evict_oldest-length u.safe_dns_cache s.size);
            cached =
                All-set (λ entry. All (IsApproved p x) entry.1.addresses) host answer left
                  (λ j same. good) (evict_oldest-AllApproved u.safe_dns_cache s.cached);
          },
          tt,
        )

  resolve_answers-Safe :
      (host : Text) (now : ℕ) (answers : List Text)
      → Safe p x (resolve_answers p host now answers) (All (IsApproved p x))
  unfolding resolve_answers
  resolve_answers-Safe host now [] u s = s
  resolve_answers-Safe host now (answer ∷ answers) u s =
      bind-Ensures (IsSafe p x) (approve_all p (answer ∷ answers))
        (λ addresses. store_answer host addresses now >> return addresses) (All (IsApproved p x))
        (All (IsApproved p x)) (approve_all-Safe p x (answer ∷ answers))
        (λ addresses good.
          then-Ensures (IsSafe p x) (store_answer host addresses now) (return addresses)
            (All (IsApproved p x)) (store_answer-Safe host addresses now good) (λ v t. (t, good)))
        u s

  resolve_fresh-Safe :
      (host : Text) (now : ℕ) (answers : Option (List Text))
      → Safe p x (resolve_fresh p host now answers) (All (IsApproved p x))
  resolve_fresh-Safe host now none u s = s
  resolve_fresh-Safe host now (some answers) u s = resolve_answers-Safe host now answers u s

  refuse-Safe : (r : Option Reason) → Safe p x (refuse r) Anything
  refuse-Safe none u s = (s, tt)
  refuse-Safe (some r) u s = s

  -- What the cache gives has been approved.
  cached_answer-Safe :
      (host : Text) (now : ℕ) (u : UrlPolicy) {addresses : List Text}
      → cached_answer host now u ≡ some addresses
      → IsSafe p x u
      → All (IsApproved p x) addresses
  unfolding cached_answer
  cached_answer-Safe host now u {addresses = addresses} found s =
      elim (Option-cases (get host u.safe_dns_cache)) [
        | inl absent ↦ absurd (ground arith)
        | inr (c, got) ↦
            let kept =
              All-get (λ entry. All (IsApproved p x) entry.1.addresses) host c u.safe_dns_cache got
                s.cached in
            subst (All (IsApproved p x)) (some-injective c.addresses addresses (ground arith))
              kept.2
      ]

  cached_or-Safe :
      (host : Text) (now : ℕ) (fresh : Call (List Text))
      → Safe p x fresh (All (IsApproved p x))
      → Safe p x (λ u. cached_or p (cached_answer host now u) fresh u) (All (IsApproved p x))
  cached_or-Safe host now fresh good u s = elim (Option-cases (cached_answer host now u)) [
    | inl absent ↦
        subst (λ o. Leaves (IsSafe p x) (All (IsApproved p x)) (cached_or p o fresh u)) (sym absent)
          (good u s)
    | inr (addresses, found) ↦
        subst (λ o. Leaves (IsSafe p x) (All (IsApproved p x)) (cached_or p o fresh u)) (sym found)
          (s, cached_answer-Safe host now u found s)
  ]

  resolve_name-Safe :
      (host : Text) (now : ℕ) (answers : Option (List Text))
      → Safe p x (resolve_name p host now answers) (All (IsApproved p x))
  unfolding resolve_name
  resolve_name-Safe host now answers =
      then-Ensures (IsSafe p x) (λ u. refuse (denied_host (host_reason host) u.exceptions) u)
        (λ u. cached_or p (cached_answer host now u) (resolve_fresh p host now answers) u)
        (All (IsApproved p x))
        (λ u s. refuse-Safe (denied_host (host_reason host) u.exceptions) u s)
        (cached_or-Safe host now (resolve_fresh p host now answers)
          (resolve_fresh-Safe host now answers))

  resolve_literal-Safe :
      (address : Text)
      → p.is_ip address ≢ 0
      → Safe p x (resolve_literal p address) (All (IsApproved p x))
  unfolding resolve_literal
  resolve_literal-Safe address literal =
      bind-Ensures (IsSafe p x) (check_address p address) (λ _. return (address ∷ []))
        (IsPermitted p x address) (All (IsApproved p x)) (check_address-Safe p x address)
        (λ c permitted u s. (
          s,
          (
            record {
              source = address;
              literal = literal;
              class = c;
              form = inl refl;
              classified = permitted.0;
              approved = permitted.1;
              not_metadata = permitted.2;
            },
            tt,
          ),
        ))

  pub resolve_host-Safe :
      (host : Text) (now : ℕ) (answers : Option (List Text))
      → Safe p x (resolve_host p host now answers) (All (IsApproved p x))
  unfolding resolve_host
  resolve_host-Safe host now answers u s =
      elim (Bool-cases (nat_beq (p.is_ip (unbracket host)) 0)) [
        | inl name ↦ rw (name, resolve_host) (resolve_name-Safe host now answers u s)
        | inr literal ↦
            rw (literal, resolve_host)
              (resolve_literal-Safe (unbracket host) (ground (arith, literal)) u s)
      ]
