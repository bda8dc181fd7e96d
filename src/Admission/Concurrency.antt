-- ===== src/Admission/Concurrency.antt =====
-- The concurrency limits hold of the permits, whatever is acquired and released.
use browser_profile_studio.Prelude.{
  ltb, leb, Bool-cases, Option-cases, nat_eq, string_eq, pair_eq, beq_refl, length, Text, text_eq,
  ℕ, ◌≡◌, refl, subst, inl, inr, false, not, ◌&&◌, Option, none, some, List, [], ◌∷◌, arith,
}
use browser_profile_studio.Prelude.Map.{
  Map, get, has, Distinct, get-delete, set-Distinct, delete-Distinct,
}
use browser_profile_studio.Admission.{
  Limits, Request, Controller, empty, create, validate_request, account_key, count_of, make_room,
  concurrency_denial, admit, acquire_with, acquire_bucketed, acquire, forget, release,
}
use browser_profile_studio.Admission.Counters.{
  tally, Tracks, Tracks-increment, Tracks-decrement, Within, Within-set, Within-delete,
}

abbrev pub tenant_key : Request → Text
tenant_key r = r.tenant_id

abbrev pub domain_of : Request → Text
domain_of r = r.domain_key

abbrev pub proxy_of : Request → Text
proxy_of r = r.proxy_id

-- Each dimension's counters are the numbers of its permits, and these keep its limit.
pub record Balanced (l : Limits) (ts : Map Text ℕ) (xs : Map (Text × Text) ℕ) (ds vs : Map Text ℕ)
    (ps : Map Text Request) : Type 0 where
  pub distinct : Distinct ps
  pub tenants : Tracks tenant_key ts ps
  pub accounts : Tracks account_key xs ps
  pub domains : Tracks domain_of ds ps
  pub proxies : Tracks proxy_of vs ps
  pub tenants_within : Within tenant_key l.tenant ps
  pub accounts_within : Within account_key l.account ps
  pub domains_within : Within domain_of l.domain ps
  pub proxies_within : Within proxy_of l.proxy ps

abbrev pub IsBalanced : Limits → Controller → Type 0
IsBalanced l s =
    Balanced l s.active_tenants s.active_accounts s.active_domains s.active_proxies s.active_permits

admit-IsBalanced :
    (l : Limits) (r : Request) (tokens now : ℕ) (token : Text) (s : Controller)
    → has token s.active_permits ≡ false
    → concurrency_denial l r s ≡ none
    → IsBalanced l s
    → IsBalanced l (admit r tokens now token s)
unfolding concurrency_denial
admit-IsBalanced l r tokens now token s h free b = record {
  distinct = set-Distinct token r s.active_permits b.distinct;
  tenants = Tracks-increment tenant_key token r s.active_tenants s.active_permits h b.tenants;
  accounts = Tracks-increment account_key token r s.active_accounts s.active_permits h b.accounts;
  domains = Tracks-increment domain_of token r s.active_domains s.active_permits h b.domains;
  proxies = Tracks-increment proxy_of token r s.active_proxies s.active_permits h b.proxies;
  tenants_within =
      Within-set tenant_key l.tenant token r s.active_tenants s.active_permits h b.tenants
        (ground arith) b.tenants_within;
  accounts_within =
      Within-set account_key l.account token r s.active_accounts s.active_permits h b.accounts
        (ground arith) b.accounts_within;
  domains_within =
      Within-set domain_of l.domain token r s.active_domains s.active_permits h b.domains
        (ground arith) b.domains_within;
  proxies_within =
      Within-set proxy_of l.proxy token r s.active_proxies s.active_permits h b.proxies
        (ground arith) b.proxies_within;
}

acquire_with-IsBalanced :
    (l : Limits) (r : Request) (tokens now : ℕ) (token : Text) (s : Controller)
    → has token s.active_permits ≡ false
    → IsBalanced l s
    → IsBalanced l (acquire_with l r tokens now token s).1
unfolding acquire_with
acquire_with-IsBalanced l r tokens now token s h b = elim (Bool-cases (ltb tokens 1_000)) [
  | inl y ↦ rw (y, acquire_with) b
  | inr n ↦ elim (Option-cases (concurrency_denial l r s)) [
    | inl e ↦ rw (n, e, acquire_with) (admit-IsBalanced l r tokens now token s h e b)
    | inr (reason, e) ↦ rw (n, e, acquire_with) b
  ]
]

acquire-IsBalanced :
    (l : Limits) (r : Request) (clock : Option ℕ) (token : Text) (s : Controller)
    → has token s.active_permits ≡ false
    → IsBalanced l s
    → IsBalanced l (acquire l r clock token s).1
unfolding acquire acquire_bucketed
acquire-IsBalanced l r none token s h b = b
acquire-IsBalanced l r (some now) token s h b =
    let m = make_room l r.tenant_id s in
    elim (Bool-cases (not (validate_request r))) [
      | inl y ↦ rw (y, acquire) b
      | inr n ↦ elim (Bool-cases (not (has r.tenant_id m) && leb l.max_buckets (length m))) [
        | inl y ↦ rw (n, y, acquire) b
        | inr k ↦ rw (n, k, acquire) (acquire_with-IsBalanced l r _ now token _ h b)
      ]
    ]

forget-IsBalanced :
    (l : Limits) (r : Request) (token : Text) (s : Controller)
    → get token s.active_permits ≡ some r
    → IsBalanced l s
    → IsBalanced l (forget r token s)
forget-IsBalanced l r token s h b = record {
  distinct = delete-Distinct token s.active_permits b.distinct;
  tenants =
      Tracks-decrement tenant_key token r s.active_tenants s.active_permits b.distinct h b.tenants;
  accounts =
      Tracks-decrement account_key token r s.active_accounts s.active_permits b.distinct h
        b.accounts;
  domains =
      Tracks-decrement domain_of token r s.active_domains s.active_permits b.distinct h b.domains;
  proxies =
      Tracks-decrement proxy_of token r s.active_proxies s.active_permits b.distinct h b.proxies;
  tenants_within =
      Within-delete tenant_key l.tenant token r s.active_permits b.distinct h b.tenants_within;
  accounts_within =
      Within-delete account_key l.account token r s.active_permits b.distinct h b.accounts_within;
  domains_within =
      Within-delete domain_of l.domain token r s.active_permits b.distinct h b.domains_within;
  proxies_within =
      Within-delete proxy_of l.proxy token r s.active_permits b.distinct h b.proxies_within;
}

release-IsBalanced :
    (l : Limits) (token : Text) (s : Controller) → IsBalanced l s → IsBalanced l (release token s)
unfolding release
release-IsBalanced l token s b = elim (Option-cases (get token s.active_permits)) [
  | inl e ↦ rw (e, release) b
  | inr (r, e) ↦ rw (e, release) (forget-IsBalanced l r token s e b)
]

pub data Event : Type 0 where
  acquires : Request → Option ℕ → Text → Event
  releases : Text → Event

unfoldable pub step : Limits → Event → Controller → Controller
step l (acquires r clock token) s = (acquire l r clock token s).1
step l (releases token) s = release token s

unfoldable pub run : Limits → List Event → Controller → Controller
run l [] s = s
run l (e ∷ es) s = run l es (step l e s)

-- `randomUUID` gives no token that a live permit has.
abbrev pub IsFresh : Event → Controller → Type 0
IsFresh (acquires r clock token) s = has token s.active_permits ≡ false
IsFresh (releases token) s = Unit

abbrev pub AllFresh : Limits → List Event → Controller → Type 0
AllFresh l [] s = Unit
AllFresh l (e ∷ es) s = IsFresh e s × AllFresh l es (step l e s)

run-IsBalanced :
    (l : Limits) (es : List Event) (s : Controller)
    → AllFresh l es s
    → IsBalanced l s
    → IsBalanced l (run l es s)
unfolding run step
run-IsBalanced l [] s f b = b
run-IsBalanced l (acquires r clock token ∷ es) s f b =
    run-IsBalanced l es (acquire l r clock token s).1 f.1
      (acquire-IsBalanced l r clock token s f.0 b)
run-IsBalanced l (releases token ∷ es) s f b =
    run-IsBalanced l es (release token s) f.1 (release-IsBalanced l token s b)

empty-IsBalanced : (l : Limits) → IsBalanced l empty
unfolding tally count_of get
empty-IsBalanced l = record {
  distinct = tt;
  tenants = λ k. refl;
  accounts = λ k. refl;
  domains = λ k. refl;
  proxies = λ k. refl;
  tenants_within = λ k. omega arith;
  accounts_within = λ k. omega arith;
  domains_within = λ k. omega arith;
  proxies_within = λ k. omega arith;
}

create-eq-empty : (l : Limits) (s : Controller) → create l ≡ some s → empty ≡ s
unfolding create
create-eq-empty l s e = ground arith

-- After any acquisitions and releases from the constructor on, with tokens that no live permit has,
-- every counter is the number of live permits of its tenant, account, domain or proxy, and none of
-- these numbers is above its limit.
pub run-create-IsBalanced :
    (l : Limits) (s : Controller) (es : List Event)
    → create l ≡ some s
    → AllFresh l es s
    → IsBalanced l (run l es s)
run-create-IsBalanced l s es e f =
    run-IsBalanced l es s f (subst (IsBalanced l) (create-eq-empty l s e) (empty-IsBalanced l))

release_absent :
    (token : Text) (s : Controller) → get token s.active_permits ≡ none → release token s ≡ s
unfolding release
release_absent token s e = rw (e, release)

get-release : (token : Text) (s : Controller) → get token (release token s).active_permits ≡ none
unfolding release
get-release token s = elim (Option-cases (get token s.active_permits)) [
  | inl e ↦ rw (e, release) e
  | inr (r, e) ↦ rw (e, release) (rw (get-delete token token s.active_permits, beq_refl token) refl)
]

-- Releasing a permit a second time changes nothing, whatever the token.
pub release_idempotent :
    (token : Text) (s : Controller) → release token (release token s) ≡ release token s
release_idempotent token s = release_absent token (release token s) (get-release token s)
