-- ===== src/Admission.antt =====
-- src/operations/account-admission.ts: who may start work, by concurrency and by rate.
--
-- Tokens are counted in thousandths, which is exact where `ratePerSecond` and `burst` are whole and
-- times are whole milliseconds: a millisecond then refills `ratePerSecond` thousandths. The clock's
-- reading and the permit's random token are arguments. A `Map` is an association list in the order
-- of insertion, and the key `JSON.stringify([tenant, account])` is the pair.
mod Tests
pub mod Counters
pub mod Concurrency
pub mod Rate
use mathlib.Core.Option.{get_or}
use browser_profile_studio.Prelude.{
  ltb, leb, if◌then◌else◌, Eq, nat_eq, string_eq, pair_eq, length, Text, text_eq, trim, ℕ, ◌+◌, ◌-◌,
  ◌*◌, ◌/◌, min, Bool, not, ◌&&◌, Option, none, some, [], ◌∷◌,
}
use browser_profile_studio.Prelude.Map.{Map, get, has, set, delete}

pub record Limits : Type 0 where
  pub tenant : ℕ
  pub account : ℕ
  pub domain : ℕ
  pub proxy : ℕ
  pub burst : ℕ
  pub rate_per_second : ℕ
  pub max_buckets : ℕ

pub record Request : Type 0 where
  pub tenant_id : Text
  pub account_id : Text
  pub domain_key : Text
  pub proxy_id : Text

pub data Reason : Type 0 where
  rate_limit_exceeded concurrency_limit_tenant concurrency_limit_account : Reason
  concurrency_limit_domain concurrency_limit_proxy bucket_capacity_exhausted : Reason

pub data Admission : Type 0 where
  allowed : Text → Admission
  denied : Reason → ℕ → Admission
  -- The request or the clock is invalid, and the call throws.
  thrown : Admission

-- `tokens` in thousandths.
pub record Bucket : Type 0 where
  pub tokens : ℕ
  pub last_refill : ℕ

pub record Controller : Type 0 where
  pub active_tenants : Map Text ℕ
  pub active_accounts : Map (Text × Text) ℕ
  pub active_domains : Map Text ℕ
  pub active_proxies : Map Text ℕ
  pub tenant_buckets : Map Text Bucket
  pub active_permits : Map Text Request

abbrev pub empty : Controller
empty = record {
  active_tenants = [];
  active_accounts = [];
  active_domains = [];
  active_proxies = [];
  tenant_buckets = [];
  active_permits = [];
}

-- The constructor: it throws, or makes the empty controller.
unfoldable pub create : Limits → Option Controller
create limits =
    if leb 1 limits.tenant
      && leb 1 limits.account
      && leb 1 limits.domain
      && leb 1 limits.proxy
      && leb 1 limits.burst
      && leb 1 limits.rate_per_second
      && leb 1 limits.max_buckets
      && leb limits.max_buckets 1_000_000
    then some empty
    else none

unfoldable pub is_valid_dimension : Text → Bool
unfolding trim
is_valid_dimension value = ltb 0 (length (trim value)) && leb (length value) 256

unfoldable pub validate_request : Request → Bool
unfolding is_valid_dimension
validate_request r =
    is_valid_dimension r.tenant_id
    && is_valid_dimension r.account_id
    && is_valid_dimension r.domain_key
    && is_valid_dimension r.proxy_id

abbrev pub account_key : Request → Text × Text
account_key r = (r.tenant_id, r.account_id)

-- `map.get(key) ?? 0`
unfoldable pub count_of {ℓ} : {K : Type ℓ} ⦃e : Eq K⦄ → K → Map K ℕ → ℕ
count_of k m = get_or (get k m) 0

unfoldable pub increment {ℓ} : {K : Type ℓ} ⦃e : Eq K⦄ → K → Map K ℕ → Map K ℕ
increment k m = set k (count_of k m + 1) m

unfoldable pub decrement {ℓ} : {K : Type ℓ} ⦃e : Eq K⦄ → K → Map K ℕ → Map K ℕ
decrement k m = if leb (count_of k m) 1 then delete k m else set k (count_of k m - 1) m

-- The first tenant, in order of insertion, that has no active work.
unfoldable pub first_idle : Map Text ℕ → Map Text Bucket → Option Text
first_idle active [] = none
first_idle active ((tenant, b) ∷ m) = if has tenant active then first_idle active m else some tenant

unfoldable pub evict : Map Text ℕ → Map Text Bucket → Map Text Bucket
unfolding first_idle
evict active m = elim (first_idle active m) [ none ↦ m | some tenant ↦ delete tenant m ]

-- The buckets after making room for a tenant without one.
unfoldable pub make_room : Limits → Text → Controller → Map Text Bucket
unfolding evict
make_room limits tenant s =
    if not (has tenant s.tenant_buckets) && leb limits.max_buckets (length s.tenant_buckets)
    then evict s.active_tenants s.tenant_buckets
    else s.tenant_buckets

-- A bucket refilled up to `now`.
unfoldable pub refill : Limits → ℕ → Bucket → ℕ
refill limits now b =
    min (1_000 * limits.burst) (b.tokens + (now - b.last_refill) * limits.rate_per_second)

abbrev pub full : Limits → ℕ → Bucket
full limits now = record { tokens = 1_000 * limits.burst; last_refill = now }

abbrev pub ceil_div : ℕ → ℕ → ℕ
ceil_div a b = (a + b - 1) / b

-- The tests of the four counters, in their order.
unfoldable pub concurrency_denial : Limits → Request → Controller → Option Reason
concurrency_denial limits r s =
    if leb limits.tenant (count_of r.tenant_id s.active_tenants)
    then some concurrency_limit_tenant
    else if leb limits.account (count_of (account_key r) s.active_accounts)
    then some concurrency_limit_account
    else if leb limits.domain (count_of r.domain_key s.active_domains)
    then some concurrency_limit_domain
    else if leb limits.proxy (count_of r.proxy_id s.active_proxies)
    then some concurrency_limit_proxy
    else none

abbrev pub admit : Request → ℕ → ℕ → Text → Controller → Controller
admit r tokens now token s = record {
  active_tenants = increment r.tenant_id s.active_tenants;
  active_accounts = increment (account_key r) s.active_accounts;
  active_domains = increment r.domain_key s.active_domains;
  active_proxies = increment r.proxy_id s.active_proxies;
  tenant_buckets =
      set r.tenant_id (record { tokens = tokens - 1_000; last_refill = now }) s.tenant_buckets;
  active_permits = set token r s.active_permits;
}

-- `acquire` once the tenant's bucket is refilled and stored.
unfoldable pub acquire_with : Limits → Request → ℕ → ℕ → Text → Controller → Admission × Controller
acquire_with limits r tokens now token s =
    if ltb tokens 1_000
    then (denied rate_limit_exceeded (ceil_div (1_000 - tokens) limits.rate_per_second), s)
    else elim (concurrency_denial limits r s) [
      | some reason ↦ (denied reason 1_000, s)
      | none ↦ (allowed token, admit r tokens now token s)
    ]

unfoldable pub bucket_tokens : Limits → Text → ℕ → Map Text Bucket → ℕ
bucket_tokens limits tenant now m = refill limits now (get_or (get tenant m) (full limits now))

unfoldable pub acquire_bucketed :
    Limits → Request → ℕ → Text → Map Text Bucket → Controller → Admission × Controller
acquire_bucketed limits r now token m s =
    let tokens = bucket_tokens limits r.tenant_id now m in
    acquire_with limits r tokens now token (record s {
      tenant_buckets = set r.tenant_id (record { tokens = tokens; last_refill = now }) m;
    })

-- `clock` is `none` where the clock's value is not a time.
unfoldable pub acquire : Limits → Request → Option ℕ → Text → Controller → Admission × Controller
acquire limits r none token s = (thrown, s)
acquire limits r (some now) token s =
    let m = make_room limits r.tenant_id s in
    if not (validate_request r)
    then (thrown, s)
    else if not (has r.tenant_id m) && leb limits.max_buckets (length m)
    then (denied bucket_capacity_exhausted 1_000, record s { tenant_buckets = m })
    else acquire_bucketed limits r now token m s

abbrev pub forget : Request → Text → Controller → Controller
forget r token s = record s {
  active_permits = delete token s.active_permits;
  active_tenants = decrement r.tenant_id s.active_tenants;
  active_accounts = decrement (account_key r) s.active_accounts;
  active_domains = decrement r.domain_key s.active_domains;
  active_proxies = decrement r.proxy_id s.active_proxies;
}

unfoldable pub release : Text → Controller → Controller
release token s = elim (get token s.active_permits) [ none ↦ s | some r ↦ forget r token s ]
