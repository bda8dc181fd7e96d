-- ===== src/ProxyPool/Store.antt =====
-- src/proxy/pool-store.ts: `ProxyPoolStore` without its file. The clock's reading, the random
-- identifier and the checker's answer are arguments. A check reads the record, waits for the checker
-- and writes the record, so it is two operations, and others may come between.
use mathlib.Core.Option.{get_or}
use browser_profile_studio.Prelude.{
  ltb, leb, if◌then◌else◌, string_eq, nat_eq, ◌==◌, pair_eq, length, get_elem?, take, all, any,
  select, Text, text_eq, trim, ℕ, ◌+◌, ◌-◌, ◌*◌, ◌%◌, ◌^◌, min, Bool, true, false, not, ◌&&◌,
  Option, none, some, List, [], ◌∷◌, map,
}
use browser_profile_studio.Prelude.Map.{Map, values, get, has, set, delete}
use browser_profile_studio.Prelude.Method.{returns, throws, Method, ◌>>=◌}
use browser_profile_studio.ProxyPool.Normalize.{
  ProxyType, ProxyConfig, ProxyError, not_found, non_empty,
}

-- Of `ProxyCheckResult`, what the store reads and the outcome's figures.
pub record ProxyCheckResult : Type 0 where
  pub success : Bool
  pub latency_ms : Option ℕ
  pub outbound_ip : Option Text

-- The optional fields of a record that its checks set.
pub record ProxyHealth : Type 0 where
  pub last_checked_at : Option ℕ
  pub last_check : Option ProxyCheckResult
  pub consecutive_failures : Option ℕ
  pub consecutive_successes : Option ℕ
  pub quarantine_until : Option ℕ

pub record ProxyPoolRecord : Type 0 where
  pub proxy_id : Text
  pub name : Text
  pub server : Text
  pub proxy_type : Option ProxyType
  pub username : Option Text
  pub password : Option Text
  pub bypass : Option Text
  pub tags : List Text
  pub enabled : Bool
  pub created_at : ℕ
  pub updated_at : ℕ
  pub health : ProxyHealth

pub record ProxyPoolInput : Type 0 where
  pub config : ProxyConfig
  pub name : Option Text
  pub tags : List Text
  pub enabled : Option Bool

-- `Partial<ProxyPoolInput>`. A type in it is not read.
pub record ProxyPoolUpdate : Type 0 where
  pub server : Option Text
  pub username : Option Text
  pub password : Option Text
  pub bypass : Option Text
  pub name : Option Text
  pub tags : Option (List Text)
  pub enabled : Option Bool

pub record Pool : Type 0 where
  pub records : Map Text ProxyPoolRecord
  pub cursor : ℕ

abbrev pub max_safe_integer : ℕ
max_safe_integer = 9_007_199_254_740_991

abbrev pub empty_pool : Pool
empty_pool = record { records = []; cursor = 0 }

abbrev pub no_health : ProxyHealth
no_health = record {
  last_checked_at = none;
  last_check = none;
  consecutive_failures = none;
  consecutive_successes = none;
  quarantine_until = none;
}

abbrev pub without_proxy_health : ProxyPoolRecord → ProxyPoolRecord
without_proxy_health r = record r { health = no_health }

abbrev pub is_empty : Text → Bool
is_empty [] = true
is_empty (c ∷ s) = false

unfoldable pub clean_tags : List Text → List Text
clean_tags tags = take 32 (select (λ tag. not (is_empty tag)) (map trim tags))

-- `name.trim() || fallback`
unfoldable pub name_or : Text → Text → Text
name_or name fallback = get_or (non_empty (some (trim name))) fallback

-- The cooldown after the third and each further failure in a row.
unfoldable pub cooldown : ℕ → ℕ
cooldown failures = min 86_400_000 (300_000 * 2 ^ (failures - 3))

abbrev pub is_before : ℕ → Option ℕ → Bool
is_before now none = false
is_before now (some until) = ltb now until

unfoldable pub succeeded : ℕ → ProxyCheckResult → ProxyHealth → ProxyHealth
succeeded now result h =
    let held = is_before now h.quarantine_until in
    let successes = if held then 0 else get_or h.consecutive_successes 0 + 1 in
    record {
      last_checked_at = some now;
      last_check = some result;
      consecutive_failures = some 0;
      consecutive_successes = some successes;
      quarantine_until = if leb 2 successes then none else h.quarantine_until;
    }

unfoldable pub failed : ℕ → ProxyCheckResult → ProxyHealth → ProxyHealth
unfolding cooldown
failed now result h =
    let failures = get_or h.consecutive_failures 0 + 1 in
    record {
      last_checked_at = some now;
      last_check = some result;
      consecutive_failures = some failures;
      consecutive_successes = some 0;
      quarantine_until =
          if leb 3 failures then some (now + cooldown failures) else h.quarantine_until;
    }

unfoldable pub checked_health : ℕ → ProxyCheckResult → ProxyHealth → ProxyHealth
unfolding succeeded failed
checked_health now result h = if result.success then succeeded now result h else failed now result h

unfoldable pub checked : ℕ → ProxyCheckResult → ProxyPoolRecord → ProxyPoolRecord
unfolding checked_health
checked now result r = record r { updated_at = now; health = checked_health now result r.health }

abbrev pub Call : Type 0 → Type 0
Call A = Method ProxyError Pool A

abbrev pub found : Option ProxyPoolRecord → Call ProxyPoolRecord
found none pool = throws not_found pool
found (some r) pool = returns r pool

unfoldable pub begin_check : Text → Call ProxyPoolRecord
begin_check proxy_id pool = found (get proxy_id pool.records) pool

abbrev pub store : ProxyPoolRecord → Call ProxyPoolRecord
store r pool = returns r (record pool { records = set r.proxy_id r pool.records })

unfoldable pub finish_check : ProxyPoolRecord → ProxyCheckResult → ℕ → Call ProxyPoolRecord
unfolding checked
finish_check r result now pool = store (checked now result r) pool

-- With no other call while the checker runs.
unfoldable pub check : Text → ProxyCheckResult → ℕ → Call ProxyPoolRecord
unfolding begin_check finish_check
check proxy_id result now = do r ← begin_check proxy_id; finish_check r result now

unfoldable pub delete_proxy : Text → Call Bool
delete_proxy proxy_id pool =
    returns (has proxy_id pool.records) (record pool { records = delete proxy_id pool.records })

-- Newest first; of the same time, in the order of the map.
unfoldable pub insert_newest : ProxyPoolRecord → List ProxyPoolRecord → List ProxyPoolRecord
insert_newest r [] = r ∷ []
insert_newest r (s ∷ rs) =
    let rest = insert_newest r rs in if leb s.updated_at r.updated_at then r ∷ s ∷ rs else s ∷ rest

unfoldable pub newest_first : List ProxyPoolRecord → List ProxyPoolRecord
unfolding insert_newest
newest_first [] = []
newest_first (r ∷ rs) = insert_newest r (newest_first rs)

unfoldable pub list_proxies : Pool → List ProxyPoolRecord
unfolding newest_first
list_proxies pool = newest_first (values pool.records)

unfoldable pub get_proxy : Text → Pool → Option ProxyPoolRecord
get_proxy proxy_id pool = get proxy_id pool.records

abbrev pub is_successful : Option ProxyCheckResult → Bool
is_successful none = false
is_successful (some result) = result.success

abbrev pub is_none {ℓ} : {A : Type ℓ} → Option A → Bool
is_none none = true
is_none (some a) = false

unfoldable pub is_servable : List Text → ProxyPoolRecord → Bool
is_servable tags r =
    r.enabled
    && is_successful r.health.last_check
    && is_none r.health.quarantine_until
    && all (λ tag. any (λ own. own == tag) r.tags) tags

unfoldable pub servable : List Text → Pool → List ProxyPoolRecord
unfolding list_proxies is_servable
servable tags pool = select (is_servable tags) (list_proxies pool)

-- `next` on the records that may be given.
unfoldable pub next_of : List ProxyPoolRecord → Call (Option ProxyPoolRecord)
next_of [] pool = returns none pool
next_of (r ∷ rs) pool =
    returns (get_elem? (r ∷ rs) (pool.cursor % length (r ∷ rs)))
      (record pool { cursor = (pool.cursor + 1) % max_safe_integer })

unfoldable pub next : List Text → Call (Option ProxyPoolRecord)
unfolding servable next_of
next tags pool = next_of (servable tags pool) pool
