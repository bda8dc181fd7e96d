-- ===== src/ProxyPool/Tests.antt =====
-- Runs and instances of the theorems about proxies.
use browser_profile_studio.Prelude.{
  if◌then◌else◌, string_eq, nat_eq, bool_eq, ◌==◌, pair_eq, length, Text, text_eq, is_space,
  trim_start, trim, ℕ, ◌+◌, ◌≤◌, ◌<◌, ◌≡◌, refl, inl, Bool, true, false, Option, none, some, List,
  [], ◌∷◌, arith,
}
use browser_profile_studio.Prelude.Ascii.{
  units, starts_with, includes, decimal_from, decimal, parse_int,
}
use browser_profile_studio.Prelude.Map.{get}
use browser_profile_studio.Prelude.Result.{ok}
use browser_profile_studio.ProxyPool.Normalize.{
  socks5, ProxyConfig, url_text, ParsedUrl, with_scheme, protocol_type, port_of, config_of,
  normalized, normalize_config, normalize_proxy_config,
}
use browser_profile_studio.ProxyPool.Normal.{IsNormalResult, normalize_proxy_config-IsNormal}
use browser_profile_studio.ProxyPool.Store.{
  ProxyCheckResult, ProxyHealth, ProxyPoolRecord, ProxyPoolUpdate, Pool, empty_pool, no_health,
  checked, insert_newest, newest_first, list_proxies, is_successful, is_servable, servable, next,
}
use browser_profile_studio.ProxyPool.Edit.{update}
use browser_profile_studio.ProxyPool.Rotation.{
  after_nexts, answer, IsServed, next-IsServed, next_serves_each,
}
use browser_profile_studio.ProxyPool.Run.{
  Event, creates, deletes, begins, finishes, System, IsSoundSystem, step, run, run-IsSound,
}
use browser_profile_studio.ProxyPool.Recovery.{
  health_after, three_failures-quarantine, success-restarts_cooldown, two_successes-recover,
}
use browser_profile_studio.ProxyPool.Races.{
  KeepsCredentials, finish-overwrites, update-KeepsCredentials,
}

-- A parser that knows one address, and no escapes.
abbrev known_url : ParsedUrl
known_url = record {
  protocol = units "socks5:";
  username = units "ann";
  password = [];
  hostname = units "10.1.2.3";
  port = [];
}

abbrev parse_known : Text → Option ParsedUrl
parse_known s = if s == units "socks5://ann@10.1.2.3" then some known_url else none

abbrev no_escapes : Text → Option Text
no_escapes s = some s

abbrev plain : Text → ProxyConfig
plain server = record {
  server = server;
  proxy_type = none;
  username = none;
  password = none;
  bypass = none;
}

normalized_known :
    normalize_proxy_config parse_known no_escapes (url_text (units " socks5://ann@10.1.2.3"))
    ≡ ok (record {
      server = units "socks5://10.1.2.3:1080";
      proxy_type = socks5;
      username = some (units "ann");
      password = none;
      bypass = none;
      host = units "10.1.2.3";
      port = 1_080;
    })
unfolding normalize_proxy_config normalize_config config_of with_scheme protocol_type normalized
    port_of parse_int decimal decimal_from includes starts_with trim trim_start is_space
normalized_known = refl

normalize_proxy_config-IsNormal_example :
    IsNormalResult
      (config_of (url_text (units "socks5://ann@10.1.2.3")))
      (normalize_proxy_config parse_known no_escapes (url_text (units "socks5://ann@10.1.2.3")))
normalize_proxy_config-IsNormal_example =
    normalize_proxy_config-IsNormal parse_known no_escapes
      (url_text (units "socks5://ann@10.1.2.3"))

abbrev passing : ProxyCheckResult
passing = record { success = true; latency_ms = some 20; outbound_ip = none }

abbrev failing : ProxyCheckResult
failing = record { success = false; latency_ms = none; outbound_ip = none }

abbrev well : ProxyHealth
well = record {
  last_checked_at = some 5;
  last_check = some passing;
  consecutive_failures = some 0;
  consecutive_successes = some 1;
  quarantine_until = none;
}

abbrev proxy : ℕ → Bool → ProxyHealth → ProxyPoolRecord
proxy n enabled health = record {
  proxy_id = n ∷ [];
  name = n ∷ [];
  server = units "socks5://10.1.2.3:1080";
  proxy_type = some socks5;
  username = some (units "ann");
  password = none;
  bypass = none;
  tags = units "eu" ∷ [];
  enabled = enabled;
  created_at = 1;
  updated_at = n;
  health = health;
}

abbrev entry : ProxyPoolRecord → Text × ProxyPoolRecord
entry r = (r.proxy_id, r)

abbrev three_proxies : Pool
three_proxies = record {
  records =
      entry (proxy 1 true well) ∷ entry (proxy 2 true no_health) ∷ entry (proxy 3 true well) ∷ [];
  cursor = 7;
}

abbrev europe : List Text
europe = units "eu" ∷ []

next-IsServed_example : IsServed europe three_proxies (answer (next europe three_proxies))
next-IsServed_example = next-IsServed europe three_proxies

-- The first and the third proxy may be given, the newer one first.
served : servable europe three_proxies ≡ proxy 3 true well ∷ proxy 1 true well ∷ []
unfolding servable is_servable list_proxies newest_first insert_newest
served = refl

next_serves_each_example :
    (k : ℕ) × (k < length (servable europe three_proxies))
    × (answer (next europe (after_nexts k europe three_proxies)) ≡ some (proxy 1 true well))
unfolding servable is_servable list_proxies newest_first insert_newest
next_serves_each_example =
    next_serves_each europe three_proxies (proxy 1 true well) (inl refl) refl (omega arith)

abbrev begun_nothing : System
begun_nothing = record { pool = empty_pool; begun = [] }

abbrev events : List Event
events =
    creates (units "p") 1 (record {
      config = plain (units "socks5://ann@10.1.2.3");
      name = none;
      tags = europe;
      enabled = none;
    })
    ∷ begins (units "p")
    ∷ finishes 0 failing 9
    ∷ []

run-IsSound_example : IsSoundSystem (run parse_known no_escapes events begun_nothing)
run-IsSound_example = run-IsSound parse_known no_escapes events begun_nothing (tt, tt)

three_failures-quarantine_example :
    (until : ℕ) × ((health_after
        ((10, failing) ∷ (20, failing) ∷ (30, failing) ∷ [])
        well).quarantine_until
      ≡ some until)
    × (30 + 300_000 ≤ until)
    × (until ≤ 30 + 86_400_000)
three_failures-quarantine_example =
    three_failures-quarantine well (10, failing) (20, failing) (30, failing) refl refl refl

-- In quarantine for a day.
abbrev ill : ProxyHealth
ill = record {
  last_checked_at = some 100;
  last_check = some failing;
  consecutive_failures = some 12;
  consecutive_successes = some 0;
  quarantine_until = some 86_400_100;
}

success-restarts_cooldown_example :
    (health_after
      ((200, passing) ∷ (300, failing) ∷ (400, failing) ∷ (500, failing) ∷ [])
      ill).quarantine_until
    ≡ some (500 + 300_000)
success-restarts_cooldown_example =
    success-restarts_cooldown ill (200, passing) (300, failing) (400, failing) (500, failing) refl
      refl refl refl

two_successes-recover_example :
    ((health_after ((86_400_100, passing) ∷ (86_400_200, passing) ∷ []) ill).quarantine_until
      ≡ none)
    × (is_successful
          (health_after ((86_400_100, passing) ∷ (86_400_200, passing) ∷ []) ill).last_check
        ≡ true)
two_successes-recover_example =
    two_successes-recover ill (86_400_100, passing) (86_400_200, passing) (refl, refl) (refl, refl)

abbrev one_proxy : System
one_proxy = record { pool = three_proxies; begun = [] }

-- The proxy is deleted while its check waits, and is there again.
finish-overwrites_example :
    get
      (1 ∷ [])
      (step parse_known no_escapes (finishes 0 passing 50) (
        run parse_known no_escapes
          (begins (1 ∷ []) ∷ deletes (1 ∷ []) ∷ [])
          one_proxy)).pool.records
    ≡ some (checked 50 passing (proxy 1 true well))
unfolding get
finish-overwrites_example =
    finish-overwrites parse_known no_escapes (1 ∷ []) (deletes (1 ∷ []) ∷ []) one_proxy
      (proxy 1 true well) passing 50 refl

abbrev without_username : ProxyPoolUpdate
without_username = record {
  server = some (units "socks5://ann@10.1.2.3");
  username = some [];
  password = none;
  bypass = none;
  name = none;
  tags = none;
  enabled = none;
}

update-KeepsCredentials_example :
    KeepsCredentials
      (proxy 1 true well)
      (update parse_known no_escapes (1 ∷ []) without_username 60 three_proxies)
unfolding get
update-KeepsCredentials_example =
    update-KeepsCredentials parse_known no_escapes (1 ∷ []) without_username 60 three_proxies
      (proxy 1 true well) refl
