-- ===== src/ProxyPool/Edit.antt =====
-- src/proxy/pool-store.ts: `create` and `update`.
use mathlib.Core.Option.{get_or}
use browser_profile_studio.Prelude.{
  if◌then◌else◌, string_eq, nat_eq, ◌==◌, pair_eq, option_beq, Text, text_eq, ℕ, Bool, true, not,
  ◌||◌, Option, none, some, [],
}
use browser_profile_studio.Prelude.Map.{get}
use browser_profile_studio.Prelude.Method.{returns, throws, ◌>>=◌}
use browser_profile_studio.Prelude.Result.{Result, ok, error}
use browser_profile_studio.ProxyPool.Normalize.{
  ProxyConfig, object, NormalizedProxy, ParsedUrl, ProxyError, non_empty, or_else, normalized,
  normalize_proxy_config,
}
use browser_profile_studio.ProxyPool.Store.{
  ProxyPoolRecord, ProxyPoolInput, ProxyPoolUpdate, no_health, clean_tags, name_or, Call, found,
  store,
}

-- `candidate.username !== existing.username`, and so on.
unfoldable pub connection_changed : NormalizedProxy → ProxyPoolRecord → Bool
connection_changed candidate r =
    not (candidate.server == r.server)
    || not (option_beq candidate.username r.username)
    || not (option_beq candidate.password r.password)
    || not (option_beq candidate.bypass r.bypass)

-- What `update` has normalized.
unfoldable pub update_config : ProxyPoolUpdate → ProxyPoolRecord → ProxyConfig
update_config input r = record {
  server = get_or input.server r.server;
  proxy_type = none;
  username = non_empty (or_else input.username r.username);
  password = non_empty (or_else input.password r.password);
  bypass = non_empty (or_else input.bypass r.bypass);
}

abbrev pub renamed : Option Text → Text → Text
renamed none name = name
renamed (some wanted) name = name_or wanted name

unfoldable pub updated : ProxyPoolUpdate → NormalizedProxy → ℕ → ProxyPoolRecord → ProxyPoolRecord
unfolding connection_changed name_or clean_tags
updated input candidate now r = record {
  proxy_id = r.proxy_id;
  name = renamed input.name r.name;
  server = candidate.server;
  proxy_type = some candidate.proxy_type;
  username = or_else candidate.username r.username;
  password = or_else candidate.password r.password;
  bypass = or_else candidate.bypass r.bypass;
  tags = elim input.tags [ none ↦ r.tags | some tags ↦ clean_tags tags ];
  enabled = get_or input.enabled r.enabled;
  created_at = r.created_at;
  updated_at = now;
  health = if connection_changed candidate r then no_health else r.health;
}

unfoldable pub created : Text → ℕ → ProxyPoolInput → NormalizedProxy → ProxyPoolRecord
unfolding name_or clean_tags
created proxy_id now input normalized = record {
  proxy_id = proxy_id;
  name = name_or (get_or input.name []) proxy_id;
  server = normalized.server;
  proxy_type = some normalized.proxy_type;
  username = normalized.username;
  password = normalized.password;
  bypass = normalized.bypass;
  tags = clean_tags input.tags;
  enabled = get_or input.enabled true;
  created_at = now;
  updated_at = now;
  health = no_health;
}

-- An error of the validator is thrown on.
abbrev pub lift : {A : Type 0} → Result ProxyError A → Call A
lift (ok a) pool = returns a pool
lift (error e) pool = throws e pool

module _ (parse_url : Text → Option ParsedUrl) (decode_uri_component : Text → Option Text) where
  unfoldable pub create : Text → ℕ → ProxyPoolInput → Call ProxyPoolRecord
  unfolding created normalize_proxy_config
  create proxy_id now input = do
    normalized ← lift (normalize_proxy_config parse_url decode_uri_component (object input.config))
    store (created proxy_id now input normalized)

  unfoldable pub update : Text → ProxyPoolUpdate → ℕ → Call ProxyPoolRecord
  unfolding updated update_config normalize_proxy_config
  update proxy_id input now = do
    r ← λ pool. found (get proxy_id pool.records) pool
    candidate ←
        lift
          (normalize_proxy_config parse_url decode_uri_component (object (update_config input r)))
    store (updated input candidate now r)
