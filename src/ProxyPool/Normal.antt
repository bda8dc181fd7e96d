-- ===== src/ProxyPool/Normal.antt =====
-- src/proxy/validator.ts: what every normalized configuration is like.
use mathlib.Core.Option.{get_or}
use browser_profile_studio.Prelude.{
  string_eq, nat_eq, pair_eq, length, Text, text_eq, ◌≤◌, ◌≡◌, refl, Option, none, some, [], ◌∷◌,
  ◌++◌, arith,
}
use browser_profile_studio.Prelude.Ascii.{units, decimal}
use browser_profile_studio.Prelude.Result.{Result, ok, error, bind-cases}
use browser_profile_studio.ProxyPool.Normalize.{
  ProxyType, http, https, socks4, socks5, ProxyConfig, RawProxy, NormalizedProxy, ParsedUrl,
  ProxyError, type_text, non_empty, with_scheme, protocol_type, port_of, require_host,
  require_server, config_of, normalized, parsed_url, given_or, normalize_config,
  normalize_proxy_config,
}

-- The server is made of the other parts, the port is one of TCP, and no text is empty that the code
-- tests for being so.
abbrev pub IsNormal : NormalizedProxy → Type 0
IsNormal n =
    (n.server ≡ type_text n.proxy_type ++ units "://" ++ n.host ++ units ":" ++ decimal n.port)
    × (1 ≤ n.port)
    × (n.port ≤ 65_535)
    × (1 ≤ length n.host)
    × (non_empty n.username ≡ n.username)
    × (non_empty n.bypass ≡ n.bypass)

port_of-bounds : (t : ProxyType) (port : Text) → (1 ≤ port_of t port) × (port_of t port ≤ 65_535)
unfolding port_of
port_of-bounds http port = ground arith
port_of-bounds https port = ground arith
port_of-bounds socks4 port = ground arith
port_of-bounds socks5 port = ground arith

non_empty-twice : (o : Option Text) → non_empty (non_empty o) ≡ non_empty o
non_empty-twice none = refl
non_empty-twice (some []) = refl
non_empty-twice (some (c ∷ s)) = refl

normalized-IsNormal :
    (config : ProxyConfig) (parsed : ParsedUrl) (scheme : ProxyType)
    (username password : Option Text)
    → 1 ≤ length parsed.hostname
    → IsNormal (normalized config parsed scheme username password)
unfolding normalized
normalized-IsNormal config parsed scheme username password host =
    let bounds = port_of-bounds (get_or config.proxy_type scheme) parsed.port in
    (refl, bounds.0, bounds.1, host, non_empty-twice username, non_empty-twice config.bypass)

-- What a run of the validator gives.
abbrev pub IsNormalResult : ProxyConfig → Result ProxyError NormalizedProxy → Type 0
IsNormalResult config (error e) = Unit
IsNormalResult config (ok n) = IsNormal n × (get_or config.proxy_type n.proxy_type ≡ n.proxy_type)

chosen : (o : Option ProxyType) (t : ProxyType) → get_or o (get_or o t) ≡ get_or o t
chosen none t = refl
chosen (some u) t = refl

normalized-IsNormalResult :
    (config : ProxyConfig) (parsed : ParsedUrl) (scheme : ProxyType)
    (username password : Option Text)
    → 1 ≤ length parsed.hostname
    → IsNormalResult config (ok (normalized config parsed scheme username password))
unfolding normalized
normalized-IsNormalResult config parsed scheme username password host = (
  normalized-IsNormal config parsed scheme username password host,
  chosen config.proxy_type scheme,
)

require_host-length : (host : Text) {h : Text} → require_host host ≡ ok h → 1 ≤ length host
require_host-length [] found = ground arith
require_host-length (c ∷ host) found = omega arith

module _ (parse_url : Text → Option ParsedUrl) (decode_uri_component : Text → Option Text) where
  -- What the validator gives has a port from 1 to 65535, a host that is not empty, a server that is
  -- made of type, host and port, and the type that was asked for, if one was; a user name or bypass list
  -- in it is not empty.
  pub normalize_proxy_config-IsNormal :
      (raw : RawProxy)
      → IsNormalResult (config_of raw) (normalize_proxy_config parse_url decode_uri_component raw)
  unfolding normalize_proxy_config normalize_config
  normalize_proxy_config-IsNormal raw =
      let config = config_of raw in
      let P = IsNormalResult config in
      bind-cases P (require_server config.server) _
        (λ server _.
          bind-cases P
            (parsed_url parse_url decode_uri_component (with_scheme config.proxy_type server)) _
            (λ parsed _.
              bind-cases P (protocol_type parsed.protocol) _
                (λ scheme _.
                  bind-cases P (require_host parsed.hostname) _
                    (λ host found.
                      bind-cases P
                        (given_or parse_url decode_uri_component (non_empty config.username)
                          parsed.username)
                        _
                        (λ username _.
                          bind-cases P
                            (given_or parse_url decode_uri_component config.password
                              parsed.password)
                            _
                            (λ password _.
                              normalized-IsNormalResult config parsed scheme username password
                                (require_host-length parsed.hostname found))
                            (λ e. tt))
                        (λ e. tt))
                    (λ e. tt))
                (λ e. tt))
            (λ e. tt))
        (λ e. tt)
