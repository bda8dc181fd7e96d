-- ===== src/ProxyPool/Normalize.antt =====
-- src/proxy/types.ts, validator.ts: what a proxy's configuration becomes. The URL parser and
-- `decodeURIComponent` are parameters.
use mathlib.Core.Option.{get_or}
use browser_profile_studio.Prelude.{
  leb, if◌then◌else◌, string_eq, nat_eq, ◌==◌, pair_eq, Text, text_eq, trim, ℕ, ◌&&◌, Option, none,
  some, [], ◌∷◌, ◌++◌,
}
use browser_profile_studio.Prelude.Ascii.{units, includes, decimal, read_digits, parse_int}
use browser_profile_studio.Prelude.Result.{Result, ok, error, ◌>>=◌}

pub data ProxyType : Type 0 where
  http https socks4 socks5 : ProxyType

pub record ProxyConfig : Type 0 where
  pub server : Text
  pub proxy_type : Option ProxyType
  pub username : Option Text
  pub password : Option Text
  pub bypass : Option Text

-- An object or a URL in a text.
pub data RawProxy : Type 0 where
  object : ProxyConfig → RawProxy
  url_text : Text → RawProxy

pub record NormalizedProxy : Type 0 where
  pub server : Text
  pub proxy_type : ProxyType
  pub username : Option Text
  pub password : Option Text
  pub bypass : Option Text
  pub host : Text
  pub port : ℕ

-- What the code reads of a `URL`.
pub record ParsedUrl : Type 0 where
  pub protocol : Text
  pub username : Text
  pub password : Text
  pub hostname : Text
  pub port : Text

-- The second last is what `decodeURIComponent` throws.
pub data ProxyError : Type 0 where
  empty_server invalid_url unsupported_protocol missing_host : ProxyError
  malformed_uri not_found : ProxyError

abbrev pub type_text : ProxyType → Text
type_text http = units "http"
type_text https = units "https"
type_text socks4 = units "socks4"
type_text socks5 = units "socks5"

-- Nothing where a text is absent or empty, as in `a || b`.
abbrev pub non_empty : Option Text → Option Text
non_empty (some (c ∷ s)) = some (c ∷ s)
non_empty _ = none

-- `a || b` and `a ?? b` of optional values.
abbrev pub or_else {ℓ} : {A : Type ℓ} → Option A → Option A → Option A
or_else (some a) b = some a
or_else none b = b

unfoldable pub with_scheme : Option ProxyType → Text → Text
unfolding includes
with_scheme explicit server =
    if includes (units "://") server
    then server
    else type_text (get_or explicit http) ++ units "://" ++ server

-- The type of a supported protocol.
unfoldable pub protocol_type : Text → Result ProxyError ProxyType
protocol_type protocol =
    if protocol == units "http:"
    then ok http
    else if protocol == units "https:"
    then ok https
    else if protocol == units "socks4:"
    then ok socks4
    else if protocol == units "socks5:"
    then ok socks5
    else error unsupported_protocol

abbrev pub default_port : ProxyType → ℕ
default_port http = 8_080
default_port https = 8_080
default_port socks4 = 1_080
default_port socks5 = 1_080

unfoldable pub port_of : ProxyType → Text → ℕ
unfolding parse_int read_digits
port_of proxy_type port =
    let number = get_or (parse_int port) 0 in
    if leb 1 number && leb number 65_535 then number else default_port proxy_type

abbrev pub require_host : Text → Result ProxyError Text
require_host [] = error missing_host
require_host (c ∷ host) = ok (c ∷ host)

abbrev pub or_malformed : Option Text → Result ProxyError (Option Text)
or_malformed (some decoded) = ok (some decoded)
or_malformed none = error malformed_uri

abbrev pub require_server : Text → Result ProxyError Text
require_server [] = error empty_server
require_server (c ∷ server) = ok (c ∷ server)

abbrev pub map_option : (Text → Text) → Option Text → Option Text
map_option f none = none
map_option f (some s) = some (f s)

unfoldable pub config_of : RawProxy → ProxyConfig
config_of (object raw) = record raw {
  server = trim raw.server;
  username = map_option trim raw.username;
  bypass = map_option trim raw.bypass;
}
config_of (url_text raw) = record {
  server = trim raw;
  proxy_type = none;
  username = none;
  password = none;
  bypass = none;
}

-- The parts that were found, put together.
unfoldable pub normalized :
    ProxyConfig → ParsedUrl → ProxyType → Option Text → Option Text → NormalizedProxy
unfolding port_of decimal
normalized config parsed scheme username password =
    let chosen = get_or config.proxy_type scheme in
    let port = port_of chosen parsed.port in
    record {
      server = type_text chosen ++ units "://" ++ parsed.hostname ++ units ":" ++ decimal port;
      proxy_type = chosen;
      username = non_empty username;
      password = password;
      bypass = non_empty config.bypass;
      host = parsed.hostname;
      port = port;
    }

module _ (parse_url : Text → Option ParsedUrl) (decode_uri_component : Text → Option Text) where
  abbrev pub parsed_url : Text → Result ProxyError ParsedUrl
  parsed_url server = elim (parse_url server) [ some url ↦ ok url | none ↦ error invalid_url ]

  -- A part of the URL, or nothing where it is empty.
  abbrev pub decoded : Text → Result ProxyError (Option Text)
  decoded [] = ok none
  decoded (c ∷ part) = or_malformed (decode_uri_component (c ∷ part))

  -- What is given, or else the URL's part.
  abbrev pub given_or : Option Text → Text → Result ProxyError (Option Text)
  given_or (some given) part = ok (some given)
  given_or none part = decoded part

  unfoldable pub normalize_config : ProxyConfig → Result ProxyError NormalizedProxy
  unfolding with_scheme protocol_type normalized
  normalize_config config = do
    server ← require_server config.server
    parsed ← parsed_url (with_scheme config.proxy_type server)
    scheme ← protocol_type parsed.protocol
    host ← require_host parsed.hostname
    username ← given_or (non_empty config.username) parsed.username
    password ← given_or config.password parsed.password
    ok (normalized config parsed scheme username password)

  unfoldable pub normalize_proxy_config : RawProxy → Result ProxyError NormalizedProxy
  unfolding normalize_config config_of
  normalize_proxy_config raw = normalize_config (config_of raw)
